-- ===== src/Tests/Setting.antt =====
-- A msgpack of one byte for each object, and a network that takes everything.
use eshetcpp.Base.{ℕ, refl, [], ◌∷◌, Option, none, some, length, true}
use eshetcpp.Base.Bytes.{Bytes}
use eshetcpp.Base.Text.{codes}
use eshetcpp.Base.SortedMap.{nat_key, bytes_key}
use eshetcpp.Msgpack.{Msgpack, RoundTrips, MoveKeeps}
use eshetcpp.Stringize.Render.{Tree, Items, callbacks}
use eshetcpp.Client.State.{Network}

-- A packed object is one byte, its number.
abbrev pub unpack_one : Bytes → Option ℕ
unpack_one [] = none
unpack_one (b ∷ rest) = some b

abbrev pub pair : ℕ → Tree
pair o = Tree.array (Items.item Tree.nil (Items.item (Tree.positive_integer o) Items.no_items))

instance abbrev pub one_byte : Msgpack ℕ
one_byte = record {
  pack = λ o. o ∷ [];
  unpack = unpack_one;
  of_string = length;
  parse = λ o. callbacks (pair o);
  moved = λ o. o;
  clone = λ o. o;
}

abbrev pub one_byte_trips : RoundTrips one_byte
one_byte_trips = record { unpack-pack = λ o. refl; pack_starts = λ o. (o, [], refl) }

abbrev pub one_byte_moves : MoveKeeps one_byte
one_byte_moves = record { moved_self = λ o. refl }

instance abbrev pub takes_all : Network
takes_all = record {
  connects = λ host port n. some 3;
  connect_error = λ n. codes "refused";
  accepts = λ n size. some size;
  closes_well = λ n. true;
}

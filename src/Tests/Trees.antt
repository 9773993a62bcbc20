-- ===== src/Tests/Trees.antt =====
-- The text of a JSON document, with objects that are trees, on which the visitor makes the callbacks of
-- the tree.
use eshetcpp.Base.{
  suc, ◌≡◌, refl, ap, true, List, [], ◌∷◌, ◌++◌, length, Option, none, some, ok, arith,
}
use eshetcpp.Base.Bytes.{Bytes}
use eshetcpp.Base.Int.{negsuc}
use eshetcpp.Base.Text.{codes}
use eshetcpp.Msgpack.{Msgpack, Objects, Builds, parse_items, parse_entries}
use eshetcpp.Log.{c_str}
use eshetcpp.Data.Values.{what, copy_error, ErrorText}
use eshetcpp.Data.Values.Laws.{what-render}
use eshetcpp.Stringize.{append_msgpack}
use eshetcpp.Stringize.Render.{
  Tree, Items, Entries, callbacks, item_callbacks, entry_callbacks, count, count_entries, render,
  IsSmall,
}
use eshetcpp.Tools.Json.{Json, Elements, Members, json_to_msgpack}
use eshetcpp.Tools.Json.Build.{representable, build}
use eshetcpp.Tools.Json.Text.{tree, integer, json_to_msgpack-text}

-- Objects that are trees.
abbrev items_of : List Tree → Items
items_of [] = Items.no_items
items_of (o ∷ os) = Items.item o (items_of os)

abbrev entries_of : List (Tree × Tree) → Entries
entries_of [] = Entries.no_entries
entries_of ((k, v) ∷ es) = Entries.entry k v (entries_of es)

abbrev unpack_nil : Bytes → Option Tree
unpack_nil bs = some Tree.nil

instance abbrev tree_msgpack : Msgpack Tree
tree_msgpack = record {
  pack = λ o. 0xc0 ∷ [];
  unpack = unpack_nil;
  of_string = Tree.str;
  parse = callbacks;
  moved = λ o. o;
  clone = λ o. o;
}

instance abbrev trees : Objects Tree
trees = record {
  nil = Tree.nil;
  of_bool = Tree.boolean;
  of_double = Tree.float64;
  of_int64 = integer;
  of_str = Tree.str;
  of_array = λ os. Tree.array (items_of os);
  of_map = λ es. Tree.object (entries_of es);
  print = render;
  equal = λ x y. true;
  elements = λ o. none;
  as_string = λ o. none;
  as_pairs = λ o. none;
}

count-items_of : (os : List Tree) → count (items_of os) ≡ length os
unfolding count
count-items_of [] = refl
count-items_of (o ∷ os) = ap suc (count-items_of os)

callbacks-items_of : (os : List Tree) → item_callbacks (items_of os) ≡ parse_items tree_msgpack os
unfolding callbacks
callbacks-items_of [] = refl
callbacks-items_of (o ∷ os) = rw (callbacks-items_of os) refl

count-entries_of : (es : List (Tree × Tree)) → count_entries (entries_of es) ≡ length es
unfolding count_entries
count-entries_of [] = refl
count-entries_of ((k, v) ∷ es) = ap suc (count-entries_of es)

callbacks-entries_of :
    (es : List (Tree × Tree)) → entry_callbacks (entries_of es) ≡ parse_entries tree_msgpack es
unfolding callbacks
callbacks-entries_of [] = refl
callbacks-entries_of ((k, v) ∷ es) = rw (callbacks-entries_of es) refl

trees-Builds : Builds tree_msgpack trees
unfolding callbacks
trees-Builds = record {
  parse-nil = refl;
  parse-of_bool = λ v. refl;
  parse-of_double = λ v. refl;
  parse-of_int64_pos = λ n. refl;
  parse-of_int64_negsuc = λ n. refl;
  parse-of_str = λ s. refl;
  parse-of_array = λ os h. rw (count-items_of os, callbacks-items_of os) refl;
  parse-of_map = λ es h. rw (count-entries_of es, callbacks-entries_of es) refl;
}

abbrev sample : Json
sample = Json.object (
    Members.member (codes "k")
      (Json.array (Elements.element (Json.int64 (negsuc 4)) Elements.no_elements))
      Members.no_members)

json_to_msgpack-text_example :
    (json_to_msgpack {Obj = Tree} sample ≡ ok (build sample))
    × (append_msgpack {Obj = Tree} (codes "x = ") (build sample)
        ≡ ok (codes "x = " ++ render (tree sample)))
unfolding representable tree count count_entries IsSmall
json_to_msgpack-text_example =
    json_to_msgpack-text trees-Builds sample (codes "x = ") refl (omega arith)

what-render_example :
    let o = Tree.bin (1 ∷ 0 ∷ 2 ∷ []) in
    let text : Bytes = (codes "Error(" ++ render o) ++ codes ")" in
    let fresh : ErrorText Tree = record { value = o; error_str = [] } in
    let kept : ErrorText Tree = record { value = o; error_str = text } in
    (what fresh ≡ ok (c_str text, kept))
    × (what kept ≡ ok (c_str text, kept))
    × (what (copy_error kept) ≡ ok (c_str text, kept))
unfolding IsSmall
what-render_example =
    what-render (Tree.bin (1 ∷ 0 ∷ 2 ∷ [])) (Tree.bin (1 ∷ 0 ∷ 2 ∷ []))
      (record { parse-clone = λ o. refl }) refl tt

-- ===== src/Client/Body.antt =====
-- The bodies of the messages from the server, as handle_message of include/eshet.hpp parses them:
-- what stands behind the type byte.
pub mod Readers
pub mod WellFormed
pub mod Safe
use eshetcpp.Base.{ℕ, Except, ok, throw}
use eshetcpp.Base.Bytes.{Bytes}
use eshetcpp.Msgpack.{Msgpack}
use eshetcpp.Wire.Parser.{
  Parser, Read, parser, and_then, ◌>>=◌, ◌>>◌, pure, read16, read32, read_string, read_msgpack,
  check_empty,
}

abbrev value_of : {A : Type 0} → Except (A × Parser) → Except A
value_of (ok (a, p)) = ok a
value_of (throw e) = throw e

-- `Parser p(&msg[1], msg.size() - 1)`, and then the reads.
unfoldable pub run : {A : Type 0} → Read A → Bytes → Except A
run r body = value_of (r (parser body))

-- {…, Id}
unfoldable pub id_only : Read ℕ
id_only = do id ← read16; check_empty; pure id

-- {…, Id, T}
unfoldable pub id_time : Read (ℕ × ℕ)
id_time = do id ← read16; t ← read32; check_empty; pure (id, t)

-- {…, Path}
unfoldable pub path_only : Read Bytes
path_only = do path ← read_string; check_empty; pure path

module _ {Obj : Type 0} ⦃m : Msgpack Obj⦄ where
  -- {…, Id, Msg}
  unfoldable pub id_msgpack : Read (ℕ × Obj)
  id_msgpack = do id ← read16; oh ← read_msgpack; check_empty; pure (id, oh)

  -- {…, Id, T, Msg}
  unfoldable pub id_time_msgpack : Read (ℕ × ℕ × Obj)
  id_time_msgpack = do id ← read16; t ← read32; oh ← read_msgpack; check_empty; pure (id, t, oh)

  -- {…, Id, Path, Msg}
  unfoldable pub id_path_msgpack : Read (ℕ × Bytes × Obj)
  id_path_msgpack = do
    id ← read16
    path ← read_string
    oh ← read_msgpack
    check_empty
    pure (id, path, oh)

  -- {…, Path, Msg}
  unfoldable pub path_msgpack : Read (Bytes × Obj)
  path_msgpack = do path ← read_string; oh ← read_msgpack; check_empty; pure (path, oh)

-- The bodies of handle_hello_message: {hello}, and {hello_id, ClientID}.
unfoldable pub nothing : Read (Unit {0})
nothing = check_empty

unfoldable pub just_msgpack : {Obj : Type 0} ⦃m : Msgpack Obj⦄ → Read Obj
just_msgpack = do oh ← read_msgpack; check_empty; pure oh

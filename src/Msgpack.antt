-- ===== src/Msgpack.antt =====
-- The interface of msgpack-c (submodules/msgpack-c, which is not part of this repository).
--
-- `Obj` is a msgpack::object_handle with what it holds. The operations are those that the
-- repository calls; the records behind them name the documented behaviour that some theorems use.
use eshetcpp.Base.{ℕ, ◌^◌, ◌<◌, ◌≡◌, Bool, List, [], ◌∷◌, ◌++◌, length, Option, some}
use eshetcpp.Base.Int.{ℤ, pos, negsuc}
use eshetcpp.Base.Bytes.{Bytes}

-- The callbacks of a visitor of msgpack::object_parser, with their arguments. A float is its bit
-- pattern.
pub data Visit : Type 0 where
  visit_nil : Visit
  visit_boolean : Bool → Visit
  visit_positive_integer : ℕ → Visit
  visit_negative_integer : ℤ → Visit
  visit_float32 visit_float64 : ℕ → Visit
  visit_str visit_bin visit_ext : Bytes → Visit
  start_array : ℕ → Visit
  start_array_item end_array_item end_array : Visit
  start_map : ℕ → Visit
  start_map_key end_map_key start_map_value end_map_value end_map : Visit

pub record Msgpack (Obj : Type 0) : Type 0 where
  -- msgpack::pack: the bytes that it appends to a buffer
  pub pack : Obj → Bytes
  -- msgpack::unpack: the first object of a buffer, or an exception
  pub unpack : Bytes → Option Obj
  -- msgpack::object of a string
  pub of_string : Bytes → Obj
  -- the callbacks that msgpack::object_parser::parse makes
  pub parse : Obj → List Visit
  -- what an object_handle holds after it was the argument of std::move
  pub moved : Obj → Obj
  -- msgpack::clone: the object of the new handle
  pub clone : Obj → Obj

-- What the command-line programs use besides: the constructors of msgpack::object, its operator<<
-- and operator==, and what it tells of an object.
pub record Objects (Obj : Type 0) : Type 0 where
  pub nil : Obj
  pub of_bool : Bool → Obj
  -- a double, as its bit pattern
  pub of_double : ℕ → Obj
  pub of_int64 : ℤ → Obj
  pub of_str : Bytes → Obj
  pub of_array : List Obj → Obj
  pub of_map : List (Obj × Obj) → Obj
  pub print : Obj → Bytes
  pub equal : Obj → Obj → Bool
  -- the elements, if the type is ARRAY
  pub elements : Obj → Option (List Obj)
  -- as<std::string>(), and as<std::vector<std::pair<std::string, std::string>>>(), or a type_error
  pub as_string : Obj → Option Bytes
  pub as_pairs : Obj → Option (List (Bytes × Bytes))

-- A packed object is read back.
pub record RoundTrips {Obj : Type 0} (m : Msgpack Obj) : Type 0 where
  pub unpack-pack : (o : Obj) → m.unpack (m.pack o) ≡ some o
  pub pack_starts : (o : Obj) → (b : ℕ) × (rest : Bytes) × (m.pack o ≡ b ∷ rest)

-- A handle that was moved from still holds its object: the move takes the zone alone.
pub record MoveKeeps {Obj : Type 0} (m : Msgpack Obj) : Type 0 where
  pub moved_self : (o : Obj) → m.moved o ≡ o

-- A clone is visited as the object that it was made of.
pub record CloneCopies {Obj : Type 0} (m : Msgpack Obj) : Type 0 where
  pub parse-clone : (o : Obj) → m.parse (m.clone o) ≡ m.parse o

module _ {Obj : Type 0} (m : Msgpack Obj) where
  abbrev pub parse_items : List Obj → List Visit
  parse_items [] = []
  parse_items (o ∷ os) = start_array_item ∷ m.parse o ++ end_array_item ∷ parse_items os

  abbrev pub parse_entries : List (Obj × Obj) → List Visit
  parse_entries [] = []
  parse_entries ((k, v) ∷ es) =
      start_map_key ∷ m.parse k
      ++ (end_map_key ∷ start_map_value ∷ m.parse v ++ end_map_value ∷ parse_entries es)

-- object_parser visits what the constructors put into an object.
pub record Builds {Obj : Type 0} (m : Msgpack Obj) (b : Objects Obj) : Type 0 where
  pub parse-nil : m.parse b.nil ≡ visit_nil ∷ []
  pub parse-of_bool : (v : Bool) → m.parse (b.of_bool v) ≡ visit_boolean v ∷ []
  pub parse-of_double : (v : ℕ) → m.parse (b.of_double v) ≡ visit_float64 v ∷ []
  pub parse-of_int64_pos : (n : ℕ) → m.parse (b.of_int64 (pos n)) ≡ visit_positive_integer n ∷ []
  pub parse-of_int64_negsuc :
      (n : ℕ) → m.parse (b.of_int64 (negsuc n)) ≡ visit_negative_integer (negsuc n) ∷ []
  pub parse-of_str : (s : Bytes) → m.parse (b.of_str s) ≡ visit_str s ∷ []
  pub parse-of_array :
      (os : List Obj)
      → length os < 2 ^ 32
      → m.parse (b.of_array os) ≡ start_array (length os) ∷ parse_items m os ++ end_array ∷ []
  pub parse-of_map :
      (es : List (Obj × Obj))
      → length es < 2 ^ 32
      → m.parse (b.of_map es) ≡ start_map (length es) ∷ parse_entries m es ++ end_map ∷ []

-- ===== src/Stringize.antt =====
-- include/eshet/msgpack_to_string.hpp: an object as JSON-like text.
--
-- object_parser calls the visitor's methods one after another; `visit` makes one call, and `visits`
-- all of them. `m_current_size` has the back of the vector first, and back() or pop_back() of an
-- empty vector is `throw undefined`. Every method of the source returns true.
pub mod Render
pub mod Escape
use eshetcpp.Base.{
  ℕ, ◌+◌, ◌-◌, ◌/◌, ◌%◌, ◌^◌, Bool, true, false, ◌||◌, List, [], ◌∷◌, ◌++◌, Option, none, some,
  get_elem?, ltb, ◌==◌, not, if◌then◌else◌, Except, ok, throw, undefined, bit_and,
}
use eshetcpp.Base.Bytes.{Bytes}
use eshetcpp.Base.Text.{codes, decimal, decimal_ℤ, float32_text, float64_text}
use eshetcpp.Msgpack.{
  Msgpack, Visit, visit_nil, visit_boolean, visit_positive_integer, visit_negative_integer,
  visit_float32, visit_float64, visit_str, visit_bin, visit_ext, start_array, start_array_item,
  end_array_item, end_array, start_map, start_map_key, end_map_key, start_map_value, end_map_value,
  end_map,
}

pub record Visitor : Type 0 where
  pub s : Bytes
  pub m_current_size : List ℕ

abbrev pub append : Bytes → Visitor → Visitor
append text v = record v { s = v.s ++ text }

-- `codes[n]`: the sixteen hexadecimal digits.
unfoldable pub hex_digit : ℕ → ℕ
hex_digit n = if ltb n 10 then n + b'0' else n - 10 + b'a'

-- A byte of a string. A byte from 0x80 on is a negative char on some platforms: its code is then
-- far above 0x7f, and it is pushed as it is on all of them.
unfoldable pub escape : ℕ → Bytes
unfolding hex_digit
escape c =
    if c == b'\\'
    then codes "\\\\"
    else if c == b'"'
    then codes "\\\""
    else if c == b'/'
    then codes "\\/"
    else if c == 8
    then codes "\\b"
    else if c == 12
    then codes "\\f"
    else if c == 10
    then codes "\\n"
    else if c == 13
    then codes "\\r"
    else if c == 9
    then codes "\\t"
    else if ltb c 0x20 || c == 0x7f
    then codes "\\u00" ++ hex_digit (c / 16 % 16) ∷ hex_digit (c % 16) ∷ []
    else c ∷ []

unfoldable pub escape_all : Bytes → Bytes
escape_all [] = []
escape_all (c ∷ cs) = escape c ++ escape_all cs

-- `--m_current_size.back(); if (m_current_size.back() != 0) s.push_back(',');`
count_down : List ℕ → Visitor → Except Visitor
count_down [] v = throw undefined
count_down (n ∷ sizes) v =
    let n' = (n + (2 ^ 32 - 1)) % 2 ^ 32 in
    let v' = record v { m_current_size = n' ∷ sizes } in
    ok (if not (n' == 0) then append (b',' ∷ []) v' else v')

-- `m_current_size.pop_back(); s.push_back(bracket);`
close : ℕ → List ℕ → Visitor → Except Visitor
close bracket [] v = throw undefined
close bracket (n ∷ sizes) v = ok (append (bracket ∷ []) (record v { m_current_size = sizes }))

unfoldable pub visit : Visit → Visitor → Except Visitor
unfolding count_down close escape_all
visit visit_nil v = ok (append (codes "null") v)
visit (visit_boolean b) v = ok (append (if b then codes "true" else codes "false") v)
visit (visit_positive_integer n) v = ok (append (decimal n) v)
visit (visit_negative_integer n) v = ok (append (decimal_ℤ n) v)
visit (visit_float32 f) v = ok (append (float32_text f) v)
visit (visit_float64 f) v = ok (append (float64_text f) v)
visit (visit_str text) v = ok (append (b'"' ∷ escape_all text ++ b'"' ∷ []) v)
visit (visit_bin bytes) v = ok (append (b'"' ∷ bytes ++ b'"' ∷ []) v)
visit (visit_ext bytes) v = ok (append (codes "EXT") v)
visit (start_array n) v =
    ok (append (b'[' ∷ []) (record v { m_current_size = n ∷ v.m_current_size }))
visit start_array_item v = ok v
visit end_array_item v = count_down v.m_current_size v
visit end_array v = close b']' v.m_current_size v
visit (start_map n) v = ok (append (b'{' ∷ []) (record v { m_current_size = n ∷ v.m_current_size }))
visit start_map_key v = ok v
visit end_map_key v = ok (append (b':' ∷ []) v)
visit start_map_value v = ok v
visit end_map_value v = count_down v.m_current_size v
visit end_map v = close b'}' v.m_current_size v

abbrev pub and_then : Except Visitor → (Visitor → Except Visitor) → Except Visitor
and_then (ok v) k = k v
and_then (throw e) k = throw e

unfoldable pub visits : List Visit → Visitor → Except Visitor
visits [] v = ok v
visits (c ∷ cs) v = and_then (visit c v) (visits cs)

abbrev text_of : Except Visitor → Except Bytes
text_of (ok v) = ok v.s
text_of (throw e) = throw e

module _ {Obj : Type 0} ⦃m : Msgpack Obj⦄ where
  unfoldable pub append_msgpack : Bytes → Obj → Except Bytes
  append_msgpack s o = text_of (visits (m.parse o) (record { s = s; m_current_size = [] }))

  unfoldable pub msgpack_to_string : Obj → Except Bytes
  unfolding append_msgpack
  msgpack_to_string o = append_msgpack [] o

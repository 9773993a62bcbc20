-- ===== src/Tools/Host.antt =====
-- get_host_port of src/utils.cpp, and the std::stoi of the standard library that it calls. The
-- value of the environment variable ESHET_SERVER is an argument: none if it is not set.
pub mod Ports
use eshetcpp.Base.{
  ℕ, zero, suc, ◌+◌, ◌-◌, ◌*◌, ◌^◌, Bool, true, false, ◌&&◌, ◌||◌, List, [], ◌∷◌, Option, none,
  some, take, drop, ltb, leb, ◌==◌, if◌then◌else◌, Except, ok, throw, invalid_argument,
  out_of_range,
}
use eshetcpp.Base.Bytes.{Bytes}
use eshetcpp.Base.Int.{ℤ, pos, negsuc}
use eshetcpp.Base.Text.{codes}

abbrev pub is_digit : ℕ → Bool
is_digit c = leb b'0' c && leb c b'9'

abbrev pub is_space : ℕ → Bool
is_space c = c == b' ' || (leb 9 c && leb c 13)

-- The value of the digits at the front, behind those that were read.
unfoldable pub read_digits : ℕ → Bytes → ℕ
read_digits n [] = n
read_digits n (c ∷ cs) =
    let more = read_digits (n * 10 + (c - b'0')) cs in if is_digit c then more else n

unfoldable pub skip_space : Bytes → Bytes
skip_space [] = []
skip_space (c ∷ cs) = let rest = skip_space cs in if is_space c then rest else c ∷ cs

abbrev pub starts_digit : Bytes → Bool
starts_digit [] = false
starts_digit (c ∷ cs) = is_digit c

abbrev pub negated : ℕ → ℤ
negated zero = pos 0
negated (suc n) = negsuc n

-- An int has 32 bits.
abbrev pub to_int : Bool → ℕ → Except ℤ
to_int true n = if leb n (2 ^ 31) then ok (negated n) else throw out_of_range
to_int false n = if ltb n (2 ^ 31) then ok (pos n) else throw out_of_range

unfoldable pub read_number : Bool → Bytes → Except ℤ
unfolding read_digits
read_number negative text =
    if starts_digit text then to_int negative (read_digits 0 text) else throw invalid_argument

unfoldable pub read_sign : Bytes → Except ℤ
unfolding read_number
read_sign [] = throw invalid_argument
read_sign (c ∷ cs) =
    if c == b'-'
    then read_number true cs
    else if c == b'+'
    then read_number false cs
    else read_number false (c ∷ cs)

-- std::stoi: what follows the number is ignored.
unfoldable pub stoi : Bytes → Except ℤ
unfolding skip_space read_sign
stoi text = read_sign (skip_space text)

-- std::string::find
unfoldable pub find : ℕ → Bytes → Option ℕ
find x [] = none
find x (c ∷ cs) =
    let later = find x cs in
    if c == x then some 0 else elim later [ none ↦ none | some n ↦ some (suc n) ]

abbrev pub with_host : Bytes → Except ℤ → Except (Bytes × ℤ)
with_host host (ok port) = ok (host, port)
with_host host (throw e) = throw e

unfoldable pub get_host_port : Option Bytes → Except (Bytes × ℤ)
unfolding find stoi
get_host_port none = ok (codes "localhost", pos 11236)
get_host_port (some hostport) = elim (find b':' hostport) [
  | none ↦ ok (hostport, pos 11236)
  | some colon_pos ↦ with_host (take colon_pos hostport) (stoi (drop (suc colon_pos) hostport))
]

-- ===== src/Base/Text.antt =====
-- What the repository uses of the standard library's strings: literals and std::to_string.
use Prim.Native.Char.{code}
use Prim.Native.String.{String}
use Prim.Native.Nat.{max}
use eshetcpp.Base.{
  ℕ, zero, suc, ◌+◌, ◌-◌, ◌*◌, ◌/◌, ◌%◌, ◌^◌, ◌&&◌, ◌||◌, [], ◌∷◌, ◌++◌, ltb, ◌==◌, if◌then◌else◌,
}
use eshetcpp.Base.Bytes.{Bytes}
use eshetcpp.Base.Int.{ℤ, pos, negsuc}

-- The bytes of a literal, which is ASCII.
abbrev pub codes : String → Bytes
codes String.[] = []
codes (String.◌∷◌ c s) = code c ∷ codes s

unfoldable pub digits_of : ℕ → ℕ → Bytes
digits_of zero n = []
digits_of (suc fuel) n =
    let front = digits_of fuel (n / 10) in
    if ltb n 10 then (n + b'0') ∷ [] else front ++ (n % 10 + b'0') ∷ []

-- std::to_string of an unsigned integer
unfoldable pub decimal : ℕ → Bytes
unfolding digits_of
decimal n = digits_of (suc n) n

-- std::to_string of a signed integer
unfoldable pub decimal_ℤ : ℤ → Bytes
unfolding decimal
decimal_ℤ (pos n) = decimal n
decimal_ℤ (negsuc n) = b'-' ∷ decimal (n + 1)

-- `digits` decimals of a number, with leading zeros.
padded : ℕ → ℕ → Bytes
padded zero n = []
padded (suc k) n = padded k (n / 10) ++ (n % 10 + b'0') ∷ []

-- num / den, rounded to the nearest integer, a tie to the even one.
round_div : ℕ → ℕ → ℕ
round_div num den =
    let q = num / den in
    let twice = 2 * (num % den) in
    if ltb den twice || (twice == den && q % 2 == 1) then q + 1 else q

fixed_point : ℕ → Bytes
unfolding decimal padded
fixed_point millionths = decimal (millionths / 10 ^ 6) ++ b'.' ∷ padded 6 (millionths % 10 ^ 6)

-- std::to_string of an IEEE 754 number of `e` exponent and `f` fraction bits, "%f" of the value.
float_text : ℕ → ℕ → ℕ → Bytes
unfolding round_div fixed_point
float_text e f bits =
    let fraction = bits % 2 ^ f in
    let exponent = bits / 2 ^ f % 2 ^ e in
    let significand = if exponent == 0 then fraction else fraction + 2 ^ f in
    let millionths =
      round_div (significand * 2 ^ max exponent 1 * 10 ^ 6) (2 ^ (2 ^ (e - 1) - 1 + f)) in
    let magnitude =
      if exponent == 2 ^ e - 1
      then (if fraction == 0 then codes "inf" else codes "nan")
      else fixed_point millionths in
    if bits / 2 ^ (e + f) % 2 == 1 then b'-' ∷ magnitude else magnitude

unfoldable pub float32_text : ℕ → Bytes
unfolding float_text
float32_text = float_text 8 23

unfoldable pub float64_text : ℕ → Bytes
unfolding float_text
float64_text = float_text 11 52

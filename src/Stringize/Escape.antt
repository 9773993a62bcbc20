-- ===== src/Stringize/Escape.antt =====
-- Escaped strings can be read back, so that different strings have different texts.
use eshetcpp.Base.{
  ℕ, zero, suc, ◌+◌, ◌-◌, ◌*◌, ◌/◌, ◌%◌, ◌<◌, ◌≡◌, refl, ap, ◌∙◌, [], ◌∷◌, ◌++◌, Option, none, some,
  length, drop, append_assoc, All, arith, ltb, ◌==◌, if◌then◌else◌, Bool, true, false,
}
use eshetcpp.Base.Bytes.{Bytes}
use eshetcpp.Stringize.{hex_digit, escape, escape_all}

abbrev unhex : ℕ → ℕ
unhex d = if ltb d b'a' then d - b'0' else d - b'a' + 10

abbrev read_hex : Bytes → Option (ℕ × Bytes)
read_hex (a ∷ b ∷ h ∷ l ∷ rest) = some (unhex h * 16 + unhex l, rest)
read_hex _ = none

-- What a backslash and the next byte stand for.
abbrev read_escape : ℕ → Bytes → Option (ℕ × Bytes)
read_escape x rest =
    if x == b'u'
    then read_hex rest
    else if x == b'b'
    then some (8, rest)
    else if x == b'f'
    then some (12, rest)
    else if x == b'n'
    then some (10, rest)
    else if x == b'r'
    then some (13, rest)
    else if x == b't'
    then some (9, rest)
    else some (x, rest)

abbrev unescape_one : Bytes → Option (ℕ × Bytes)
unescape_one [] = none
unescape_one (c ∷ []) = some (c, [])
unescape_one (c ∷ x ∷ rest) = if c == b'\\' then read_escape x rest else some (c, x ∷ rest)

hex_digit-unhex : (n : ℕ) → n < 16 → unhex (hex_digit n) ≡ n
unfolding hex_digit
hex_digit-unhex n h = ground arith

unescape_one-escape :
    (c : ℕ) (rest : Bytes) → c < 256 → unescape_one (escape c ++ rest) ≡ some (c, rest)
unfolding escape
unescape_one-escape c [] h = ground (arith, hex_digit-unhex (c / 16 % 16), hex_digit-unhex (c % 16))
unescape_one-escape c (x ∷ rest) h =
    ground (arith, hex_digit-unhex (c / 16 % 16), hex_digit-unhex (c % 16))

abbrev starts_quote : Bytes → Bool
starts_quote [] = false
starts_quote (c ∷ rest) = c == b'"'

starts_quote-escape : (c : ℕ) (rest : Bytes) → starts_quote (escape c ++ rest) ≡ false
unfolding escape
starts_quote-escape c rest = ground arith

abbrev after_one : Option (ℕ × Bytes) → (Bytes → Option (Bytes × Bytes)) → Option (Bytes × Bytes)
after_one none k = none
after_one (some (c, rest)) k = elim (k rest) [ none ↦ none | some (s, end) ↦ some (c ∷ s, end) ]

-- Reads up to the closing quote, and gives what is behind it; each byte of the string takes a round.
unfoldable pub unescape : ℕ → Bytes → Option (Bytes × Bytes)
unescape zero bs = none
unescape (suc f) bs = elim (starts_quote bs) [
  | true ↦ some ([], drop 1 bs)
  | false ↦ after_one (unescape_one bs) (unescape f)
]

unescape_step :
    (f : ℕ) (bs rest : Bytes) (c : ℕ)
    → starts_quote bs ≡ false
    → unescape_one bs ≡ some (c, rest)
    → unescape (suc f) bs ≡ after_one (some (c, rest)) (unescape f)
unfolding unescape
unescape_step f bs rest c q e = rw (q, unescape) (ap (λ r. after_one r (unescape f)) e)

-- The text of a string of bytes, with its closing quote, is read back as the string, and what
-- follows the quote is left.
pub unescape-escape_all :
    (s rest : Bytes)
    → All (λ c. c < 256) s
    → unescape (suc (length s)) (escape_all s ++ b'"' ∷ rest) ≡ some (s, rest)
unfolding unescape escape_all
unescape-escape_all [] rest h = refl
unescape-escape_all (c ∷ s) rest h =
    let more : Bytes = escape_all s ++ b'"' ∷ rest in
    ap (unescape (suc (suc (length s)))) (append_assoc (escape c) (escape_all s) (b'"' ∷ rest))
    ∙ unescape_step (suc (length s)) (escape c ++ more) more c (starts_quote-escape c more)
        (unescape_one-escape c more h.0)
    ∙ ap (λ r. after_one (some (c, more)) (λ _. r)) (unescape-escape_all s rest h.1)

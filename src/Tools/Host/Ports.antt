-- ===== src/Tools/Host/Ports.antt =====
-- A host and a port, as they are written in ESHET_SERVER.
use eshetcpp.Base.{
  ℕ, zero, suc, ◌+◌, ◌-◌, ◌*◌, ◌/◌, ◌%◌, ◌^◌, ◌<◌, ◌≡◌, ◌≢◌, refl, sym, ap, ◌∙◌, true, false, [],
  ◌∷◌, ◌++◌, none, some, length, drop, ltb, if◌then◌else◌, ok, throw, invalid_argument, All, arith,
  take-append, append_assoc, append-nil, lt→ltb, Bool-cases, inl, inr,
}
use eshetcpp.Base.Bytes.{Bytes}
use eshetcpp.Base.Int.{pos}
use eshetcpp.Base.Text.{decimal, digits_of}
use eshetcpp.Tools.Host.{
  is_digit, is_space, starts_digit, read_digits, skip_space, read_number, read_sign, stoi, find,
  get_host_port,
}

abbrev pub NoColon : Bytes → Type 0
NoColon = All (λ c. c ≢ b':')

-- Digits that were written are read.
read_digits-digits_of :
    (f n : ℕ) (rest : Bytes) → n < f → read_digits 0 (digits_of f n ++ rest) ≡ read_digits n rest
unfolding digits_of read_digits
read_digits-digits_of zero n rest h = absurd (omega arith)
read_digits-digits_of (suc f) n rest h = elim (Bool-cases (ltb n 10)) [
  | inl small ↦ rw (small, if◌then◌else◌) (ground arith)
  | inr big ↦
      let below : n / 10 < f = ground arith in
      let last : n / 10 * 10 + (n % 10 + 48 - 48) ≡ n = omega arith in
      let digit : is_digit (n % 10 + 48) ≡ true = ground arith in
      rw
        (
          big,
          append_assoc (digits_of f (n / 10)) ((n % 10 + 48) ∷ []) rest,
          read_digits-digits_of f (n / 10) ((n % 10 + 48) ∷ rest) below,
          digit,
          last,
        )
        refl
]

-- What is written starts with a digit.
digits_of-starts : (f n : ℕ) (rest : Bytes) → n < f → starts_digit (digits_of f n ++ rest) ≡ true
unfolding digits_of
digits_of-starts zero n rest h = absurd (omega arith)
digits_of-starts (suc f) n rest h = elim (Bool-cases (ltb n 10)) [
  | inl small ↦ rw small (ground arith)
  | inr big ↦
      let below : n / 10 < f = ground arith in
      rw (big, append_assoc (digits_of f (n / 10)) ((n % 10 + 48) ∷ []) rest)
        (digits_of-starts f (n / 10) ((n % 10 + 48) ∷ rest) below)
]

find-append :
    (host rest : Bytes) → NoColon host → find b':' (host ++ b':' ∷ rest) ≡ some (length host)
unfolding find
find-append [] rest h = refl
find-append (c ∷ cs) rest h = ground (arith, find-append cs rest h.1)

find-none : (host : Bytes) → NoColon host → find b':' host ≡ none
unfolding find
find-none [] h = refl
find-none (c ∷ cs) h = ground (arith, find-none cs h.1)

drop-front : (host rest : Bytes) → drop (suc (length host)) (host ++ b':' ∷ rest) ≡ rest
drop-front [] rest = refl
drop-front (c ∷ cs) rest = drop-front cs rest

-- A digit is neither a space nor a sign.
stoi-digit : (text : Bytes) → starts_digit text ≡ true → stoi text ≡ read_number false text
unfolding stoi skip_space read_sign
stoi-digit [] h = cc
stoi-digit (c ∷ cs) h = ground arith

stoi-decimal : (n : ℕ) → n < 2 ^ 31 → stoi (decimal n) ≡ ok (pos n)
unfolding decimal read_number
stoi-decimal n h =
    let e : digits_of (suc n) n ++ [] ≡ digits_of (suc n) n = append-nil (digits_of (suc n) n) in
    let starts : starts_digit (digits_of (suc n) n) ≡ true =
      ap starts_digit (sym e) ∙ digits_of-starts (suc n) n [] (omega arith) in
    let value : read_digits 0 (digits_of (suc n) n) ≡ n =
      ap (read_digits 0) (sym e)
      ∙ read_digits-digits_of (suc n) n [] (omega arith)
      ∙ unfold read_digits in refl in
    stoi-digit (digits_of (suc n) n) starts ∙ rw (starts, value, lt→ltb n (2 ^ 31) h) refl

-- A host without a colon is taken with the port 11236; a host, a colon and a port below 2 ^ 31 in
-- decimal are read as that host and that port.
pub get_host_port-decimal :
    (host : Bytes) (port : ℕ)
    → NoColon host
    → port < 2 ^ 31
    → (get_host_port (some host) ≡ ok (host, pos 11236))
      × (get_host_port (some (host ++ b':' ∷ decimal port)) ≡ ok (host, pos port))
unfolding get_host_port
get_host_port-decimal host port h lt = (
  rw (get_host_port, find-none host h) refl,
  rw
      (
        get_host_port,
        find-append host (decimal port) h,
        take-append host (b':' ∷ decimal port),
        drop-front host (decimal port),
        stoi-decimal port lt,
      )
      refl,
)

-- It is empty, or starts with none of a digit, a sign and a space.
abbrev pub IsNoNumber : Bytes → Type 0
IsNoNumber [] = Unit
IsNoNumber (c ∷ cs) = (is_digit c ≡ false) × (is_space c ≡ false) × (c ≢ b'-') × (c ≢ b'+')

stoi-IsNoNumber : (text : Bytes) → IsNoNumber text → stoi text ≡ throw invalid_argument
unfolding stoi skip_space read_sign read_number
stoi-IsNoNumber [] h = refl
stoi-IsNoNumber (c ∷ cs) h = ground arith

-- If what follows the first colon is empty, or starts with none of a digit, a sign and a space,
-- std::stoi throws std::invalid_argument.
pub get_host_port-IsNoNumber :
    (host rest : Bytes)
    → NoColon host
    → IsNoNumber rest
    → get_host_port (some (host ++ b':' ∷ rest)) ≡ throw invalid_argument
unfolding get_host_port
get_host_port-IsNoNumber host rest h w =
    rw (get_host_port, find-append host rest h, drop-front host rest, stoi-IsNoNumber rest w) refl

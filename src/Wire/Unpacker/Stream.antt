-- ===== src/Wire/Unpacker/Stream.antt =====
-- The Unpacker against a reader of lists, and the messages of a stream.
use eshetcpp.Base.{
  ℕ, suc, ◌+◌, ◌*◌, ◌%◌, ◌^◌, ◌≡◌, refl, [], ◌∷◌, ◌++◌, Option, none, some, length, length-append,
  take-append_le, drop-append_le, take, drop, ltb, ◌==◌, if◌then◌else◌, arith, Except, ok, throw,
  protocol_error,
}
use eshetcpp.Base.Bytes.{Bytes}
use eshetcpp.Wire.Unpacker.{Unpacker, push, read}

abbrev pub buffered : Bytes → Unpacker
buffered bs = record { buffer = bs }

-- `read` by the bytes of the buffer.
abbrev pub split : Bytes → Except (Option Bytes × Unpacker)
split (m ∷ hi ∷ lo ∷ rest) =
    let len = (hi * 2 ^ 8 + lo) % 2 ^ 16 in
    if m == 0x47
    then (if ltb (length rest) len
        then ok (none, buffered (m ∷ hi ∷ lo ∷ rest))
        else ok (some (take len rest), buffered (drop len rest)))
    else throw protocol_error
split short = ok (none, buffered short)

add-three : (n : ℕ) → n + 3 ≡ suc (suc (suc n))
add-three n = omega arith

pub read-split : (bs : Bytes) → read (buffered bs) ≡ split bs
unfolding read
read-split [] = refl
read-split (a ∷ []) = refl
read-split (a ∷ b ∷ []) = refl
read-split (m ∷ hi ∷ lo ∷ rest) = ground (arith, add-three ((hi * 2 ^ 8 + lo) % 2 ^ 16))

-- More input behind a buffer that holds a whole message, or a wrong magic byte.
abbrev pub Extends :
    Except (Option Bytes × Unpacker) → Bytes → Except (Option Bytes × Unpacker) → Type 0
Extends (ok (some m, u)) more r = r ≡ ok (some m, push more u)
Extends (ok (none, u)) more r = Unit
Extends (throw e) more r = r ≡ throw e

pub split-append : (bs more : Bytes) → Extends (split bs) more (split (bs ++ more))
unfolding push
split-append [] more = tt
split-append (a ∷ []) more = tt
split-append (a ∷ b ∷ []) more = tt
split-append (m ∷ hi ∷ lo ∷ rest) more =
    let len = (hi * 2 ^ 8 + lo) % 2 ^ 16 in
    ground
      (arith, length-append rest more, take-append_le len rest more, drop-append_le len rest more)

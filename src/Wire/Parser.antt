-- ===== src/Wire/Parser.antt =====
-- class Parser of include/eshet/parse.hpp.
--
-- `pos` never passes the size (Wire.Parser.Bounds), so that `size - pos` does not wrap in the
-- source and the truncated subtraction here agrees with it. A read outside of the array is
-- `throw undefined`.
pub mod Readers
pub mod Refinement
use eshetcpp.Base.{
  ℕ, zero, suc, ◌+◌, ◌-◌, ◌*◌, ◌%◌, ◌^◌, List, Bool, Option, none, some, length, get_elem?, take,
  drop, ltb, ◌==◌, not, if◌then◌else◌, Exception, protocol_error, unpack_error, undefined, Except,
  ok, throw,
}
use eshetcpp.Base.Bytes.{Bytes}
use eshetcpp.Msgpack.{Msgpack}

pub record Parser : Type 0 where
  pub bytes : Bytes
  pub pos : ℕ

-- The constructor, `Parser p(data, size)`.
abbrev pub parser : Bytes → Parser
parser bytes = record { bytes = bytes; pos = 0 }

-- A method returns a value and leaves the parser behind it, or throws.
abbrev pub Read : Type 0 → Type 0
Read A = Parser → Except (A × Parser)

abbrev pub and_then : {A B : Type 0} → Except (A × Parser) → (A → Read B) → Except (B × Parser)
and_then (ok (a, p)) f = f a p
and_then (throw e) f = throw e

infixl 5 ◌>>=◌ ◌>>◌
abbrev pub ◌>>=◌ : {A B : Type 0} → Read A → (A → Read B) → Read B
m >>= f = λ p. and_then (m p) f

abbrev pub ◌>>◌ : {B : Type 0} → Read (Unit {0}) → Read B → Read B
m >> k = m >>= λ _. k

abbrev pub pure : {A : Type 0} → A → Read A
pure a p = ok (a, p)

abbrev pub fail : {A : Type 0} → Exception → Read A
fail e p = throw e

-- `size - pos`
abbrev pub left : Parser → ℕ
left p = length p.bytes - p.pos

-- `if (size - pos < n) throw ProtocolError();`
abbrev need : ℕ → Read (Unit {0})
need n p = if ltb (left p) n then throw protocol_error else ok (tt, p)

-- `data[pos + k]`
unfoldable pub byte_at : ℕ → Read ℕ
byte_at k p = elim (get_elem? p.bytes (p.pos + k)) [ none ↦ throw undefined | some b ↦ ok (b, p) ]

-- `pos += n`
abbrev skip : ℕ → Read (Unit {0})
skip n p = ok (tt, record p { pos = p.pos + n })

unfoldable pub read8 : Read ℕ
unfolding byte_at
read8 = do need 1; b ← byte_at 0; skip 1; pure b

unfoldable pub read16 : Read ℕ
unfolding byte_at
read16 = do need 2; a ← byte_at 0; b ← byte_at 1; skip 2; pure ((a * 2 ^ 8 + b) % 2 ^ 16)

unfoldable pub read32 : Read ℕ
unfolding byte_at
read32 = do
  need 4
  a ← byte_at 0
  b ← byte_at 1
  c ← byte_at 2
  d ← byte_at 3
  skip 4
  pure ((a * 2 ^ 24 + b * 2 ^ 16 + c * 2 ^ 8 + d) % 2 ^ 32)

-- `for (end = pos; end < size; end++) if (data[end] == 0) break;` on what is left: the number of
-- bytes before the first zero, all of them where there is none.
unfoldable pub find_zero : Bytes → ℕ
find_zero List.[] = 0
find_zero (List.◌∷◌ b rest) = let n = find_zero rest in if b == 0 then 0 else suc n

-- `end` is `pos + find_zero`.
unfoldable pub read_string : Read Bytes
unfolding find_zero
read_string p =
    let n = find_zero (drop p.pos p.bytes) in
    if n == left p
    then throw protocol_error
    else ok (take n (drop p.pos p.bytes), record p { pos = p.pos + n + 1 })

unfoldable pub check_empty : Read (Unit {0})
check_empty p = if not (p.pos == length p.bytes) then throw protocol_error else ok (tt, p)

module _ {Obj : Type 0} ⦃m : Msgpack Obj⦄ where
  unfoldable pub read_msgpack : Read Obj
  read_msgpack p =
      if ltb (left p) 1 then throw protocol_error else elim (m.unpack (drop p.pos p.bytes)) [
        | none ↦ throw unpack_error
        | some o ↦ ok (o, record p { pos = length p.bytes })
      ]

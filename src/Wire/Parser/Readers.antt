-- ===== src/Wire/Parser/Readers.antt =====
-- The methods of the Parser in include/eshet/parse.hpp as readers of the bytes that are left.
use eshetcpp.Base.{
  ℕ, ◌+◌, ◌*◌, ◌%◌, ◌^◌, [], ◌∷◌, Option, none, some, Except, ok, throw, protocol_error,
  unpack_error, if◌then◌else◌, ◌==◌,
}
use eshetcpp.Base.Bytes.{Bytes}
use eshetcpp.Msgpack.{Msgpack}

-- A reader takes what it wants off the front of a list.
abbrev pub Get : Type 0 → Type 0
Get A = Bytes → Except (A × Bytes)

abbrev pub continue : {A B : Type 0} → Except (A × Bytes) → (A → Get B) → Except (B × Bytes)
continue (ok (a, rest)) f = f a rest
continue (throw e) f = throw e

infixl 5 ◌>=>◌
abbrev pub ◌>=>◌ : {A B : Type 0} → Get A → (A → Get B) → Get B
m >=> f = λ bs. continue (m bs) f

abbrev pub get8 : Get ℕ
get8 [] = throw protocol_error
get8 (b ∷ rest) = ok (b, rest)

abbrev pub get16 : Get ℕ
get16 [] = throw protocol_error
get16 (a ∷ []) = throw protocol_error
get16 (a ∷ b ∷ rest) = ok ((a * 2 ^ 8 + b) % 2 ^ 16, rest)

abbrev pub get32 : Get ℕ
get32 (a ∷ b ∷ c ∷ d ∷ rest) = ok ((a * 2 ^ 24 + b * 2 ^ 16 + c * 2 ^ 8 + d) % 2 ^ 32, rest)
get32 _ = throw protocol_error

abbrev pub prepend : ℕ → Except (Bytes × Bytes) → Except (Bytes × Bytes)
prepend b (ok (s, rest)) = ok (b ∷ s, rest)
prepend b (throw e) = throw e

-- The bytes before the first zero; the zero is taken off as well.
abbrev pub get_string : Get Bytes
get_string [] = throw protocol_error
get_string (b ∷ rest) =
    let more = get_string rest in if b == 0 then ok ([], rest) else prepend b more

abbrev pub get_end : Get (Unit {0})
get_end [] = ok (tt, [])
get_end (b ∷ rest) = throw protocol_error

abbrev pub unpacked : {Obj : Type 0} → Option Obj → Except (Obj × Bytes)
unpacked none = throw unpack_error
unpacked (some o) = ok (o, [])

abbrev pub get_msgpack : {Obj : Type 0} ⦃m : Msgpack Obj⦄ → Get Obj
get_msgpack [] = throw protocol_error
get_msgpack ⦃m⦄ (b ∷ rest) = unpacked (m.unpack (b ∷ rest))

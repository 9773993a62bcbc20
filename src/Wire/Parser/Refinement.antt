-- ===== src/Wire/Parser/Refinement.antt =====
-- The Parser against readers of a list: what a method does depends on the bytes that are left, and
-- only on them.
use eshetcpp.Base.{
  ℕ, zero, suc, ◌+◌, ◌≤◌, ◌≡◌, refl, sym, ap, ◌∙◌, [], ◌∷◌, length, get_elem?, take, drop, arith,
  Except, ok, throw, protocol_error, length-drop, if◌then◌else◌, ◌==◌,
}
use eshetcpp.Base.Bytes.{Bytes}
use native.Mathlib.Nat.{zero-add, suc-add}
use eshetcpp.Msgpack.{Msgpack}
use eshetcpp.Wire.Parser.{
  Parser, Read, and_then, ◌>>=◌, pure, read8, read16, read32, find_zero, read_string, check_empty,
  read_msgpack, left,
}
use eshetcpp.Wire.Parser.Readers.{
  Get, continue, ◌>=>◌, get8, get16, get32, get_string, get_end, get_msgpack,
}

-- What is left to read.
abbrev pub view : Parser → Bytes
view p = drop p.pos p.bytes

abbrev pub IsValid : Parser → Type 0
IsValid p = p.pos ≤ length p.bytes

abbrev pub observe : {A : Type 0} → Except (A × Parser) → Except (A × Bytes)
observe (ok (a, p)) = ok (a, view p)
observe (throw e) = throw e

abbrev pub Stays : {A : Type 0} → Except (A × Parser) → Type 0
Stays (ok (a, p)) = IsValid p
Stays (throw e) = Unit

-- On every parser whose `pos` is in range: the same value or exception as the reader, the same
-- bytes left behind it, and `pos` stays in range.
abbrev pub Refines : {A : Type 0} → Read A → Get A → Type 0
Refines r g = (p : Parser) → IsValid p → (observe (r p) ≡ g (view p)) × Stays (r p)

drop_nil : (k : ℕ) → drop {A = ℕ} k [] ≡ []
drop_nil zero = refl
drop_nil (suc k) = refl

drop-add : (bs : Bytes) (n k : ℕ) → drop (n + k) bs ≡ drop k (drop n bs)
drop-add bs zero k = rw zero-add
drop-add [] (suc n) k = rw suc-add (sym (drop_nil k))
drop-add (b ∷ bs) (suc n) k = rw suc-add (drop-add bs n k)

get_elem?-drop : (bs : Bytes) (n k : ℕ) → get_elem? bs (n + k) ≡ get_elem? (drop n bs) k
get_elem?-drop bs zero k = rw zero-add
get_elem?-drop [] (suc n) k = refl
get_elem?-drop (b ∷ bs) (suc n) k = rw suc-add (get_elem?-drop bs n k)

module _ (p : Parser) (w : Bytes) (e : view p ≡ w) where
  left-view : left p ≡ length w
  left-view = omega (arith, length-drop p.pos p.bytes, ap length e)

  byte-view : (k : ℕ) → get_elem? p.bytes (p.pos + k) ≡ get_elem? w k
  byte-view k = get_elem?-drop p.bytes p.pos k ∙ ap (λ v. get_elem? v k) e

  drop-view : (k : ℕ) → drop (p.pos + k) p.bytes ≡ drop k w
  drop-view k = drop-add p.bytes p.pos k ∙ ap (drop k) e

abbrev Steps : {A : Type 0} → Read A → Get A → Type 0
Steps r g = (p : Parser) (w : Bytes) → view p ≡ w → IsValid p → (observe (r p) ≡ g w) × Stays (r p)

refines : {A : Type 0} (r : Read A) (g : Get A) → Steps r g → Refines r g
refines r g s p v = s p (view p) refl v

read8-Steps : Steps read8 get8
unfolding read8
read8-Steps p [] e v = ground (arith, left-view p [] e)
read8-Steps p (b ∷ rest) e v =
    let w : Bytes = b ∷ rest in
    ground (arith, left-view p w e, byte-view p w e 0, drop-view p w e 1)

read16-Steps : Steps read16 get16
unfolding read16
read16-Steps p [] e v = ground (arith, left-view p [] e)
read16-Steps p (a ∷ []) e v = ground (arith, left-view p _ e)
read16-Steps p (a ∷ b ∷ rest) e v =
    let w : Bytes = a ∷ b ∷ rest in
    ground (arith, left-view p w e, byte-view p w e 0, byte-view p w e 1, drop-view p w e 2)

read32-Steps : Steps read32 get32
unfolding read32
read32-Steps p [] e v = ground (arith, left-view p [] e)
read32-Steps p (a ∷ []) e v = ground (arith, left-view p _ e)
read32-Steps p (a ∷ b ∷ []) e v = ground (arith, left-view p _ e)
read32-Steps p (a ∷ b ∷ c ∷ []) e v = ground (arith, left-view p _ e)
read32-Steps p (a ∷ b ∷ c ∷ d ∷ rest) e v =
    let w : Bytes = a ∷ b ∷ c ∷ d ∷ rest in
    ground (
      arith,
      left-view p w e,
      byte-view p w e 0,
      byte-view p w e 1,
      byte-view p w e 2,
      byte-view p w e 3,
      drop-view p w e 4,
    )

check_empty-Steps : Steps check_empty get_end
unfolding check_empty
check_empty-Steps p [] e v = ground (arith, left-view p [] e)
check_empty-Steps p (b ∷ rest) e v = ground (arith, left-view p (b ∷ rest) e)

drop_all : (bs : Bytes) → drop (length bs) bs ≡ []
drop_all [] = refl
drop_all (b ∷ bs) = drop_all bs

read_msgpack-Steps : {Obj : Type 0} ⦃m : Msgpack Obj⦄ → Steps (read_msgpack ⦃m = m⦄) get_msgpack
unfolding read_msgpack
read_msgpack-Steps p [] e v = ground (arith, left-view p [] e)
read_msgpack-Steps ⦃m⦄ p (b ∷ rest) e v =
    ground (arith, left-view p (b ∷ rest) e, e, drop_all p.bytes)

-- `get_string` by the place of the first zero.
get_string-find_zero :
    (w : Bytes)
    → get_string w ≡ (
        if find_zero w == length w
        then throw protocol_error
        else ok (take (find_zero w) w, drop (suc (find_zero w)) w))
unfolding find_zero
get_string-find_zero [] = refl
get_string-find_zero (b ∷ rest) = ground (arith, get_string-find_zero rest)

find_zero-le : (w : Bytes) → find_zero w ≤ length w
unfolding find_zero
find_zero-le [] = omega arith
find_zero-le (b ∷ rest) = ground (arith, find_zero-le rest)

read_string-Steps : Steps read_string get_string
unfolding read_string
read_string-Steps p w e v = ground (
  arith,
  e,
  left-view p w e,
  drop-view p w e (suc (find_zero w)),
  get_string-find_zero w,
  find_zero-le w,
)

bind_step :
    {A B : Type 0} (x : Except (A × Parser)) (y : Except (A × Bytes)) (k : A → Read B)
    (h : A → Get B)
    → observe x ≡ y
    → Stays x
    → ((a : A) → Refines (k a) (h a))
    → (observe (and_then x k) ≡ continue y h) × Stays (and_then x k)
bind_step (ok (a, p)) y k h e v later = rw (← e) (later a p v)
bind_step (throw e) y k h eq v later = rw (← eq) (refl, tt)

-- A method and then its continuation refine a reader and then its continuation.
pub bind-Refines :
    {A B : Type 0} (r : Read A) (g : Get A) (k : A → Read B) (h : A → Get B)
    → Refines r g
    → ((a : A) → Refines (k a) (h a))
    → Refines (r >>= k) (g >=> h)
bind-Refines r g k h first later p v =
    bind_step (r p) (g (view p)) k h (first p v).0 (first p v).1 later

pub pure-Refines : {A : Type 0} (a : A) → Refines (pure a) (λ bs. ok (a, bs))
pure-Refines a p v = (refl, v)

pub read8-Refines : Refines read8 get8
read8-Refines = refines read8 get8 read8-Steps

pub read16-Refines : Refines read16 get16
read16-Refines = refines read16 get16 read16-Steps

pub read32-Refines : Refines read32 get32
read32-Refines = refines read32 get32 read32-Steps

pub read_string-Refines : Refines read_string get_string
read_string-Refines = refines read_string get_string read_string-Steps

pub check_empty-Refines : Refines check_empty get_end
check_empty-Refines = refines check_empty get_end check_empty-Steps

pub read_msgpack-Refines :
    {Obj : Type 0} ⦃m : Msgpack Obj⦄ → Refines (read_msgpack ⦃m = m⦄) get_msgpack
read_msgpack-Refines = refines read_msgpack get_msgpack read_msgpack-Steps

module _ {Obj : Type 0} ⦃m : Msgpack Obj⦄ where
  -- Every method of the Parser is the reader of its name on the bytes that are left: the same
  -- value or the same exception, the same bytes left behind it, and `pos` stays within the array.
  pub methods-Refines :
      Refines read8 get8
      × Refines read16 get16
      × Refines read32 get32
      × Refines read_string get_string
      × Refines (read_msgpack ⦃m = m⦄) get_msgpack
      × Refines check_empty get_end
  methods-Refines = (
    read8-Refines, read16-Refines, read32-Refines, read_string-Refines, read_msgpack-Refines,
    check_empty-Refines,
  )

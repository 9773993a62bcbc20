-- ===== src/Base/SortedMap.antt =====
-- std::map and std::set of the standard library: an association list in the order of the keys.
pub mod Order
use eshetcpp.Base.{
  ℕ, ◌≡◌, refl, ◌↔◌, Bool, true, false, ◌&&◌, List, [], ◌∷◌, Option, none, some, arith, ltb,
  ◌==◌ as nat_beq, ==_iff, if◌then◌else◌, Option-cases, inl, inr,
}
use eshetcpp.Base.Bytes.{Bytes}

pub record Key (K : Type 0) : Type 0 where
  pub beq : K → K → Bool
  pub beq_iff : (a b : K) → (beq a b ≡ true) ↔ (a ≡ b)
  pub blt : K → K → Bool

pub bytes_beq : Bytes → Bytes → Bool
bytes_beq [] [] = true
bytes_beq [] (b ∷ bs) = false
bytes_beq (a ∷ as') [] = false
bytes_beq (a ∷ as') (b ∷ bs) = nat_beq a b && bytes_beq as' bs

pub bytes_beq_iff : (a b : Bytes) → (bytes_beq a b ≡ true) ↔ (a ≡ b)
unfolding bytes_beq
bytes_beq_iff [] [] = ground arith
bytes_beq_iff [] (b ∷ bs) = ground arith
bytes_beq_iff (a ∷ as') [] = ground arith
bytes_beq_iff (a ∷ as') (b ∷ bs) = ground (arith, bytes_beq_iff as' bs)

-- std::string compares its bytes as unsigned numbers, the shorter first.
bytes_blt : Bytes → Bytes → Bool
bytes_blt [] [] = false
bytes_blt [] (b ∷ bs) = true
bytes_blt (a ∷ as') [] = false
bytes_blt (a ∷ as') (b ∷ bs) = let rest = bytes_blt as' bs in if nat_beq a b then rest else ltb a b

instance abbrev pub nat_key : Key ℕ
nat_key = record { beq = nat_beq; beq_iff = ==_iff; blt = ltb }

instance abbrev pub bytes_key : Key Bytes
unfolding bytes_beq bytes_blt
bytes_key = record { beq = bytes_beq; beq_iff = bytes_beq_iff; blt = bytes_blt }

pub beq_self : {K : Type 0} (key : Key K) (k : K) → key.beq k k ≡ true
beq_self key k = (key.beq_iff k k).1 refl

-- `v` where there was a value.
abbrev or_absent : {V : Type 0} → Option V → V → Option V
or_absent none v = none
or_absent (some w) v = some v

module _ {K V : Type 0} ⦃key : Key K⦄ where
  -- find
  unfoldable pub lookup : K → List (K × V) → Option V
  lookup k [] = none
  lookup k ((j, v) ∷ m) = if key.beq k j then some v else lookup k m

  unfoldable pub insert : K → V → List (K × V) → List (K × V)
  insert k v [] = (k, v) ∷ []
  insert k v ((j, w) ∷ m) = if key.blt k j then (k, v) ∷ (j, w) ∷ m else (j, w) ∷ insert k v m

  unfoldable pub replace : K → V → List (K × V) → List (K × V)
  replace k v [] = []
  replace k v ((j, w) ∷ m) = (j, if key.beq k j then v else w) ∷ replace k v m

  -- emplace: a key that is there keeps its value.
  unfoldable pub emplace : K → V → List (K × V) → List (K × V)
  emplace k v m = elim (lookup k m) [ none ↦ insert k v m | some w ↦ m ]

  -- map[k] = v
  unfoldable pub assign : K → V → List (K × V) → List (K × V)
  assign k v m = elim (lookup k m) [ none ↦ insert k v m | some w ↦ replace k v m ]

  -- extract, and erase
  unfoldable pub erase : K → List (K × V) → List (K × V)
  erase k [] = []
  erase k ((j, w) ∷ m) = if key.beq k j then erase k m else (j, w) ∷ erase k m

  lookup-insert :
      (k j : K) (v : V) (m : List (K × V))
      → lookup k m ≡ none
      → lookup j (insert k v m) ≡ (if key.beq j k then some v else lookup j m)
  unfolding lookup insert
  lookup-insert k j v [] h = refl
  lookup-insert k j v ((i, w) ∷ m) h =
      ground (arith, key.beq_iff j i, key.beq_iff j k, key.beq_iff k i, lookup-insert k j v m)

  pub lookup-erase :
      (k j : K) (m : List (K × V))
      → lookup j (erase k m) ≡ (if key.beq j k then none else lookup j m)
  unfolding lookup erase
  lookup-erase k j [] = ground arith
  lookup-erase k j ((i, w) ∷ m) =
      ground (arith, key.beq_iff j i, key.beq_iff j k, key.beq_iff k i, lookup-erase k j m)

  lookup-replace :
      (k j : K) (v : V) (m : List (K × V))
      → lookup j (replace k v m) ≡ (if key.beq j k then or_absent (lookup j m) v else lookup j m)
  unfolding lookup replace
  lookup-replace k j v [] = ground arith
  lookup-replace k j v ((i, u) ∷ m) =
      ground (arith, key.beq_iff j i, key.beq_iff j k, key.beq_iff k i, lookup-replace k j v m)

  pub lookup-emplace :
      (k j : K) (v : V) (m : List (K × V))
      → lookup k m ≡ none
      → lookup j (emplace k v m) ≡ (if key.beq j k then some v else lookup j m)
  unfolding emplace
  lookup-emplace k j v m h = rw (h, emplace) (lookup-insert k j v m h)

  pub emplace_present :
      (k : K) (v w : V) (m : List (K × V)) → lookup k m ≡ some w → emplace k v m ≡ m
  unfolding emplace
  emplace_present k v w m h = rw (h, emplace)

  pub lookup-assign :
      (k j : K) (v : V) (m : List (K × V))
      → lookup j (assign k v m) ≡ (if key.beq j k then some v else lookup j m)
  unfolding assign
  lookup-assign k j v m = elim (Option-cases (lookup k m)) [
    | inl h ↦ rw (h, assign) (lookup-insert k j v m h)
    | inr (w, h) ↦ ground (arith, h, key.beq_iff j k, lookup-replace k j v m)
  ]

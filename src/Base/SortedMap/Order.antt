-- ===== src/Base/SortedMap/Order.antt =====
-- The entries of a std::map stand in the strict order of their keys.
use eshetcpp.Base.{
  ℕ, ◌≡◌, refl, true, false, List, [], ◌∷◌, none, arith, ltb, ◌==◌ as nat_beq, Option-cases,
  Bool-cases, inl, inr,
}
use eshetcpp.Base.Bytes.{Bytes}
use eshetcpp.Base.SortedMap.{
  Key, nat_key, bytes_key, bytes_beq, bytes_blt, lookup, insert, replace, emplace, assign, erase,
}

-- `blt` is a strict total order.
pub record Ordered {K : Type 0} (key : Key K) : Type 0 where
  pub total : (a b : K) → key.beq a b ≡ false → key.blt a b ≡ false → key.blt b a ≡ true
  pub trans : (a b c : K) → key.blt a b ≡ true → key.blt b c ≡ true → key.blt a c ≡ true
  pub irrefl : (a : K) → key.blt a a ≡ false

nat_total : (a b : ℕ) → nat_beq a b ≡ false → ltb a b ≡ false → ltb b a ≡ true
nat_total a b h k = ground arith

nat_trans : (a b c : ℕ) → ltb a b ≡ true → ltb b c ≡ true → ltb a c ≡ true
nat_trans a b c h k = ground arith

nat_irrefl : (a : ℕ) → ltb a a ≡ false
nat_irrefl a = ground arith

pub nat-Ordered : Ordered nat_key
nat-Ordered = record { total = nat_total; trans = nat_trans; irrefl = nat_irrefl }

bytes_total : (a b : Bytes) → bytes_beq a b ≡ false → bytes_blt a b ≡ false → bytes_blt b a ≡ true
unfolding bytes_beq bytes_blt
bytes_total [] [] h k = cc
bytes_total [] (b ∷ bs) h k = cc
bytes_total (a ∷ as') [] h k = refl
bytes_total (a ∷ as') (b ∷ bs) h k = ground (arith, bytes_total as' bs)

bytes_trans : (a b c : Bytes) → bytes_blt a b ≡ true → bytes_blt b c ≡ true → bytes_blt a c ≡ true
unfolding bytes_blt
bytes_trans [] [] c h k = cc
bytes_trans [] (b ∷ bs) [] h k = cc
bytes_trans [] (b ∷ bs) (c ∷ cs) h k = refl
bytes_trans (a ∷ as') [] c h k = cc
bytes_trans (a ∷ as') (b ∷ bs) [] h k = cc
bytes_trans (a ∷ as') (b ∷ bs) (c ∷ cs) h k = ground (arith, bytes_trans as' bs cs)

bytes_irrefl : (a : Bytes) → bytes_blt a a ≡ false
unfolding bytes_blt
bytes_irrefl [] = refl
bytes_irrefl (a ∷ as') = ground (arith, bytes_irrefl as')

pub bytes-Ordered : Ordered bytes_key
unfolding bytes_beq bytes_blt
bytes-Ordered = record { total = bytes_total; trans = bytes_trans; irrefl = bytes_irrefl }

module _ {K V : Type 0} (P : K → Type 0) where
  abbrev pub AllKeys : List (K × V) → Type 0
  AllKeys [] = Unit
  AllKeys ((k, v) ∷ m) = P k × AllKeys m

module _ {K V : Type 0} ⦃key : Key K⦄ where
  abbrev pub IsSorted : List (K × V) → Type 0
  IsSorted [] = Unit
  IsSorted ((k, v) ∷ m) = AllKeys {V = V} (λ j. key.blt k j ≡ true) m × IsSorted m

  insert-AllKeys :
      (P : K → Type 0) (k : K) (v : V) (m : List (K × V))
      → P k
      → AllKeys P m
      → AllKeys P (insert k v m)
  unfolding insert
  insert-AllKeys P k v [] p h = (p, tt)
  insert-AllKeys P k v ((j, w) ∷ m) p h = elim (Bool-cases (key.blt k j)) [
    | inl lt ↦ rw lt (p, h)
    | inr ge ↦ rw ge (h.0, insert-AllKeys P k v m p h.1)
  ]

  replace-AllKeys :
      (P : K → Type 0) (k : K) (v : V) (m : List (K × V)) → AllKeys P m → AllKeys P (replace k v m)
  unfolding replace
  replace-AllKeys P k v [] h = tt
  replace-AllKeys P k v ((j, w) ∷ m) h = (h.0, replace-AllKeys P k v m h.1)

  pub erase-AllKeys :
      (P : K → Type 0) (k : K) (m : List (K × V)) → AllKeys P m → AllKeys P (erase k m)
  unfolding erase
  erase-AllKeys P k [] h = tt
  erase-AllKeys P k ((j, w) ∷ m) h = elim (Bool-cases (key.beq k j)) [
    | inl eq ↦ rw eq (erase-AllKeys P k m h.1)
    | inr ne ↦ rw ne (h.0, erase-AllKeys P k m h.1)
  ]

  pub emplace-AllKeys :
      (P : K → Type 0) (k : K) (v : V) (m : List (K × V))
      → P k
      → AllKeys P m
      → AllKeys P (emplace k v m)
  unfolding emplace
  emplace-AllKeys P k v m p h = elim (Option-cases (lookup k m)) [
    | inl absent ↦ rw (absent, emplace) (insert-AllKeys P k v m p h)
    | inr (w, present) ↦ rw (present, emplace) h
  ]

module _ {K V : Type 0} ⦃key : Key K⦄ (ord : Ordered key) where
  AllKeys-trans :
      (j k : K) (m : List (K × V))
      → key.blt j k ≡ true
      → AllKeys (λ i. key.blt k i ≡ true) m
      → AllKeys (λ i. key.blt j i ≡ true) m
  AllKeys-trans j k [] e h = tt
  AllKeys-trans j k ((i, v) ∷ m) e h = (ord.trans j k i e h.0, AllKeys-trans j k m e h.1)

  insert-IsSorted :
      (k : K) (v : V) (m : List (K × V)) → lookup k m ≡ none → IsSorted m → IsSorted (insert k v m)
  unfolding insert lookup
  insert-IsSorted k v [] e h = (tt, tt)
  insert-IsSorted k v ((j, w) ∷ m) e h = elim (Bool-cases (key.blt k j)) [
    | inl lt ↦ rw lt ((lt, AllKeys-trans k j m lt h.0), h)
    | inr ge ↦ rw ge (
      insert-AllKeys (λ i. key.blt j i ≡ true) k v m (ord.total k j (ground arith) ge) h.0,
      insert-IsSorted k v m (ground arith) h.1,
    )
  ]

  replace-IsSorted : (k : K) (v : V) (m : List (K × V)) → IsSorted m → IsSorted (replace k v m)
  unfolding replace
  replace-IsSorted k v [] h = tt
  replace-IsSorted k v ((j, w) ∷ m) h =
      (replace-AllKeys (λ i. key.blt j i ≡ true) k v m h.0, replace-IsSorted k v m h.1)

  pub erase-IsSorted : (k : K) (m : List (K × V)) → IsSorted m → IsSorted (erase k m)
  unfolding erase
  erase-IsSorted k [] h = tt
  erase-IsSorted k ((j, w) ∷ m) h = elim (Bool-cases (key.beq k j)) [
    | inl eq ↦ rw eq (erase-IsSorted k m h.1)
    | inr ne ↦ rw ne (erase-AllKeys (λ i. key.blt j i ≡ true) k m h.0, erase-IsSorted k m h.1)
  ]

  pub emplace-IsSorted : (k : K) (v : V) (m : List (K × V)) → IsSorted m → IsSorted (emplace k v m)
  unfolding emplace
  emplace-IsSorted k v m h = elim (Option-cases (lookup k m)) [
    | inl absent ↦ rw (absent, emplace) (insert-IsSorted k v m absent h)
    | inr (w, present) ↦ rw (present, emplace) h
  ]

  pub assign-IsSorted : (k : K) (v : V) (m : List (K × V)) → IsSorted m → IsSorted (assign k v m)
  unfolding assign
  assign-IsSorted k v m h = elim (Option-cases (lookup k m)) [
    | inl absent ↦ rw (absent, assign) (insert-IsSorted k v m absent h)
    | inr (w, present) ↦ rw (present, assign) (replace-IsSorted k v m h)
  ]

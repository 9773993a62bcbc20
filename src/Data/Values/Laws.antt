-- ===== src/Data/Values/Laws.antt =====
-- The comparisons as equivalences, and `what`.
use eshetcpp.Base.{ℕ, ◌≡◌, refl, ◌∙◌, Bool, true, [], ◌++◌, ok}
use eshetcpp.Base.Bytes.{Bytes}
use eshetcpp.Base.Text.{codes}
use eshetcpp.Log.{c_str}
use eshetcpp.Msgpack.{Msgpack, CloneCopies, Objects}
use eshetcpp.Stringize.Render.{Tree, callbacks, IsSmall, render, append_msgpack-render}
use eshetcpp.Data.{StateUpdate}
use eshetcpp.Data.Values.{state_update_eq, ErrorText, what, copy_error}

-- operator== of msgpack objects is an equivalence.
pub record IsEquivalence {A : Type 0} (eq : A → A → Bool) : Type 0 where
  pub reflexive : (x : A) → eq x x ≡ true
  pub symmetric : (x y : A) → eq x y ≡ true → eq y x ≡ true
  pub transitive : (x y z : A) → eq x y ≡ true → eq y z ≡ true → eq x z ≡ true

module _ {Obj : Type 0} ⦃b : Objects Obj⦄ (h : IsEquivalence b.equal) where
  update_reflexive : (x : StateUpdate Obj) → state_update_eq x x ≡ true
  unfolding state_update_eq
  update_reflexive (StateUpdate.known x t) = h.reflexive x
  update_reflexive (StateUpdate.unknown t) = refl

  update_symmetric :
      (x y : StateUpdate Obj) → state_update_eq x y ≡ true → state_update_eq y x ≡ true
  unfolding state_update_eq
  update_symmetric (StateUpdate.known x t) (StateUpdate.known y u) e = h.symmetric x y e
  update_symmetric (StateUpdate.known x t) (StateUpdate.unknown u) e = e
  update_symmetric (StateUpdate.unknown t) (StateUpdate.known y u) e = e
  update_symmetric (StateUpdate.unknown t) (StateUpdate.unknown u) e = refl

  update_transitive :
      (x y z : StateUpdate Obj)
      → state_update_eq x y ≡ true
      → state_update_eq y z ≡ true
      → state_update_eq x z ≡ true
  unfolding state_update_eq
  update_transitive (StateUpdate.known x t) (StateUpdate.known y u) (StateUpdate.known z v) e f =
      h.transitive x y z e f
  update_transitive (StateUpdate.known x t) (StateUpdate.known y u) (StateUpdate.unknown v) e f = f
  update_transitive (StateUpdate.known x t) (StateUpdate.unknown u) z e f = cc
  update_transitive (StateUpdate.unknown t) (StateUpdate.known y u) z e f = cc
  update_transitive (StateUpdate.unknown t) (StateUpdate.unknown u) (StateUpdate.known z v) e f = f
  update_transitive (StateUpdate.unknown t) (StateUpdate.unknown u) (StateUpdate.unknown v) e f =
      refl

  -- If operator== of msgpack objects is an equivalence, that of StateUpdate is one, and it does not
  -- look at the times: it holds of a Known or Unknown and the same one with another time.
  pub state_update_eq-IsEquivalence :
      IsEquivalence (state_update_eq {Obj = Obj})
      × ((o : Obj) (t u : ℕ)
          → state_update_eq (StateUpdate.known o t) (StateUpdate.known o u) ≡ true)
      × ((t u : ℕ)
          → state_update_eq {Obj = Obj} (StateUpdate.unknown t) (StateUpdate.unknown u) ≡ true)
  unfolding state_update_eq
  state_update_eq-IsEquivalence = (
    record {
      reflexive = update_reflexive;
      symmetric = update_symmetric;
      transitive = update_transitive;
    },
    λ o t u. h.reflexive o,
    λ t u. refl,
  )

module _ {Obj : Type 0} ⦃m : Msgpack Obj⦄ where
  fresh-what :
      (o : Obj) (t : Tree)
      → m.parse o ≡ callbacks t
      → IsSmall t
      → let text : Bytes = (codes "Error(" ++ render t) ++ codes ")" in
        what (record { value = o; error_str = [] })
        ≡ ok (c_str text, record { value = o; error_str = text })
  unfolding what
  fresh-what o t e h = rw (append_msgpack-render o t (codes "Error(") e h) refl

  -- The first call of what() on an Error whose object visits a tree keeps "Error(", the text of the tree
  -- and ")", and gives it up to its first zero byte; every later call gives the same and changes nothing.
  -- A copy, whose clone is visited as the object was, gives the same and keeps the same text.
  pub what-render :
      (o : Obj) (t : Tree)
      → CloneCopies m
      → m.parse o ≡ callbacks t
      → IsSmall t
      → let text : Bytes = (codes "Error(" ++ render t) ++ codes ")" in
        let fresh : ErrorText Obj = record { value = o; error_str = [] } in
        let kept : ErrorText Obj = record { value = o; error_str = text } in
        (what fresh ≡ ok (c_str text, kept))
        × (what kept ≡ ok (c_str text, kept))
        × (what (copy_error kept) ≡ ok (c_str text, record { value = m.clone o; error_str = text }))
  unfolding what copy_error
  what-render o t copies e h =
      (fresh-what o t e h, refl, fresh-what (m.clone o) t (copies.parse-clone o ∙ e) h)

-- ===== src/Client/Steps/Code.antt =====
-- Code that makes only such steps, and how it is put together.
use eshetcpp.Base.{
  ℕ, ◌+◌, ◌%◌, ◌^◌, ◌<◌, ◌≡◌, refl, Bool, true, false, List, [], ◌∷◌, Except, ok, throw,
  if◌then◌else◌,
}
use eshetcpp.Msgpack.{Msgpack}
use eshetcpp.Client.State.{Network, Client}
use eshetcpp.Client.Outcome.{Outcome, done, raised, blocked, M, and_then, ◌>>=◌, lift}
use eshetcpp.Client.Commands.{get_id}
use eshetcpp.Client.Steps.{
  Step, Steps, Reaches, here, next, takes_id, Steps-trans, Reaches-trans, Steps-Reaches, one,
}
use eshetcpp.Client.Steps.Frames.{Frames, untouched, Frames-trans, Step-Frames}

abbrev pub IdFits : {Obj : Type 0} → Client Obj → Type 0
IdFits c = c.next_id < 2 ^ 16

module _ {Obj : Type 0} where
  -- However the code ends, the client that it leaves is so related to this one.
  abbrev pub Ends : {A : Type 0} → (Client Obj → Type 0) → Outcome Obj A → Type 0
  Ends P (done a c) = P c
  Ends P (raised e c) = P c
  Ends P (blocked c) = P c

  pub Ends-map :
      {A : Type 0} (P Q : Client Obj → Type 0) (o : Outcome Obj A)
      → ((c : Client Obj) → P c → Q c)
      → Ends P o
      → Ends Q o
  Ends-map P Q (done a c) f h = f c h
  Ends-map P Q (raised e c) f h = f c h
  Ends-map P Q (blocked c) f h = f c h

  pub Ends-and_then :
      {A B : Type 0} (P Q : Client Obj → Type 0) (o : Outcome Obj A) (k : A → M Obj B)
      → ((c : Client Obj) → P c → Q c)
      → Ends P o
      → ((a : A) (c : Client Obj) → P c → Ends Q (k a c))
      → Ends Q (and_then o k)
  Ends-and_then P Q (done a c) k f h later = later a c h
  Ends-and_then P Q (raised e c) k f h later = f c h
  Ends-and_then P Q (blocked c) k f h later = f c h

module _ {Obj : Type 0} ⦃m : Msgpack Obj⦄ ⦃net : Network⦄ where
  pub Steps-Frames : {c d : Client Obj} → Steps c d → Frames c d
  Steps-Frames here = untouched refl refl
  Steps-Frames (next s st) = Frames-trans (Steps-Frames s) (Step-Frames st)

  -- The code makes steps, and does not wait.
  abbrev pub Works : {A : Type 0} → M Obj A → Type 0
  Works x = (c : Client Obj) → IdFits c → Ends (Steps c) (x c)

  -- The code makes steps and waits.
  abbrev pub Runs : {A : Type 0} → M Obj A → Type 0
  Runs x = (c : Client Obj) → IdFits c → Ends (λ d. Reaches c d × IdFits d) (x c)

  pub bind-Works :
      {A B : Type 0} (x : M Obj A) (k : A → M Obj B)
      → Works x
      → ((a : A) → Works (k a))
      → Works (x >>= k)
  bind-Works x k h later c f =
      Ends-and_then (Steps c) (Steps c) (x c) k (λ d s. s) (h c f)
        λ a d s.
          Ends-map (Steps d) (Steps c) (k a d) (λ e t. Steps-trans s t)
            (later a d ((Steps-Frames s).next_id_fits f))

  pub lift-Works : {A : Type 0} (x : Except A) → Works (lift x)
  lift-Works (ok a) c f = here
  lift-Works (throw e) c f = here

  pub lift_then :
      {A B : Type 0} (x : Except A) (k : A → M Obj B)
      → ((a : A) → Works (k a))
      → Works (lift x >>= k)
  lift_then x k h = bind-Works (lift x) k (lift-Works x) h

  pub if-Works :
      {A : Type 0} (b : Bool) (x y : M Obj A) → Works x → Works y → Works (if b then x else y)
  if-Works true x y hx hy = hx
  if-Works false x y hx hy = hy

  -- One step, and then the code.
  pub step_then :
      {A : Type 0} {c d : Client Obj} (o : Outcome Obj A)
      → Step c d
      → Ends (Steps d) o
      → Ends (Steps c) o
  step_then {c} {d} o st h = Ends-map (Steps d) (Steps c) o (λ e s. Steps-trans (one st) s) h

  -- An id is taken and what follows is given it.
  pub get_id_then :
      {B : Type 0} (k : ℕ → M Obj B)
      → ((id : ℕ) → id < 2 ^ 16 → Works (k id))
      → Works (get_id >>= k)
  unfolding get_id
  get_id_then k later c f =
      let d = record c { next_id = (c.next_id + 1) % 2 ^ 16 } in
      step_then {c = c} {d = d} (k c.next_id d) takes_id
        (later c.next_id f d ((Step-Frames {c = c} {d = d} takes_id).next_id_fits f))

  pub Works-Runs : {A : Type 0} (x : M Obj A) → Works x → Runs x
  Works-Runs x h c f =
      Ends-map (Steps c) (λ d. Reaches c d × IdFits d) (x c)
        (λ d s. (Steps-Reaches s, (Steps-Frames s).next_id_fits f)) (h c f)

  -- What goes on from a reached client.
  pub Reaches-then :
      {A : Type 0} {c d : Client Obj} (o : Outcome Obj A)
      → Reaches c d
      → Ends (λ e. Reaches d e × IdFits e) o
      → Ends (λ e. Reaches c e × IdFits e) o
  Reaches-then {c} {d} o r h =
      Ends-map (λ e. Reaches d e × IdFits e) (λ e. Reaches c e × IdFits e) o
        (λ e s. (Reaches-trans r s.0, s.1)) h

  pub bind-Runs :
      {A B : Type 0} (x : M Obj A) (k : A → M Obj B)
      → Runs x
      → ((a : A) → Runs (k a))
      → Runs (x >>= k)
  bind-Runs x k h later c f =
      Ends-and_then (λ d. Reaches c d × IdFits d) (λ d. Reaches c d × IdFits d) (x c) k (λ d r. r)
        (h c f) λ a d r. Reaches-then {c = c} {d = d} (k a d) r.0 (later a d r.1)

  pub elim-Runs :
      {A : Type 0} (b : Bool) (x y : M Obj A)
      → Runs x
      → Runs y
      → Runs (elim b [ true ↦ x | false ↦ y ])
  elim-Runs true x y hx hy = hx
  elim-Runs false x y hx hy = hy

  -- Code with no wait in it leaves the turns to what comes behind it.
  pub works_then :
      {A B : Type 0} (o : Outcome Obj A) (k : A → M Obj B) (c : Client Obj)
      → IdFits c
      → Ends (Steps c) o
      → ((a : A) (d : Client Obj)
          → d.turns ≡ c.turns
          → IdFits d
          → Ends (λ e. Reaches d e × IdFits e) (k a d))
      → Ends (λ e. Reaches c e × IdFits e) (and_then o k)
  works_then o k c f h later =
      Ends-and_then (Steps c) (λ d. Reaches c d × IdFits d) o k
        (λ d s. (Steps-Reaches s, (Steps-Frames s).next_id_fits f)) h
        λ a d s.
          Reaches-then {c = c} {d = d} (k a d) (Steps-Reaches s)
            (later a d (Steps-Frames s).same_turns ((Steps-Frames s).next_id_fits f))

  -- A read of a channel of the client.
  pub list_read :
      {X : Type 0} (c : Client Obj) (leaves : List X → Client Obj) (l : List X)
      → ((x : X) (rest : List X) → l ≡ x ∷ rest → Step c (leaves rest))
      → Ends
          (Steps c)
          (elim l as (λ l. Outcome Obj X) [ [] ↦ blocked c | x ∷ rest ↦ done x (leaves rest) ])
  list_read c leaves [] there = here
  list_read c leaves (x ∷ rest) there = one (there x rest refl)

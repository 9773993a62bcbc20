-- ===== src/Client/Outcome.antt =====
-- Code on the client's state: it returns, throws, or waits for what the given turns do not bring.
use eshetcpp.Base.{[], ◌∷◌, ◌++◌, Except, ok, throw, Exception}
use eshetcpp.Data.{Result, StateResult}
use eshetcpp.Client.State.{Client, Effect, ResultChannel, StateChannel, pushes_result, pushes_state}

pub data Outcome (Obj A : Type 0) : Type 0 where
  done : A → Client Obj → Outcome Obj A
  raised : Exception → Client Obj → Outcome Obj A
  blocked : Client Obj → Outcome Obj A

abbrev pub M : Type 0 → Type 0 → Type 0
M Obj A = Client Obj → Outcome Obj A

module _ {Obj : Type 0} where
  abbrev pub and_then : {A B : Type 0} → Outcome Obj A → (A → M Obj B) → Outcome Obj B
  and_then (done a c) k = k a c
  and_then (raised e c) k = raised e c
  and_then (blocked c) k = blocked c

  infixl 5 ◌>>=◌ ◌>>◌
  abbrev pub ◌>>=◌ : {A B : Type 0} → M Obj A → (A → M Obj B) → M Obj B
  m >>= k = λ c. and_then (m c) k

  abbrev pub ◌>>◌ : {B : Type 0} → M Obj (Unit {0}) → M Obj B → M Obj B
  m >> n = m >>= λ _. n

  abbrev pub pure : {A : Type 0} → A → M Obj A
  pure a = done a

  abbrev pub raise : {A : Type 0} → Exception → M Obj A
  raise e = raised e

  abbrev pub lift : {A : Type 0} → Except A → M Obj A
  lift (ok a) = done a
  lift (throw e) = raised e

  abbrev pub read_state : {A : Type 0} → (Client Obj → A) → M Obj A
  read_state f c = done (f c) c

  abbrev pub update : (Client Obj → Client Obj) → M Obj (Unit {0})
  update f c = done tt (f c)

  abbrev pub emit : Effect Obj → Client Obj → Client Obj
  emit e c = record c { effects = c.effects ++ e ∷ [] }

  -- Channel<Result>::push
  unfoldable pub push_result : ResultChannel → Result Obj → Client Obj → Client Obj
  push_result (ResultChannel.user n) r c = emit (pushes_result n r) c
  push_result ResultChannel.ping r c = record c { ping_result = c.ping_result ++ r ∷ [] }
  push_result ResultChannel.local r c = record c { local_results = c.local_results ++ r ∷ [] }

  -- Channel<StateResult>::push
  unfoldable pub push_state : StateChannel → StateResult Obj → Client Obj → Client Obj
  push_state (StateChannel.user n) r c = emit (pushes_state n r) c
  push_state StateChannel.local r c = record c { local_states = c.local_states ++ r ∷ [] }

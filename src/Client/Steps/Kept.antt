-- ===== src/Client/Steps/Kept.antt =====
-- The observed states, while the client of include/eshet.hpp waits for a reply.
use eshetcpp.Base.{
  ℕ, zero, suc, ◌≡◌, refl, ◌∙◌, Bool, true, false, List, [], ◌∷◌, ◌++◌, Option, none, some, length,
  Except, ok, throw,
}
use eshetcpp.Base.Bytes.{Bytes}
use eshetcpp.Base.Text.{codes}
use eshetcpp.Base.SortedMap.{emplace, nat_key}
use eshetcpp.Msgpack.{Msgpack}
use eshetcpp.Data.{Result, StateResult}
use eshetcpp.Stringize.{append_msgpack}
use eshetcpp.Wire.Unpacker.{Unpacker}
use eshetcpp.Wire.Unpacker
use eshetcpp.Client.State.{
  Client, Turn, Ready, Arrival, received, closed, replied, commanded, told_to_exit, ResultChannel,
  StateChannel, results, states,
}
use eshetcpp.Client.Api.{arrive}
use eshetcpp.Client.Outcome.{Outcome, done, raised, blocked, M, and_then, ◌>>=◌, pure, lift}
use eshetcpp.Client.Commands.{expect_reply}
use eshetcpp.Client.Messages.{handle_message}
use eshetcpp.Client.Messages.Untouched.{Stays, handle_message-Stays}
use eshetcpp.Client.Waiting.{
  arrive_all, take_turn, read_close, read_message, push_unpacker, read_unpacker, unpacked,
  next_message, handle_messages, receive,
}
use eshetcpp.Client.Register.{
  read_local_result, read_local_state, unless_failed, reply_case, wait_loop, wait_for_reply,
  wait_for_state, log_error, check_result, handle_state_reply,
}

-- If it returns, the observed states are those of this client.
abbrev pub Keeps : {Obj A : Type 0} → Client Obj → Outcome Obj A → Type 0
Keeps b (done a c) = c.observed_states ≡ b.observed_states
Keeps b (raised e c) = Unit {0}
Keeps b (blocked c) = Unit {0}

module _ {Obj : Type 0} where
  abbrev pub IsKeeping : {A : Type 0} → M Obj A → Type 0
  IsKeeping x = (c : Client Obj) → Keeps c (x c)

  pub Keeps-trans :
      {A : Type 0} (b c : Client Obj) (o : Outcome Obj A)
      → c.observed_states ≡ b.observed_states
      → Keeps c o
      → Keeps b o
  Keeps-trans b c (done a d) e h = h ∙ e
  Keeps-trans b c (raised x d) e h = tt
  Keeps-trans b c (blocked d) e h = tt

  and_then-Keeps :
      {A B : Type 0} (b : Client Obj) (o : Outcome Obj A) (k : A → M Obj B)
      → Keeps b o
      → ((a : A) → IsKeeping (k a))
      → Keeps b (and_then o k)
  and_then-Keeps b (done a c) k h later = Keeps-trans b c (k a c) h (later a c)
  and_then-Keeps b (raised x c) k h later = tt
  and_then-Keeps b (blocked c) k h later = tt

  pub bind-IsKeeping :
      {A B : Type 0} (x : M Obj A) (k : A → M Obj B)
      → IsKeeping x
      → ((a : A) → IsKeeping (k a))
      → IsKeeping (x >>= k)
  bind-IsKeeping x k h later c = and_then-Keeps c (x c) k (h c) later

  lift-IsKeeping : {A : Type 0} (x : Except A) → IsKeeping (lift x)
  lift-IsKeeping (ok a) c = refl
  lift-IsKeeping (throw e) c = tt

  pub unless_failed-IsKeeping :
      (x y : M Obj Bool) → IsKeeping x → IsKeeping y → IsKeeping (unless_failed x y)
  unless_failed-IsKeeping x y hx hy = bind-IsKeeping x _ hx λ ok. branch ok
    where
      branch :
          (ok : Bool) → IsKeeping (elim ok as (λ b. M Obj Bool) [ true ↦ y | false ↦ pure false ])
      branch true = hy
      branch false = λ c. refl

  -- A read of a channel.
  read-Keeps :
      {X : Type 0} (c : Client Obj) (leaves : List X → Client Obj) (l : List X)
      → ((rest : List X) → (leaves rest).observed_states ≡ c.observed_states)
      → Keeps c
          (elim l as (λ l. Outcome Obj X) [ [] ↦ blocked c | x ∷ rest ↦ done x (leaves rest) ])
  read-Keeps c leaves [] same = tt
  read-Keeps c leaves (x ∷ rest) same = same rest

  close-Keeps :
      (c : Client Obj) (n : ℕ)
      → Keeps c (elim n as (λ n. Outcome Obj (Unit {0})) [
        | zero ↦ blocked c
        | suc n ↦ done tt (record c { on_close = n })
      ])
  close-Keeps c zero = tt
  close-Keeps c (suc n) = refl

  read_close-IsKeeping : IsKeeping {A = Unit {0}} read_close
  unfolding read_close
  read_close-IsKeeping c = close-Keeps c c.on_close

  unpacked-Keeps : (r : Except (Option Bytes × Unpacker)) (c : Client Obj) → Keeps c (unpacked r c)
  unpacked-Keeps (ok (message, u)) c = refl
  unpacked-Keeps (throw e) c = tt

  arrive-observed :
      (a : Arrival Obj) (c : Client Obj) → (arrive a c).observed_states ≡ c.observed_states
  unfolding arrive
  arrive-observed (received bytes) c = refl
  arrive-observed closed c = refl
  arrive-observed (replied connection_id id r) c = refl
  arrive-observed (commanded command) c = refl
  arrive-observed told_to_exit c = refl

  arrive_all-observed :
      (as' : List (Arrival Obj)) (c : Client Obj)
      → (arrive_all as' c).observed_states ≡ c.observed_states
  unfolding arrive_all
  arrive_all-observed [] c = refl
  arrive_all-observed (a ∷ as') c = arrive_all-observed as' (arrive a c) ∙ arrive-observed a c

  take_turn-IsKeeping : (t : Turn Obj) (ts : List (Turn Obj)) → IsKeeping (take_turn t ts)
  unfolding take_turn
  take_turn-IsKeeping t ts c =
      arrive_all-observed t.arrivals (record c { turns = ts; now = t.time })

module _ {Obj : Type 0} ⦃m : Msgpack Obj⦄ where
  Stays-Keeps : {A : Type 0} (b : Client Obj) (o : Outcome Obj A) → Stays b o → Keeps b o
  Stays-Keeps b (done a c) h = h.1
  Stays-Keeps b (raised e c) h = tt
  Stays-Keeps b (blocked c) h = tt

  next-IsKeeping :
      (message : Option Bytes) (rest : M Obj (Unit {0}))
      → IsKeeping rest
      → IsKeeping (next_message message rest)
  next-IsKeeping none rest h = λ c. refl
  next-IsKeeping (some message) rest h =
      bind-IsKeeping (handle_message message) (λ _. rest)
        (λ c. Stays-Keeps c (handle_message message c) (handle_message-Stays message c)) (λ _. h)

  handle_messages-IsKeeping : (fuel : ℕ) → IsKeeping {Obj = Obj} (handle_messages fuel)
  unfolding handle_messages read_unpacker
  handle_messages-IsKeeping zero = λ c. refl
  handle_messages-IsKeeping (suc fuel) =
      bind-IsKeeping _ (λ message. next_message message (handle_messages fuel))
        (λ c. unpacked-Keeps (Unpacker.read c.unpacker) c)
        (λ message. next-IsKeeping message (handle_messages fuel) (handle_messages-IsKeeping fuel))

  receive-IsKeeping : IsKeeping {Obj = Obj} receive
  unfolding receive read_message push_unpacker
  receive-IsKeeping c =
      and_then-Keeps c _ _
        (read-Keeps c (λ rest. record c { on_message = rest }) c.on_message (λ rest. refl))
        λ bytes d.
          let e : Client Obj = record d { unpacker = Unpacker.push bytes d.unpacker } in
          Keeps-trans d e (handle_messages (suc (length e.unpacker.buffer)) e) refl
            (handle_messages-IsKeeping (suc (length e.unpacker.buffer)) e)

  reply_case-IsKeeping :
      {R : Type 0} (read : M Obj R) (ready : Ready) (again : M Obj (Option R))
      → IsKeeping read
      → IsKeeping again
      → IsKeeping (reply_case read ready again)
  unfolding reply_case
  reply_case-IsKeeping read Ready.on_close again kr k =
      bind-IsKeeping read_close _ read_close-IsKeeping (λ _ c. refl)
  reply_case-IsKeeping read Ready.on_message again kr k =
      bind-IsKeeping receive _ receive-IsKeeping (λ _. k)
  reply_case-IsKeeping read Ready.local_result again kr k = bind-IsKeeping read _ kr (λ r c. refl)
  reply_case-IsKeeping read Ready.should_exit again kr k = λ c. refl
  reply_case-IsKeeping read _ again kr k = λ c. tt

  wait_loop-IsKeeping :
      {R : Type 0} (read : M Obj R) (ts : List (Turn Obj))
      → IsKeeping read
      → IsKeeping (wait_loop read ts)
  unfolding wait_loop
  wait_loop-IsKeeping read [] kr = λ c. tt
  wait_loop-IsKeeping read (t ∷ ts) kr =
      bind-IsKeeping (take_turn t ts) _ (take_turn-IsKeeping t ts) (λ _.
        reply_case-IsKeeping read t.ready (wait_loop read ts) kr (wait_loop-IsKeeping read ts kr))

  pub wait_for_reply-IsKeeping : (id : ℕ) → IsKeeping {Obj = Obj} (wait_for_reply id)
  unfolding wait_for_reply expect_reply read_local_result
  wait_for_reply-IsKeeping id c =
      let d : Client Obj = record c {
        local_results = [];
        reply_channels = emplace id (results ResultChannel.local) c.reply_channels;
      } in
      let reads : IsKeeping {Obj = Obj} read_local_result = λ c.
        read-Keeps c (λ rest. record c { local_results = rest }) c.local_results (λ rest. refl) in
      Keeps-trans c d (wait_loop read_local_result c.turns d) refl
        (wait_loop-IsKeeping read_local_result c.turns reads d)

  pub wait_for_state-IsKeeping : (id : ℕ) → IsKeeping {Obj = Obj} (wait_for_state id)
  unfolding wait_for_state expect_reply read_local_state
  wait_for_state-IsKeeping id c =
      let d : Client Obj = record c {
        local_states = [];
        reply_channels = emplace id (states StateChannel.local) c.reply_channels;
      } in
      let reads : IsKeeping {Obj = Obj} read_local_state = λ c.
        read-Keeps c (λ rest. record c { local_states = rest }) c.local_states (λ rest. refl) in
      Keeps-trans c d (wait_loop read_local_state c.turns d) refl
        (wait_loop-IsKeeping read_local_state c.turns reads d)

  log_error-IsKeeping : (path : Bytes) (value : Obj) → IsKeeping (log_error path value)
  unfolding log_error
  log_error-IsKeeping path value =
      bind-IsKeeping
        (lift (append_msgpack (codes "error while adding " ++ (path ++ codes ": ")) value)) _
        (lift-IsKeeping _) (λ text c. refl)

  pub check_result-IsKeeping :
      (path : Bytes) (r : Option (Result Obj)) → IsKeeping (check_result path r)
  unfolding check_result
  check_result-IsKeeping path none = λ c. refl
  check_result-IsKeeping path (some (Result.success value)) = λ c. refl
  check_result-IsKeeping path (some (Result.error value)) = log_error-IsKeeping path value

  pub handle_state_reply-IsKeeping :
      (path : Bytes) (channel : ℕ) (r : Option (StateResult Obj))
      → IsKeeping (handle_state_reply path channel r)
  unfolding handle_state_reply
  handle_state_reply-IsKeeping path channel none = λ c. refl
  handle_state_reply-IsKeeping path channel (some (StateResult.known value t)) = λ c. refl
  handle_state_reply-IsKeeping path channel (some (StateResult.unknown t)) = λ c. refl
  handle_state_reply-IsKeeping path channel (some (StateResult.error value)) =
      log_error-IsKeeping path value

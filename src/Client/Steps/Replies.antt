-- ===== src/Client/Steps/Replies.antt =====
-- wait_for_reply of include/eshet.hpp and what is done with the reply, in steps.
use eshetcpp.Base.{
  ℕ, ◌^◌, ◌<◌, ◌≡◌, refl, ◌∙◌, Bool, false, List, [], ◌∷◌, ◌++◌, Option, none, some,
}
use eshetcpp.Base.Bytes.{Bytes}
use eshetcpp.Base.Text.{codes}
use eshetcpp.Msgpack.{Msgpack}
use eshetcpp.Data.{Result, StateResult, StateUpdate}
use eshetcpp.Stringize.{append_msgpack}
use eshetcpp.Client.State.{
  Client, Network, Turn, Ready, ReplyChannel, ResultChannel, StateChannel, results, states, logs,
  pushes_update, Effect,
}
use eshetcpp.Client.Outcome.{M, ◌>>=◌, ◌>>◌, pure, update, emit}
use eshetcpp.Client.Commands.{expect_reply}
use eshetcpp.Client.Waiting.{read_close, receive}
use eshetcpp.Client.Register.{
  read_local_result, read_local_state, unless_failed, reply_case, wait_loop, wait_for_reply,
  wait_for_state, log_error, check_result, check_success, handle_state_reply,
}
use eshetcpp.Client.Steps.{
  Steps, here, one, start, step, IsNotice, notifies, logs_line, observes_again,
  local_results_become, local_states_become,
}
use eshetcpp.Client.Steps.Code.{
  IdFits, Ends, Works, Runs, bind-Works, lift_then, list_read, Works-Runs, bind-Runs, elim-Runs,
  works_then, Reaches-then,
}
use eshetcpp.Client.Steps.Waits.{WaitsFor, wait_then}
use eshetcpp.Client.Steps.Commands.{expect_reply-Works}
use eshetcpp.Client.Steps.Messages.{read_close-Works, receive-Works}

module _ {Obj : Type 0} ⦃m : Msgpack Obj⦄ ⦃net : Network⦄ where
  read_local_result-Works : Works {Obj = Obj} read_local_result
  unfolding read_local_result
  read_local_result-Works c f =
      list_read c (λ rest. record c { local_results = rest }) c.local_results
        (λ x rest e. local_results_become rest)

  read_local_state-Works : Works {Obj = Obj} read_local_state
  unfolding read_local_state
  read_local_state-Works c f =
      list_read c (λ rest. record c { local_states = rest }) c.local_states
        (λ x rest e. local_states_become rest)

  pub unless_failed-Runs : (x rest : M Obj Bool) → Runs x → Runs rest → Runs (unless_failed x rest)
  unless_failed-Runs x rest kx kr =
      bind-Runs x _ kx λ b. elim-Runs b rest (pure false) kr (λ c f. (start, f))

  notice_then :
      {A : Type 0} (e : Effect Obj) (x : A)
      → ((c : Client Obj) → IsNotice c e)
      → Works (update (emit e) >> pure x)
  notice_then e x h c f = one (notifies e (h c))

  reply_case-WaitsFor :
      {R : Type 0} (read : M Obj R) (ready : Ready) (again : M Obj (Option R))
      (ts : List (Turn Obj))
      → Works read
      → WaitsFor ts again
      → WaitsFor ts (reply_case read ready again)
  unfolding reply_case
  reply_case-WaitsFor read Ready.on_close again ts kr k = λ c e f.
      Works-Runs (read_close >> pure none)
        (bind-Works read_close _ read_close-Works (λ _ c f. here)) c f
  reply_case-WaitsFor read Ready.on_message again ts kr k =
      λ c e f. works_then (receive c) _ c f (receive-Works c f) λ _ d same fits. k d (same ∙ e) fits
  reply_case-WaitsFor read Ready.local_result again ts kr k =
      λ c e f. Works-Runs (read >>= λ r. pure (some r)) (bind-Works read _ kr (λ r c f. here)) c f
  reply_case-WaitsFor read _ again ts kr k = λ c e f. (start, f)

  wait_loop-WaitsFor :
      {R : Type 0} (read : M Obj R) (ts : List (Turn Obj))
      → Works read
      → WaitsFor ts (wait_loop read ts)
  unfolding wait_loop
  wait_loop-WaitsFor read [] kr = λ c e f. (start, f)
  wait_loop-WaitsFor read (t ∷ ts) kr =
      wait_then t ts (reply_case read t.ready (wait_loop read ts))
        (reply_case-WaitsFor read t.ready (wait_loop read ts) ts kr (wait_loop-WaitsFor read ts kr))

  -- The local channel of a reply is made and its id is expected, and then the code waits.
  expecting :
      {R : Type 0} (read : M Obj R) (id : ℕ) (chan : ReplyChannel)
      → Works read
      → Works {Obj = Obj} (expect_reply id chan)
      → Runs (expect_reply id chan >> λ c. wait_loop read c.turns c)
  expecting read id chan kr ke =
      bind-Runs (expect_reply id chan) _ (Works-Runs (expect_reply id chan) ke)
        (λ _ c f. wait_loop-WaitsFor read c.turns kr c refl f)

  wait_for_reply-Runs : (id : ℕ) → id < 2 ^ 16 → Runs {Obj = Obj} (wait_for_reply id)
  unfolding wait_for_reply
  wait_for_reply-Runs id lt c f =
      let chan : ReplyChannel = results ResultChannel.local in
      Reaches-then {c = c} {d = record c { local_results = [] }} _
        (step start (local_results_become []))
        (expecting read_local_result id chan read_local_result-Works
          (expect_reply-Works id chan lt tt) (record c { local_results = [] }) f)

  pub wait_for_state-Runs : (id : ℕ) → id < 2 ^ 16 → Runs {Obj = Obj} (wait_for_state id)
  unfolding wait_for_state
  wait_for_state-Runs id lt c f =
      let chan : ReplyChannel = states StateChannel.local in
      Reaches-then {c = c} {d = record c { local_states = [] }} _
        (step start (local_states_become []))
        (expecting read_local_state id chan read_local_state-Works
          (expect_reply-Works id chan lt tt) (record c { local_states = [] }) f)

  log_error-Works : (path : Bytes) (value : Obj) → Works (log_error path value)
  unfolding log_error
  log_error-Works path value =
      lift_then (append_msgpack (codes "error while adding " ++ (path ++ codes ": ")) value) _
        (λ text. notice_then (logs text) false (λ c. logs_line text))

  check_result-Works : (path : Bytes) (r : Option (Result Obj)) → Works (check_result path r)
  unfolding check_result
  check_result-Works path none = λ c f. here
  check_result-Works path (some (Result.success value)) = λ c f. here
  check_result-Works path (some (Result.error value)) = log_error-Works path value

  pub check_success-Runs :
      (id : ℕ) (path : Bytes) → id < 2 ^ 16 → Runs {Obj = Obj} (check_success id path)
  unfolding check_success
  check_success-Runs id path lt =
      bind-Runs (wait_for_reply id) (check_result path) (wait_for_reply-Runs id lt)
        (λ r. Works-Runs (check_result path r) (check_result-Works path r))

  -- The channel that hears of a state is one of the observed states.
  pub handle_state_reply-Steps :
      (before after : List (Bytes × ℕ)) (path : Bytes) (channel : ℕ) (r : Option (StateResult Obj))
      (c : Client Obj)
      → c.observed_states ≡ before ++ (path, channel) ∷ after
      → IdFits c
      → Ends (Steps c) (handle_state_reply path channel r c)
  unfolding handle_state_reply
  handle_state_reply-Steps before after path channel none c e f = here
  handle_state_reply-Steps before after path channel (some (StateResult.known value t)) c e f =
      let u : StateUpdate Obj = StateUpdate.known value t in
      one (notifies (pushes_update channel u) (observes_again before after path channel u e))
  handle_state_reply-Steps before after path channel (some (StateResult.unknown t)) c e f =
      let u : StateUpdate Obj = StateUpdate.unknown t in
      one (notifies (pushes_update channel u) (observes_again before after path channel u e))
  handle_state_reply-Steps before after path channel (some (StateResult.error value)) c e f =
      log_error-Works path value c f

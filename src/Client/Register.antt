-- ===== src/Client/Register.antt =====
-- reregister, check_success, wait_for_reply and their visitors of include/eshet.hpp.
--
-- The loops of reregister run over maps that nothing changes while they wait.
pub mod Answered
pub mod Requests
pub mod Granted
pub mod Stops
pub mod Refused
use eshetcpp.Base.{ℕ, Bool, true, false, List, [], ◌∷◌, ◌++◌, Option, none, some}
use eshetcpp.Base.Bytes.{Bytes}
use eshetcpp.Base.Text.{codes}
use eshetcpp.Msgpack.{Msgpack}
use eshetcpp.Data.{Result, StateResult, StateUpdate}
use eshetcpp.Stringize.{append_msgpack}
use eshetcpp.Wire.SendBuf.{
  SendBuf, write_action_register, write_state_register, write_state_changed, write_state_observe,
  write_event_register, write_event_listen,
}
use eshetcpp.Client.State.{
  Network, Turn, Ready, ResultChannel, StateChannel, results, states, logs, pushes_update,
}
use eshetcpp.Client.Outcome.{done, blocked, M, ◌>>=◌, ◌>>◌, pure, lift, update, read_state, emit}
use eshetcpp.Client.Commands.{get_id, expect_reply, write, send_send_buf}
use eshetcpp.Client.Waiting.{take_turn, never, read_close, receive}

module _ {Obj : Type 0} where
  -- `result_chan.read()` of the local channel of wait_for_reply<Result>
  unfoldable pub read_local_result : M Obj (Result Obj)
  read_local_result c = elim c.local_results [
    | [] ↦ blocked c
    | r ∷ rest ↦ done r (record c { local_results = rest })
  ]

  -- and of wait_for_reply<StateResult>
  unfoldable pub read_local_state : M Obj (StateResult Obj)
  read_local_state c = elim c.local_states [
    | [] ↦ blocked c
    | r ∷ rest ↦ done r (record c { local_states = rest })
  ]

  -- `if (!ok) return false;` and otherwise the rest.
  abbrev pub unless_failed : M Obj Bool → M Obj Bool → M Obj Bool
  unless_failed m rest = m >>= λ ok. elim ok [ true ↦ rest | false ↦ pure false ]

module _ {Obj : Type 0} ⦃m : Msgpack Obj⦄ where
  unfoldable pub reply_case : {R : Type 0} → M Obj R → Ready → M Obj (Option R) → M Obj (Option R)
  reply_case read Ready.on_close again = read_close >> pure none
  reply_case read Ready.on_message again = receive >> again
  reply_case read Ready.local_result again = do r ← read; pure (some r)
  reply_case read Ready.should_exit again = pure none
  reply_case read _ again = never

  unfoldable pub wait_loop : {R : Type 0} → M Obj R → List (Turn Obj) → M Obj (Option R)
  unfolding reply_case
  wait_loop read [] = blocked
  wait_loop read (t ∷ ts) = take_turn t ts >> reply_case read t.ready (wait_loop read ts)

  -- wait_for_reply<Result>
  unfoldable pub wait_for_reply : ℕ → M Obj (Option (Result Obj))
  wait_for_reply id = do
    update (λ c. record c { local_results = [] })
    expect_reply id (results ResultChannel.local)
    λ c. wait_loop read_local_result c.turns c

  -- wait_for_reply<StateResult>
  unfoldable pub wait_for_state : ℕ → M Obj (Option (StateResult Obj))
  wait_for_state id = do
    update (λ c. record c { local_states = [] })
    expect_reply id (states StateChannel.local)
    λ c. wait_loop read_local_state c.turns c

  -- CheckResultBase
  unfoldable pub log_error : Bytes → Obj → M Obj Bool
  log_error path value = do
    text ← lift (append_msgpack (codes "error while adding " ++ (path ++ codes ": ")) value)
    update (emit (logs text))
    pure false

  -- CheckResultSuccessVisitor
  unfoldable pub check_result : Bytes → Option (Result Obj) → M Obj Bool
  unfolding log_error
  check_result path none = pure false
  check_result path (some (Result.success value)) = pure true
  check_result path (some (Result.error value)) = log_error path value

  unfoldable pub check_success : ℕ → Bytes → M Obj Bool
  check_success id path = wait_for_reply id >>= check_result path

  -- HandleStateReplyVisitor
  unfoldable pub handle_state_reply : Bytes → ℕ → Option (StateResult Obj) → M Obj Bool
  unfolding log_error
  handle_state_reply path channel none = pure false
  handle_state_reply path channel (some (StateResult.known value t)) =
      update (emit (pushes_update channel (StateUpdate.known value t))) >> pure true
  handle_state_reply path channel (some (StateResult.unknown t)) =
      update (emit (pushes_update channel (StateUpdate.unknown t))) >> pure true
  handle_state_reply path channel (some (StateResult.error value)) = log_error path value

module _ {Obj : Type 0} ⦃m : Msgpack Obj⦄ ⦃net : Network⦄ where
  -- A registration: a new id, the message, and its reply.
  unfoldable pub request : Bytes → (ℕ → SendBuf → SendBuf) → M Obj Bool
  request path message = do id ← get_id; write (message id); send_send_buf; check_success id path

  unfoldable pub reregister_actions : List (Bytes × ℕ) → M Obj Bool
  reregister_actions [] = pure true
  reregister_actions ((path, chan) ∷ rest) =
      unless_failed (request path (λ id. write_action_register id path)) (reregister_actions rest)

  unfoldable pub reregister_states : List (Bytes × StateUpdate Obj) → M Obj Bool
  reregister_states [] = pure true
  reregister_states ((path, value) ∷ rest) =
      unless_failed (request path (λ id. write_state_register id path)) (
        unless_failed (request path (λ id. write_state_changed id path value))
          (reregister_states rest))

  unfoldable pub observe_again : Bytes → ℕ → M Obj Bool
  observe_again path channel = do
    id ← get_id
    write (write_state_observe id path)
    send_send_buf
    reply ← wait_for_state id
    handle_state_reply path channel reply

  unfoldable pub reobserve_states : List (Bytes × ℕ) → M Obj Bool
  unfolding observe_again
  reobserve_states [] = pure true
  reobserve_states ((path, channel) ∷ rest) =
      unless_failed (observe_again path channel) (reobserve_states rest)

  unfoldable pub reregister_events : List (Bytes × Unit {0}) → M Obj Bool
  reregister_events [] = pure true
  reregister_events ((path, _) ∷ rest) =
      unless_failed (request path (λ id. write_event_register id path)) (reregister_events rest)

  unfoldable pub relisten_events : List (Bytes × ℕ) → M Obj Bool
  relisten_events [] = pure true
  relisten_events ((path, chan) ∷ rest) =
      unless_failed (request path (λ id. write_event_listen id path)) (relisten_events rest)

  unfoldable pub reregister : M Obj Bool
  unfolding reregister_actions reregister_states reobserve_states reregister_events relisten_events
  reregister = do
    c ← read_state (λ c. c)
    unless_failed (reregister_actions c.action_channels) (
        unless_failed (reregister_states c.registered_states) (
          unless_failed (reobserve_states c.observed_states) (
            unless_failed (reregister_events c.registered_events)
              (relisten_events c.listened_events))))

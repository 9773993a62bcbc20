-- ===== src/Client/Steps/Observed.antt =====
-- The observed states, which reregister of include/eshet.hpp goes through while it sends and waits.
use eshetcpp.Base.{ℕ, suc, ◌+◌, ◌%◌, ◌^◌, refl, List, [], ◌∷◌, Option, none, some}
use eshetcpp.Base.Bytes.{Bytes}
use eshetcpp.Base.SortedMap.{nat_key}
use eshetcpp.Msgpack.{Msgpack}
use eshetcpp.Data.{StateUpdate}
use eshetcpp.Wire.SendBuf.{SendBuf}
use eshetcpp.Client.State.{Client, Network}
use eshetcpp.Client.Outcome.{M, ◌>>=◌, ◌>>◌}
use eshetcpp.Client.Commands.{get_id, write, send_to, after_send, send_send_buf}
use eshetcpp.Client.Register.{
  wait_for_reply, wait_for_state, check_success, request, observe_again, reobserve_states,
  reregister_actions, reregister_states,
}
use eshetcpp.Client.Steps.Kept.{
  Keeps, IsKeeping, Keeps-trans, bind-IsKeeping, unless_failed-IsKeeping, wait_for_reply-IsKeeping,
  wait_for_state-IsKeeping, check_result-IsKeeping, handle_state_reply-IsKeeping,
}

module _ {Obj : Type 0} ⦃m : Msgpack Obj⦄ ⦃net : Network⦄ where
  after_send-Keeps :
      (fd : ℕ) (r : Option ℕ) (c : Client Obj)
      → Keeps c (after_send fd r (record c { calls = suc c.calls }))
  unfolding after_send
  after_send-Keeps fd none c = tt
  after_send-Keeps fd (some n) c = refl

  send_to-Keeps : (s : Option ℕ) (c : Client Obj) → Keeps c (send_to s c)
  unfolding send_to
  send_to-Keeps none c = tt
  send_to-Keeps (some fd) c = after_send-Keeps fd _ c

  pub send_send_buf-IsKeeping : IsKeeping {Obj = Obj} send_send_buf
  unfolding send_send_buf
  send_send_buf-IsKeeping c =
      let d : Client Obj = record c { idle_timeout = c.now + c.timeout_config.idle_ping } in
      Keeps-trans c d (send_to c.sockfd d) refl (send_to-Keeps c.sockfd d)

  -- An id, a message, and what is done with the id.
  sent-IsKeeping :
      {A : Type 0} (f : ℕ → SendBuf → SendBuf) (k : ℕ → M Obj A)
      → ((id : ℕ) → IsKeeping (k id))
      → IsKeeping (get_id >>= λ id. write (f id) >> (send_send_buf >> k id))
  unfolding get_id
  sent-IsKeeping f k h c =
      let d : Client Obj = record c {
        next_id = (c.next_id + 1) % 2 ^ 16;
        send_buf = f c.next_id c.send_buf;
      } in
      Keeps-trans c d _ refl
        (bind-IsKeeping send_send_buf _ send_send_buf-IsKeeping (λ _. h c.next_id) d)

  request-IsKeeping :
      (path : Bytes) (f : ℕ → SendBuf → SendBuf) → IsKeeping {Obj = Obj} (request path f)
  unfolding request check_success
  request-IsKeeping path f = sent-IsKeeping f _ λ id.
      bind-IsKeeping (wait_for_reply id) _ (wait_for_reply-IsKeeping id)
        (check_result-IsKeeping path)

  pub observe_again-IsKeeping :
      (path : Bytes) (channel : ℕ) → IsKeeping {Obj = Obj} (observe_again path channel)
  unfolding observe_again
  observe_again-IsKeeping path channel = sent-IsKeeping _ _ λ id.
      bind-IsKeeping (wait_for_state id) _ (wait_for_state-IsKeeping id)
        (handle_state_reply-IsKeeping path channel)

  pub reregister_actions-IsKeeping :
      (l : List (Bytes × ℕ)) → IsKeeping {Obj = Obj} (reregister_actions l)
  unfolding reregister_actions
  reregister_actions-IsKeeping [] = λ c. refl
  reregister_actions-IsKeeping ((path, chan) ∷ rest) =
      unless_failed-IsKeeping _ _ (request-IsKeeping path _) (reregister_actions-IsKeeping rest)

  pub reregister_states-IsKeeping :
      (l : List (Bytes × StateUpdate Obj)) → IsKeeping (reregister_states l)
  unfolding reregister_states
  reregister_states-IsKeeping [] = λ c. refl
  reregister_states-IsKeeping ((path, value) ∷ rest) =
      unless_failed-IsKeeping _ _ (request-IsKeeping path _)
        (unless_failed-IsKeeping _ _ (request-IsKeeping path _) (reregister_states-IsKeeping rest))

  pub reobserve_states-IsKeeping :
      (l : List (Bytes × ℕ)) → IsKeeping {Obj = Obj} (reobserve_states l)
  unfolding reobserve_states
  reobserve_states-IsKeeping [] = λ c. refl
  reobserve_states-IsKeeping ((path, channel) ∷ rest) =
      unless_failed-IsKeeping _ _ (observe_again-IsKeeping path channel)
        (reobserve_states-IsKeeping rest)

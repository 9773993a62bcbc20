-- ===== src/Client/Steps/Register.antt =====
-- reregister of include/eshet.hpp, in steps.
use eshetcpp.Base.{
  ℕ, ◌+◌, ◌%◌, ◌^◌, ◌<◌, ◌≡◌, refl, sym, append_assoc, ◌∙◌, Bool, true, false, List, [], ◌∷◌, ◌++◌,
}
use eshetcpp.Base.Bytes.{Bytes}
use eshetcpp.Msgpack.{Msgpack}
use eshetcpp.Data.{StateUpdate}
use eshetcpp.Wire.SendBuf.{SendBuf, write_state_observe}
use eshetcpp.Client.State.{Client, Network}
use eshetcpp.Client.Outcome.{Outcome, done, raised, blocked, and_then, M, ◌>>=◌, ◌>>◌, pure}
use eshetcpp.Client.Commands.{get_id, write, send_send_buf}
use eshetcpp.Client.Register.{
  unless_failed, wait_for_state, check_success, handle_state_reply, request, reregister_actions,
  reregister_states, observe_again, reobserve_states, reregister_events, relisten_events,
  reregister,
}
use eshetcpp.Client.Steps.{Step, Steps, Reaches, Steps-Reaches, start, step, takes_id}
use eshetcpp.Client.Steps.Frames.{Step-Frames}
use eshetcpp.Client.Steps.Code.{
  IdFits, Ends, Ends-map, Steps-Frames, Runs, Works-Runs, Reaches-then,
}
use eshetcpp.Client.Steps.Observed.{
  send_send_buf-IsKeeping, observe_again-IsKeeping, reregister_actions-IsKeeping,
  reregister_states-IsKeeping, reobserve_states-IsKeeping,
}
use eshetcpp.Client.Steps.Kept.{Keeps, wait_for_state-IsKeeping}
use eshetcpp.Client.Steps.Writers.{
  Writes, write_action_register-Writes, write_state_register-Writes, write_state_changed-Writes,
  write_state_observe-Writes, write_event_register-Writes, write_event_listen-Writes,
}
use eshetcpp.Client.Steps.Commands.{write-Works, send_send_buf-Works}
use eshetcpp.Client.Steps.Replies.{
  unless_failed-Runs, wait_for_state-Runs, check_success-Runs, handle_state_reply-Steps,
}

module _ {Obj : Type 0} ⦃m : Msgpack Obj⦄ ⦃net : Network⦄ where
  -- However the code ends, the client is reached from this one.
  abbrev ReachedFrom : {A : Type 0} → Client Obj → Outcome Obj A → Type 0
  ReachedFrom c o = Ends (λ d. Reaches c d × IdFits d) o

  -- What goes on finds the observed states as they were.
  and_then_kept :
      {A B : Type 0} (c : Client Obj) (o : Outcome Obj A) (k : A → M Obj B)
      → ReachedFrom c o
      → Keeps c o
      → ((a : A) (d : Client Obj)
          → d.observed_states ≡ c.observed_states
          → IdFits d
          → ReachedFrom d (k a d))
      → ReachedFrom c (and_then o k)
  and_then_kept c (done a d) k r kept later =
      Reaches-then {c = c} {d = d} (k a d) r.0 (later a d kept r.1)
  and_then_kept c (raised x d) k r kept later = r
  and_then_kept c (blocked d) k r kept later = r

  unless_failed_kept :
      (c : Client Obj) (x y : M Obj Bool)
      → ReachedFrom c (x c)
      → Keeps c (x c)
      → ((d : Client Obj) → d.observed_states ≡ c.observed_states → IdFits d → ReachedFrom d (y d))
      → ReachedFrom c (unless_failed x y c)
  unless_failed_kept c x y r kept later =
      and_then_kept c (x c) _ r kept λ ok d same f. branch ok d (later d same f) f
    where
      branch :
          (ok : Bool) (d : Client Obj)
          → ReachedFrom d (y d)
          → IdFits d
          → ReachedFrom d ((elim ok as (λ b. M Obj Bool) [ true ↦ y | false ↦ pure false ]) d)
      branch true d h f = h
      branch false d h f = (start, f)

  -- An id, a message, and what is done with the id.
  sent_kept :
      {A : Type 0} (f : ℕ → SendBuf → SendBuf) (k : ℕ → M Obj A) (c : Client Obj)
      → ((id : ℕ) → Writes Obj (f id))
      → IdFits c
      → ((id : ℕ) (d : Client Obj)
          → id < 2 ^ 16
          → d.observed_states ≡ c.observed_states
          → IdFits d
          → ReachedFrom d (k id d))
      → ReachedFrom c ((get_id >>= λ id. write (f id) >> (send_send_buf >> k id)) c)
  unfolding get_id
  sent_kept f k c writes fits later =
      let id = c.next_id in
      let d : Client Obj = record c { next_id = (c.next_id + 1) % 2 ^ 16 } in
      let st : Step c d = takes_id in
      let d_fits = (Step-Frames st).next_id_fits fits in
      Reaches-then {c = c} {d = d} _ (step start st) (
        and_then_kept d (write (f id) d) _
          (Works-Runs (write (f id)) (write-Works (f id) (writes id)) d d_fits) refl
          (λ _ e same e_fits.
            and_then_kept e (send_send_buf e) _
              (Works-Runs send_send_buf send_send_buf-Works e e_fits) (send_send_buf-IsKeeping e)
              (λ _ g same' g_fits. later id g fits (same' ∙ same) g_fits)))

  request-Runs :
      (path : Bytes) (message : ℕ → SendBuf → SendBuf)
      → ((id : ℕ) → Writes Obj (message id))
      → Runs {Obj = Obj} (request path message)
  unfolding request
  request-Runs path message writes = λ c fits.
      sent_kept message (λ id. check_success id path) c writes fits
        (λ id d lt same d_fits. check_success-Runs id path lt d d_fits)

  reregister_actions-Runs : (l : List (Bytes × ℕ)) → Runs {Obj = Obj} (reregister_actions l)
  unfolding reregister_actions
  reregister_actions-Runs [] = λ c f. (start, f)
  reregister_actions-Runs ((path, chan) ∷ rest) =
      unless_failed-Runs _ _ (request-Runs path _ (λ id. write_action_register-Writes id path))
        (reregister_actions-Runs rest)

  reregister_states-Runs : (l : List (Bytes × StateUpdate Obj)) → Runs (reregister_states l)
  unfolding reregister_states
  reregister_states-Runs [] = λ c f. (start, f)
  reregister_states-Runs ((path, value) ∷ rest) =
      unless_failed-Runs _ _ (request-Runs path _ (λ id. write_state_register-Writes id path)) (
        unless_failed-Runs _ _
          (request-Runs path _ (λ id. write_state_changed-Writes id path value))
          (reregister_states-Runs rest))

  observe_again-ReachedFrom :
      (before after : List (Bytes × ℕ)) (path : Bytes) (channel : ℕ) (c : Client Obj)
      → c.observed_states ≡ before ++ (path, channel) ∷ after
      → IdFits c
      → ReachedFrom c (observe_again path channel c)
  unfolding observe_again
  observe_again-ReachedFrom before after path channel c e fits =
      sent_kept (λ id. write_state_observe id path) _ c (λ id. write_state_observe-Writes id path)
        fits
        λ id d lt same d_fits.
          and_then_kept d (wait_for_state id d) (handle_state_reply path channel)
            (wait_for_state-Runs id lt d d_fits) (wait_for_state-IsKeeping id d)
            λ r g same' g_fits.
              Ends-map (Steps g) (λ h. Reaches g h × IdFits h) (handle_state_reply path channel r g)
                (λ h s. (Steps-Reaches s, (Steps-Frames s).next_id_fits g_fits))
                (handle_state_reply-Steps before after path channel r g (same' ∙ same ∙ e) g_fits)

  reobserve_states-ReachedFrom :
      (before l : List (Bytes × ℕ)) (c : Client Obj)
      → c.observed_states ≡ before ++ l
      → IdFits c
      → ReachedFrom c (reobserve_states l c)
  unfolding reobserve_states
  reobserve_states-ReachedFrom before [] c e f = (start, f)
  reobserve_states-ReachedFrom before ((path, channel) ∷ rest) c e f =
      unless_failed_kept c (observe_again path channel) (reobserve_states rest)
        (observe_again-ReachedFrom before rest path channel c e f)
        (observe_again-IsKeeping path channel c)
        λ d same d_fits.
          reobserve_states-ReachedFrom (before ++ (path, channel) ∷ []) rest d
            (same ∙ e ∙ sym (append_assoc before ((path, channel) ∷ []) rest)) d_fits

  reregister_events-Runs : (l : List (Bytes × Unit {0})) → Runs {Obj = Obj} (reregister_events l)
  unfolding reregister_events
  reregister_events-Runs [] = λ c f. (start, f)
  reregister_events-Runs ((path, _) ∷ rest) =
      unless_failed-Runs _ _ (request-Runs path _ (λ id. write_event_register-Writes id path))
        (reregister_events-Runs rest)

  relisten_events-Runs : (l : List (Bytes × ℕ)) → Runs {Obj = Obj} (relisten_events l)
  unfolding relisten_events
  relisten_events-Runs [] = λ c f. (start, f)
  relisten_events-Runs ((path, chan) ∷ rest) =
      unless_failed-Runs _ _ (request-Runs path _ (λ id. write_event_listen-Writes id path))
        (relisten_events-Runs rest)

  pub reregister-Runs : Runs {Obj = Obj} reregister
  unfolding reregister
  reregister-Runs c f =
      unless_failed_kept c (reregister_actions c.action_channels) _
        (reregister_actions-Runs c.action_channels c f)
        (reregister_actions-IsKeeping c.action_channels c)
        λ d same_d d_fits.
          unless_failed_kept d (reregister_states c.registered_states) _
            (reregister_states-Runs c.registered_states d d_fits)
            (reregister_states-IsKeeping c.registered_states d)
            λ e same_e e_fits.
              unless_failed_kept e (reobserve_states c.observed_states) _
                (reobserve_states-ReachedFrom [] c.observed_states e (same_e ∙ same_d) e_fits)
                (reobserve_states-IsKeeping c.observed_states e)
                λ g same_g g_fits.
                  unless_failed-Runs _ _ (reregister_events-Runs c.registered_events)
                    (relisten_events-Runs c.listened_events) g g_fits

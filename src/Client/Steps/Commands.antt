-- ===== src/Client/Steps/Commands.antt =====
-- CommandVisitor and send_send_buf of include/eshet.hpp, in steps.
use eshetcpp.Base.{ℕ, suc, ◌+◌, ◌%◌, ◌^◌, ◌<◌, ◌≡◌, refl, List, ◌∷◌, Option, none, some, length}
use eshetcpp.Msgpack.{Msgpack}
use eshetcpp.Wire.SendBuf.{
  SendBuf, write_action_call, write_action_register, write_state_register, write_state_changed,
  write_state_observe, write_event_register, write_event_emit, write_event_listen, write_get,
  write_set, write_ping,
}
use eshetcpp.Client.State.{
  Client, Network, ReplyChannel, ResultChannel, results, Command, action_call, action_register,
  state_register, state_changed, state_observe, event_register, event_emit, event_listen, get, set,
  ping, disconnect,
}
use eshetcpp.Client.Outcome.{◌>>◌}
use eshetcpp.Client.Commands.{
  get_id, expect_reply, write, after_send, send_to, send_send_buf, visit_command, moved_update,
}
use eshetcpp.Client.Steps.{
  Step, Steps, here, one, IsOwn, begun, begins, writes, calls_system, sends_bytes, idles_until,
  takes_id, awaits,
}
use eshetcpp.Client.Steps.Code.{IdFits, Ends, Works, bind-Works, step_then}
use eshetcpp.Client.Steps.Frames.{Step-Frames}
use eshetcpp.Client.Steps.Writers.{
  Writes, write_action_call-Writes, write_action_register-Writes, write_state_register-Writes,
  write_state_changed-Writes, write_state_observe-Writes, write_event_register-Writes,
  write_event_emit-Writes, write_event_listen-Writes, write_get-Writes, write_set-Writes,
  write_ping-Writes,
}

module _ {Obj : Type 0} ⦃m : Msgpack Obj⦄ ⦃net : Network⦄ where
  pub write-Works : (f : SendBuf → SendBuf) → Writes Obj f → Works {Obj = Obj} (write f)
  write-Works f h c fits = let (message, e) = h c.send_buf in one (writes message (f c.send_buf) e)

  pub expect_reply-Works :
      (id : ℕ) (chan : ReplyChannel)
      → id < 2 ^ 16
      → IsOwn chan
      → Works {Obj = Obj} (expect_reply id chan)
  unfolding expect_reply
  expect_reply-Works id chan lt own c f = one (awaits id chan lt own)

module _ {Obj : Type 0} ⦃m : Msgpack Obj⦄ ⦃net : Network⦄ where
  after_send-Steps :
      (fd : ℕ) (r : Option ℕ) (c : Client Obj)
      → c.sockfd ≡ some fd
      → net.accepts c.calls (length c.send_buf.sbuf) ≡ r
      → Ends (Steps c) (after_send fd r (record c { calls = suc c.calls }))
  unfolding after_send
  after_send-Steps fd none c e taken = one calls_system
  after_send-Steps fd (some n) c e taken = one (sends_bytes fd n e taken)

  send_to-Steps : (c : Client Obj) (s : Option ℕ) → c.sockfd ≡ s → Ends (Steps c) (send_to s c)
  unfolding send_to
  send_to-Steps c none e = here
  send_to-Steps c (some fd) e =
      after_send-Steps fd (net.accepts c.calls (length c.send_buf.sbuf)) c e refl

  pub send_send_buf-Works : Works {Obj = Obj} send_send_buf
  unfolding send_send_buf
  send_send_buf-Works c f =
      let t : ℕ = c.now + c.timeout_config.idle_ping in
      step_then {c = c} {d = record c { idle_timeout = t }} _ (idles_until t)
        (send_to-Steps (record c { idle_timeout = t }) c.sockfd refl)

  pub write_send :
      (f : SendBuf → SendBuf) → Writes Obj f → Works {Obj = Obj} (write f >> send_send_buf)
  write_send f h =
      bind-Works (write f) (λ _. send_send_buf) (write-Works f h) (λ _. send_send_buf-Works)

  -- A command that was taken off its channel, and its message.
  started :
      (command : Command Obj) (rest : List (Command Obj)) (c : Client Obj) (f : SendBuf → SendBuf)
      → Writes Obj f
      → c.on_command ≡ command ∷ rest
      → IdFits c
      → Ends (Steps c) ((write f >> send_send_buf) (begun command (record c { on_command = rest })))
  started command rest c f h e fits =
      let d : Client Obj = begun command (record c { on_command = rest }) in
      let st : Step c d = begins command rest e in
      step_then {c = c} {d = d} ((write f >> send_send_buf) d) st
        (write_send f h d ((Step-Frames st).next_id_fits fits))

  pub visit_command-Steps :
      (command : Command Obj) (rest : List (Command Obj)) (c : Client Obj)
      → c.on_command ≡ command ∷ rest
      → IdFits c
      → Ends (Steps c) (visit_command command (record c { on_command = rest }))
  unfolding visit_command get_id
  visit_command-Steps (action_call path chan args) rest c =
      started (action_call path chan args) rest c (write_action_call c.next_id path args)
        (write_action_call-Writes c.next_id path args)
  visit_command-Steps (action_register path chan k) rest c =
      started (action_register path chan k) rest c (write_action_register c.next_id path)
        (write_action_register-Writes c.next_id path)
  visit_command-Steps (state_register path chan) rest c =
      started (state_register path chan) rest c (write_state_register c.next_id path)
        (write_state_register-Writes c.next_id path)
  visit_command-Steps (state_changed path chan value) rest c =
      started (state_changed path chan value) rest c
        (write_state_changed c.next_id path (moved_update value))
        (write_state_changed-Writes c.next_id path (moved_update value))
  visit_command-Steps (state_observe path chan k) rest c =
      started (state_observe path chan k) rest c (write_state_observe c.next_id path)
        (write_state_observe-Writes c.next_id path)
  visit_command-Steps (event_register path chan) rest c =
      started (event_register path chan) rest c (write_event_register c.next_id path)
        (write_event_register-Writes c.next_id path)
  visit_command-Steps (event_emit path chan value) rest c =
      started (event_emit path chan value) rest c (write_event_emit c.next_id path value)
        (write_event_emit-Writes c.next_id path value)
  visit_command-Steps (event_listen path chan k) rest c =
      started (event_listen path chan k) rest c (write_event_listen c.next_id path)
        (write_event_listen-Writes c.next_id path)
  visit_command-Steps (get path chan) rest c =
      started (get path chan) rest c (write_get c.next_id path) (write_get-Writes c.next_id path)
  visit_command-Steps (set path chan value) rest c =
      started (set path chan value) rest c (write_set c.next_id path value)
        (write_set-Writes c.next_id path value)
  visit_command-Steps (ping chan) rest c =
      started (ping chan) rest c (write_ping c.next_id) (write_ping-Writes c.next_id)
  visit_command-Steps disconnect rest c = λ e fits. one (begins disconnect rest e)

  -- A ping of the client itself.
  pub visit_ping-Works : Works {Obj = Obj} (visit_command (ping ResultChannel.ping))
  unfolding visit_command get_id
  visit_ping-Works c f =
      let chan : ReplyChannel = results ResultChannel.ping in
      let d : Client Obj = record c { next_id = (c.next_id + 1) % 2 ^ 16 } in
      let st : Step c d = takes_id in
      step_then {c = c} {d = d} _ st (
        bind-Works (expect_reply c.next_id chan)
          (λ _. write (write_ping c.next_id) >> send_send_buf)
          (expect_reply-Works c.next_id chan f tt)
          (λ _. write_send (write_ping c.next_id) (write_ping-Writes c.next_id)) d
          ((Step-Frames st).next_id_fits f))

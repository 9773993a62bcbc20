-- ===== src/Client/Steps/Writers.antt =====
-- The writers of SendBuf (include/eshet/parse.hpp) that the client calls.
use eshetcpp.Base.{ℕ, ◌≡◌, Option}
use eshetcpp.Base.Bytes.{Bytes}
use eshetcpp.Msgpack.{Msgpack}
use eshetcpp.Data.{Result, StateUpdate}
use eshetcpp.Wire.SendBuf.{
  SendBuf, write_reply, write_action_call, write_action_register, write_state_register,
  write_state_changed, write_state_unknown, write_state_observe, write_event_register,
  write_event_emit, write_event_listen, write_get, write_set, write_ping, write_hello,
}
use eshetcpp.Client.State.{
  ResultChannel, StateChannel, action_call, action_register, state_register, state_changed,
  state_observe, event_register, event_emit, event_listen, get, set, ping,
}
use eshetcpp.Client.Steps.Protocol.{ClientMessage, greeting, request, answer, encode}
use eshetcpp.Wire.SendBuf.Frames.{
  frame, write_path-frame, write_pack-frame, write_path_pack-frame, write_ping-frame,
  write_hello-frame,
}

-- The writer leaves one frame in the buffer, with a message of the protocol.
abbrev pub Writes : (Obj : Type 0) ⦃m : Msgpack Obj⦄ → (SendBuf → SendBuf) → Type 0
Writes Obj f = (b : SendBuf) → (message : ClientMessage Obj) × (f b ≡ frame (encode message))

module _ {Obj : Type 0} ⦃m : Msgpack Obj⦄ where
  pub write_ping-Writes : (id : ℕ) → Writes Obj (write_ping id)
  write_ping-Writes id b = (request id (ping ResultChannel.local) tt, write_ping-frame id b)

  pub write_action_register-Writes :
      (id : ℕ) (path : Bytes) → Writes Obj (write_action_register id path)
  unfolding write_action_register
  write_action_register-Writes id path b =
      (request id (action_register path ResultChannel.local 0) tt, write_path-frame 0x10 id path b)

  pub write_state_register-Writes :
      (id : ℕ) (path : Bytes) → Writes Obj (write_state_register id path)
  unfolding write_state_register
  write_state_register-Writes id path b =
      (request id (state_register path ResultChannel.local) tt, write_path-frame 0x40 id path b)

  pub write_state_observe-Writes :
      (id : ℕ) (path : Bytes) → Writes Obj (write_state_observe id path)
  unfolding write_state_observe
  write_state_observe-Writes id path b =
      (request id (state_observe path StateChannel.local 0) tt, write_path-frame 0x46 id path b)

  pub write_event_register-Writes :
      (id : ℕ) (path : Bytes) → Writes Obj (write_event_register id path)
  unfolding write_event_register
  write_event_register-Writes id path b =
      (request id (event_register path ResultChannel.local) tt, write_path-frame 0x30 id path b)

  pub write_event_listen-Writes : (id : ℕ) (path : Bytes) → Writes Obj (write_event_listen id path)
  unfolding write_event_listen
  write_event_listen-Writes id path b =
      (request id (event_listen path ResultChannel.local 0) tt, write_path-frame 0x32 id path b)

  pub write_get-Writes : (id : ℕ) (path : Bytes) → Writes Obj (write_get id path)
  unfolding write_get
  write_get-Writes id path b =
      (request id (get path ResultChannel.local) tt, write_path-frame 0x23 id path b)

  pub write_action_call-Writes :
      (id : ℕ) (path : Bytes) (o : Obj) → Writes Obj (write_action_call id path o)
  unfolding write_action_call
  write_action_call-Writes id path o b = (
    request id (action_call path ResultChannel.local o) tt,
    write_path_pack-frame 0x11 id path o b,
  )

  pub write_event_emit-Writes :
      (id : ℕ) (path : Bytes) (o : Obj) → Writes Obj (write_event_emit id path o)
  unfolding write_event_emit
  write_event_emit-Writes id path o b = (
    request id (event_emit path ResultChannel.local o) tt,
    write_path_pack-frame 0x31 id path o b,
  )

  pub write_set-Writes : (id : ℕ) (path : Bytes) (o : Obj) → Writes Obj (write_set id path o)
  unfolding write_set
  write_set-Writes id path o b =
      (request id (set path ResultChannel.local o) tt, write_path_pack-frame 0x24 id path o b)

  pub write_state_changed-Writes :
      (id : ℕ) (path : Bytes) (u : StateUpdate Obj) → Writes Obj (write_state_changed id path u)
  unfolding write_state_changed write_state_unknown
  write_state_changed-Writes id path (StateUpdate.known o t) b = (
    request id (state_changed path ResultChannel.local (StateUpdate.known o t)) tt,
    write_path_pack-frame 0x41 id path o b,
  )
  write_state_changed-Writes id path (StateUpdate.unknown t) b = (
    request id (state_changed path ResultChannel.local (StateUpdate.unknown t)) tt,
    write_path-frame 0x42 id path b,
  )

  pub write_reply-Writes : (id : ℕ) (r : Result Obj) → Writes Obj (write_reply id r)
  unfolding write_reply
  write_reply-Writes id (Result.success o) b =
      (answer id (Result.success o), write_pack-frame 0x05 id o b)
  write_reply-Writes id (Result.error o) b =
      (answer id (Result.error o), write_pack-frame 0x06 id o b)

  pub write_hello-Writes : (id : Option Obj) (timeout : ℕ) → Writes Obj (write_hello id timeout)
  write_hello-Writes id timeout b = (greeting id timeout, write_hello-frame id timeout b)

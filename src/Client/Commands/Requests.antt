-- ===== src/Client/Commands/Requests.antt =====
-- Each command as one request: the message, the channel for its reply, and what is registered.
use eshetcpp.Base.{
  ℕ, suc, ◌+◌, ◌%◌, ◌^◌, ◌≡◌, refl, ◌∙◌, [], ◌∷◌, ◌++◌, Option, none, some, length, take-length,
}
use mathlib.Core.Option.{some-injective}
use eshetcpp.Base.Bytes.{Bytes}
use eshetcpp.Base.SortedMap.{emplace, assign, nat_key, bytes_key}
use eshetcpp.Msgpack.{Msgpack, MoveKeeps}
use eshetcpp.Data.{StateUpdate}
use eshetcpp.Wire.SendBuf.{
  SendBuf, write_action_call, write_action_register, write_state_register, write_state_changed,
  write_state_unknown, write_state_observe, write_event_register, write_event_emit,
  write_event_listen, write_get, write_set, write_path, write_path_pack,
}
use eshetcpp.Wire.SendBuf.Frames.{
  u16, frame, write_path-frame, write_path_pack-frame, write_ping-frame,
}
use eshetcpp.Client.State.{
  Client, Network, Command, ReplyChannel, ResultChannel, results, states, sends, action_call,
  action_register, state_register, state_changed, state_observe, event_register, event_emit,
  event_listen, get, set, ping, disconnect,
}
use eshetcpp.Client.Outcome.{done}
use eshetcpp.Client.Commands.{get_id, send_to, after_send, send_send_buf, visit_command}

-- A type byte, the id and the path; or those and an object.
abbrev pub with_path : ℕ → ℕ → Bytes → Bytes
with_path type id path = type ∷ (u16 id ++ (path ++ 0 ∷ []))

abbrev pub with_value : {Obj : Type 0} ⦃m : Msgpack Obj⦄ → ℕ → ℕ → Bytes → Obj → Bytes
with_value ⦃m⦄ type id path o = type ∷ (u16 id ++ (path ++ 0 ∷ m.pack o))

module _ {Obj : Type 0} ⦃m : Msgpack Obj⦄ where
  -- The message of a command; a disconnect sends none.
  abbrev pub message_of : ℕ → Command Obj → Bytes
  message_of id (action_call path chan args) = with_value 0x11 id path args
  message_of id (action_register path chan call_chan) = with_path 0x10 id path
  message_of id (state_register path chan) = with_path 0x40 id path
  message_of id (state_changed path chan (StateUpdate.known o t)) = with_value 0x41 id path o
  message_of id (state_changed path chan (StateUpdate.unknown t)) = with_path 0x42 id path
  message_of id (state_observe path chan changed_chan) = with_path 0x46 id path
  message_of id (event_register path chan) = with_path 0x30 id path
  message_of id (event_emit path chan value) = with_value 0x31 id path value
  message_of id (event_listen path chan event_chan) = with_path 0x32 id path
  message_of id (get path chan) = with_path 0x23 id path
  message_of id (set path chan value) = with_value 0x24 id path value
  message_of id (ping chan) = 0x09 ∷ u16 id
  message_of id disconnect = []

module _ {Obj : Type 0} where
  abbrev pub channel_of : Command Obj → Option ReplyChannel
  channel_of (action_call path chan args) = some (results chan)
  channel_of (action_register path chan call_chan) = some (results chan)
  channel_of (state_register path chan) = some (results chan)
  channel_of (state_changed path chan value) = some (results chan)
  channel_of (state_observe path chan changed_chan) = some (states chan)
  channel_of (event_register path chan) = some (results chan)
  channel_of (event_emit path chan value) = some (results chan)
  channel_of (event_listen path chan event_chan) = some (results chan)
  channel_of (get path chan) = some (results chan)
  channel_of (set path chan value) = some (results chan)
  channel_of (ping chan) = some (results chan)
  channel_of disconnect = none

  -- What the client keeps in order to register it again: the first channel that was given for a
  -- path, and the last value of a state.
  abbrev pub keep : Command Obj → Client Obj → Client Obj
  keep (action_register path chan call_chan) c = record c {
    action_channels = emplace path call_chan c.action_channels;
  }
  keep (state_register path chan) c = record c {
    registered_states = emplace path (StateUpdate.unknown 0) c.registered_states;
  }
  keep (state_changed path chan value) c = record c {
    registered_states = assign path value c.registered_states;
  }
  keep (state_observe path chan changed_chan) c = record c {
    observed_states = emplace path changed_chan c.observed_states;
  }
  keep (event_register path chan) c = record c {
    registered_events = emplace path tt c.registered_events;
  }
  keep (event_listen path chan event_chan) c = record c {
    listened_events = emplace path event_chan c.listened_events;
  }
  keep _ c = c

  -- One frame goes out, and the next ping is due idle_ping from now.
  abbrev pub sent : ℕ → Bytes → Client Obj → Client Obj
  sent fd message c = record c {
    send_buf = frame message;
    idle_timeout = c.now + c.timeout_config.idle_ping;
    calls = suc c.calls;
    effects = c.effects ++ sends fd (frame message).sbuf ∷ [];
  }

  -- The reply to the id goes to the channel; the next id is one higher, or 0 behind 65535.
  abbrev pub awaiting : ReplyChannel → Client Obj → Client Obj
  awaiting chan c = record c {
    next_id = (c.next_id + 1) % 2 ^ 16;
    reply_channels = emplace c.next_id chan c.reply_channels;
  }

module _ {Obj : Type 0} ⦃net : Network⦄ where
  -- The socket is open and takes the whole frame.
  pub record Sends (c : Client Obj) (fd : ℕ) (message : Bytes) : Type 0 where
    pub open_socket : c.sockfd ≡ some fd
    pub takes_all : let size = length (frame message).sbuf in net.accepts c.calls size ≡ some size

  pub send_frame :
      (c : Client Obj) (fd : ℕ) (b : SendBuf) (message : Bytes)
      → b ≡ frame message
      → Sends c fd message
      → send_send_buf (record c { send_buf = b }) ≡ done tt (sent fd message c)
  unfolding send_send_buf
  send_frame c fd b message e h =
      rw (e, h.open_socket, send_to, h.takes_all, after_send, take-length (frame message).sbuf)

given : {a b : ReplyChannel} → ◌≡◌ {A = Option ReplyChannel} (some a) (some b) → a ≡ b
given {a} {b} e = some-injective a b e

-- The same facts of a client that has the same socket and has made as many calls.
same :
    {Obj : Type 0} ⦃net : Network⦄ {c c' : Client Obj} {fd : ℕ} {message : Bytes}
    → c'.sockfd ≡ c.sockfd
    → c'.calls ≡ c.calls
    → Sends c fd message
    → Sends c' fd message
same s k h = record { open_socket = s ∙ h.open_socket; takes_all = rw k h.takes_all }

abbrev pub ping_message : ℕ → Bytes
ping_message id = 0x09 ∷ u16 id

module _ {Obj : Type 0} ⦃m : Msgpack Obj⦄ ⦃net : Network⦄ where
  pub visit_ping :
      (c : Client Obj) (fd : ℕ) (chan : ResultChannel)
      → Sends c fd (ping_message c.next_id)
      → visit_command (ping chan) c
        ≡ done tt (sent fd (ping_message c.next_id) (awaiting (results chan) c))
  unfolding visit_command get_id
  visit_ping c fd chan h =
      send_frame (awaiting (results chan) c) fd _ _ (write_ping-frame c.next_id c.send_buf)
        (same refl refl h)

module _ {Obj : Type 0} ⦃m : Msgpack Obj⦄ ⦃net : Network⦄ (moves : MoveKeeps m) where
  path_request :
      (c : Client Obj) (fd t id : ℕ) (path : Bytes)
      → Sends c fd (with_path t id path)
      → send_send_buf (record c { send_buf = write_path t id path c.send_buf })
        ≡ done tt (sent fd (with_path t id path) c)
  path_request c fd t id path = send_frame c fd _ _ (write_path-frame t id path c.send_buf)

  value_request :
      (c : Client Obj) (fd t id : ℕ) (path : Bytes) (o : Obj)
      → Sends c fd (with_value t id path o)
      → send_send_buf (record c { send_buf = write_path_pack t id path o c.send_buf })
        ≡ done tt (sent fd (with_value t id path o) c)
  value_request c fd t id path o =
      send_frame c fd _ _ (write_path_pack-frame t id path o c.send_buf)

  -- A command other than a disconnect, on an open socket that takes the frame: the message with the
  -- next id goes out as one frame, the reply is awaited on the command's channel, what has to be
  -- registered again is kept, and nothing else changes but the id and the time of the next ping.
  pub visit_command-Sends :
      (command : Command Obj) (c : Client Obj) (chan : ReplyChannel) (fd : ℕ)
      → channel_of command ≡ some chan
      → Sends c fd (message_of c.next_id command)
      → visit_command command c
        ≡ done tt (sent fd (message_of c.next_id command) (keep command (awaiting chan c)))
  unfolding visit_command get_id write_action_call write_action_register write_state_register
      write_state_observe write_state_changed write_state_unknown write_event_register
      write_event_emit write_event_listen write_get write_set
  visit_command-Sends (action_call path chan args) c ch fd e h = rw (← given e) (
      value_request (keep (action_call path chan args) (awaiting _ c)) fd 0x11 c.next_id path args
        (same refl refl h))
  visit_command-Sends (action_register path chan call_chan) c ch fd e h = rw (← given e) (
      path_request (keep (action_register path chan call_chan) (awaiting _ c)) fd 0x10 c.next_id
        path (same refl refl h))
  visit_command-Sends (state_register path chan) c ch fd e h = rw (← given e) (
      path_request (keep (state_register path chan) (awaiting _ c)) fd 0x40 c.next_id path
        (same refl refl h))
  visit_command-Sends (state_changed path chan (StateUpdate.known o t)) c ch fd e h =
      let command : Command Obj = state_changed path chan (StateUpdate.known o t) in
      rw (← given e, moves.moved_self o)
        (value_request (keep command (awaiting _ c)) fd 0x41 c.next_id path o (same refl refl h))
  visit_command-Sends (state_changed path chan (StateUpdate.unknown t)) c ch fd e h =
      rw (← given e) (
        path_request (keep (state_changed path chan (StateUpdate.unknown t)) (awaiting _ c)) fd 0x42
          c.next_id path (same refl refl h))
  visit_command-Sends (state_observe path chan changed_chan) c ch fd e h = rw (← given e) (
      path_request (keep (state_observe path chan changed_chan) (awaiting _ c)) fd 0x46 c.next_id
        path (same refl refl h))
  visit_command-Sends (event_register path chan) c ch fd e h = rw (← given e) (
      path_request (keep (event_register path chan) (awaiting _ c)) fd 0x30 c.next_id path
        (same refl refl h))
  visit_command-Sends (event_emit path chan value) c ch fd e h = rw (← given e) (
      value_request (keep (event_emit path chan value) (awaiting _ c)) fd 0x31 c.next_id path value
        (same refl refl h))
  visit_command-Sends (event_listen path chan event_chan) c ch fd e h = rw (← given e) (
      path_request (keep (event_listen path chan event_chan) (awaiting _ c)) fd 0x32 c.next_id path
        (same refl refl h))
  visit_command-Sends (get path chan) c ch fd e h =
      rw (← given e) (
        path_request (keep (get path chan) (awaiting _ c)) fd 0x23 c.next_id path
          (same refl refl h))
  visit_command-Sends (set path chan value) c ch fd e h = rw (← given e) (
      value_request (keep (set path chan value) (awaiting _ c)) fd 0x24 c.next_id path value
        (same refl refl h))
  visit_command-Sends (ping chan) c ch fd e h = rw (← given e) (visit_ping c fd chan h)
  visit_command-Sends disconnect c ch fd e h = cc

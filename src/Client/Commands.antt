-- ===== src/Client/Commands.antt =====
-- CommandVisitor, get_id and send_send_buf of include/eshet.hpp: a command of the program becomes a
-- message to the server and an entry for its reply.
pub mod Requests
use eshetcpp.Base.{
  ℕ, suc, ◌+◌, ◌%◌, ◌^◌, List, [], ◌∷◌, ◌++◌, Option, none, some, length, take, disconnected,
}
use eshetcpp.Base.Bytes.{Bytes}
use eshetcpp.Base.SortedMap.{emplace, assign, nat_key, bytes_key}
use eshetcpp.Msgpack.{Msgpack}
use eshetcpp.Data.{StateUpdate}
use eshetcpp.Wire.SendBuf.{
  SendBuf, write_action_call, write_action_register, write_state_register, write_state_changed,
  write_state_observe, write_event_register, write_event_emit, write_event_listen, write_get,
  write_set, write_ping,
}
use eshetcpp.Client.State.{
  Client, Network, Command, ReplyChannel, results, states, sends, action_call, action_register,
  state_register, state_changed, state_observe, event_register, event_emit, event_listen, get, set,
  ping, disconnect,
}
use eshetcpp.Client.Outcome.{Outcome, done, raised, M, and_then, ◌>>=◌, ◌>>◌, pure, update, emit}

module _ {Obj : Type 0} where
  -- `return next_id++;` on 16 bits
  unfoldable pub get_id : M Obj ℕ
  get_id c = done c.next_id (record c { next_id = (c.next_id + 1) % 2 ^ 16 })

  -- `reply_channels.emplace(id, chan)`
  unfoldable pub expect_reply : ℕ → ReplyChannel → M Obj (Unit {0})
  expect_reply id chan =
      update (λ c. record c { reply_channels = emplace id chan c.reply_channels })

  abbrev pub write : (SendBuf → SendBuf) → M Obj (Unit {0})
  write f = update (λ c. record c { send_buf = f c.send_buf })

-- What a std::move leaves in a StateUpdate.
abbrev pub moved_update : {Obj : Type 0} ⦃m : Msgpack Obj⦄ → StateUpdate Obj → StateUpdate Obj
moved_update ⦃m⦄ (StateUpdate.known o t) = StateUpdate.known (m.moved o) t
moved_update (StateUpdate.unknown t) = StateUpdate.unknown t

module _ {Obj : Type 0} ⦃net : Network⦄ where
  -- The result of send(): an error, or the number of bytes that the socket took.
  unfoldable pub after_send : ℕ → Option ℕ → M Obj (Unit {0})
  after_send fd none c = raised disconnected c
  after_send fd (some n) c = done tt (emit (sends fd (take n c.send_buf.sbuf)) c)

  unfoldable pub send_to : Option ℕ → M Obj (Unit {0})
  unfolding after_send
  send_to none c = raised disconnected c
  send_to (some fd) c =
      after_send fd (net.accepts c.calls (length c.send_buf.sbuf))
        (record c { calls = suc c.calls })

  -- `send` on the socket -1 is an error. Fewer bytes than asked for are no error.
  unfoldable pub send_send_buf : M Obj (Unit {0})
  unfolding send_to
  send_send_buf c =
      send_to c.sockfd (record c { idle_timeout = c.now + c.timeout_config.idle_ping })

module _ {Obj : Type 0} ⦃m : Msgpack Obj⦄ ⦃net : Network⦄ where
  unfoldable pub visit_command : Command Obj → M Obj (Unit {0})
  unfolding expect_reply
  visit_command (action_call path result_chan args) = do
    id ← get_id
    expect_reply id (results result_chan)
    write (write_action_call id path args)
    send_send_buf
  visit_command (action_register path result_chan call_chan) = do
    id ← get_id
    expect_reply id (results result_chan)
    update (λ c. record c { action_channels = emplace path call_chan c.action_channels })
    write (write_action_register id path)
    send_send_buf
  visit_command (state_register path result_chan) = do
    id ← get_id
    expect_reply id (results result_chan)
    update (λ c. record c {
      registered_states = emplace path (StateUpdate.unknown 0) c.registered_states;
    })
    write (write_state_register id path)
    send_send_buf
  visit_command (state_changed path result_chan value) = do
    id ← get_id
    expect_reply id (results result_chan)
    update (λ c. record c { registered_states = assign path value c.registered_states })
    write (write_state_changed id path (moved_update value))
    send_send_buf
  visit_command (state_observe path result_chan changed_chan) = do
    id ← get_id
    expect_reply id (states result_chan)
    update (λ c. record c { observed_states = emplace path changed_chan c.observed_states })
    write (write_state_observe id path)
    send_send_buf
  visit_command (event_register path result_chan) = do
    id ← get_id
    expect_reply id (results result_chan)
    update (λ c. record c { registered_events = emplace path tt c.registered_events })
    write (write_event_register id path)
    send_send_buf
  visit_command (event_emit path result_chan value) = do
    id ← get_id
    expect_reply id (results result_chan)
    write (write_event_emit id path value)
    send_send_buf
  visit_command (event_listen path result_chan event_chan) = do
    id ← get_id
    expect_reply id (results result_chan)
    update (λ c. record c { listened_events = emplace path event_chan c.listened_events })
    write (write_event_listen id path)
    send_send_buf
  visit_command (get path result_chan) = do
    id ← get_id
    expect_reply id (results result_chan)
    write (write_get id path)
    send_send_buf
  visit_command (set path result_chan value) = do
    id ← get_id
    expect_reply id (results result_chan)
    write (write_set id path value)
    send_send_buf
  visit_command (ping result_chan) = do
    id ← get_id
    expect_reply id (results result_chan)
    write (write_ping id)
    send_send_buf
  visit_command disconnect = update (λ c. record c { on_close = suc c.on_close })

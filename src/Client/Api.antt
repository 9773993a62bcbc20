-- ===== src/Client/Api.antt =====
-- The public methods of ESHETClientActor in include/eshet.hpp. Each pushes a command onto
-- on_command, from any thread, and returns; `exit` pushes a token onto should_exit. The program's
-- value has already been made a msgpack::object.
use eshetcpp.Base.{ℕ, suc, true, [], ◌∷◌, ◌++◌}
use eshetcpp.Base.Bytes.{Bytes}
use eshetcpp.Data.{Result, StateUpdate}
use eshetcpp.Client.State.{
  Client, Command, ResultChannel, StateChannel, Arrival, received, closed, replied, commanded,
  told_to_exit,
}

module _ {Obj : Type 0} where
  -- `on_command.push(c)`
  unfoldable pub submit : Command Obj → Client Obj → Client Obj
  submit command c = record c { on_command = c.on_command ++ command ∷ [] }

  unfoldable pub action_call_pack : Bytes → ℕ → Obj → Client Obj → Client Obj
  unfolding submit
  action_call_pack path chan args = submit (Command.action_call path (ResultChannel.user chan) args)

  unfoldable pub action_register : Bytes → ℕ → ℕ → Client Obj → Client Obj
  unfolding submit
  action_register path chan call_chan =
      submit (Command.action_register path (ResultChannel.user chan) call_chan)

  unfoldable pub state_register : Bytes → ℕ → Client Obj → Client Obj
  unfolding submit
  state_register path chan = submit (Command.state_register path (ResultChannel.user chan))

  unfoldable pub state_changed : Bytes → Obj → ℕ → Client Obj → Client Obj
  unfolding submit
  state_changed path value chan =
      submit (Command.state_changed path (ResultChannel.user chan) (StateUpdate.known value 0))

  unfoldable pub state_unknown : Bytes → ℕ → Client Obj → Client Obj
  unfolding submit
  state_unknown path chan =
      submit (Command.state_changed path (ResultChannel.user chan) (StateUpdate.unknown 0))

  unfoldable pub state_observe : Bytes → ℕ → ℕ → Client Obj → Client Obj
  unfolding submit
  state_observe path chan changed_chan =
      submit (Command.state_observe path (StateChannel.user chan) changed_chan)

  unfoldable pub event_register : Bytes → ℕ → Client Obj → Client Obj
  unfolding submit
  event_register path chan = submit (Command.event_register path (ResultChannel.user chan))

  unfoldable pub event_emit : Bytes → Obj → ℕ → Client Obj → Client Obj
  unfolding submit
  event_emit path value chan = submit (Command.event_emit path (ResultChannel.user chan) value)

  unfoldable pub event_listen : Bytes → ℕ → ℕ → Client Obj → Client Obj
  unfolding submit
  event_listen path event_chan chan =
      submit (Command.event_listen path (ResultChannel.user chan) event_chan)

  unfoldable pub get : Bytes → ℕ → Client Obj → Client Obj
  unfolding submit
  get path chan = submit (Command.get path (ResultChannel.user chan))

  unfoldable pub set : Bytes → Obj → ℕ → Client Obj → Client Obj
  unfolding submit
  set path value chan = submit (Command.set path (ResultChannel.user chan) value)

  unfoldable pub test_disconnect : Client Obj → Client Obj
  unfolding submit
  test_disconnect = submit Command.disconnect

  unfoldable pub exit : Client Obj → Client Obj
  exit c = record c { should_exit = true }

  -- Call::reply, with the two fields of the Call.
  unfoldable pub reply : (connection_id id : ℕ) → Result Obj → Client Obj → Client Obj
  reply connection_id id r c = record c { on_reply = c.on_reply ++ (connection_id, id, r) ∷ [] }

  -- What another thread does to the client's channels.
  unfoldable pub arrive : Arrival Obj → Client Obj → Client Obj
  unfolding submit exit reply
  arrive (received bytes) c = record c { on_message = c.on_message ++ bytes ∷ [] }
  arrive closed c = record c { on_close = suc c.on_close }
  arrive (replied connection_id id r) c = reply connection_id id r c
  arrive (commanded command) c = submit command c
  arrive told_to_exit c = exit c

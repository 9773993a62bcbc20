-- ===== src/Client/Messages.antt =====
-- handle_message and handle_reply of include/eshet.hpp, and convert_variant of util.hpp.
pub mod Untouched
pub mod Protocol
pub mod Replies
pub mod Malformed
use eshetcpp.Base.{
  ℕ, suc, ◌+◌, ◌%◌, ◌^◌, Bool, List, [], ◌∷◌, ◌++◌, Option, none, some, ◌==◌, if◌then◌else◌, ◌||◌,
  Except, ok, throw, protocol_error,
}
use eshetcpp.Base.Bytes.{Bytes}
use eshetcpp.Base.SortedMap.{lookup, erase, nat_key, bytes_key}
use eshetcpp.Msgpack.{Msgpack}
use eshetcpp.Data.{Result, StateResult, StateUpdate, AnyResult, Call}
use eshetcpp.Data.Convert.{to_result, to_state_result}
use eshetcpp.Client.Body.{
  run, id_msgpack, id_only, id_time_msgpack, id_time, id_path_msgpack, path_msgpack, path_only,
}
use eshetcpp.Client.State.{
  Client, ReplyChannel, results, states, pushes_update, pushes_call, pushes_event,
}
use eshetcpp.Client.Outcome.{
  Outcome, done, raised, M, and_then, ◌>>=◌, ◌>>◌, pure, raise, lift, read_state, update, emit,
  push_result, push_state,
}

module _ {Obj : Type 0} where
  -- The channel takes the values of its own type; any other is a wrong type of return.
  unfoldable pub deliver : ReplyChannel → AnyResult Obj → M Obj (Unit {0})
  unfolding push_result push_state to_result to_state_result
  deliver (results chan) r = elim (to_result r) [
    | none ↦ raised protocol_error
    | some v ↦ update (push_result chan v)
  ]
  deliver (states chan) r = elim (to_state_result r) [
    | none ↦ raised protocol_error
    | some v ↦ update (push_state chan v)
  ]

  -- The entry is taken out of the map before its channel is pushed to.
  unfoldable pub handle_reply : ℕ → AnyResult Obj → M Obj (Unit {0})
  unfolding deliver
  handle_reply id r c = elim (lookup id c.reply_channels) [
    | none ↦ raised protocol_error c
    | some chan ↦ deliver chan r (record c { reply_channels = erase id c.reply_channels })
  ]

  -- A missing callback is a ProtocolError.
  abbrev pub to_channel : Option ℕ → (ℕ → M Obj (Unit {0})) → M Obj (Unit {0})
  to_channel none f = raised protocol_error
  to_channel (some chan) f = f chan

module _ {Obj : Type 0} ⦃m : Msgpack Obj⦄ where
  -- case 0x05 to 0x0b, but 0x09 (reply and reply_state)
  unfoldable pub handle_reply_message : ℕ → Bytes → M Obj (Unit {0})
  unfolding handle_reply id_msgpack id_only id_time_msgpack id_time
  handle_reply_message type body =
      if type == 0x05
      then (do (id, oh) ← lift (run id_msgpack body); handle_reply id (AnyResult.success oh))
      else if type == 0x06
      then (do (id, oh) ← lift (run id_msgpack body); handle_reply id (AnyResult.error oh))
      else if type == 0x07
      then (do (id, oh) ← lift (run id_msgpack body); handle_reply id (AnyResult.known oh 0))
      else if type == 0x08
      then (do id ← lift (run id_only body); handle_reply id (AnyResult.unknown 0))
      else if type == 0x0a
      then (do
        (id, t, oh) ← lift (run id_time_msgpack body)
        handle_reply id (AnyResult.known oh t))
      else if type == 0x0b
      then (do (id, t) ← lift (run id_time body); handle_reply id (AnyResult.unknown t))
      else pure tt

  -- case 0x11: {action_call, Id, Path, Msg}
  unfoldable pub handle_action_call : Bytes → M Obj (Unit {0})
  unfolding id_path_msgpack
  handle_action_call body = do
    (id, path, oh) ← lift (run id_path_msgpack body)
    c ← read_state (λ c. c)
    to_channel (lookup path c.action_channels) λ chan.
        update
          (emit (pushes_call chan (record { connection_id = c.connection_id; id = id; args = oh })))

  -- case 0x33: {event_notify, Path, Msg}
  unfoldable pub handle_event_notify : Bytes → M Obj (Unit {0})
  unfolding path_msgpack
  handle_event_notify body = do
    (path, oh) ← lift (run path_msgpack body)
    events ← read_state (λ c. c.listened_events)
    to_channel (lookup path events) λ chan. update (emit (pushes_event chan oh))

  -- case 0x44: {state_changed, Path, {known, State}}
  unfoldable pub handle_state_known : Bytes → M Obj (Unit {0})
  unfolding path_msgpack
  handle_state_known body = do
    (path, oh) ← lift (run path_msgpack body)
    observed ← read_state (λ c. c.observed_states)
    to_channel (lookup path observed)
        λ chan. update (emit (pushes_update chan (StateUpdate.known oh 0)))

  -- case 0x45: {state_changed, Path, unknown}
  unfoldable pub handle_state_unknown : Bytes → M Obj (Unit {0})
  unfolding path_only
  handle_state_unknown body = do
    path ← lift (run path_only body)
    observed ← read_state (λ c. c.observed_states)
    to_channel (lookup path observed)
        λ chan. update (emit (pushes_update chan (StateUpdate.unknown 0)))

  -- A message of any other type is ignored.
  unfoldable pub handle_message : Bytes → M Obj (Unit {0})
  handle_message [] = raise protocol_error
  handle_message (type ∷ body) =
      if type == 0x03 || type == 0x04
      then raise protocol_error
      else if type == 0x11
      then handle_action_call body
      else if type == 0x33
      then handle_event_notify body
      else if type == 0x44
      then handle_state_known body
      else if type == 0x45
      then handle_state_unknown body
      else handle_reply_message type body

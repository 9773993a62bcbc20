-- ===== src/Client/Messages/Protocol.antt =====
-- The messages of the server, and what handle_message does with each.
use eshetcpp.Base.{
  ℕ, ◌^◌, ◌<◌, ◌≡◌, refl, arith, [], ◌∷◌, ◌++◌, Option, none, some, protocol_error, Option-cases,
  inl, inr,
}
use eshetcpp.Base.Bytes.{Bytes}
use eshetcpp.Base.SortedMap.{lookup, erase, nat_key, bytes_key}
use eshetcpp.Msgpack.{Msgpack, RoundTrips}
use eshetcpp.Data.{Result, StateResult, StateUpdate, AnyResult}
use eshetcpp.Data.Convert.{to_result, to_state_result}
use eshetcpp.Wire.SendBuf.Frames.{u16}
use eshetcpp.Client.State.{
  Client, Effect, ReplyChannel, ResultChannel, StateChannel, results, states, pushes_result,
  pushes_state, pushes_update, pushes_call, pushes_event,
}
use eshetcpp.Client.Outcome.{done, raised, M, update, emit, push_result, push_state}
use eshetcpp.Client.Body.WellFormed.{
  u32, NoZero, id_msgpack-run, id_time_msgpack-run, id_path_msgpack-run, path_msgpack-run,
  id_only-run, id_time-run, path_only-run,
}
use eshetcpp.Client.Messages.{
  to_channel, deliver, handle_message, handle_reply, handle_reply_message, handle_action_call,
  handle_event_notify, handle_state_known, handle_state_unknown,
}

-- The terms that the comments of handle_message give.
pub data ServerMessage (Obj : Type 0) : Type 0 where
  reply_ok reply_error reply_known : (id : ℕ) → Obj → ServerMessage Obj
  reply_unknown : (id : ℕ) → ServerMessage Obj
  reply_known_since : (id t : ℕ) → Obj → ServerMessage Obj
  reply_unknown_since : (id t : ℕ) → ServerMessage Obj
  action_call : (id : ℕ) (path : Bytes) → Obj → ServerMessage Obj
  event_notify changed_known : (path : Bytes) → Obj → ServerMessage Obj
  changed_unknown : (path : Bytes) → ServerMessage Obj

module _ {Obj : Type 0} ⦃m : Msgpack Obj⦄ where
  abbrev pub encode : ServerMessage Obj → Bytes
  encode (reply_ok id o) = 0x05 ∷ (u16 id ++ m.pack o)
  encode (reply_error id o) = 0x06 ∷ (u16 id ++ m.pack o)
  encode (reply_known id o) = 0x07 ∷ (u16 id ++ m.pack o)
  encode (reply_unknown id) = 0x08 ∷ u16 id
  encode (reply_known_since id t o) = 0x0a ∷ (u16 id ++ (u32 t ++ m.pack o))
  encode (reply_unknown_since id t) = 0x0b ∷ (u16 id ++ u32 t)
  encode (action_call id path o) = 0x11 ∷ (u16 id ++ (path ++ 0 ∷ m.pack o))
  encode (event_notify path o) = 0x33 ∷ (path ++ 0 ∷ m.pack o)
  encode (changed_known path o) = 0x44 ∷ (path ++ 0 ∷ m.pack o)
  encode (changed_unknown path) = 0x45 ∷ (path ++ 0 ∷ [])

-- The fields fit, and a path holds no zero byte.
abbrev pub IsWellFormed : {Obj : Type 0} → ServerMessage Obj → Type 0
IsWellFormed (reply_ok id o) = id < 2 ^ 16
IsWellFormed (reply_error id o) = id < 2 ^ 16
IsWellFormed (reply_known id o) = id < 2 ^ 16
IsWellFormed (reply_unknown id) = id < 2 ^ 16
IsWellFormed (reply_known_since id t o) = (id < 2 ^ 16) × (t < 2 ^ 32)
IsWellFormed (reply_unknown_since id t) = (id < 2 ^ 16) × (t < 2 ^ 32)
IsWellFormed (action_call id path o) = (id < 2 ^ 16) × NoZero path
IsWellFormed (event_notify path o) = NoZero path
IsWellFormed (changed_known path o) = NoZero path
IsWellFormed (changed_unknown path) = NoZero path

module _ {Obj : Type 0} where
  -- One push to the channel, or an error if there is none.
  abbrev pub notify : Option ℕ → (ℕ → Effect Obj) → M Obj (Unit {0})
  notify none push c = raised protocol_error c
  notify (some chan) push c = done tt (emit (push chan) c)

  -- The channel of a command, or one of the client's own, takes the result.
  abbrev give_result : ResultChannel → Result Obj → M Obj (Unit {0})
  give_result (ResultChannel.user n) r c = done tt (emit (pushes_result n r) c)
  give_result ResultChannel.ping r c = done tt (record c { ping_result = c.ping_result ++ r ∷ [] })
  give_result ResultChannel.local r c =
      done tt (record c { local_results = c.local_results ++ r ∷ [] })

  abbrev give_state : StateChannel → StateResult Obj → M Obj (Unit {0})
  give_state (StateChannel.user n) r c = done tt (emit (pushes_state n r) c)
  give_state StateChannel.local r c = done tt (record c { local_states = c.local_states ++ r ∷ [] })

  -- A channel for results takes a success or an error, and one for states takes what is known or
  -- unknown or an error; any other reply is a ProtocolError.
  abbrev give : ReplyChannel → AnyResult Obj → M Obj (Unit {0})
  give (results chan) (AnyResult.success o) = give_result chan (Result.success o)
  give (results chan) (AnyResult.error o) = give_result chan (Result.error o)
  give (results chan) _ = raised protocol_error
  give (states chan) (AnyResult.known o t) = give_state chan (StateResult.known o t)
  give (states chan) (AnyResult.unknown t) = give_state chan (StateResult.unknown t)
  give (states chan) (AnyResult.error o) = give_state chan (StateResult.error o)
  give (states chan) _ = raised protocol_error

  -- The entry of the id is taken out, and its channel is given the reply.
  abbrev give_entry : Option ReplyChannel → ℕ → AnyResult Obj → M Obj (Unit {0})
  give_entry none id r c = raised protocol_error c
  give_entry (some chan) id r c =
      give chan r (record c { reply_channels = erase id c.reply_channels })

  abbrev pub replied : ℕ → AnyResult Obj → M Obj (Unit {0})
  replied id r c = give_entry (lookup id c.reply_channels) id r c

  -- A reply goes to the entry of its id; a call, an event or a change goes to the channel that was
  -- given for its path.
  abbrev pub react : ServerMessage Obj → M Obj (Unit {0})
  react (reply_ok id o) c = replied id (AnyResult.success o) c
  react (reply_error id o) c = replied id (AnyResult.error o) c
  react (reply_known id o) c = replied id (AnyResult.known o 0) c
  react (reply_unknown id) c = replied id (AnyResult.unknown 0) c
  react (reply_known_since id t o) c = replied id (AnyResult.known o t) c
  react (reply_unknown_since id t) c = replied id (AnyResult.unknown t) c
  react (action_call id path o) c =
      notify (lookup path c.action_channels)
        (λ chan. pushes_call chan (record { connection_id = c.connection_id; id = id; args = o })) c
  react (event_notify path o) c =
      notify (lookup path c.listened_events) (λ chan. pushes_event chan o) c
  react (changed_known path o) c =
      notify (lookup path c.observed_states) (λ chan. pushes_update chan (StateUpdate.known o 0)) c
  react (changed_unknown path) c =
      notify (lookup path c.observed_states) (λ chan. pushes_update chan (StateUpdate.unknown 0)) c

to_channel-notify :
    {Obj : Type 0} (o : Option ℕ) (push : ℕ → Effect Obj) (c : Client Obj)
    → to_channel o (λ chan. update (emit (push chan))) c ≡ notify o push c
to_channel-notify none push c = refl
to_channel-notify (some chan) push c = refl

module _ {Obj : Type 0} where
  deliver-give :
      (chan : ReplyChannel) (r : AnyResult Obj) (c : Client Obj) → deliver chan r c ≡ give chan r c
  unfolding deliver to_result to_state_result push_result push_state
  deliver-give (results (ResultChannel.user n)) r c = ground arith
  deliver-give (results ResultChannel.ping) r c = ground arith
  deliver-give (results ResultChannel.local) r c = ground arith
  deliver-give (states (StateChannel.user n)) r c = ground arith
  deliver-give (states StateChannel.local) r c = ground arith

  pub handle_reply-replied :
      (id : ℕ) (r : AnyResult Obj) (c : Client Obj) → handle_reply id r c ≡ replied id r c
  unfolding handle_reply
  handle_reply-replied id r c = elim (Option-cases (lookup id c.reply_channels)) [
    | inl missing ↦ rw (missing, handle_reply) refl
    | inr (chan, found) ↦
        rw (found, handle_reply)
          (deliver-give chan r (record c { reply_channels = erase id c.reply_channels }))
  ]

module _ {Obj : Type 0} ⦃m : Msgpack Obj⦄ (trips : RoundTrips m) where
  -- If msgpack reads back what it packed, handle_message does this with the bytes of a well-formed
  -- message of the server: a reply goes to the channel that awaits its id, whose entry is taken out,
  -- or is a ProtocolError if there is none or it is of the wrong kind; a call, an event or a change goes
  -- to the channel that was given for its path, or is a ProtocolError if there is none.
  pub handle_message-encode :
      (s : ServerMessage Obj) (c : Client Obj)
      → IsWellFormed s
      → handle_message (encode s) c ≡ react s c
  unfolding handle_message handle_reply_message handle_action_call handle_event_notify
      handle_state_known handle_state_unknown
  handle_message-encode (reply_ok id o) c w =
      rw (id_msgpack-run trips id w o) (handle_reply-replied id (AnyResult.success o) c)
  handle_message-encode (reply_error id o) c w =
      rw (id_msgpack-run trips id w o) (handle_reply-replied id (AnyResult.error o) c)
  handle_message-encode (reply_known id o) c w =
      rw (id_msgpack-run trips id w o) (handle_reply-replied id (AnyResult.known o 0) c)
  handle_message-encode (reply_unknown id) c w =
      rw (id_only-run id w) (handle_reply-replied id (AnyResult.unknown 0) c)
  handle_message-encode (reply_known_since id t o) c w =
      rw (id_time_msgpack-run trips id w.0 t o w.1)
        (handle_reply-replied id (AnyResult.known o t) c)
  handle_message-encode (reply_unknown_since id t) c w =
      rw (id_time-run id t w.0 w.1) (handle_reply-replied id (AnyResult.unknown t) c)
  handle_message-encode (action_call id path o) c w =
      rw (id_path_msgpack-run trips id w.0 path o w.1)
        (to_channel-notify (lookup path c.action_channels) _ c)
  handle_message-encode (event_notify path o) c w =
      rw (path_msgpack-run trips path o w) (to_channel-notify (lookup path c.listened_events) _ c)
  handle_message-encode (changed_known path o) c w =
      rw (path_msgpack-run trips path o w) (to_channel-notify (lookup path c.observed_states) _ c)
  handle_message-encode (changed_unknown path) c w =
      rw (path_only-run path w) (to_channel-notify (lookup path c.observed_states) _ c)

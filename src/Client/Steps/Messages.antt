-- ===== src/Client/Steps/Messages.antt =====
-- handle_message of include/eshet.hpp and the case on_message, in steps.
use eshetcpp.Base.{
  ℕ, zero, suc, ◌≡◌, refl, [], ◌∷◌, Option, none, some, length, Except, ok, throw, ◌==◌, ◌||◌,
  Option-cases, inl, inr,
}
use eshetcpp.Base.Bytes.{Bytes}
use eshetcpp.Base.SortedMap.{lookup, erase, nat_key, bytes_key}
use eshetcpp.Msgpack.{Msgpack}
use eshetcpp.Data.{Result, StateResult, StateUpdate, AnyResult}
use eshetcpp.Data.Convert.{to_result, to_state_result}
use eshetcpp.Wire.Unpacker
use eshetcpp.Wire.Unpacker.{Unpacker}
use eshetcpp.Client.State.{
  Network, Client, ReplyChannel, ResultChannel, StateChannel, Effect, results, states,
  pushes_update,
}
use eshetcpp.Client.Outcome.{Outcome, blocked, done, M, update, emit}
use eshetcpp.Client.Messages.{
  to_channel, deliver, handle_reply, handle_message, handle_reply_message, handle_action_call,
  handle_event_notify, handle_state_known, handle_state_unknown,
}
use eshetcpp.Client.Waiting.{
  read_close, read_message, push_unpacker, read_unpacker, unpacked, next_message, handle_messages,
  receive,
}
use eshetcpp.Client.Steps.{
  Steps, here, one, IsNotice, gives_result, gives_state, drops, notifies, reads_message, feeds,
  unpacks, reads_close, calls_action, notifies_event, changes_state,
}
use eshetcpp.Client.Steps.Code.{Ends, Works, bind-Works, lift_then, if-Works, list_read}

module _ {Obj : Type 0} ⦃m : Msgpack Obj⦄ ⦃net : Network⦄ where
  -- The entry is erased, and its channel is pushed to if the value is of its type.
  result_given :
      (id : ℕ) (chan : ResultChannel) (r : AnyResult Obj) (c : Client Obj)
      → lookup id c.reply_channels ≡ some (results chan)
      → Ends
          (Steps c)
          (deliver (results chan) r (record c { reply_channels = erase id c.reply_channels }))
  unfolding deliver to_result
  result_given id chan (AnyResult.success o) c e = one (gives_result id chan (Result.success o) e)
  result_given id chan (AnyResult.error o) c e = one (gives_result id chan (Result.error o) e)
  result_given id chan (AnyResult.known o t) c e =
      one (drops id (results chan) (AnyResult.known o t) e refl)
  result_given id chan (AnyResult.unknown t) c e =
      one (drops id (results chan) (AnyResult.unknown t) e refl)

  state_given :
      (id : ℕ) (chan : StateChannel) (r : AnyResult Obj) (c : Client Obj)
      → lookup id c.reply_channels ≡ some (states chan)
      → Ends
          (Steps c)
          (deliver (states chan) r (record c { reply_channels = erase id c.reply_channels }))
  unfolding deliver to_state_result
  state_given id chan (AnyResult.success o) c e =
      one (drops id (states chan) (AnyResult.success o) e refl)
  state_given id chan (AnyResult.error o) c e = one (gives_state id chan (StateResult.error o) e)
  state_given id chan (AnyResult.known o t) c e =
      one (gives_state id chan (StateResult.known o t) e)
  state_given id chan (AnyResult.unknown t) c e =
      one (gives_state id chan (StateResult.unknown t) e)

  given :
      (id : ℕ) (chan : ReplyChannel) (r : AnyResult Obj) (c : Client Obj)
      → lookup id c.reply_channels ≡ some chan
      → Ends (Steps c) (deliver chan r (record c { reply_channels = erase id c.reply_channels }))
  given id (results chan) = result_given id chan
  given id (states chan) = state_given id chan

  handle_reply-Works : (id : ℕ) (r : AnyResult Obj) → Works (handle_reply id r)
  unfolding handle_reply
  handle_reply-Works id r c f = elim (Option-cases (lookup id c.reply_channels)) [
    | inl missing ↦ rw (missing, handle_reply) here
    | inr (chan, found) ↦ rw (found, handle_reply) (given id chan r c found)
  ]

  to_channel-Steps :
      (o : Option ℕ) (push : ℕ → Effect Obj) (c : Client Obj)
      → ((n : ℕ) → o ≡ some n → IsNotice c (push n))
      → Ends (Steps c) (to_channel o (λ chan. update (emit (push chan))) c)
  to_channel-Steps none push c h = here
  to_channel-Steps (some chan) push c h = one (notifies (push chan) (h chan refl))

  handle_reply_message-Works :
      (type : ℕ) (body : Bytes) → Works {Obj = Obj} (handle_reply_message type body)
  unfolding handle_reply_message
  handle_reply_message-Works type body =
      if-Works (type == 0x05) _ _ (lift_then _ _ λ r. handle_reply-Works r.0 _) (
        if-Works (type == 0x06) _ _ (lift_then _ _ λ r. handle_reply-Works r.0 _) (
          if-Works (type == 0x07) _ _ (lift_then _ _ λ r. handle_reply-Works r.0 _) (
            if-Works (type == 0x08) _ _ (lift_then _ _ λ id. handle_reply-Works id _) (
              if-Works (type == 0x0a) _ _ (lift_then _ _ λ r. handle_reply-Works r.0 _) (
                if-Works (type == 0x0b) _ _ (lift_then _ _ λ r. handle_reply-Works r.0 _)
                  (λ c f. here))))))

  pub handle_message-Works : (bytes : Bytes) → Works {Obj = Obj} (handle_message bytes)
  unfolding handle_message handle_action_call handle_event_notify handle_state_known
      handle_state_unknown
  handle_message-Works [] = λ c f. here
  handle_message-Works (type ∷ body) =
      if-Works (type == 0x03 || type == 0x04) _ _ (λ c f. here)
        (if-Works (type == 0x11) _ _
          (lift_then _ _ λ (r : ℕ × Bytes × Obj) c f.
            to_channel-Steps (lookup r.1 c.action_channels) _ c
              (λ n e. calls_action r.1 n r.0 r.2 e))
          (if-Works (type == 0x33) _ _
            (lift_then _ _ λ (r : Bytes × Obj) c f.
              to_channel-Steps (lookup r.0 c.listened_events) _ c
                (λ n e. notifies_event r.0 n r.1 e))
            (if-Works (type == 0x44) _ _
              (lift_then _ _ λ (r : Bytes × Obj) c f.
                to_channel-Steps (lookup r.0 c.observed_states)
                  (λ n. pushes_update n (StateUpdate.known r.1 0)) c
                  (λ n e. changes_state r.0 n _ e))
              (if-Works (type == 0x45) _ _
                (lift_then _ _ λ path c f.
                  to_channel-Steps (lookup path c.observed_states)
                    (λ n. pushes_update n (StateUpdate.unknown 0)) c
                    (λ n e. changes_state path n _ e))
                (handle_reply_message-Works type body)))))

  close_read :
      (c : Client Obj) (n : ℕ)
      → c.on_close ≡ n
      → Ends (Steps c) (elim n as (λ n. Outcome Obj (Unit {0})) [
        | zero ↦ blocked c
        | suc n ↦ done tt (record c { on_close = n })
      ])
  close_read c zero e = here
  close_read c (suc n) e = one (reads_close n e)

  pub read_close-Works : Works {Obj = Obj} read_close
  unfolding read_close
  read_close-Works c f = close_read c c.on_close refl

  pub read_message-Works : Works {Obj = Obj} read_message
  unfolding read_message
  read_message-Works c f =
      list_read c (λ rest. record c { on_message = rest }) c.on_message
        (λ x rest e. reads_message x rest e)

  pub push_unpacker-Works : (bytes : Bytes) → Works {Obj = Obj} (push_unpacker bytes)
  unfolding push_unpacker
  push_unpacker-Works bytes c f = one (feeds bytes)

  unpacked-Steps :
      (r : Except (Option Bytes × Unpacker)) (c : Client Obj)
      → Unpacker.read c.unpacker ≡ r
      → Ends (Steps c) (unpacked r c)
  unpacked-Steps (ok (message, u)) c e = one (unpacks message u e)
  unpacked-Steps (throw x) c e = here

  pub read_unpacker-Works : Works {Obj = Obj} read_unpacker
  unfolding read_unpacker
  read_unpacker-Works c f = unpacked-Steps (Unpacker.read c.unpacker) c refl

  next_message-Works :
      (message : Option Bytes) (rest : M Obj (Unit {0}))
      → Works rest
      → Works (next_message message rest)
  next_message-Works none rest k = λ c f. here
  next_message-Works (some message) rest k =
      bind-Works (handle_message message) (λ _. rest) (handle_message-Works message) (λ _. k)

  handle_messages-Works : (fuel : ℕ) → Works {Obj = Obj} (handle_messages fuel)
  unfolding handle_messages
  handle_messages-Works zero = λ c f. here
  handle_messages-Works (suc fuel) =
      bind-Works read_unpacker (λ message. next_message message (handle_messages fuel))
        read_unpacker-Works
        (λ message. next_message-Works message (handle_messages fuel) (handle_messages-Works fuel))

  pub receive-Works : Works {Obj = Obj} receive
  unfolding receive
  receive-Works = bind-Works read_message _ read_message-Works λ bytes.
      bind-Works (push_unpacker bytes) _ (push_unpacker-Works bytes)
        λ _ c f. handle_messages-Works (suc (length c.unpacker.buffer)) c f

-- ===== src/Client/Messages/Replies.antt =====
-- A reply and the request that it answers.
use eshetcpp.Base.{
  ℕ, ◌^◌, ◌<◌, ◌≡◌, ◌≢◌, refl, sym, ap, ◌∙◌, inl, inr, none, some, arith, protocol_error,
  Option-cases,
}
use eshetcpp.Base.SortedMap.{
  lookup, erase, nat_key, lookup-erase, lookup-emplace, emplace_present, beq_self,
}
use eshetcpp.Msgpack.{Msgpack, RoundTrips, MoveKeeps}
use eshetcpp.Data.{Result, AnyResult}
use eshetcpp.Client.State.{
  Client, Network, Command, ReplyChannel, ResultChannel, StateChannel, results, states,
  pushes_result, action_register, state_register, state_changed, state_observe, event_register,
  event_listen,
}
use eshetcpp.Client.Outcome.{Outcome, done, raised, emit}
use eshetcpp.Client.Commands.{visit_command}
use eshetcpp.Client.Commands.Requests.{
  channel_of, message_of, keep, sent, awaiting, Sends, visit_command-Sends,
}
use eshetcpp.Client.Messages.{handle_reply, deliver, handle_message}
use eshetcpp.Client.Messages.Protocol.{
  reply_ok, encode, handle_reply-replied, handle_message-encode,
}

module _ {Obj : Type 0} where
  -- The entry is taken out, and the reply goes to its channel.
  handle_reply_found :
      (id : ℕ) (r : AnyResult Obj) (c : Client Obj) (chan : ReplyChannel)
      → lookup id c.reply_channels ≡ some chan
      → handle_reply id r c
        ≡ deliver chan r (record c { reply_channels = erase id c.reply_channels })
  unfolding handle_reply
  handle_reply_found id r c chan e = rw (e, handle_reply)

  handle_reply_missing :
      (id : ℕ) (r : AnyResult Obj) (c : Client Obj)
      → lookup id c.reply_channels ≡ none
      → handle_reply id r c ≡ raised protocol_error c
  unfolding handle_reply
  handle_reply_missing id r c e = rw (e, handle_reply)

  deliver-channels :
      (chan : ReplyChannel) (r : AnyResult Obj) (c c' : Client Obj)
      → deliver chan r c ≡ done tt c'
      → c'.reply_channels ≡ c.reply_channels
  unfolding deliver
  deliver-channels (results ResultChannel.ping) r c c' e = ground arith
  deliver-channels (results (ResultChannel.user n)) r c c' e = ground arith
  deliver-channels (results ResultChannel.local) r c c' e = ground arith
  deliver-channels (states (StateChannel.user n)) r c c' e = ground arith
  deliver-channels (states StateChannel.local) r c c' e = ground arith

  never_done :
      {c c' : Client Obj}
      → ◌≡◌ {A = Outcome Obj (Unit {0})} (raised protocol_error c) (done tt c')
      → ⊥
  never_done e = cc

  -- A reply that was accepted was awaited; its id is then free, so that a second reply to it is an
  -- error, and every other request is awaited as before.
  pub reply_once :
      (id : ℕ) (r r' : AnyResult Obj) (c c' : Client Obj)
      → handle_reply id r c ≡ done tt c'
      → (handle_reply id r' c' ≡ raised protocol_error c')
        × ((j : ℕ) → j ≢ id → lookup j c'.reply_channels ≡ lookup j c.reply_channels)
  reply_once id r r' c c' e = elim (Option-cases (lookup id c.reply_channels)) [
    | inl missing ↦ absurd (never_done (sym (handle_reply_missing id r c missing) ∙ e))
    | inr (chan, found) ↦
        let left : c'.reply_channels ≡ erase id c.reply_channels =
          deliver-channels chan r _ c' (sym (handle_reply_found id r c chan found) ∙ e) in
        (
          handle_reply_missing id r' c' (
              ap (lookup id) left ∙ lookup-erase id id c.reply_channels ∙ rw (beq_self nat_key id)),
          λ j other. ap (lookup j) left ∙ lookup-erase id j c.reply_channels ∙ ground arith,
        )
  ]

  keep-reply_channels :
      (command : Command Obj) (c : Client Obj) → (keep command c).reply_channels ≡ c.reply_channels
  keep-reply_channels (action_register path chan call_chan) c = refl
  keep-reply_channels (state_register path chan) c = refl
  keep-reply_channels (state_changed path chan value) c = refl
  keep-reply_channels (state_observe path chan changed_chan) c = refl
  keep-reply_channels (event_register path chan) c = refl
  keep-reply_channels (event_listen path chan event_chan) c = refl
  keep-reply_channels _ c = refl

module _ {Obj : Type 0} ⦃m : Msgpack Obj⦄ ⦃net : Network⦄ (moves : MoveKeeps m)
    (trips : RoundTrips m) where
  -- What the request leaves.
  abbrev pub requested : Command Obj → ReplyChannel → ℕ → Client Obj → Client Obj
  requested command chan fd c =
      sent fd (message_of c.next_id command) (keep command (awaiting chan c))

  answered :
      (c c' : Client Obj) (n : ℕ) (o : Obj)
      → c.next_id < 2 ^ 16
      → lookup c.next_id c'.reply_channels ≡ some (results (ResultChannel.user n))
      → handle_message (encode (reply_ok c.next_id o)) c'
        ≡ done tt (
            emit
              (pushes_result n (Result.success o))
              (record c' { reply_channels = erase c.next_id c'.reply_channels }))
  answered c c' n o small found =
      handle_message-encode trips (reply_ok c.next_id o) c' small
      ∙ sym (handle_reply-replied c.next_id (AnyResult.success o) c')
      ∙ handle_reply_found c.next_id (AnyResult.success o) c' _ found
      ∙ unfold deliver in refl

  -- If the id of a request is free, the server's answer to it goes to the channel that the program
  -- gave with the command, once.
  pub reply-request :
      (command : Command Obj) (c : Client Obj) (n fd : ℕ) (o : Obj)
      → channel_of command ≡ some (results (ResultChannel.user n))
      → Sends c fd (message_of c.next_id command)
      → c.next_id < 2 ^ 16
      → lookup c.next_id c.reply_channels ≡ none
      → let c' : Client Obj = requested command (results (ResultChannel.user n)) fd c in
        (visit_command command c ≡ done tt c')
        × (handle_message (encode (reply_ok c.next_id o)) c'
            ≡ done tt (
                emit
                  (pushes_result n (Result.success o))
                  (record c' { reply_channels = erase c.next_id c'.reply_channels })))
  reply-request command c n fd o e h small free =
      let mine : ReplyChannel = results (ResultChannel.user n) in
      let c' : Client Obj = requested command mine fd c in
      let awaited : lookup c.next_id c'.reply_channels ≡ some mine =
        ap (lookup c.next_id) (keep-reply_channels command (awaiting mine c))
        ∙ lookup-emplace c.next_id c.next_id mine c.reply_channels free
        ∙ rw (beq_self nat_key c.next_id) in
      (visit_command-Sends moves command c mine fd e h, answered c c' n o small awaited)

  -- If the id is still in use, which is so when 65536 requests went out since, the command's channel
  -- is dropped and the answer goes to the older one.
  pub reply-request_in_use :
      (command : Command Obj) (c : Client Obj) (n k fd : ℕ) (o : Obj)
      → channel_of command ≡ some (results (ResultChannel.user n))
      → Sends c fd (message_of c.next_id command)
      → c.next_id < 2 ^ 16
      → lookup c.next_id c.reply_channels ≡ some (results (ResultChannel.user k))
      → let c' : Client Obj = requested command (results (ResultChannel.user n)) fd c in
        (visit_command command c ≡ done tt c')
        × (handle_message (encode (reply_ok c.next_id o)) c'
            ≡ done tt (
                emit
                  (pushes_result k (Result.success o))
                  (record c' { reply_channels = erase c.next_id c'.reply_channels })))
  reply-request_in_use command c n k fd o e h small used =
      let mine : ReplyChannel = results (ResultChannel.user n) in
      let c' : Client Obj = requested command mine fd c in
      let older : lookup c.next_id c'.reply_channels ≡ some (results (ResultChannel.user k)) =
        ap (lookup c.next_id) (keep-reply_channels command (awaiting mine c))
        ∙ ap (lookup c.next_id) (emplace_present c.next_id mine _ c.reply_channels used)
        ∙ used in
      (visit_command-Sends moves command c mine fd e h, answered c c' k o small older)

-- ===== src/Client/Messages/Untouched.antt =====
-- The fields that handle_message of include/eshet.hpp does not touch: the unpacker that its message
-- came from, and the observed states.
use eshetcpp.Base.{
  ℕ, ◌≡◌, refl, inl, inr, Bool, true, false, [], ◌∷◌, Option, none, some, ◌==◌, ◌||◌, if◌then◌else◌,
  Except, ok, throw, Option-cases, arith,
}
use eshetcpp.Base.Bytes.{Bytes}
use eshetcpp.Base.SortedMap.{lookup, nat_key, bytes_key}
use eshetcpp.Msgpack.{Msgpack}
use eshetcpp.Data.{AnyResult}
use eshetcpp.Wire.Unpacker.{Unpacker}
use eshetcpp.Client.State.{
  Client, ReplyChannel, ResultChannel, StateChannel, results, states, Effect,
}
use eshetcpp.Client.Outcome.{Outcome, done, raised, blocked, M, and_then, lift, update, emit}
use eshetcpp.Client.Messages.{
  to_channel, deliver, handle_reply, handle_message, handle_reply_message, handle_action_call,
  handle_event_notify, handle_state_known, handle_state_unknown,
}

-- If it returns, the unpacker is this one.
abbrev pub Leaves : {Obj A : Type 0} → Unpacker → Outcome Obj A → Type 0
Leaves u (done a c) = c.unpacker ≡ u
Leaves u (raised e c) = Unit {0}
Leaves u (blocked c) = Unit {0}

-- If it returns, the unpacker and the observed states are those of this client.
abbrev pub Stays : {Obj A : Type 0} → Client Obj → Outcome Obj A → Type 0
Stays b (done a c) = (c.unpacker ≡ b.unpacker) × (c.observed_states ≡ b.observed_states)
Stays b (raised e c) = Unit {0}
Stays b (blocked c) = Unit {0}

module _ {Obj : Type 0} where
  lift-Stays :
      {A : Type 0} (x : Except A) (k : A → M Obj (Unit {0})) (c : Client Obj)
      → ((a : A) (c : Client Obj) → Stays c (k a c))
      → Stays c (and_then (lift x c) k)
  lift-Stays (ok a) k c later = later a c
  lift-Stays (throw e) k c later = tt

  if-Stays :
      (b : Bool) (x y : M Obj (Unit {0})) (c : Client Obj)
      → Stays c (x c)
      → Stays c (y c)
      → Stays c ((if b then x else y) c)
  if-Stays true x y c hx hy = hx
  if-Stays false x y c hx hy = hy

  to_channel-Stays :
      (o : Option ℕ) (push : ℕ → Effect Obj) (c : Client Obj)
      → Stays c (to_channel o (λ chan. update (emit (push chan))) c)
  to_channel-Stays none push c = tt
  to_channel-Stays (some chan) push c = (refl, refl)

  deliver-Stays :
      (chan : ReplyChannel) (r : AnyResult Obj) (c : Client Obj) → Stays c (deliver chan r c)
  unfolding deliver
  deliver-Stays (results (ResultChannel.user n)) r c = ground arith
  deliver-Stays (results ResultChannel.ping) r c = ground arith
  deliver-Stays (results ResultChannel.local) r c = ground arith
  deliver-Stays (states (StateChannel.user n)) r c = ground arith
  deliver-Stays (states StateChannel.local) r c = ground arith

  handle_reply-Stays : (id : ℕ) (r : AnyResult Obj) (c : Client Obj) → Stays c (handle_reply id r c)
  unfolding handle_reply
  handle_reply-Stays id r c = elim (Option-cases (lookup id c.reply_channels)) [
    | inl missing ↦ rw (missing, handle_reply) tt
    | inr (chan, found) ↦ rw (found, handle_reply) (deliver-Stays chan r _)
  ]

module _ {Obj : Type 0} ⦃m : Msgpack Obj⦄ where
  handle_reply_message-Stays :
      (type : ℕ) (body : Bytes) (c : Client Obj) → Stays c (handle_reply_message type body c)
  unfolding handle_reply_message
  handle_reply_message-Stays type body c =
      if-Stays (type == 0x05) _ _ c (lift-Stays _ _ c λ r. handle_reply-Stays r.0 _) (
        if-Stays (type == 0x06) _ _ c (lift-Stays _ _ c λ r. handle_reply-Stays r.0 _) (
          if-Stays (type == 0x07) _ _ c (lift-Stays _ _ c λ r. handle_reply-Stays r.0 _) (
            if-Stays (type == 0x08) _ _ c (lift-Stays _ _ c λ id. handle_reply-Stays id _) (
              if-Stays (type == 0x0a) _ _ c (lift-Stays _ _ c λ r. handle_reply-Stays r.0 _) (
                if-Stays (type == 0x0b) _ _ c (lift-Stays _ _ c λ r. handle_reply-Stays r.0 _)
                  (refl, refl))))))

  pub handle_message-Stays : (bytes : Bytes) (c : Client Obj) → Stays c (handle_message bytes c)
  unfolding handle_message handle_action_call handle_event_notify handle_state_known
      handle_state_unknown
  handle_message-Stays [] c = tt
  handle_message-Stays (type ∷ body) c = if-Stays (type == 0x03 || type == 0x04) _ _ c tt (
      if-Stays (type == 0x11) _ _ c
        (lift-Stays _ _ c λ r c. to_channel-Stays (lookup r.1 c.action_channels) _ c)
        (if-Stays (type == 0x33) _ _ c
          (lift-Stays _ _ c λ r c. to_channel-Stays (lookup r.0 c.listened_events) _ c)
          (if-Stays (type == 0x44) _ _ c
            (lift-Stays _ _ c λ r c. to_channel-Stays (lookup r.0 c.observed_states) _ c)
            (if-Stays (type == 0x45) _ _ c
              (lift-Stays _ _ c λ path c. to_channel-Stays (lookup path c.observed_states) _ c)
              (handle_reply_message-Stays type body c)))))

  Stays-Leaves : {A : Type 0} (b : Client Obj) (o : Outcome Obj A) → Stays b o → Leaves b.unpacker o
  Stays-Leaves b (done a c) h = h.0
  Stays-Leaves b (raised e c) h = tt
  Stays-Leaves b (blocked c) h = tt

  pub handle_message-Leaves :
      (bytes : Bytes) (c : Client Obj) → Leaves c.unpacker (handle_message bytes c)
  handle_message-Leaves bytes c =
      Stays-Leaves c (handle_message bytes c) (handle_message-Stays bytes c)

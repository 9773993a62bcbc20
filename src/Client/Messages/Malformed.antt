-- ===== src/Client/Messages/Malformed.antt =====
-- handle_message on any bytes at all.
use eshetcpp.Base.{
  ℕ, refl, inl, inr, Bool, true, false, [], ◌∷◌, Option, none, some, ◌==◌, if◌then◌else◌, ◌||◌,
  Except, ok, throw, Option-cases,
}
use eshetcpp.Base.Bytes.{Bytes}
use eshetcpp.Base.SortedMap.{lookup, nat_key, bytes_key}
use eshetcpp.Msgpack.{Msgpack}
use eshetcpp.Data.{AnyResult}
use eshetcpp.Client.State.{Client, ReplyChannel, results, states}
use eshetcpp.Client.Outcome.{Outcome, done, raised, blocked, M, and_then, lift, update}
use eshetcpp.Client.Messages.{
  to_channel, deliver, handle_reply, handle_message, handle_reply_message, handle_action_call,
  handle_event_notify, handle_state_known, handle_state_unknown,
}
use eshetcpp.Client.Body.Safe.{
  IsRefusal, IsSafe, id_msgpack-IsSafe, id_time_msgpack-IsSafe, id_path_msgpack-IsSafe,
  path_msgpack-IsSafe, id_only-IsSafe, path_only-IsSafe, id_time-IsSafe,
}

-- It comes back: it returns, or refuses the message.
abbrev pub Returns : {Obj A : Type 0} → Outcome Obj A → Type 0
Returns (done a c) = Unit {0}
Returns (raised e c) = IsRefusal e
Returns (blocked c) = ⊥

module _ {Obj : Type 0} where
  after_run :
      {A : Type 0} (x : Except A) (k : A → M Obj (Unit {0})) (c : Client Obj)
      → IsSafe x
      → ((a : A) (c : Client Obj) → Returns (k a c))
      → Returns (and_then (lift x c) k)
  after_run (ok a) k c h later = later a c
  after_run (throw e) k c h later = h

  if-Returns :
      (b : Bool) (x y : M Obj (Unit {0})) (c : Client Obj)
      → Returns (x c)
      → Returns (y c)
      → Returns ((if b then x else y) c)
  if-Returns true x y c hx hy = hx
  if-Returns false x y c hx hy = hy

  to_channel-Returns :
      (o : Option ℕ) (push : ℕ → Client Obj → Client Obj) (c : Client Obj)
      → Returns (to_channel o (λ chan. update (push chan)) c)
  to_channel-Returns none push c = inl refl
  to_channel-Returns (some chan) push c = tt

  deliver-Returns :
      (chan : ReplyChannel) (r : AnyResult Obj) (c : Client Obj) → Returns (deliver chan r c)
  unfolding deliver
  deliver-Returns (results chan) (AnyResult.success o) c = tt
  deliver-Returns (results chan) (AnyResult.known o t) c = inl refl
  deliver-Returns (results chan) (AnyResult.unknown t) c = inl refl
  deliver-Returns (results chan) (AnyResult.error o) c = tt
  deliver-Returns (states chan) (AnyResult.success o) c = inl refl
  deliver-Returns (states chan) (AnyResult.known o t) c = tt
  deliver-Returns (states chan) (AnyResult.unknown t) c = tt
  deliver-Returns (states chan) (AnyResult.error o) c = tt

  handle_reply-Returns :
      (id : ℕ) (r : AnyResult Obj) (c : Client Obj) → Returns (handle_reply id r c)
  unfolding handle_reply
  handle_reply-Returns id r c = elim (Option-cases (lookup id c.reply_channels)) [
    | inl missing ↦ rw (missing, handle_reply) (inl refl)
    | inr (chan, found) ↦ rw (found, handle_reply) (deliver-Returns chan r _)
  ]

module _ {Obj : Type 0} ⦃m : Msgpack Obj⦄ where
  handle_reply_message-Returns :
      (type : ℕ) (body : Bytes) (c : Client Obj) → Returns (handle_reply_message type body c)
  unfolding handle_reply_message
  handle_reply_message-Returns type body c =
      if-Returns (type == 0x05) _ _ c
        (after_run _ _ c (id_msgpack-IsSafe m body) λ r. handle_reply-Returns r.0 _)
        (if-Returns (type == 0x06) _ _ c
          (after_run _ _ c (id_msgpack-IsSafe m body) λ r. handle_reply-Returns r.0 _)
          (if-Returns (type == 0x07) _ _ c
            (after_run _ _ c (id_msgpack-IsSafe m body) λ r. handle_reply-Returns r.0 _)
            (if-Returns (type == 0x08) _ _ c
              (after_run _ _ c (id_only-IsSafe body) λ id. handle_reply-Returns id _)
              (if-Returns (type == 0x0a) _ _ c
                (after_run _ _ c (id_time_msgpack-IsSafe m body) λ r. handle_reply-Returns r.0 _)
                (if-Returns (type == 0x0b) _ _ c
                  (after_run _ _ c (id_time-IsSafe body) λ r. handle_reply-Returns r.0 _) tt)))))

  -- Whatever the bytes are, handle_message returns, or throws a ProtocolError or what msgpack::unpack
  -- throws: it never waits, and reads nothing outside of the message.
  pub handle_message-Returns : (bytes : Bytes) (c : Client Obj) → Returns (handle_message bytes c)
  unfolding handle_message handle_action_call handle_event_notify handle_state_known
      handle_state_unknown
  handle_message-Returns [] c = inl refl
  handle_message-Returns (type ∷ body) c =
      if-Returns (type == 0x03 || type == 0x04) _ _ c (inl refl) (
        if-Returns (type == 0x11) _ _ c
          (after_run _ _ c (id_path_msgpack-IsSafe m body)
            λ r c. to_channel-Returns (lookup r.1 c.action_channels) _ c)
          (if-Returns (type == 0x33) _ _ c
            (after_run _ _ c (path_msgpack-IsSafe m body)
              λ r c. to_channel-Returns (lookup r.0 c.listened_events) _ c)
            (if-Returns (type == 0x44) _ _ c
              (after_run _ _ c (path_msgpack-IsSafe m body)
                λ r c. to_channel-Returns (lookup r.0 c.observed_states) _ c)
              (if-Returns (type == 0x45) _ _ c
                (after_run _ _ c (path_only-IsSafe body)
                  λ path c. to_channel-Returns (lookup path c.observed_states) _ c)
                (handle_reply_message-Returns type body c)))))

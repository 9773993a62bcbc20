-- ===== src/Client/Sent.antt =====
-- The bytes that the client of include/eshet.hpp gives to send, and the changes that send nothing.
pub mod Whole
use eshetcpp.Base.{ℕ, ◌≡◌, refl, ap, ◌∙◌, List, [], ◌∷◌, ◌++◌, append-nil, append_assoc}
use eshetcpp.Base.Bytes.{Bytes}
use eshetcpp.Msgpack.{Msgpack}
use eshetcpp.Data.{Result, StateResult, StateUpdate}
use eshetcpp.Client.State.{
  Client, Command, Arrival, received, closed, replied, commanded, told_to_exit, Effect, sends,
  pushes_update, ReplyChannel, ResultChannel, StateChannel, results, states, disconnect,
}
use eshetcpp.Client.Outcome.{emit, push_result, push_state}
use eshetcpp.Client.Api.{arrive}
use eshetcpp.Client.Waiting.{arrive_all}
use eshetcpp.Client.Connection.{
  push_disconnected, disconnect_replies, forget_states, reset_connection,
}
use eshetcpp.Client.Steps.{
  begun, IsNotice, calls_action, notifies_event, changes_state, observes_again, logs_line,
}

module _ {Obj : Type 0} where
  abbrev pub sent_by : Effect Obj → Bytes
  sent_by (sends fd bytes) = bytes
  sent_by _ = []

  -- What went out, in order.
  abbrev pub sent_bytes : List (Effect Obj) → Bytes
  sent_bytes [] = []
  sent_bytes (e ∷ es) = sent_by e ++ sent_bytes es

  pub sent-append :
      (es fs : List (Effect Obj)) → sent_bytes (es ++ fs) ≡ sent_bytes es ++ sent_bytes fs
  sent-append [] fs = refl
  sent-append (e ∷ es) fs =
      rw (append_assoc (sent_by e) (sent_bytes es) (sent_bytes fs), sent-append es fs) refl

  -- Nothing is sent, and the message under construction stays.
  pub record IsQuiet (c d : Client Obj) : Type 0 where
    pub same_sent : sent_bytes d.effects ≡ sent_bytes c.effects
    pub same_buffer : d.send_buf ≡ c.send_buf

  pub still : {c d : Client Obj} → d.effects ≡ c.effects → d.send_buf ≡ c.send_buf → IsQuiet c d
  still e b = record { same_sent = ap sent_bytes e; same_buffer = b }

  pub IsQuiet-trans : {a b c : Client Obj} → IsQuiet a b → IsQuiet b c → IsQuiet a c
  IsQuiet-trans h k = record {
    same_sent = k.same_sent ∙ h.same_sent;
    same_buffer = k.same_buffer ∙ h.same_buffer;
  }

  pub emit-sent :
      (e : Effect Obj) (c : Client Obj)
      → sent_bytes (emit e c).effects ≡ sent_bytes c.effects ++ sent_by e
  emit-sent e c =
      sent-append c.effects (e ∷ [])
      ∙ ap (λ bytes. sent_bytes c.effects ++ bytes) (append-nil (sent_by e))

  pub emit-IsQuiet : (e : Effect Obj) (c : Client Obj) → sent_by e ≡ [] → IsQuiet c (emit e c)
  emit-IsQuiet e c h = record {
    same_sent =
        emit-sent e c
        ∙ ap (λ bytes. sent_bytes c.effects ++ bytes) h
        ∙ append-nil (sent_bytes c.effects);
    same_buffer = refl;
  }

  pub notice-sent : {c : Client Obj} {e : Effect Obj} → IsNotice c e → sent_by e ≡ []
  notice-sent (calls_action path chan id args h) = refl
  notice-sent (notifies_event path chan o h) = refl
  notice-sent (changes_state path chan u h) = refl
  notice-sent (observes_again before after path chan u h) = refl
  notice-sent (logs_line text) = refl

  pub push_result-IsQuiet :
      (chan : ResultChannel) (r : Result Obj) (c : Client Obj) → IsQuiet c (push_result chan r c)
  unfolding push_result
  push_result-IsQuiet (ResultChannel.user n) r c = emit-IsQuiet _ c refl
  push_result-IsQuiet ResultChannel.ping r c = still refl refl
  push_result-IsQuiet ResultChannel.local r c = still refl refl

  pub push_state-IsQuiet :
      (chan : StateChannel) (r : StateResult Obj) (c : Client Obj) → IsQuiet c (push_state chan r c)
  unfolding push_state
  push_state-IsQuiet (StateChannel.user n) r c = emit-IsQuiet _ c refl
  push_state-IsQuiet StateChannel.local r c = still refl refl

  pub begun-IsQuiet : (command : Command Obj) (c : Client Obj) → IsQuiet c (begun command c)
  begun-IsQuiet disconnect c = still refl refl
  begun-IsQuiet _ c = still refl refl

  forget_states-IsQuiet : (l : List (Bytes × ℕ)) (c : Client Obj) → IsQuiet c (forget_states l c)
  unfolding forget_states
  forget_states-IsQuiet [] c = still refl refl
  forget_states-IsQuiet ((path, chan) ∷ rest) c =
      IsQuiet-trans (emit-IsQuiet _ c refl)
        (forget_states-IsQuiet rest (emit (pushes_update chan (StateUpdate.unknown 0)) c))

  arrive-IsQuiet : (a : Arrival Obj) (c : Client Obj) → IsQuiet c (arrive a c)
  unfolding arrive
  arrive-IsQuiet (received bytes) c = still refl refl
  arrive-IsQuiet closed c = still refl refl
  arrive-IsQuiet (replied connection_id id r) c = still refl refl
  arrive-IsQuiet (commanded command) c = still refl refl
  arrive-IsQuiet told_to_exit c = still refl refl

  pub arrive_all-IsQuiet :
      (as' : List (Arrival Obj)) (c : Client Obj) → IsQuiet c (arrive_all as' c)
  unfolding arrive_all
  arrive_all-IsQuiet [] c = still refl refl
  arrive_all-IsQuiet (a ∷ as') c =
      IsQuiet-trans (arrive-IsQuiet a c) (arrive_all-IsQuiet as' (arrive a c))

module _ {Obj : Type 0} ⦃m : Msgpack Obj⦄ where
  push_disconnected-IsQuiet :
      (chan : ReplyChannel) (c : Client Obj) → IsQuiet c (push_disconnected chan c)
  unfolding push_disconnected
  push_disconnected-IsQuiet (results chan) c = push_result-IsQuiet chan _ c
  push_disconnected-IsQuiet (states chan) c = push_state-IsQuiet chan _ c

  disconnect_replies-IsQuiet :
      (l : List (ℕ × ReplyChannel)) (c : Client Obj) → IsQuiet c (disconnect_replies l c)
  unfolding disconnect_replies
  disconnect_replies-IsQuiet [] c = still refl refl
  disconnect_replies-IsQuiet ((id, chan) ∷ rest) c =
      IsQuiet-trans (push_disconnected-IsQuiet chan c)
        (disconnect_replies-IsQuiet rest (push_disconnected chan c))

  pub reset_connection-IsQuiet : (c : Client Obj) → IsQuiet c (reset_connection c)
  unfolding reset_connection
  reset_connection-IsQuiet c =
      let c1 = disconnect_replies c.reply_channels c in
      let h = disconnect_replies-IsQuiet c.reply_channels c in
      let k = forget_states-IsQuiet c1.observed_states (record c1 { reply_channels = [] }) in
      record { same_sent = k.same_sent ∙ h.same_sent; same_buffer = k.same_buffer ∙ h.same_buffer }

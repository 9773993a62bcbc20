-- ===== src/Client/Answers/Preserved.antt =====
-- The counts of the answers, over the steps of the client in include/eshet.hpp.
use eshetcpp.Base.{ℕ, ◌+◌, ◌≤◌, ◌≡◌, refl, ap, ◌∙◌, List, [], ◌∷◌, arith}
use eshetcpp.Base.SortedMap.{erase, nat_key}
use eshetcpp.Msgpack.{Msgpack}
use eshetcpp.Client.State.{
  Client, Network, Effect, ReplyChannel, ResultChannel, StateChannel, results, states, sends,
  closes,
}
use eshetcpp.Client.Outcome.{push_result, push_state}
use eshetcpp.Client.Connection.{push_disconnected, disconnect_replies, reset_connection}
use eshetcpp.Client.Steps.{
  Step, Reaches, start, step, waits, IsNotice, calls_action, notifies_event, changes_state,
  observes_again, logs_line, takes_id, awaits, begins, gives_result, gives_state, drops,
  sends_bytes, notifies, closes_socket, resets,
}
use eshetcpp.Client.Answers.{
  one_if, pending, answer, ask, asked, arriving, coming, total, own-one_if, pending-emplace,
  pending-erase_le, pending-erase, total-emit, total-push_result, total-push_state, begun-total,
  forget_states-total, arrive_all-total,
}

module _ {Obj : Type 0} ⦃m : Msgpack Obj⦄ ⦃net : Network⦄ (to : ReplyChannel) where
  push_disconnected-total :
      (chan : ReplyChannel) (c : Client Obj)
      → total to (push_disconnected chan c) ≡ one_if to chan + total to c
  unfolding push_disconnected
  push_disconnected-total (results chan) c = total-push_result to chan _ c
  push_disconnected-total (states chan) c = total-push_state to chan _ c

  disconnect_replies-total :
      (l : List (ℕ × ReplyChannel)) (c : Client Obj)
      → total to (disconnect_replies l c) ≡ pending to l + total to c
  unfolding disconnect_replies
  disconnect_replies-total [] c = omega arith
  disconnect_replies-total ((id, chan) ∷ rest) c = omega (
    arith,
    disconnect_replies-total rest (push_disconnected chan c),
    push_disconnected-total chan c,
  )

  push_disconnected-replies :
      (chan : ReplyChannel) (c : Client Obj)
      → (push_disconnected chan c).reply_channels ≡ c.reply_channels
  unfolding push_disconnected push_result push_state
  push_disconnected-replies (results (ResultChannel.user n)) c = refl
  push_disconnected-replies (results ResultChannel.ping) c = refl
  push_disconnected-replies (results ResultChannel.local) c = refl
  push_disconnected-replies (states (StateChannel.user n)) c = refl
  push_disconnected-replies (states StateChannel.local) c = refl

  disconnect_replies-replies :
      (l : List (ℕ × ReplyChannel)) (c : Client Obj)
      → (disconnect_replies l c).reply_channels ≡ c.reply_channels
  unfolding disconnect_replies
  disconnect_replies-replies [] c = refl
  disconnect_replies-replies ((id, chan) ∷ rest) c =
      disconnect_replies-replies rest (push_disconnected chan c) ∙ push_disconnected-replies chan c

  -- The end of a connection answers every command that waits.
  reset_connection-total : (c : Client Obj) → total to (reset_connection c) ≡ total to c
  unfolding reset_connection
  reset_connection-total c =
      let c1 = disconnect_replies c.reply_channels c in
      let c2 = record c1 { reply_channels = [] } in
      let same : pending to c1.reply_channels ≡ pending to c.reply_channels =
        ap (pending to) (disconnect_replies-replies c.reply_channels c) in
      omega (
        arith,
        same,
        disconnect_replies-total c.reply_channels c,
        forget_states-total to c1.observed_states c2,
      )

  notice-answer : {c : Client Obj} {e : Effect Obj} → IsNotice c e → answer to e ≡ 0
  notice-answer (calls_action path chan id args h) = refl
  notice-answer (notifies_event path chan o h) = refl
  notice-answer (changes_state path chan u h) = refl
  notice-answer (observes_again before after path chan u h) = refl
  notice-answer (logs_line text) = refl

  Step-total : {c d : Client Obj} → Step c d → total to d ≤ total to c
  Step-total takes_id = omega arith
  Step-total {c} (awaits id chan lt own) =
      omega (arith, pending-emplace to id chan c.reply_channels, own-one_if to chan own)
  Step-total {c} (begins command rest e) =
      let taken : asked to c.on_command ≡ ask to command + asked to rest = ap (asked to) e in
      omega (arith, taken, begun-total to command (record c { on_command = rest }))
  Step-total {c} (gives_result id chan r e) = omega (
    arith,
    total-push_result to chan r (record c { reply_channels = erase id c.reply_channels }),
    pending-erase to id (results chan) c.reply_channels e,
  )
  Step-total {c} (gives_state id chan r e) = omega (
    arith,
    total-push_state to chan r (record c { reply_channels = erase id c.reply_channels }),
    pending-erase to id (states chan) c.reply_channels e,
  )
  Step-total {c} (drops id chan r h k) = omega (arith, pending-erase_le to id c.reply_channels)
  Step-total {c} (sends_bytes fd n e taken) = omega (arith, total-emit to (sends fd _) c)
  Step-total {c} (notifies e h) = omega (arith, total-emit to e c, notice-answer h)
  Step-total {c} (closes_socket fd h e) = omega (arith, total-emit to (closes fd) c)
  Step-total {c} resets = omega (arith, reset_connection-total c)
  Step-total _ = omega arith

  pub Reaches-total : {c d : Client Obj} → Reaches c d → total to d ≤ total to c
  Reaches-total start = omega arith
  Reaches-total (step r st) = omega (arith, Reaches-total r, Step-total st)
  Reaches-total (waits {d} t ts r e) =
      let taken : coming to d.turns ≡ arriving to t.arrivals + coming to ts = ap (coming to) e in
      omega (
        arith,
        taken,
        Reaches-total r,
        arrive_all-total to t.arrivals (record d { turns = ts; now = t.time }),
      )

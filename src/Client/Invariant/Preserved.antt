-- ===== src/Client/Invariant/Preserved.antt =====
-- The invariant, at each step of the client and at each wait.
use eshetcpp.Base.{ℕ, ◌+◌, ◌%◌, ◌^◌, ◌<◌, ◌≤◌, List, [], ◌∷◌, none, length, arith}
use eshetcpp.Base.Bytes.{Bytes}
use eshetcpp.Base.SortedMap.{emplace, erase, assign, nat_key, bytes_key}
use eshetcpp.Base.SortedMap.Order.{
  IsSorted, AllKeys, nat-Ordered, bytes-Ordered, emplace-IsSorted, assign-IsSorted, erase-IsSorted,
  emplace-AllKeys, erase-AllKeys,
}
use eshetcpp.Msgpack.{Msgpack}
use eshetcpp.Data.{Result, StateResult, StateUpdate}
use eshetcpp.Client.State.{
  Network, Client, Turn, Arrival, received, closed, replied, commanded, told_to_exit, Effect,
  pushes_update, Command, ReplyChannel, ResultChannel, StateChannel, results, states, action_call,
  action_register, state_register, state_changed, state_observe, event_register, event_emit,
  event_listen, get, set, ping, disconnect,
}
use eshetcpp.Client.Outcome.{emit, push_result, push_state}
use eshetcpp.Client.Api.{arrive}
use eshetcpp.Client.Waiting.{arrive_all}
use eshetcpp.Client.Commands.Requests.{awaiting}
use eshetcpp.Client.Connection.{
  push_disconnected, disconnect_replies, forget_states, reset_connection,
}
use eshetcpp.Client.Steps.{
  Step, Reaches, start, step, waits, begun, takes_id, awaits, begins, gives_result, gives_state,
  drops, joins, counts, stops_thread, closes_socket, resets,
}
use eshetcpp.Client.Invariant.{IsValid}

module _ {Obj : Type 0} (n : ℕ) where
  emit-IsValid : (e : Effect Obj) (c : Client Obj) → IsValid n c → IsValid n (emit e c)
  emit-IsValid e c v = ground arith

  push_result-IsValid :
      (chan : ResultChannel) (r : Result Obj) (c : Client Obj)
      → IsValid n c
      → IsValid n (push_result chan r c)
  unfolding push_result
  push_result-IsValid (ResultChannel.user k) r c v = ground arith
  push_result-IsValid ResultChannel.ping r c v = ground arith
  push_result-IsValid ResultChannel.local r c v = ground arith

  push_state-IsValid :
      (chan : StateChannel) (r : StateResult Obj) (c : Client Obj)
      → IsValid n c
      → IsValid n (push_state chan r c)
  unfolding push_state
  push_state-IsValid (StateChannel.user k) r c v = ground arith
  push_state-IsValid StateChannel.local r c v = ground arith

  erase-IsValid :
      (id : ℕ) (c : Client Obj)
      → IsValid n c
      → IsValid n (record c { reply_channels = erase id c.reply_channels })
  erase-IsValid id c v =
      let sorted : IsSorted (erase id c.reply_channels) =
        erase-IsSorted nat-Ordered id c.reply_channels v.replies_sorted in
      let fit : AllKeys (λ id. id < 2 ^ 16) (erase id c.reply_channels) =
        erase-AllKeys (λ id. id < 2 ^ 16) id c.reply_channels v.reply_ids_fit in
      ground arith

  emplace-IsValid :
      (id : ℕ) (chan : ReplyChannel) (c : Client Obj)
      → id < 2 ^ 16
      → IsValid n c
      → IsValid n (record c { reply_channels = emplace id chan c.reply_channels })
  emplace-IsValid id chan c lt v =
      let sorted : IsSorted (emplace id chan c.reply_channels) =
        emplace-IsSorted nat-Ordered id chan c.reply_channels v.replies_sorted in
      let fit : AllKeys (λ id. id < 2 ^ 16) (emplace id chan c.reply_channels) =
        emplace-AllKeys (λ id. id < 2 ^ 16) id chan c.reply_channels lt v.reply_ids_fit in
      ground arith

  next_id-IsValid :
      (c : Client Obj) → IsValid n c → IsValid n (record c { next_id = (c.next_id + 1) % 2 ^ 16 })
  next_id-IsValid c v = ground arith

  awaiting-IsValid :
      (chan : ReplyChannel) (c : Client Obj) → IsValid n c → IsValid n (awaiting chan c)
  awaiting-IsValid chan c v = next_id-IsValid _ (emplace-IsValid c.next_id chan c v.next_id_fits v)

  -- What is kept to be registered again.
  begun-IsValid :
      (command : Command Obj) (c : Client Obj) → IsValid n c → IsValid n (begun command c)
  begun-IsValid (action_call path chan args) c v = awaiting-IsValid (results chan) c v
  begun-IsValid (action_register path chan k) c v =
      let w = awaiting-IsValid (results chan) c v in
      let s : IsSorted (emplace path k c.action_channels) =
        emplace-IsSorted bytes-Ordered path k c.action_channels v.actions_sorted in
      ground arith
  begun-IsValid (state_register path chan) c v =
      let w = awaiting-IsValid (results chan) c v in
      let s : IsSorted (emplace path (StateUpdate.unknown 0) c.registered_states) =
        emplace-IsSorted bytes-Ordered path (StateUpdate.unknown 0) c.registered_states
          v.states_sorted in
      ground arith
  begun-IsValid (state_changed path chan u) c v =
      let w = awaiting-IsValid (results chan) c v in
      let s : IsSorted (assign path u c.registered_states) =
        assign-IsSorted bytes-Ordered path u c.registered_states v.states_sorted in
      ground arith
  begun-IsValid (state_observe path chan k) c v =
      let w = awaiting-IsValid (states chan) c v in
      let s : IsSorted (emplace path k c.observed_states) =
        emplace-IsSorted bytes-Ordered path k c.observed_states v.observed_sorted in
      ground arith
  begun-IsValid (event_register path chan) c v =
      let w = awaiting-IsValid (results chan) c v in
      let s : IsSorted (emplace path tt c.registered_events) =
        emplace-IsSorted bytes-Ordered path tt c.registered_events v.events_sorted in
      ground arith
  begun-IsValid (event_emit path chan u) c v = awaiting-IsValid (results chan) c v
  begun-IsValid (event_listen path chan k) c v =
      let w = awaiting-IsValid (results chan) c v in
      let s : IsSorted (emplace path k c.listened_events) =
        emplace-IsSorted bytes-Ordered path k c.listened_events v.listened_sorted in
      ground arith
  begun-IsValid (get path chan) c v = awaiting-IsValid (results chan) c v
  begun-IsValid (set path chan u) c v = awaiting-IsValid (results chan) c v
  begun-IsValid (ping chan) c v = awaiting-IsValid (results chan) c v
  begun-IsValid disconnect c v = ground arith

  forget_states-IsValid :
      (l : List (Bytes × ℕ)) (c : Client Obj) → IsValid n c → IsValid n (forget_states l c)
  unfolding forget_states
  forget_states-IsValid [] c v = v
  forget_states-IsValid ((path, chan) ∷ rest) c v =
      forget_states-IsValid rest _ (emit-IsValid (pushes_update chan (StateUpdate.unknown 0)) c v)

  arrive-IsValid : (a : Arrival Obj) (c : Client Obj) → IsValid n c → IsValid n (arrive a c)
  unfolding arrive
  arrive-IsValid (received bytes) c v = ground arith
  arrive-IsValid closed c v = ground arith
  arrive-IsValid (replied connection_id id r) c v = ground arith
  arrive-IsValid (commanded command) c v = ground arith
  arrive-IsValid told_to_exit c v = ground arith

  arrive_all-IsValid :
      (as' : List (Arrival Obj)) (c : Client Obj) → IsValid n c → IsValid n (arrive_all as' c)
  unfolding arrive_all
  arrive_all-IsValid [] c v = v
  arrive_all-IsValid (a ∷ as') c v = arrive_all-IsValid as' (arrive a c) (arrive-IsValid a c v)

  -- `n` bounds the turns that are left.
  pub turn-IsValid :
      (t : Turn Obj) (ts : List (Turn Obj)) (k : ℕ) (c : Client Obj)
      → IsValid k c
      → length ts ≤ n
      → IsValid n (arrive_all t.arrivals (record c { turns = ts; now = t.time }))
  turn-IsValid t ts k c v le =
      arrive_all-IsValid t.arrivals (record c { turns = ts; now = t.time }) (ground arith)

module _ {Obj : Type 0} ⦃m : Msgpack Obj⦄ ⦃net : Network⦄ (n : ℕ) where
  push_disconnected-IsValid :
      (chan : ReplyChannel) (c : Client Obj) → IsValid n c → IsValid n (push_disconnected chan c)
  unfolding push_disconnected
  push_disconnected-IsValid (results chan) = push_result-IsValid n chan _
  push_disconnected-IsValid (states chan) = push_state-IsValid n chan _

  disconnect_replies-IsValid :
      (l : List (ℕ × ReplyChannel)) (c : Client Obj)
      → IsValid n c
      → IsValid n (disconnect_replies l c)
  unfolding disconnect_replies
  disconnect_replies-IsValid [] c v = v
  disconnect_replies-IsValid ((id, chan) ∷ rest) c v =
      disconnect_replies-IsValid rest (push_disconnected chan c)
        (push_disconnected-IsValid chan c v)

  forget_replies-IsValid :
      (c : Client Obj) → IsValid n c → IsValid n (record c { reply_channels = [] })
  forget_replies-IsValid c v = ground arith

  reset_fields-IsValid :
      (c : Client Obj)
      → IsValid n c
      → IsValid n
          (record c { ping_timeout = none; ping_result = []; on_close = 0; on_message = [] })
  reset_fields-IsValid c v = ground arith

  reset_connection-IsValid : (c : Client Obj) → IsValid n c → IsValid n (reset_connection c)
  unfolding reset_connection
  reset_connection-IsValid c v =
      let c1 = disconnect_replies c.reply_channels c in
      let v1 = disconnect_replies-IsValid c.reply_channels c v in
      let c2 = record c1 { reply_channels = [] } in
      reset_fields-IsValid (forget_states c1.observed_states c2)
        (forget_states-IsValid n c1.observed_states c2 (forget_replies-IsValid c1 v1))

  Step-IsValid : {c d : Client Obj} → Step c d → IsValid n c → IsValid n d
  Step-IsValid {c} takes_id v = next_id-IsValid n c v
  Step-IsValid {c} (awaits id chan lt own) v = emplace-IsValid n id chan c lt v
  Step-IsValid {c} (begins command rest e) v =
      begun-IsValid n command (record c { on_command = rest }) (ground arith)
  Step-IsValid {c} (gives_result id chan r e) v =
      push_result-IsValid n chan r _ (erase-IsValid n id c v)
  Step-IsValid {c} (gives_state id chan r e) v =
      push_state-IsValid n chan r _ (erase-IsValid n id c v)
  Step-IsValid {c} (drops id chan r h k) v = erase-IsValid n id c v
  Step-IsValid (joins fd e) v = ground arith
  Step-IsValid counts v = ground arith
  Step-IsValid stops_thread v = ground arith
  Step-IsValid (closes_socket fd h e) v = ground arith
  Step-IsValid {c} resets v = reset_connection-IsValid c v
  Step-IsValid _ v = ground arith

  pub Reaches-IsValid : {c d : Client Obj} → Reaches c d → IsValid n c → IsValid n d
  Reaches-IsValid start v = v
  Reaches-IsValid (step r st) v = Step-IsValid st (Reaches-IsValid r v)
  Reaches-IsValid (waits {d} t ts r e) v =
      let w = Reaches-IsValid r v in turn-IsValid n t ts n d w (ground arith)

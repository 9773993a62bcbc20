-- ===== src/Client/Answers.antt =====
-- Counts of the answers to the commands of the program, and of those that may still come, for the
-- client of include/eshet.hpp.
pub mod Preserved
pub mod Runs
use eshetcpp.Base.{
  ℕ, suc, ◌+◌, ◌%◌, ◌^◌, ◌<◌, ◌≤◌, ◌≡◌, refl, ap, ◌∙◌, Bool, true, false, List, [], ◌∷◌, ◌++◌,
  Option, none, some, arith, ◌==◌, if◌then◌else◌, Option-cases, inl, inr, Bool-cases,
}
use eshetcpp.Base.Bytes.{Bytes}
use eshetcpp.Base.SortedMap.{lookup, insert, emplace, erase, nat_key}
use eshetcpp.Msgpack.{Msgpack}
use eshetcpp.Data.{Result, StateResult, StateUpdate}
use eshetcpp.Client.State.{
  Client, Network, Turn, Arrival, received, closed, replied, commanded, told_to_exit, Effect,
  pushes_result, pushes_state, pushes_update, Command, ReplyChannel, ResultChannel, StateChannel,
  results, states, sends, closes, logs, pushes_call, pushes_event, action_call, action_register,
  state_register, state_changed, state_observe, event_register, event_emit, event_listen, get, set,
  ping, disconnect,
}
use eshetcpp.Client.Outcome.{emit, push_result, push_state}
use eshetcpp.Client.Api.{arrive}
use eshetcpp.Client.Waiting.{arrive_all}
use eshetcpp.Client.Commands.Requests.{channel_of, awaiting}
use eshetcpp.Client.Connection.{
  push_disconnected, disconnect_replies, forget_states, reset_connection,
}
use eshetcpp.Client.Steps.{
  Step, Reaches, start, step, waits, begun, IsOwn, IsNotice, takes_id, awaits, begins, gives_result,
  gives_state, drops, writes, calls_system, sends_bytes, notifies, reads_message, unpacks,
  reads_close, reads_reply, reads_ping, local_results_become, local_states_become, idles_until,
  pings_until, is_named, joins, counts, stops_thread, closes_socket, resets,
}

-- The same channel of the program.
abbrev pub is_for : ReplyChannel → ReplyChannel → Bool
is_for (results (ResultChannel.user a)) (results (ResultChannel.user b)) = a == b
is_for (states (StateChannel.user a)) (states (StateChannel.user b)) = a == b
is_for _ _ = false

own-is_for : (to chan : ReplyChannel) → IsOwn chan → is_for to chan ≡ false
own-is_for to (results (ResultChannel.user n)) h = absurd h
own-is_for to (states (StateChannel.user n)) h = absurd h
own-is_for (results (ResultChannel.user a)) _ h = refl
own-is_for (results ResultChannel.ping) _ h = refl
own-is_for (results ResultChannel.local) _ h = refl
own-is_for (states (StateChannel.user a)) _ h = refl
own-is_for (states StateChannel.local) _ h = refl

-- Every count is for one channel.
module _ (to : ReplyChannel) where
  abbrev pub one_if : ReplyChannel → ℕ
  one_if chan = if is_for to chan then 1 else 0

  -- The entries that wait for a reply to it.
  abbrev pub pending : List (ℕ × ReplyChannel) → ℕ
  pending [] = 0
  pending ((id, chan) ∷ rest) = one_if chan + pending rest

  pub own-one_if : (chan : ReplyChannel) → IsOwn chan → one_if chan ≡ 0
  own-one_if chan h = rw (own-is_for to chan h) refl

  pending-insert :
      (id : ℕ) (chan : ReplyChannel) (m : List (ℕ × ReplyChannel))
      → pending (insert id chan m) ≡ one_if chan + pending m
  unfolding insert
  pending-insert id chan [] = refl
  pending-insert id chan ((j, w) ∷ m) = ground (arith, pending-insert id chan m)

  pub pending-emplace :
      (id : ℕ) (chan : ReplyChannel) (m : List (ℕ × ReplyChannel))
      → pending (emplace id chan m) ≤ one_if chan + pending m
  unfolding emplace
  pending-emplace id chan m = ground (arith, pending-insert id chan m)

  pub pending-erase_le : (id : ℕ) (m : List (ℕ × ReplyChannel)) → pending (erase id m) ≤ pending m
  unfolding erase
  pending-erase_le id [] = omega arith
  pending-erase_le id ((j, w) ∷ m) = ground (arith, pending-erase_le id m)

  pub pending-erase :
      (id : ℕ) (chan : ReplyChannel) (m : List (ℕ × ReplyChannel))
      → lookup id m ≡ some chan
      → one_if chan + pending (erase id m) ≤ pending m
  unfolding erase lookup
  pending-erase id chan [] e = cc
  pending-erase id chan ((j, w) ∷ m) e =
      ground (arith, pending-erase_le id m, pending-erase id chan m)

module _ {Obj : Type 0} (to : ReplyChannel) where
  -- The pushes to it.
  abbrev pub answer : Effect Obj → ℕ
  answer (pushes_result n r) = one_if to (results (ResultChannel.user n))
  answer (pushes_state n r) = one_if to (states (StateChannel.user n))
  answer _ = 0

  abbrev pub answers : List (Effect Obj) → ℕ
  answers [] = 0
  answers (e ∷ es) = answer e + answers es

  -- The commands that name it.
  abbrev pub ask : Command Obj → ℕ
  ask command = elim (channel_of command) [ none ↦ 0 | some chan ↦ one_if to chan ]

  abbrev pub asked : List (Command Obj) → ℕ
  asked [] = 0
  asked (command ∷ rest) = ask command + asked rest

  abbrev pub arriving : List (Arrival Obj) → ℕ
  arriving [] = 0
  arriving (commanded command ∷ rest) = ask command + arriving rest
  arriving (_ ∷ rest) = arriving rest

  abbrev pub coming : List (Turn Obj) → ℕ
  coming [] = 0
  coming (t ∷ ts) = arriving t.arrivals + coming ts

  -- The answers that were given, and those that may still come.
  abbrev pub total : Client Obj → ℕ
  total c = answers c.effects + pending to c.reply_channels + asked c.on_command + coming c.turns

  pub answers-append : (es fs : List (Effect Obj)) → answers (es ++ fs) ≡ answers es + answers fs
  answers-append [] fs = omega arith
  answers-append (e ∷ es) fs = omega (arith, answers-append es fs)

  pub asked-append : (as' bs : List (Command Obj)) → asked (as' ++ bs) ≡ asked as' + asked bs
  asked-append [] bs = omega arith
  asked-append (a ∷ as') bs = omega (arith, asked-append as' bs)

  pub total-emit : (e : Effect Obj) (c : Client Obj) → total (emit e c) ≡ answer e + total c
  total-emit e c = omega (arith, answers-append c.effects (e ∷ []))

  pub total-push_result :
      (chan : ResultChannel) (r : Result Obj) (c : Client Obj)
      → total (push_result chan r c) ≡ one_if to (results chan) + total c
  unfolding push_result
  total-push_result (ResultChannel.user n) r c = total-emit (pushes_result n r) c
  total-push_result ResultChannel.ping r c = ground arith
  total-push_result ResultChannel.local r c = ground arith

  pub total-push_state :
      (chan : StateChannel) (r : StateResult Obj) (c : Client Obj)
      → total (push_state chan r c) ≡ one_if to (states chan) + total c
  unfolding push_state
  total-push_state (StateChannel.user n) r c = total-emit (pushes_state n r) c
  total-push_state StateChannel.local r c = ground arith

  awaiting-total :
      (chan : ReplyChannel) (c : Client Obj) → total (awaiting chan c) ≤ one_if to chan + total c
  awaiting-total chan c = omega (arith, pending-emplace to c.next_id chan c.reply_channels)

  pub begun-total :
      (command : Command Obj) (c : Client Obj) → total (begun command c) ≤ ask command + total c
  begun-total (action_call path chan args) c = awaiting-total (results chan) c
  begun-total (action_register path chan k) c = awaiting-total (results chan) c
  begun-total (state_register path chan) c = awaiting-total (results chan) c
  begun-total (state_changed path chan u) c = awaiting-total (results chan) c
  begun-total (state_observe path chan k) c = awaiting-total (states chan) c
  begun-total (event_register path chan) c = awaiting-total (results chan) c
  begun-total (event_emit path chan u) c = awaiting-total (results chan) c
  begun-total (event_listen path chan k) c = awaiting-total (results chan) c
  begun-total (get path chan) c = awaiting-total (results chan) c
  begun-total (set path chan u) c = awaiting-total (results chan) c
  begun-total (ping chan) c = awaiting-total (results chan) c
  begun-total disconnect c = omega arith

  pub forget_states-total :
      (l : List (Bytes × ℕ)) (c : Client Obj) → total (forget_states l c) ≡ total c
  unfolding forget_states
  forget_states-total [] c = refl
  forget_states-total ((path, chan) ∷ rest) c =
      let e : Effect Obj = pushes_update chan (StateUpdate.unknown 0) in
      omega (arith, forget_states-total rest (emit e c), total-emit e c)

  arrive-total :
      (a : Arrival Obj) (c : Client Obj) → total (arrive a c) ≡ arriving (a ∷ []) + total c
  unfolding arrive
  arrive-total (received bytes) c = omega arith
  arrive-total closed c = omega arith
  arrive-total (replied connection_id id r) c = omega arith
  arrive-total (commanded command) c = omega (arith, asked-append c.on_command (command ∷ []))
  arrive-total told_to_exit c = omega arith

  arriving-cons :
      (a : Arrival Obj) (as' : List (Arrival Obj))
      → arriving (a ∷ as') ≡ arriving (a ∷ []) + arriving as'
  arriving-cons (commanded command) as' = omega arith
  arriving-cons _ as' = omega arith

  pub arrive_all-total :
      (as' : List (Arrival Obj)) (c : Client Obj)
      → total (arrive_all as' c) ≡ arriving as' + total c
  unfolding arrive_all
  arrive_all-total [] c = omega arith
  arrive_all-total (a ∷ as') c =
      omega (arith, arrive_all-total as' (arrive a c), arrive-total a c, arriving-cons a as')

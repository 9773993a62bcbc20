-- ===== src/Client/Steps/Frames.antt =====
-- What no step of the client touches.
use eshetcpp.Base.{ℕ, ◌+◌, ◌%◌, ◌^◌, ◌<◌, ◌≡◌, refl, ◌∙◌, List, [], ◌∷◌, arith}
use eshetcpp.Base.Bytes.{Bytes}
use eshetcpp.Msgpack.{Msgpack}
use eshetcpp.Data.{Result, StateResult}
use eshetcpp.Client.State.{
  Network, Client, Command, ReplyChannel, ResultChannel, StateChannel, results, states, disconnect,
}
use eshetcpp.Client.Outcome.{push_result, push_state}
use eshetcpp.Client.Connection.{
  push_disconnected, disconnect_replies, forget_states, reset_connection,
}
use eshetcpp.Client.Steps.{Step, begun, takes_id, begins, gives_result, gives_state, resets}

module _ {Obj : Type 0} where
  -- Steps between waits take no turn, and ids stay 16 bits wide.
  pub record Frames (c d : Client Obj) : Type 0 where
    pub same_turns : d.turns ≡ c.turns
    pub next_id_fits : c.next_id < 2 ^ 16 → d.next_id < 2 ^ 16

  pub Frames-trans : {a b c : Client Obj} → Frames a b → Frames b c → Frames a c
  Frames-trans h k = record {
    same_turns = k.same_turns ∙ h.same_turns;
    next_id_fits = λ f. k.next_id_fits (h.next_id_fits f);
  }

  pub untouched : {c d : Client Obj} → d.turns ≡ c.turns → d.next_id ≡ c.next_id → Frames c d
  untouched t n = record { same_turns = t; next_id_fits = λ f. omega (arith, n) }

  id_taken :
      {c d : Client Obj} → d.turns ≡ c.turns → d.next_id ≡ (c.next_id + 1) % 2 ^ 16 → Frames c d
  id_taken t n = record { same_turns = t; next_id_fits = λ f. omega (arith, n) }

  push_result-Frames :
      (chan : ResultChannel) (r : Result Obj) (c : Client Obj) → Frames c (push_result chan r c)
  unfolding push_result
  push_result-Frames (ResultChannel.user n) r c = untouched refl refl
  push_result-Frames ResultChannel.ping r c = untouched refl refl
  push_result-Frames ResultChannel.local r c = untouched refl refl

  push_state-Frames :
      (chan : StateChannel) (r : StateResult Obj) (c : Client Obj) → Frames c (push_state chan r c)
  unfolding push_state
  push_state-Frames (StateChannel.user n) r c = untouched refl refl
  push_state-Frames StateChannel.local r c = untouched refl refl

  begun-Frames : (command : Command Obj) (c : Client Obj) → Frames c (begun command c)
  begun-Frames disconnect c = untouched refl refl
  begun-Frames _ c = id_taken refl refl

  forget_states-Frames : (l : List (Bytes × ℕ)) (c : Client Obj) → Frames c (forget_states l c)
  unfolding forget_states
  forget_states-Frames [] c = untouched refl refl
  forget_states-Frames ((path, chan) ∷ rest) c =
      let h = forget_states-Frames rest _ in
      record { same_turns = h.same_turns; next_id_fits = h.next_id_fits }

module _ {Obj : Type 0} ⦃m : Msgpack Obj⦄ ⦃net : Network⦄ where
  push_disconnected-Frames :
      (chan : ReplyChannel) (c : Client Obj) → Frames c (push_disconnected chan c)
  unfolding push_disconnected
  push_disconnected-Frames (results chan) c = push_result-Frames chan _ c
  push_disconnected-Frames (states chan) c = push_state-Frames chan _ c

  disconnect_replies-Frames :
      (l : List (ℕ × ReplyChannel)) (c : Client Obj) → Frames c (disconnect_replies l c)
  unfolding disconnect_replies
  disconnect_replies-Frames [] c = untouched refl refl
  disconnect_replies-Frames ((id, chan) ∷ rest) c =
      Frames-trans (push_disconnected-Frames chan c)
        (disconnect_replies-Frames rest (push_disconnected chan c))

  reset_connection-Frames : (c : Client Obj) → Frames c (reset_connection c)
  unfolding reset_connection
  reset_connection-Frames c =
      let c1 = disconnect_replies c.reply_channels c in
      let h = disconnect_replies-Frames c.reply_channels c in
      let k = forget_states-Frames c1.observed_states (record c1 { reply_channels = [] }) in
      record {
        same_turns = k.same_turns ∙ h.same_turns;
        next_id_fits = λ f. k.next_id_fits (h.next_id_fits f);
      }

  pub Step-Frames : {c d : Client Obj} → Step c d → Frames c d
  Step-Frames takes_id = id_taken refl refl
  Step-Frames {c} (begins command rest e) =
      let h = begun-Frames command (record c { on_command = rest }) in
      record { same_turns = h.same_turns; next_id_fits = h.next_id_fits }
  Step-Frames (gives_result id chan r e) =
      let h = push_result-Frames chan r _ in
      record { same_turns = h.same_turns; next_id_fits = h.next_id_fits }
  Step-Frames (gives_state id chan r e) =
      let h = push_state-Frames chan r _ in
      record { same_turns = h.same_turns; next_id_fits = h.next_id_fits }
  Step-Frames {c} resets = reset_connection-Frames c
  Step-Frames _ = untouched refl refl

-- ===== src/Client/Register/Answered.antt =====
-- reregister of include/eshet.hpp, with a server that answers each of its requests.
use eshetcpp.Base.{◌++◌, ℕ, ◌^◌, ◌<◌, ◌≡◌, refl, sym, ap, ◌∙◌, List, [], ◌∷◌, some}
use eshetcpp.Base.SortedMap.{lookup, emplace, erase, nat_key, bytes_key, beq_self, insert}
use eshetcpp.Msgpack.{Msgpack, RoundTrips}
use eshetcpp.Data.{Result, StateResult, AnyResult}
use eshetcpp.Wire.Unpacker.Stream.{buffered}
use eshetcpp.Wire.Unpacker.Framing.{framed_all, Fits}
use eshetcpp.Client.State.{
  Client, Turn, Ready, received, ReplyChannel, ResultChannel, StateChannel, results, states,
}
use eshetcpp.Client.Api.{arrive}
use eshetcpp.Client.Outcome.{done, and_then}
use eshetcpp.Client.Commands.{expect_reply}
use eshetcpp.Client.Messages.{handle_reply, deliver}
use eshetcpp.Client.Messages.Protocol.{
  ServerMessage, encode, react, handle_reply-replied, reply_ok, reply_error, reply_known,
  IsWellFormed, handle_message-encode,
}
use eshetcpp.Client.Waiting.{take_turn, arrive_all, receive}
use eshetcpp.Client.Waiting.Receive.{receive-handles_each}
use eshetcpp.Client.Register.{
  wait_for_reply, wait_for_state, wait_loop, reply_case, read_local_result, read_local_state,
}

found_local :
    (id : ℕ) (chan : ReplyChannel)
    → (lookup id ((id, chan) ∷ []) ≡ some chan) × (erase id ((id, chan) ∷ []) ≡ [])
unfolding lookup erase
found_local id chan = (rw (beq_self nat_key id) refl, rw (beq_self nat_key id) refl)

module _ {Obj : Type 0} where
  -- On an open socket, with nothing awaited and nothing left over.
  abbrev pub settled : ℕ → List (Turn Obj) → Client Obj → Client Obj
  settled fd ts c = record c {
    sockfd = some fd;
    on_message = [];
    unpacker = buffered [];
    reply_channels = [];
    local_results = [];
    local_states = [];
    turns = ts;
  }

  -- The reply comes to the channel that waits for it.
  handle_reply-local :
      (id : ℕ) (r : AnyResult Obj) (chan : ReplyChannel) (c : Client Obj)
      → handle_reply id r (record c { reply_channels = (id, chan) ∷ [] })
        ≡ deliver chan r (record c { reply_channels = [] })
  unfolding handle_reply
  handle_reply-local id r chan c =
      rw ((found_local id chan).0, (found_local id chan).1, handle_reply) refl

module _ {Obj : Type 0} ⦃m : Msgpack Obj⦄ where
  -- At the next wait the reply is there.
  abbrev pub chosen : ℕ → Turn Obj
  chosen time = record { arrivals = []; time = time; ready = Ready.local_result }

  -- The message comes.
  abbrev pub answered : ℕ → ServerMessage Obj → List (Turn Obj) → List (Turn Obj)
  answered time message ts =
      record {
        arrivals = received (framed_all (encode message ∷ [])) ∷ [];
        time = time;
        ready = Ready.on_message;
      }
      ∷ chosen time
      ∷ ts

module _ {Obj : Type 0} ⦃m : Msgpack Obj⦄ (trips : RoundTrips m) where
  receive-one :
      (message : ServerMessage Obj) (c : Client Obj)
      → Fits (encode message)
      → IsWellFormed message
      → receive
          (record c { on_message = framed_all (encode message ∷ []) ∷ []; unpacker = buffered [] })
        ≡ and_then
            (react message (record c { on_message = []; unpacker = buffered [] }))
            (λ _ c. done tt (record c { unpacker = buffered [] }))
  receive-one message c fits formed =
      let d = record c { on_message = []; unpacker = buffered [] } in
      receive-handles_each (encode message ∷ []) []
        (record c { on_message = framed_all (encode message ∷ []) ∷ []; unpacker = buffered [] })
        (fits, tt) refl refl
      ∙ ap (λ o. and_then o (λ _ c. done tt (record c { unpacker = buffered [] })))
          (handle_message-encode trips message d formed)

  -- A message that is the reply to this id, with a value that the channel takes.
  wait_for_reply-replied :
      (message : ServerMessage Obj) (reply : AnyResult Obj) (r : Result Obj) (id fd time : ℕ)
      (ts : List (Turn Obj)) (c : Client Obj)
      → IsWellFormed message
      → Fits (encode message)
      → ((c : Client Obj) → react message c ≡ handle_reply id reply c)
      → ((c : Client Obj)
          → deliver (results ResultChannel.local) reply c
            ≡ done tt (record c { local_results = c.local_results ++ r ∷ [] }))
      → wait_for_reply id (settled fd (answered time message ts) c)
        ≡ done (some r) (record (settled fd ts c) { now = time })
  unfolding wait_for_reply wait_loop reply_case take_turn arrive_all arrive read_local_result
      expect_reply emplace insert lookup
  wait_for_reply-replied message reply r id fd time ts c formed fits replies takes =
      let d : Client Obj = record (settled fd (chosen time ∷ ts) c) {
        now = time;
        reply_channels = (id, results ResultChannel.local) ∷ [];
      } in
      rw
        (
          receive-one message d fits formed,
          replies d,
          handle_reply-local id reply (results ResultChannel.local) d,
          takes (record d { reply_channels = [] }),
        )
        refl

  pub wait_for_reply-answered :
      (id fd time : ℕ) (o : Obj) (ts : List (Turn Obj)) (c : Client Obj)
      → id < 2 ^ 16
      → Fits (encode (reply_ok id o))
      → wait_for_reply id (settled fd (answered time (reply_ok id o) ts) c)
        ≡ done (some (Result.success o)) (record (settled fd ts c) { now = time })
  unfolding deliver
  wait_for_reply-answered id fd time o ts c small fits =
      wait_for_reply-replied (reply_ok id o) (AnyResult.success o) (Result.success o) id fd time ts
        c small fits (λ c. sym (handle_reply-replied id (AnyResult.success o) c)) (λ c. refl)

  pub wait_for_reply-refused :
      (id fd time : ℕ) (o : Obj) (ts : List (Turn Obj)) (c : Client Obj)
      → id < 2 ^ 16
      → Fits (encode (reply_error id o))
      → wait_for_reply id (settled fd (answered time (reply_error id o) ts) c)
        ≡ done (some (Result.error o)) (record (settled fd ts c) { now = time })
  unfolding deliver
  wait_for_reply-refused id fd time o ts c small fits =
      wait_for_reply-replied (reply_error id o) (AnyResult.error o) (Result.error o) id fd time ts c
        small fits (λ c. sym (handle_reply-replied id (AnyResult.error o) c)) (λ c. refl)

  wait_for_state-replied :
      (message : ServerMessage Obj) (reply : AnyResult Obj) (r : StateResult Obj) (id fd time : ℕ)
      (ts : List (Turn Obj)) (c : Client Obj)
      → IsWellFormed message
      → Fits (encode message)
      → ((c : Client Obj) → react message c ≡ handle_reply id reply c)
      → ((c : Client Obj)
          → deliver (states StateChannel.local) reply c
            ≡ done tt (record c { local_states = c.local_states ++ r ∷ [] }))
      → wait_for_state id (settled fd (answered time message ts) c)
        ≡ done (some r) (record (settled fd ts c) { now = time })
  unfolding wait_for_state wait_loop reply_case take_turn arrive_all arrive read_local_state
      expect_reply emplace insert lookup
  wait_for_state-replied message reply r id fd time ts c formed fits replies takes =
      let d : Client Obj = record (settled fd (chosen time ∷ ts) c) {
        now = time;
        reply_channels = (id, states StateChannel.local) ∷ [];
      } in
      rw
        (
          receive-one message d fits formed,
          replies d,
          handle_reply-local id reply (states StateChannel.local) d,
          takes (record d { reply_channels = [] }),
        )
        refl

  pub wait_for_state-answered :
      (id fd time : ℕ) (o : Obj) (ts : List (Turn Obj)) (c : Client Obj)
      → id < 2 ^ 16
      → Fits (encode (reply_known id o))
      → wait_for_state id (settled fd (answered time (reply_known id o) ts) c)
        ≡ done (some (StateResult.known o 0)) (record (settled fd ts c) { now = time })
  unfolding deliver
  wait_for_state-answered id fd time o ts c small fits =
      wait_for_state-replied (reply_known id o) (AnyResult.known o 0) (StateResult.known o 0) id fd
        time ts c small fits (λ c. sym (handle_reply-replied id (AnyResult.known o 0) c))
        (λ c. refl)

  pub wait_for_state-refused :
      (id fd time : ℕ) (o : Obj) (ts : List (Turn Obj)) (c : Client Obj)
      → id < 2 ^ 16
      → Fits (encode (reply_error id o))
      → wait_for_state id (settled fd (answered time (reply_error id o) ts) c)
        ≡ done (some (StateResult.error o)) (record (settled fd ts c) { now = time })
  unfolding deliver
  wait_for_state-refused id fd time o ts c small fits =
      wait_for_state-replied (reply_error id o) (AnyResult.error o) (StateResult.error o) id fd time
        ts c small fits (λ c. sym (handle_reply-replied id (AnyResult.error o) c)) (λ c. refl)

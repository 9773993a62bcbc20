-- ===== src/Client/Waiting/Receive.antt =====
-- The case on_message of the loops of include/eshet.hpp, with as much fuel as it needs.
use eshetcpp.Base.{
  ℕ, zero, suc, ◌<◌, ◌≡◌, refl, sym, ◌∙◌, List, [], ◌∷◌, Option, none, some, length, All, Except,
  ok, throw, arith,
}
use eshetcpp.Base.Bytes.{Bytes}
use eshetcpp.Msgpack.{Msgpack}
use eshetcpp.Wire.Unpacker.{Unpacker, push, read}
use eshetcpp.Wire.Unpacker.Chunks.{Cases, read-Cases}
use eshetcpp.Wire.Unpacker.Stream.{buffered, read-split}
use eshetcpp.Wire.Unpacker.Framing.{framed_all, Fits, read-framed}
use eshetcpp.Client.State.{Client}
use eshetcpp.Client.Outcome.{Outcome, done, raised, blocked, M, and_then, ◌>>=◌}
use eshetcpp.Client.Messages.{handle_message}
use eshetcpp.Client.Messages.Untouched.{Leaves, handle_message-Leaves}
use eshetcpp.Client.Waiting.{
  handle_messages, read_unpacker, read_message, push_unpacker, receive, unpacked, next_message,
}

module _ {Obj : Type 0} ⦃m : Msgpack Obj⦄ where
  and_then-Leaves :
      (u : Unpacker) (o : Outcome Obj (Unit {0})) (k h : M Obj (Unit {0}))
      → Leaves u o
      → ((c : Client Obj) → c.unpacker ≡ u → k c ≡ h c)
      → and_then o (λ _. k) ≡ and_then o (λ _. h)
  and_then-Leaves u (done a c) k h l same = same c l
  and_then-Leaves u (raised e c) k h l same = refl
  and_then-Leaves u (blocked c) k h l same = refl

  -- Two ways to go on that agree where less is left in the unpacker.
  round-same :
      (r : Except (Option Bytes × Unpacker)) (c : Client Obj) (k h : M Obj (Unit {0}))
      → Cases c.unpacker r
      → ((d : Client Obj) → length d.unpacker.buffer < length c.unpacker.buffer → k d ≡ h d)
      → and_then (unpacked r c) (λ message. next_message message k)
        ≡ and_then (unpacked r c) (λ message. next_message message h)
  round-same (throw e) c k h l same = refl
  round-same (ok (none, u)) c k h l same = refl
  round-same (ok (some message, u)) c k h l same =
      and_then-Leaves u (handle_message message (record c { unpacker = u })) k h
        (handle_message-Leaves message (record c { unpacker = u })) λ d e. same d (rw e l)

  handle_messages_round :
      (f : ℕ) (c : Client Obj)
      → handle_messages (suc f) c
        ≡ (read_unpacker >>= λ message. next_message message (handle_messages f)) c
  unfolding handle_messages
  handle_messages_round f c = refl

  handle_messages_enough :
      (f g : ℕ) (c : Client Obj)
      → length c.unpacker.buffer < f
      → length c.unpacker.buffer < g
      → handle_messages f c ≡ handle_messages g c
  unfolding read_unpacker
  handle_messages_enough zero g c hf hg = absurd (omega arith)
  handle_messages_enough (suc f) zero c hf hg = absurd (omega arith)
  handle_messages_enough (suc f) (suc g) c hf hg =
      handle_messages_round f c
      ∙ round-same (read c.unpacker) c (handle_messages f) (handle_messages g)
          (read-Cases c.unpacker) (λ d lt. handle_messages_enough f g d (omega arith) (omega arith))
      ∙ sym (handle_messages_round g c)

  -- The loop with the fuel that the case on_message gives it.
  abbrev pub handle_all : M Obj (Unit {0})
  handle_all c = handle_messages (suc (length c.unpacker.buffer)) c

  -- The fuel never ends the loop: it reads a message, stops if there is none, and otherwise handles
  -- the message and is the same loop again, on whatever the unpacker holds.
  pub handle_all-round :
      (c : Client Obj)
      → handle_all c ≡ (read_unpacker >>= λ message. next_message message handle_all) c
  unfolding read_unpacker
  handle_all-round c =
      handle_messages_round (length c.unpacker.buffer) c
      ∙ round-same (read c.unpacker) c (handle_messages (length c.unpacker.buffer)) handle_all
          (read-Cases c.unpacker)
          (λ d lt.
            handle_messages_enough (length c.unpacker.buffer) (suc (length d.unpacker.buffer)) d lt
              (omega arith))

  -- Each message is taken off the unpacker and handled, in their order, up to one that is refused.
  abbrev pub handle_each : List Bytes → M Obj (Unit {0})
  handle_each [] c = done tt (record c { unpacker = buffered [] })
  handle_each (message ∷ messages) c =
      and_then (handle_message message (record c { unpacker = buffered (framed_all messages) }))
        (λ _. handle_each messages)

  handle_each-same :
      (messages : List Bytes) (c : Client Obj) (u : Unpacker)
      → handle_each messages (record c { unpacker = u }) ≡ handle_each messages c
  handle_each-same [] c u = refl
  handle_each-same (message ∷ messages) c u = refl

  first-message :
      (c : Client Obj) (message : Bytes) (messages : List Bytes)
      → Fits message
      → c.unpacker ≡ buffered (framed_all (message ∷ messages))
      → handle_all c
        ≡ and_then
            (handle_message message (record c { unpacker = buffered (framed_all messages) }))
            (λ _. handle_all)
  unfolding read_unpacker
  first-message c message messages h e =
      handle_all-round c ∙ rw (e, read-framed message (framed_all messages) h)

  handle_all-framed :
      (messages : List Bytes) (c : Client Obj)
      → All Fits messages
      → c.unpacker ≡ buffered (framed_all messages)
      → handle_all c ≡ handle_each messages c
  unfolding read_unpacker
  handle_all-framed [] c h e = handle_all-round c ∙ rw (e, read-split [])
  handle_all-framed (message ∷ messages) c h e =
      let d : Client Obj = record c { unpacker = buffered (framed_all messages) } in
      first-message c message messages h.0 e
      ∙ and_then-Leaves (buffered (framed_all messages)) (handle_message message d) handle_all
          (handle_each messages) (handle_message-Leaves message d)
          (λ c' l. handle_all-framed messages c' h.1 l)

  -- If the unpacker is empty and the socket's next bytes are messages of less than 65536 bytes in
  -- their frames, the case on_message takes these bytes off the channel and handles every message,
  -- in order, up to one that is refused.
  pub receive-handles_each :
      (messages : List Bytes) (rest : List Bytes) (c : Client Obj)
      → All Fits messages
      → c.on_message ≡ framed_all messages ∷ rest
      → c.unpacker ≡ buffered []
      → receive c ≡ handle_each messages (record c { on_message = rest })
  unfolding receive read_message push_unpacker push
  receive-handles_each messages rest c h e no_bytes =
      let d : Client Obj = record c { on_message = rest } in
      let u : Unpacker = buffered (framed_all messages) in
      rw (e, no_bytes)
        (handle_all-framed messages (record d { unpacker = u }) h refl
          ∙ handle_each-same messages d u
          ∙ sym (handle_each-same messages d (buffered [])))

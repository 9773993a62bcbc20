-- ===== src/Client/Connection/Greeted.antt =====
-- What do_hello of include/eshet.hpp does with each thing that can come while it waits.
use eshetcpp.Base.{
  ℕ, ◌%◌, ◌^◌, ◌<◌, ◌≡◌, ◌≢◌, refl, ap, ◌∙◌, List, [], ◌∷◌, ◌==◌, some, length, Bool, true, false,
  arith, protocol_error,
}
use eshetcpp.Base.Bytes.{Bytes}
use eshetcpp.Msgpack.{Msgpack, RoundTrips}
use eshetcpp.Wire.SendBuf.Frames.{hello, write_hello-frame}
use eshetcpp.Wire.Parser.{check_empty}
use eshetcpp.Wire.Unpacker.{push}
use eshetcpp.Wire.Unpacker.Framing.{framed}
use eshetcpp.Wire.Unpacker.Stream.{buffered}
use eshetcpp.Client.State.{Client, Network, Turn, Ready, Arrival, received, closed, told_to_exit}
use eshetcpp.Client.Api.{arrive}
use eshetcpp.Client.Outcome.{Outcome, done, raised, and_then}
use eshetcpp.Client.Body.{run, nothing}
use eshetcpp.Client.Commands.Requests.{Sends, sent, send_frame}
use eshetcpp.Client.Waiting.{read_close, read_message, push_unpacker, take_turn, arrive_all}
use eshetcpp.Client.Connection.{
  do_hello, handle_hello_message, wait_for_hello, hello_case, hello_message, expect_nothing,
}
use eshetcpp.Client.Connection.Hello.{handle_hello-id, read-alone, read-none}

module _ (Obj : Type 0) where
  -- The connection ends, the program exits, or a message comes: a hello, one that gives an id, or
  -- a message of another type.
  pub data HelloEvent : Type 0 where
    closes exits says_hello : HelloEvent
    gives_id : Obj → HelloEvent
    says_other : (type : ℕ) → Bytes → HelloEvent

module _ {Obj : Type 0} where
  abbrev pub IsOther : HelloEvent Obj → Type 0
  IsOther (HelloEvent.says_other type body) = (type ≢ 0x03) × (type ≢ 0x04)
  IsOther _ = Unit

module _ {Obj : Type 0} ⦃m : Msgpack Obj⦄ where
  abbrev pub message_of : HelloEvent Obj → Bytes
  message_of HelloEvent.says_hello = 0x03 ∷ []
  message_of (HelloEvent.gives_id o) = 0x04 ∷ m.pack o
  message_of (HelloEvent.says_other type body) = type ∷ body
  message_of _ = []

  abbrev pub arrivals_of : HelloEvent Obj → List (Arrival Obj)
  arrivals_of HelloEvent.closes = closed ∷ []
  arrivals_of HelloEvent.exits = told_to_exit ∷ []
  arrivals_of e = received (framed (message_of e)) ∷ []

  abbrev pub ready_of : HelloEvent Obj → Ready
  ready_of HelloEvent.closes = Ready.on_close
  ready_of HelloEvent.exits = Ready.should_exit
  ready_of e = Ready.on_message

  -- The wait that ends with it.
  abbrev pub turn_of : ℕ → HelloEvent Obj → Turn Obj
  turn_of time e = record { arrivals = arrivals_of e; time = time; ready = ready_of e }

  abbrev pub after_hello : HelloEvent Obj → Client Obj → Outcome Obj Bool
  after_hello HelloEvent.closes c = done false c
  after_hello HelloEvent.exits c = done false (record c { should_exit = true })
  after_hello HelloEvent.says_hello c = done true c
  after_hello (HelloEvent.gives_id o) c = done true (record c { id = some o })
  after_hello (HelloEvent.says_other type body) c = raised protocol_error c

module _ {Obj : Type 0} ⦃m : Msgpack Obj⦄ ⦃net : Network⦄ (trips : RoundTrips m) where
  -- The client while it waits, and nothing has come.
  abbrev clean : Client Obj → Client Obj
  clean c = record c { on_message = []; unpacker = buffered [] }

  -- A message that comes alone.
  hello_case-message :
      (message : Bytes) (ts : List (Turn Obj)) (c : Client Obj)
      → length message < 2 ^ 16
      → hello_case Ready.on_message
          (wait_for_hello ts)
          (record (clean c) { on_message = framed message ∷ [] })
        ≡ hello_message (wait_for_hello ts) (some message) (clean c)
  unfolding hello_case read_message push_unpacker push
  hello_case-message message ts c fits =
      ap (λ r. and_then r (hello_message (wait_for_hello ts)))
        (read-alone trips message (clean c) fits)

  handle_hello-plain : (c : Client Obj) → handle_hello_message (0x03 ∷ []) c ≡ done tt c
  unfolding handle_hello_message run nothing check_empty
  handle_hello-plain c = refl

  handle_hello-other :
      (type : ℕ) (body : Bytes) (c : Client Obj)
      → type ≢ 0x03
      → type ≢ 0x04
      → handle_hello_message (type ∷ body) c ≡ raised protocol_error c
  unfolding handle_hello_message
  handle_hello-other type body c h k =
      let no_hello : (type == 0x03) ≡ false = ground (arith, h) in
      let no_id : (type == 0x04) ≡ false = ground (arith, k) in rw (no_hello, no_id) refl

  hello_case-event :
      (e : HelloEvent Obj) (ts : List (Turn Obj)) (c : Client Obj)
      → length (message_of e) < 2 ^ 16
      → IsOther e
      → hello_case (ready_of e) (wait_for_hello ts) (arrive_all (arrivals_of e) (clean c))
        ≡ after_hello e (clean c)
  unfolding hello_case read_close arrive_all arrive hello_message expect_nothing
  hello_case-event HelloEvent.closes ts c fits other = refl
  hello_case-event HelloEvent.exits ts c fits other = refl
  hello_case-event HelloEvent.says_hello ts c fits other =
      hello_case-message (0x03 ∷ []) ts c fits
      ∙ rw (handle_hello-plain (clean c), read-none trips (clean c)) refl
  hello_case-event (HelloEvent.gives_id o) ts c fits other =
      hello_case-message (0x04 ∷ m.pack o) ts c fits
      ∙ rw (handle_hello-id trips o (clean c), read-none trips (record (clean c) { id = some o }))
          refl
  hello_case-event (HelloEvent.says_other type body) ts c fits other =
      hello_case-message (type ∷ body) ts c fits
      ∙ rw (handle_hello-other type body (clean c) other.0 other.1) refl

  -- On an open socket that takes the frame, with nothing of the server left over, do_hello sends the
  -- hello with the client's id and its timeout modulo 65536, and then: if the connection ends or the
  -- program exits, it returns false; on a hello it returns true, with the id if one is given; and on
  -- a message of another type it throws a ProtocolError.
  pub do_hello-after_hello :
      (c : Client Obj) (fd time : ℕ) (e : HelloEvent Obj) (ts : List (Turn Obj))
      → c.turns ≡ turn_of time e ∷ ts
      → c.on_message ≡ []
      → c.unpacker ≡ buffered []
      → Sends c fd (hello c.id (c.timeout_config.server_timeout % 2 ^ 16))
      → length (message_of e) < 2 ^ 16
      → IsOther e
      → do_hello c
        ≡ after_hello e
            (record (sent fd (hello c.id (c.timeout_config.server_timeout % 2 ^ 16)) c) {
              turns = ts;
              now = time;
              on_message = [];
              unpacker = buffered [];
            })
  unfolding do_hello wait_for_hello take_turn arrive_all arrive hello_case read_close
  do_hello-after_hello c fd time e ts turn no_message no_bytes sends fits other =
      let timeout : ℕ = c.timeout_config.server_timeout % 2 ^ 16 in
      let s = send_frame c fd _ _ (write_hello-frame c.id timeout c.send_buf) sends in
      rw (s, turn, no_message, no_bytes)
        (hello_case-event e ts (record (sent fd (hello c.id timeout) c) { turns = ts; now = time })
          fits other)

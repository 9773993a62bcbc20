-- ===== src/Client/Waiting.antt =====
-- Waiting and reading from channels, and the on_message case of the loops of include/eshet.hpp.
pub mod Receive
use eshetcpp.Base.{ℕ, zero, suc, List, [], ◌∷◌, Option, none, some, length, Except, ok, throw}
use eshetcpp.Base.Bytes.{Bytes}
use eshetcpp.Msgpack.{Msgpack}
use eshetcpp.Wire.Unpacker.{Unpacker}
use eshetcpp.Wire.Unpacker
use eshetcpp.Client.State.{Client, Turn, Arrival}
use eshetcpp.Client.Api.{arrive}
use eshetcpp.Client.Outcome.{done, raised, blocked, M, ◌>>=◌, ◌>>◌, pure, update, read_state}
use eshetcpp.Client.Messages.{handle_message}

module _ {Obj : Type 0} where
  unfoldable pub arrive_all : List (Arrival Obj) → Client Obj → Client Obj
  unfolding arrive
  arrive_all [] c = c
  arrive_all (a ∷ as') c = arrive_all as' (arrive a c)

  -- One `wait` that returned; `rest` are the waits after it.
  unfoldable pub take_turn : Turn Obj → List (Turn Obj) → M Obj (Unit {0})
  unfolding arrive_all
  take_turn t rest = update (λ c. arrive_all t.arrivals (record c { turns = rest; now = t.time }))

  -- A channel that the wait does not name is never what it returns.
  abbrev pub never : {A : Type 0} → M Obj A
  never = blocked

  -- `on_close.read()`: a read of an empty channel waits.
  unfoldable pub read_close : M Obj (Unit {0})
  read_close c = elim c.on_close [ zero ↦ blocked c | suc n ↦ done tt (record c { on_close = n }) ]

  unfoldable pub read_message : M Obj Bytes
  read_message c = elim c.on_message [
    | [] ↦ blocked c
    | bytes ∷ rest ↦ done bytes (record c { on_message = rest })
  ]

  unfoldable pub push_unpacker : Bytes → M Obj (Unit {0})
  push_unpacker bytes = update (λ c. record c { unpacker = Unpacker.push bytes c.unpacker })

  abbrev pub unpacked : Except (Option Bytes × Unpacker) → M Obj (Option Bytes)
  unpacked (ok (message, u)) c = done message (record c { unpacker = u })
  unpacked (throw e) c = raised e c

  unfoldable pub read_unpacker : M Obj (Option Bytes)
  read_unpacker c = unpacked (Unpacker.read c.unpacker) c

module _ {Obj : Type 0} ⦃m : Msgpack Obj⦄ where
  -- The body of the loop, and what comes behind it.
  abbrev pub next_message : Option Bytes → M Obj (Unit {0}) → M Obj (Unit {0})
  next_message none rest = pure tt
  next_message (some message) rest = handle_message message >> rest

  -- `while ((message = unpacker.read())) handle_message(*message);` on fuel.
  unfoldable pub handle_messages : ℕ → M Obj (Unit {0})
  handle_messages zero = pure tt
  handle_messages (suc fuel) =
      read_unpacker >>= λ message. next_message message (handle_messages fuel)

  -- case on_message. A message takes three bytes at least, so the fuel is enough.
  unfoldable pub receive : M Obj (Unit {0})
  receive = do
    bytes ← read_message
    push_unpacker bytes
    u ← read_state (λ c. c.unpacker)
    handle_messages (suc (length u.buffer))

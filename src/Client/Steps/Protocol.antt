-- ===== src/Client/Steps/Protocol.antt =====
-- The messages that the client of include/eshet.hpp sends.
use eshetcpp.Base.{ℕ, ◌∷◌, ◌++◌, Option}
use eshetcpp.Base.Bytes.{Bytes}
use eshetcpp.Msgpack.{Msgpack}
use eshetcpp.Data.{Result}
use eshetcpp.Wire.SendBuf.Frames.{u16, hello}
use eshetcpp.Client.State.{Command, disconnect}
use eshetcpp.Client.Commands.Requests.{message_of}

abbrev pub IsSent : {Obj : Type 0} → Command Obj → Type 0
IsSent disconnect = ⊥
IsSent _ = Unit

module _ (Obj : Type 0) where
  -- A request has the message of a command; a disconnect has none.
  pub data ClientMessage : Type 0 where
    greeting : Option Obj → (timeout : ℕ) → ClientMessage
    request : (id : ℕ) (command : Command Obj) → IsSent command → ClientMessage
    answer : (id : ℕ) → Result Obj → ClientMessage

abbrev pub encode : {Obj : Type 0} ⦃m : Msgpack Obj⦄ → ClientMessage Obj → Bytes
encode (greeting id timeout) = hello id timeout
encode (request id command sent) = message_of id command
encode ⦃m⦄ (answer id (Result.success o)) = 0x05 ∷ (u16 id ++ m.pack o)
encode ⦃m⦄ (answer id (Result.error o)) = 0x06 ∷ (u16 id ++ m.pack o)

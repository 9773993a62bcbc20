-- ===== src/Wire/Unpacker.antt =====
-- class Unpacker of include/eshet/unpack.hpp: a stream of bytes, cut into messages.
pub mod Stream
pub mod Chunks
pub mod Framing
use eshetcpp.Base.{
  ℕ, zero, suc, ◌+◌, ◌-◌, List, [], ◌∷◌, ◌++◌, Option, none, some, length, take, drop, ltb, ◌==◌,
  not, if◌then◌else◌, Except, ok, throw, protocol_error,
}
use eshetcpp.Base.Bytes.{Bytes}
use eshetcpp.Wire.Parser.{Read, Parser, parser, ◌>>=◌, ◌>>◌, pure, read8, read16, check_empty}

pub record Unpacker : Type 0 where
  pub buffer : Bytes

abbrev pub empty : Unpacker
empty = record { buffer = [] }

unfoldable pub push : Bytes → Unpacker → Unpacker
push buf u = record { buffer = u.buffer ++ buf }

-- `Parser p(buffer.data(), 3)`: the magic byte and the length.
unfoldable pub read_header : Read (ℕ × ℕ)
unfolding read8 read16 check_empty
read_header = do magic ← read8; length ← read16; check_empty; pure (magic, length)

-- The message and what is behind it, which the loop moves to the front of the buffer.
unfoldable pub take_message : ℕ → Unpacker → Option Bytes × Unpacker
take_message length u =
    (some (take length (drop 3 u.buffer)), record { buffer = drop (length + 3) u.buffer })

after_header : Except ((ℕ × ℕ) × Parser) → Unpacker → Except (Option Bytes × Unpacker)
unfolding take_message
after_header (throw e) u = throw e
after_header (ok ((magic, len), p)) u =
    if not (magic == 0x47)
    then throw protocol_error
    else if ltb (length u.buffer - 3) len
    then ok (none, u)
    else ok (take_message len u)

unfoldable pub read : Unpacker → Except (Option Bytes × Unpacker)
unfolding read_header after_header
read u =
    if ltb (length u.buffer) 3
    then ok (none, u)
    else after_header (read_header (parser (take 3 u.buffer))) u

-- The messages that were read, and the unpacker behind them or the exception that ended it.
pub record Drained : Type 0 where
  pub messages : List Bytes
  pub after : Except Unpacker

abbrev pub stop : Except Unpacker → Drained
stop after = record { messages = []; after = after }

abbrev pub put_first : Bytes → Drained → Drained
put_first message d = record d { messages = message ∷ d.messages }

abbrev pub after_read : Except (Option Bytes × Unpacker) → (Unpacker → Drained) → Drained
after_read (throw e) k = stop (throw e)
after_read (ok (none, u)) k = stop (ok u)
after_read (ok (some message, u)) k = put_first message (k u)

-- `while ((message = unpacker.read()))` of eshet.hpp, on fuel, without the handling of messages.
unfoldable pub read_all : ℕ → Unpacker → Drained
unfolding read
read_all zero u = stop (ok u)
read_all (suc fuel) u = after_read (read u) (read_all fuel)

-- Each message takes three bytes at least, so this is enough fuel.
unfoldable pub drain : Unpacker → Drained
unfolding read_all
drain u = read_all (suc (length u.buffer)) u

abbrev pub then_from : List Bytes → Drained → Drained
then_from messages d = record d { messages = messages ++ d.messages }

-- Goes on from where it ended, unless by an exception.
abbrev pub go_on : Drained → (Unpacker → Drained) → Drained
go_on d k = elim d.after [ throw e ↦ d | ok u ↦ then_from d.messages (k u) ]

-- The `on_message` case for one chunk after another.
unfoldable pub receive : List Bytes → Unpacker → Drained
receive [] u = stop (ok u)
receive (chunk ∷ chunks) u = go_on (drain (push chunk u)) (receive chunks)

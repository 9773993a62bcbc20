-- ===== src/Wire/Unpacker/Framing.antt =====
-- The frames that SendBuf writes, read by the Unpacker.
use eshetcpp.Base.{
  ℕ, ◌+◌, ◌*◌, ◌/◌, ◌%◌, ◌^◌, ◌<◌, ◌≡◌, ap, ◌∙◌, List, [], ◌∷◌, ◌++◌, some, length, length-append,
  take-append, drop-append, All, arith, ok,
}
use eshetcpp.Base.Bytes.{Bytes}
use eshetcpp.Wire.SendBuf.Frames.{frame}
use eshetcpp.Wire.Unpacker.{empty, push, read, put_first, after_read, drain, receive}
use eshetcpp.Wire.Unpacker.Stream.{buffered, split, read-split}
use eshetcpp.Wire.Unpacker.Chunks.{drain_step, concat, receive-concat}

abbrev pub framed : Bytes → Bytes
framed message = (frame message).sbuf

-- The length that a frame states.
u16_value : (n : ℕ) → (n / 2 ^ 8 % 2 ^ 8 * 2 ^ 8 + n % 2 ^ 8) % 2 ^ 16 ≡ n % 2 ^ 16
u16_value n = omega arith

split-framed :
    (message rest : Bytes)
    → length message < 2 ^ 16
    → split (framed message ++ rest) ≡ ok (some message, buffered rest)
split-framed message rest h = ground (
  arith,
  u16_value (length message),
  length-append message rest,
  take-append message rest,
  drop-append message rest,
)

-- A frame around a message of less than 65536 bytes gives the message back and leaves what follows.
pub read-framed :
    (message rest : Bytes)
    → length message < 2 ^ 16
    → read (buffered (framed message ++ rest)) ≡ ok (some message, buffered rest)
read-framed message rest h = read-split (framed message ++ rest) ∙ split-framed message rest h

abbrev pub Fits : Bytes → Type 0
Fits message = length message < 2 ^ 16

abbrev pub framed_all : List Bytes → Bytes
framed_all [] = []
framed_all (m ∷ ms) = framed m ++ framed_all ms

drain-framed_all :
    (ms : List Bytes)
    → All Fits ms
    → drain (buffered (framed_all ms)) ≡ record { messages = ms; after = ok empty }
drain-framed_all [] h = drain_step empty ∙ rw (read-split [])
drain-framed_all (m ∷ ms) h =
    drain_step (buffered (framed_all (m ∷ ms)))
    ∙ ap (λ r. after_read r drain) (read-framed m (framed_all ms) h.0)
    ∙ ap (put_first m) (drain-framed_all ms h.1)

-- Any messages of less than 65536 bytes, framed one after another and cut into chunks anywhere, are
-- received as they were sent: all of them, in order, and nothing is left over.
pub receive-framed_all :
    (ms : List Bytes) (chunk : Bytes) (chunks : List Bytes)
    → All Fits ms
    → chunk ++ concat chunks ≡ framed_all ms
    → receive (chunk ∷ chunks) empty ≡ record { messages = ms; after = ok empty }
receive-framed_all ms chunk chunks h e =
    receive-concat empty chunk chunks ∙ unfold push in rw e (drain-framed_all ms h)

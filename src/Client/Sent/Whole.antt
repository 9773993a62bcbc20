-- ===== src/Client/Sent/Whole.antt =====
-- What the client of include/eshet.hpp has sent, as whole messages of the protocol.
use eshetcpp.Base.{
  ℕ, suc, none, ◌≡◌, refl, ap, ◌∙◌, sym, List, [], ◌∷◌, ◌++◌, some, take, length, take-length,
  append-nil, append_assoc,
}
use mathlib.Core.Option.{some-injective}
use eshetcpp.Base.Bytes.{Bytes}
use eshetcpp.Msgpack.{Msgpack}
use eshetcpp.Wire.SendBuf.{SendBuf}
use eshetcpp.Wire.SendBuf.Frames.{frame}
use eshetcpp.Wire.Unpacker.Framing.{framed}
use eshetcpp.Client.State.{Network, Client, sends, closes}
use eshetcpp.Client.Outcome.{emit}
use eshetcpp.Client.Loop.{run}
use eshetcpp.Client.Steps.{
  Step, Reaches, start, step, waits, begins, gives_result, gives_state, writes, sends_bytes,
  notifies, closes_socket, resets,
}
use eshetcpp.Client.Steps.Protocol.{ClientMessage, encode}
use eshetcpp.Client.Steps.Code.{IdFits, Ends, Ends-map}
use eshetcpp.Client.Steps.Loop.{run-Reaches}
use eshetcpp.Client.Sent.{
  sent_bytes, IsQuiet, still, emit-sent, emit-IsQuiet, notice-sent, push_result-IsQuiet,
  push_state-IsQuiet, IsQuiet-trans, begun-IsQuiet, arrive_all-IsQuiet, reset_connection-IsQuiet,
}

module _ (Obj : Type 0) ⦃m : Msgpack Obj⦄ where
  -- Nothing was written yet, or the last that was written is one frame.
  pub data Holds (b : SendBuf) : Type 0 where
    nothing : b.sbuf ≡ [] → Holds b
    one_frame : (message : ClientMessage Obj) → b ≡ frame (encode message) → Holds b

module _ {Obj : Type 0} ⦃m : Msgpack Obj⦄ where
  abbrev pub on_wire : List (ClientMessage Obj) → Bytes
  on_wire [] = []
  on_wire (message ∷ rest) = framed (encode message) ++ on_wire rest

  on_wire-append :
      (xs ys : List (ClientMessage Obj)) → on_wire (xs ++ ys) ≡ on_wire xs ++ on_wire ys
  on_wire-append [] ys = refl
  on_wire-append (x ∷ xs) ys =
      rw (append_assoc (framed (encode x)) (on_wire xs) (on_wire ys), on_wire-append xs ys) refl

  -- The later client has sent whole messages more than the earlier one.
  pub record IsWhole (c d : Client Obj) : Type 0 where
    pub messages : List (ClientMessage Obj)
    pub sent : sent_bytes d.effects ≡ sent_bytes c.effects ++ on_wire messages
    pub buffer : Holds Obj d.send_buf

  quiet_then : {c d e : Client Obj} → IsWhole c d → IsQuiet d e → IsWhole c e
  quiet_then w q = record {
    messages = w.messages;
    sent = q.same_sent ∙ w.sent;
    buffer = rw q.same_buffer w.buffer;
  }

  -- The buffer goes out.
  held_sent :
      (c d : Client Obj) (fd : ℕ)
      → IsWhole c d
      → Holds Obj d.send_buf
      → IsWhole c (emit (sends fd d.send_buf.sbuf) d)
  held_sent c d fd w (nothing e) = quiet_then w (emit-IsQuiet (sends fd d.send_buf.sbuf) d e)
  held_sent c d fd w (one_frame message e) = record {
    messages = w.messages ++ message ∷ [];
    sent =
        emit-sent (sends fd d.send_buf.sbuf) d
        ∙ ap (λ bytes. bytes ++ d.send_buf.sbuf) w.sent
        ∙ append_assoc (sent_bytes c.effects) (on_wire w.messages) d.send_buf.sbuf
        ∙ ap (λ bytes. sent_bytes c.effects ++ bytes)
            (ap (λ b. on_wire w.messages ++ b.sbuf) e
              ∙ ap (λ bytes. on_wire w.messages ++ bytes)
                  (sym (append-nil (framed (encode message))))
              ∙ sym (on_wire-append w.messages (message ∷ [])));
    buffer = w.buffer;
  }

-- All of the buffer was taken.
taken_whole :
    ⦃net : Network⦄ (takes : (calls size : ℕ) → net.accepts calls size ≡ some size) (calls n : ℕ)
    (bytes : Bytes)
    → net.accepts calls (length bytes) ≡ some n
    → take n bytes ≡ bytes
taken_whole takes calls n bytes e =
    ap (λ k. take k bytes) (some-injective n (length bytes) (sym e ∙ takes calls (length bytes)))
    ∙ take-length bytes

module _ {Obj : Type 0} ⦃m : Msgpack Obj⦄ ⦃net : Network⦄
    (takes : (calls size : ℕ) → net.accepts calls size ≡ some size) where
  IsWhole-sent :
      (c d : Client Obj) (fd : ℕ) (bytes : Bytes)
      → IsWhole c d
      → bytes ≡ d.send_buf.sbuf
      → IsWhole c (emit (sends fd bytes) (record d { calls = suc d.calls }))
  IsWhole-sent c d fd bytes w e =
      rw e (
        held_sent c (record d { calls = suc d.calls }) fd (quiet_then w (still refl refl)) w.buffer)

  Step-IsWhole : {c d e : Client Obj} → IsWhole c d → Step d e → IsWhole c e
  Step-IsWhole {c} {d} w (sends_bytes fd n h taken) =
      IsWhole-sent c d fd (take n d.send_buf.sbuf) w
        (taken_whole takes d.calls n d.send_buf.sbuf taken)
  Step-IsWhole w (writes message b h) = record {
    messages = w.messages;
    sent = w.sent;
    buffer = one_frame message h;
  }
  Step-IsWhole w (begins command rest h) =
      quiet_then w (IsQuiet-trans (still refl refl) (begun-IsQuiet command _))
  Step-IsWhole w (gives_result id chan r h) =
      quiet_then w (IsQuiet-trans (still refl refl) (push_result-IsQuiet chan r _))
  Step-IsWhole w (gives_state id chan r h) =
      quiet_then w (IsQuiet-trans (still refl refl) (push_state-IsQuiet chan r _))
  Step-IsWhole w (notifies e h) = quiet_then w (emit-IsQuiet e _ (notice-sent h))
  Step-IsWhole {d} w (closes_socket fd h e) = quiet_then w (
      IsQuiet-trans (still refl refl)
        (emit-IsQuiet (closes fd) (record d { sockfd = none; calls = suc d.calls }) refl))
  Step-IsWhole {d} w resets = quiet_then w (reset_connection-IsQuiet d)
  Step-IsWhole w _ = quiet_then w (still refl refl)

  Reaches-IsWhole : {c d : Client Obj} → Holds Obj c.send_buf → Reaches c d → IsWhole c d
  Reaches-IsWhole {c} held start = record {
    messages = [];
    sent = sym (append-nil (sent_bytes c.effects));
    buffer = held;
  }
  Reaches-IsWhole held (step r st) = Step-IsWhole (Reaches-IsWhole held r) st
  Reaches-IsWhole held (waits {d} t ts r e) = quiet_then (Reaches-IsWhole held r) (
      IsQuiet-trans (still refl refl)
        (arrive_all-IsQuiet t.arrivals (record d { turns = ts; now = t.time })))

  -- Where the system takes all it is given, a client whose buffer is empty or holds one frame has,
  -- when `run` returns, throws or waits for ever, sent whole messages only, each of the protocol, in
  -- its frame and behind the bytes sent before, whatever came in and however often it connected again.
  pub run-IsWhole : (c : Client Obj) → IdFits c → Holds Obj c.send_buf → Ends (IsWhole c) (run c)
  run-IsWhole c f held =
      Ends-map (λ d. Reaches c d × IdFits d) (IsWhole c) (run c) (λ d r. Reaches-IsWhole held r.0)
        (run-Reaches c f)

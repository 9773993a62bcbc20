-- ===== src/Client/Loop/Answers.antt =====
-- The case on_reply of `loop` in include/eshet.hpp: the program's answer to a call.
use eshetcpp.Base.{ℕ, ◌≡◌, refl, List, ◌∷◌, true, ◌==◌, if◌then◌else◌, Bool-cases, inl, inr}
use eshetcpp.Msgpack.{Msgpack}
use eshetcpp.Data.{Result}
use eshetcpp.Wire.SendBuf.{write_reply}
use eshetcpp.Wire.SendBuf.Frames.{frame, write_pack-frame}
use eshetcpp.Client.State.{Client, Network, Ready}
use eshetcpp.Client.Outcome.{done}
use eshetcpp.Client.Commands.Requests.{Sends, sent, send_frame}
use eshetcpp.Client.Messages.Protocol.{ServerMessage, reply_ok, reply_error, encode}
use eshetcpp.Client.Loop.{loop_case, read_reply, send_reply}

-- An answer to a call has the form of a reply to a request.
abbrev pub answer_to : {Obj : Type 0} → ℕ → Result Obj → ServerMessage Obj
answer_to id (Result.success o) = reply_ok id o
answer_to id (Result.error o) = reply_error id o

module _ {Obj : Type 0} ⦃m : Msgpack Obj⦄ ⦃net : Network⦄ where
  write_reply-frame :
      (id : ℕ) (r : Result Obj) (c : Client Obj)
      → write_reply id r c.send_buf ≡ frame (encode (answer_to id r))
  unfolding write_reply
  write_reply-frame id (Result.success o) c = write_pack-frame 0x05 id o c.send_buf
  write_reply-frame id (Result.error o) c = write_pack-frame 0x06 id o c.send_buf

  -- On an open socket that takes the frame: an answer to a call of this connection is sent as one
  -- frame, one to a call of another connection is dropped, and the loop goes on in both cases.
  pub loop_case-on_reply :
      (timeout fd call_connection_id id : ℕ) (r : Result Obj) (rest : List (ℕ × ℕ × Result Obj))
      (c : Client Obj)
      → c.on_reply ≡ (call_connection_id, id, r) ∷ rest
      → Sends c fd (encode (answer_to id r))
      → loop_case timeout Ready.on_reply c
        ≡ done true (
            if call_connection_id == c.connection_id
            then sent fd (encode (answer_to id r)) (record c { on_reply = rest })
            else record c { on_reply = rest })
  unfolding loop_case read_reply send_reply
  loop_case-on_reply timeout fd call_connection_id id r rest c e h =
      let d : Client Obj = record c { on_reply = rest } in
      let k : Sends d fd (encode (answer_to id r)) = record {
        open_socket = h.open_socket;
        takes_all = h.takes_all;
      } in
      elim (Bool-cases (call_connection_id == c.connection_id)) [
        | inl this ↦
            rw (e, this, send_frame d fd _ (encode (answer_to id r)) (write_reply-frame id r c) k)
              refl
        | inr other ↦ rw (e, other) refl
      ]

-- ===== src/Client/Register/Requests.antt =====
-- The requests of reregister in include/eshet.hpp, with a server that says yes to each of them.
use eshetcpp.Base.{
  Bool, ℕ, ◌+◌, ◌%◌, ◌^◌, ◌<◌, ◌≡◌, refl, ap, List, [], ◌∷◌, ◌++◌, some, true, arith,
}
use eshetcpp.Base.Bytes.{Bytes}
use eshetcpp.Base.SortedMap.{nat_key, bytes_key}
use eshetcpp.Msgpack.{Msgpack, RoundTrips}
use eshetcpp.Data.{StateUpdate}
use eshetcpp.Wire.SendBuf.{SendBuf, write_state_observe}
use eshetcpp.Wire.SendBuf.Frames.{frame, write_path-frame}
use eshetcpp.Wire.Unpacker.Framing.{Fits}
use eshetcpp.Client.State.{Client, Network, Turn, pushes_update}
use eshetcpp.Client.Outcome.{done, M, emit}
use eshetcpp.Client.Commands.{get_id}
use eshetcpp.Client.Commands.Requests.{with_path, Sends, sent, send_frame}
use eshetcpp.Client.Messages.Protocol.{ServerMessage, encode, reply_ok, reply_known}
use eshetcpp.Client.Register.{
  request, observe_again, check_success, check_result, handle_state_reply,
}
use eshetcpp.Client.Register.Answered.{
  settled, answered, wait_for_reply-answered, wait_for_state-answered,
}
use eshetcpp.Client.Register.{unless_failed}

-- One request of reregister: a path and a message that has to succeed, or an observed state and its
-- channel.
pub data Request : Type 0 where
  checked : (path : Bytes) → (ℕ → Bytes) → Request
  observed : Bytes → ℕ → Request

abbrev pub path_of : Request → Bytes
path_of (checked path message) = path
path_of (observed path chan) = path

abbrev pub message_with : ℕ → Request → Bytes
message_with id (checked path message) = message id
message_with id (observed path chan) = with_path 0x46 id path

module _ {Obj : Type 0} ⦃m : Msgpack Obj⦄ ⦃net : Network⦄ (trips : RoundTrips m) (time : ℕ → ℕ)
    (object : ℕ → Obj) where
  -- The server says yes at the time of the id, with the object of the id.
  abbrev pub reply_to : ℕ → Request → ServerMessage Obj
  reply_to id (checked path message) = reply_ok id (object id)
  reply_to id (observed path chan) = reply_known id (object id)

  -- What the reply to a request tells the program.
  abbrev told : Request → ℕ → Client Obj → Client Obj
  told (checked path message) id c = c
  told (observed path chan) id c = emit (pushes_update chan (StateUpdate.known (object id) 0)) c

  -- The message went out with the next id, and its reply came.
  abbrev pub granted : ℕ → Request → Client Obj → Client Obj
  granted fd r c = told r c.next_id (record (sent fd (message_with c.next_id r) c) {
    next_id = (c.next_id + 1) % 2 ^ 16;
    now = time c.next_id;
  })

  pub Sends-settled :
      ((calls size : ℕ) → net.accepts calls size ≡ some size)
      → (fd : ℕ) (ts : List (Turn Obj)) (c : Client Obj) (message : Bytes)
      → Sends (settled fd ts c) fd message
  Sends-settled takes fd ts c message = record { open_socket = refl; takes_all = takes c.calls _ }

  pub request-granted :
      ((calls size : ℕ) → net.accepts calls size ≡ some size)
      → (fd : ℕ) (path : Bytes) (f : ℕ → SendBuf → SendBuf) (message : ℕ → Bytes)
        (ts : List (Turn Obj)) (c : Client Obj)
      → ((id : ℕ) (b : SendBuf) → f id b ≡ frame (message id))
      → c.next_id < 2 ^ 16
      → Fits (encode (reply_ok c.next_id (object c.next_id)))
      → request path f
          (settled fd (answered (time c.next_id) (reply_to c.next_id (checked path message)) ts) c)
        ≡ done true (settled fd ts (granted fd (checked path message) c))
  unfolding request get_id check_success check_result
  request-granted takes fd path f message ts c framed small fits =
      let id = c.next_id in
      let all = answered (time id) (reply_to id (checked path message)) ts in
      let d : Client Obj = record c { next_id = (id + 1) % 2 ^ 16 } in
      rw
        (
          send_frame (settled fd all d) fd _ _ (framed id c.send_buf)
              (Sends-settled takes fd all d _),
          wait_for_reply-answered trips id fd (time id) (object id) ts (sent fd (message id) d)
              small fits,
        )
        refl

  pub observe_again-granted :
      ((calls size : ℕ) → net.accepts calls size ≡ some size)
      → (fd : ℕ) (path : Bytes) (chan : ℕ) (ts : List (Turn Obj)) (c : Client Obj)
      → c.next_id < 2 ^ 16
      → Fits (encode (reply_known c.next_id (object c.next_id)))
      → observe_again path chan
          (settled fd (answered (time c.next_id) (reply_to c.next_id (observed path chan)) ts) c)
        ≡ done true (settled fd ts (granted fd (observed path chan) c))
  unfolding observe_again get_id write_state_observe handle_state_reply
  observe_again-granted takes fd path chan ts c small fits =
      let id = c.next_id in
      let all = answered (time id) (reply_to id (observed path chan)) ts in
      let d : Client Obj = record c { next_id = (id + 1) % 2 ^ 16 } in
      rw
        (
          send_frame (settled fd all d) fd _ (with_path 0x46 id path)
              (write_path-frame 0x46 id path c.send_buf)
              (Sends-settled takes fd all d (with_path 0x46 id path)),
          wait_for_state-answered trips id fd (time id) (object id) ts
              (sent fd (with_path 0x46 id path) d) small fits,
        )
        refl

  -- The turns in which the server says yes to the requests, from this id on, and those behind them.
  abbrev pub turns_for : ℕ → List Request → List (Turn Obj) → List (Turn Obj)
  turns_for id [] ts = ts
  turns_for id (r ∷ rs) ts =
      answered (time id) (reply_to id r) (turns_for ((id + 1) % 2 ^ 16) rs ts)

  abbrev pub granted_all : ℕ → List Request → Client Obj → Client Obj
  granted_all fd [] c = c
  granted_all fd (r ∷ rs) c = granted_all fd rs (granted fd r c)

  -- The code makes these requests, in this order, and nothing else, if the server says yes.
  abbrev pub Makes : ℕ → List Request → M Obj Bool → Type 0
  Makes fd rs x =
      (ts : List (Turn Obj)) (c : Client Obj)
      → c.next_id < 2 ^ 16
      → x (settled fd (turns_for c.next_id rs ts) c)
        ≡ done true (settled fd ts (granted_all fd rs c))

  pub turns_for-append :
      (fd : ℕ) (rs rs' : List Request) (ts : List (Turn Obj)) (c : Client Obj)
      → turns_for c.next_id (rs ++ rs') ts
        ≡ turns_for c.next_id rs (turns_for (granted_all fd rs c).next_id rs' ts)
  turns_for-append fd [] rs' ts c = refl
  turns_for-append fd (checked path message ∷ rs) rs' ts c =
      ap (answered (time c.next_id) (reply_to c.next_id (checked path message)))
        (turns_for-append fd rs rs' ts (granted fd (checked path message) c))
  turns_for-append fd (observed path chan ∷ rs) rs' ts c =
      ap (answered (time c.next_id) (reply_to c.next_id (observed path chan)))
        (turns_for-append fd rs rs' ts (granted fd (observed path chan) c))

  pub granted_all-append :
      (fd : ℕ) (rs rs' : List Request) (c : Client Obj)
      → granted_all fd (rs ++ rs') c ≡ granted_all fd rs' (granted_all fd rs c)
  granted_all-append fd [] rs' c = refl
  granted_all-append fd (r ∷ rs) rs' c = granted_all-append fd rs rs' (granted fd r c)

  pub granted_all-next_id :
      (fd : ℕ) (rs : List Request) (c : Client Obj)
      → c.next_id < 2 ^ 16
      → (granted_all fd rs c).next_id < 2 ^ 16
  granted_all-next_id fd [] c small = small
  granted_all-next_id fd (checked path message ∷ rs) c small =
      granted_all-next_id fd rs _ (omega arith)
  granted_all-next_id fd (observed path chan ∷ rs) c small =
      granted_all-next_id fd rs _ (omega arith)

  pub unless_failed-Makes :
      (fd : ℕ) (rs rs' : List Request) (x y : M Obj Bool)
      → Makes fd rs x
      → Makes fd rs' y
      → Makes fd (rs ++ rs') (unless_failed x y)
  unless_failed-Makes fd rs rs' x y hx hy ts c small =
      rw
        (
          turns_for-append fd rs rs' ts c,
          granted_all-append fd rs rs' c,
          hx (turns_for (granted_all fd rs c).next_id rs' ts) c small,
        )
        (hy ts (granted_all fd rs c) (granted_all-next_id fd rs c small))

-- ===== src/Client/Register/Stops.antt =====
-- One request of reregister in include/eshet.hpp that the server refuses, and what comes behind it.
use eshetcpp.Base.{
  ℕ, ◌+◌, ◌%◌, ◌^◌, ◌<◌, ◌≡◌, refl, Bool, List, [], ◌∷◌, ◌++◌, some, length, true, false, arith,
  ◌⊎◌, inl, inr,
}
use eshetcpp.Base.Bytes.{Bytes}
use eshetcpp.Base.Text.{codes}
use eshetcpp.Msgpack.{Msgpack, RoundTrips}
use eshetcpp.Stringize.Render.{Tree, callbacks, render, IsSmall, append_msgpack-render}
use eshetcpp.Wire.SendBuf.{SendBuf, write_state_observe}
use eshetcpp.Wire.SendBuf.Frames.{frame, write_path-frame}
use eshetcpp.Wire.Unpacker.Framing.{Fits}
use eshetcpp.Client.State.{Client, Network, Turn, logs}
use eshetcpp.Client.Outcome.{done, M, pure, emit}
use eshetcpp.Client.Commands.{get_id}
use eshetcpp.Client.Commands.Requests.{with_path, sent, send_frame}
use eshetcpp.Client.Messages.Protocol.{encode, reply_error}
use eshetcpp.Client.Register.{
  request, observe_again, check_success, check_result, handle_state_reply, log_error, unless_failed,
}
use eshetcpp.Client.Register.Answered.{
  settled, answered, wait_for_reply-refused, wait_for_state-refused,
}
use eshetcpp.Client.Register.Requests.{
  Request, checked, observed, path_of, message_with, turns_for, granted_all, Makes,
  unless_failed-Makes, turns_for-append, granted_all-append, granted_all-next_id,
}

-- The line of the log.
abbrev pub complaint : Bytes → Tree → Bytes
complaint path t = (codes "error while adding " ++ (path ++ codes ": ")) ++ render t

module _ {Obj : Type 0} where
  -- The message went out with the next id, and the server's error was logged.
  abbrev pub refused : ℕ → ℕ → Request → Tree → Client Obj → Client Obj
  refused fd at r t c =
      emit (logs (complaint (path_of r) t)) (record (sent fd (message_with c.next_id r) c) {
        next_id = (c.next_id + 1) % 2 ^ 16;
        now = at;
      })

-- Where a request stands in two lists, one behind the other.
split_at :
    (rs rs' before after : List Request) (r : Request)
    → rs ++ rs' ≡ before ++ r ∷ after
    → ((after' : List Request) × (rs ≡ before ++ r ∷ after'))
      ⊎ ((before' : List Request) × ((before ≡ rs ++ before') × (rs' ≡ before' ++ r ∷ after)))
split_at [] rs' before after r e = inr (before, (refl, e))
split_at (x ∷ rs) rs' [] after r e = inl (rs, cc)
split_at (x ∷ rs) rs' (b ∷ before) after r e =
    let tails : rs ++ rs' ≡ before ++ r ∷ after = cc in
    elim (split_at rs rs' before after r tails) [
      | inl (after', h) ↦ inl (after', cc)
      | inr (before', (h, k)) ↦ inr (before', (cc, k))
    ]

module _ {Obj : Type 0} ⦃m : Msgpack Obj⦄ ⦃net : Network⦄ (trips : RoundTrips m) (time : ℕ → ℕ)
    (object : ℕ → Obj) (takes : (calls size : ℕ) → net.accepts calls size ≡ some size)
    (fd : ℕ) where
  request-refused :
      (at : ℕ) (path : Bytes) (f : ℕ → SendBuf → SendBuf) (message : ℕ → Bytes) (o : Obj) (t : Tree)
      (ts : List (Turn Obj)) (c : Client Obj)
      → ((id : ℕ) (b : SendBuf) → f id b ≡ frame (message id))
      → c.next_id < 2 ^ 16
      → Fits (encode (reply_error c.next_id o))
      → m.parse o ≡ callbacks t
      → IsSmall t
      → request path f (settled fd (answered at (reply_error c.next_id o) ts) c)
        ≡ done false (settled fd ts (refused fd at (checked path message) t c))
  unfolding request get_id check_success check_result log_error
  request-refused at path f message o t ts c framed small fits parses trees =
      let id = c.next_id in
      let all = answered at (reply_error id o) ts in
      let d : Client Obj = record c { next_id = (id + 1) % 2 ^ 16 } in
      rw
        (
          send_frame (settled fd all d) fd _ _ (framed id c.send_buf)
              (record { open_socket = refl; takes_all = takes _ _ }),
          wait_for_reply-refused trips id fd at o ts (sent fd (message id) d) small fits,
          append_msgpack-render o t (codes "error while adding " ++ (path ++ codes ": ")) parses
              trees,
        )
        refl

  observe_again-refused :
      (at : ℕ) (path : Bytes) (chan : ℕ) (o : Obj) (t : Tree) (ts : List (Turn Obj))
      (c : Client Obj)
      → c.next_id < 2 ^ 16
      → Fits (encode (reply_error c.next_id o))
      → m.parse o ≡ callbacks t
      → IsSmall t
      → observe_again path chan (settled fd (answered at (reply_error c.next_id o) ts) c)
        ≡ done false (settled fd ts (refused fd at (observed path chan) t c))
  unfolding observe_again get_id write_state_observe handle_state_reply log_error
  observe_again-refused at path chan o t ts c small fits parses trees =
      let id = c.next_id in
      let all = answered at (reply_error id o) ts in
      let d : Client Obj = record c { next_id = (id + 1) % 2 ^ 16 } in
      rw
        (
          send_frame (settled fd all d) fd _ (with_path 0x46 id path)
              (write_path-frame 0x46 id path c.send_buf)
              (record { open_socket = refl; takes_all = takes _ _ }),
          wait_for_state-refused trips id fd at o ts (sent fd (with_path 0x46 id path) d) small
              fits,
          append_msgpack-render o t (codes "error while adding " ++ (path ++ codes ": ")) parses
              trees,
        )
        refl

  -- The code makes these requests, and stops at the one that the server refuses.
  abbrev pub Stops : List Request → M Obj Bool → Type 0
  Stops rs x =
      (at : ℕ) (o : Obj) (t : Tree) (before after : List Request) (r : Request)
      (ts : List (Turn Obj)) (c : Client Obj)
      → length (m.pack o) + 3 < 2 ^ 16
      → m.parse o ≡ callbacks t
      → IsSmall t
      → c.next_id < 2 ^ 16
      → rs ≡ before ++ r ∷ after
      → let d = granted_all trips time object fd before c in
        x (
          settled fd
            (turns_for trips time object c.next_id before
              (answered at (reply_error d.next_id o) ts))
            c)
        ≡ done false (settled fd ts (refused fd at r t d))

  nothing-Stops : (x : M Obj Bool) → Stops [] x
  nothing-Stops x at o t [] after r ts c size parses trees fits e = cc
  nothing-Stops x at o t (b ∷ before) after r ts c size parses trees fits e = cc

  -- Of one request.
  one-Stops :
      (only : Request) (x : M Obj Bool)
      → ((at : ℕ) (o : Obj) (t : Tree) (ts : List (Turn Obj)) (c : Client Obj)
          → length (m.pack o) + 3 < 2 ^ 16
          → m.parse o ≡ callbacks t
          → IsSmall t
          → c.next_id < 2 ^ 16
          → x (settled fd (answered at (reply_error c.next_id o) ts) c)
            ≡ done false (settled fd ts (refused fd at only t c)))
      → Stops (only ∷ []) x
  one-Stops only x h at o t [] after r ts c size parses trees fits e =
      let same : r ≡ only = cc in rw same (h at o t ts c size parses trees fits)
  one-Stops only x h at o t (b ∷ []) after r ts c size parses trees fits e = cc
  one-Stops only x h at o t (b ∷ b' ∷ before) after r ts c size parses trees fits e = cc

  pub request-Stops :
      (path : Bytes) (f : ℕ → SendBuf → SendBuf) (message : ℕ → Bytes)
      → ((id : ℕ) (b : SendBuf) → f id b ≡ frame (message id))
      → Stops (checked path message ∷ []) (request path f)
  request-Stops path f message framed =
      one-Stops (checked path message) (request path f) λ at o t ts c size parses trees fits.
        request-refused at path f message o t ts c framed fits (omega arith) parses trees

  pub observe_again-Stops :
      (path : Bytes) (chan : ℕ) → Stops (observed path chan ∷ []) (observe_again path chan)
  observe_again-Stops path chan =
      one-Stops (observed path chan) (observe_again path chan) λ at o t ts c size parses trees fits.
        observe_again-refused at path chan o t ts c fits (omega arith) parses trees

  -- The refused request is one of the first, or one of the rest.
  unless_failed-Stops :
      (rs rs' : List Request) (x y : M Obj Bool)
      → Makes trips time object fd rs x
      → Stops rs x
      → Stops rs' y
      → Stops (rs ++ rs') (unless_failed x y)
  unless_failed-Stops rs rs' x y makes hx hy at o t before after r ts c size parses trees fits e =
      elim (split_at rs rs' before after r e) [
        | inl (after', e') ↦ rw (hx at o t before after' r ts c size parses trees fits e') refl
        | inr (before', (eb, e')) ↦
            let first = granted_all trips time object fd rs c in
            let last = granted_all trips time object fd before' first in
            let then = answered at (reply_error last.next_id o) ts in
            rw
              (
                eb,
                granted_all-append trips time object fd rs before' c,
                turns_for-append trips time object fd rs before' then c,
                makes (turns_for trips time object first.next_id before' then) c fits,
              )
              (hy at o t before' after r ts first size parses trees
                (granted_all-next_id trips time object fd rs c fits) e')
      ]

  -- The code makes these requests: all of them, or those up to the one that is refused.
  abbrev pub Registers : List Request → M Obj Bool → Type 0
  Registers rs x = Makes trips time object fd rs x × Stops rs x

  pub unless_failed-Registers :
      (rs rs' : List Request) (x y : M Obj Bool)
      → Registers rs x
      → Registers rs' y
      → Registers (rs ++ rs') (unless_failed x y)
  unless_failed-Registers rs rs' x y hx hy = (
    unless_failed-Makes trips time object fd rs rs' x y hx.0 hy.0,
    unless_failed-Stops rs rs' x y hx.0 hx.1 hy.1,
  )

  pub nothing-Registers : Registers [] (pure true)
  nothing-Registers = (λ ts c fits. refl, nothing-Stops (pure true))

-- ===== src/Client/Steps/Connection.antt =====
-- connect, cleanup_connection and do_hello of include/eshet.hpp, in steps.
use eshetcpp.Base.{
  ℕ, suc, ◌%◌, ◌^◌, ◌≡◌, refl, ◌∙◌, Bool, true, false, List, [], ◌∷◌, Option, none, some, ◌==◌,
  if◌then◌else◌, runtime_error,
}
use eshetcpp.Base.Bytes.{Bytes}
use eshetcpp.Msgpack.{Msgpack}
use eshetcpp.Wire.SendBuf.{write_hello}
use eshetcpp.Client.State.{Client, Network, Turn, Ready, logs, closes}
use eshetcpp.Client.Outcome.{done, raised, M, ◌>>=◌, ◌>>◌, pure, lift, update, emit}
use eshetcpp.Client.Body.{run, nothing, just_msgpack}
use eshetcpp.Client.Commands.{write, send_send_buf}
use eshetcpp.Client.Waiting.{read_close, read_message, push_unpacker, read_unpacker}
use eshetcpp.Client.Connection.{
  reset_connection, close_socket, cleanup_connection, connected, connect, handle_hello_message,
  expect_nothing, hello_message, hello_case, wait_for_hello, do_hello,
}
use eshetcpp.Client.Steps.{
  Steps, here, next, one, start, calls_system, notifies, logs_line, joins, stops_thread,
  closes_socket, resets, is_named,
}
use eshetcpp.Client.Steps.Code.{
  Ends, Ends-and_then, Works, Runs, bind-Works, lift-Works, if-Works, step_then, Works-Runs,
  bind-Runs, works_then,
}
use eshetcpp.Client.Steps.Commands.{write-Works, send_send_buf-Works}
use eshetcpp.Client.Steps.Messages.{
  read_close-Works, read_message-Works, push_unpacker-Works, read_unpacker-Works,
}
use eshetcpp.Client.Steps.Writers.{write_hello-Writes}
use eshetcpp.Client.Steps.Waits.{WaitsFor, wait_then}

module _ {Obj : Type 0} ⦃m : Msgpack Obj⦄ ⦃net : Network⦄ where
  close_socket-Steps :
      (s : Option ℕ) (c : Client Obj)
      → c.recv_thread ≡ false
      → c.sockfd ≡ s
      → Ends (Steps c) (close_socket s c)
  unfolding close_socket
  close_socket-Steps none c stopped e = here
  close_socket-Steps (some fd) c stopped e = closing (net.closes_well c.calls) fd c stopped e
    where
      closing :
          (b : Bool) (fd : ℕ) (c : Client Obj)
          → c.recv_thread ≡ false
          → c.sockfd ≡ some fd
          → Ends (Steps c) (
              if b
              then done tt (emit (closes fd) (record c { sockfd = none; calls = suc c.calls }))
              else raised runtime_error (record c { calls = suc c.calls }))
      closing true fd c stopped e = one (closes_socket fd stopped e)
      closing false fd c stopped e = one calls_system

  pub cleanup_connection-Works : Works {Obj = Obj} cleanup_connection
  unfolding cleanup_connection
  cleanup_connection-Works c f =
      let d : Client Obj = record c { recv_thread = false } in
      step_then {c = c} {d = d} _ stops_thread (
        Ends-and_then (Steps d) (Steps d) (close_socket c.sockfd d) (λ _. update reset_connection)
          (λ e s. s) (close_socket-Steps c.sockfd d refl refl) (λ _ e s. next s resets))

  connected-Steps :
      (s : Option ℕ) (c : Client Obj)
      → net.connects c.hostname c.port c.calls ≡ s
      → Ends (Steps c) (connected s c)
  unfolding connected
  connected-Steps none c e =
      next (one calls_system)
        (notifies (logs (net.connect_error c.calls)) (logs_line (net.connect_error c.calls)))
  connected-Steps (some fd) c e = one (joins fd e)

  pub connect-Works : Works {Obj = Obj} connect
  unfolding connect
  connect-Works =
      bind-Works cleanup_connection _ cleanup_connection-Works
        (λ _ c f. connected-Steps (net.connects c.hostname c.port c.calls) c refl)

  handle_hello_message-Works : (bytes : Bytes) → Works {Obj = Obj} (handle_hello_message bytes)
  unfolding handle_hello_message
  handle_hello_message-Works [] = λ c f. here
  handle_hello_message-Works (type ∷ body) =
      if-Works (type == 0x03) _ _ (lift-Works (run nothing body)) (
        if-Works (type == 0x04) _ _
          (bind-Works (lift (run just_msgpack body)) _ (lift-Works (run just_msgpack body))
            (λ id c f. one (is_named id)))
          (λ c f. here))

  expect_nothing-Works : (message : Option Bytes) → Works {Obj = Obj} (expect_nothing message)
  unfolding expect_nothing
  expect_nothing-Works none c f = here
  expect_nothing-Works (some message) c f = here

  hello_message-WaitsFor :
      (again : M Obj Bool) (message : Option Bytes) (ts : List (Turn Obj))
      → WaitsFor ts again
      → WaitsFor ts (hello_message again message)
  unfolding hello_message
  hello_message-WaitsFor again none ts k = k
  hello_message-WaitsFor again (some message) ts k = λ c e f.
      Works-Runs (handle_hello_message message >> (read_unpacker >>= expect_nothing))
        (bind-Works (handle_hello_message message) _ (handle_hello_message-Works message)
          (λ _. bind-Works read_unpacker _ read_unpacker-Works expect_nothing-Works))
        c f

  hello_case-WaitsFor :
      (ready : Ready) (again : M Obj Bool) (ts : List (Turn Obj))
      → WaitsFor ts again
      → WaitsFor ts (hello_case ready again)
  unfolding hello_case
  hello_case-WaitsFor Ready.on_close again ts k = λ c e f.
      Works-Runs (read_close >> pure false)
        (bind-Works read_close _ read_close-Works (λ _ c f. here)) c f
  hello_case-WaitsFor Ready.on_message again ts k = λ c e f.
      works_then (read_message c) _ c f (read_message-Works c f) λ bytes d same fits.
        works_then (push_unpacker bytes d) _ d fits (push_unpacker-Works bytes d fits)
          λ _ d' same' fits.
            works_then (read_unpacker d') _ d' fits (read_unpacker-Works d' fits)
              λ message d'' same'' fits.
                hello_message-WaitsFor again message ts k d'' (same'' ∙ same' ∙ same ∙ e) fits
  hello_case-WaitsFor _ again ts k = λ c e f. (start, f)

  wait_for_hello-WaitsFor : (ts : List (Turn Obj)) → WaitsFor ts (wait_for_hello ts)
  unfolding wait_for_hello
  wait_for_hello-WaitsFor [] = λ c e f. (start, f)
  wait_for_hello-WaitsFor (t ∷ ts) =
      wait_then t ts (hello_case t.ready (wait_for_hello ts))
        (hello_case-WaitsFor t.ready (wait_for_hello ts) ts (wait_for_hello-WaitsFor ts))

  pub do_hello-Runs : Runs {Obj = Obj} do_hello
  unfolding do_hello
  do_hello-Runs c f =
      let hello = write_hello c.id (c.timeout_config.server_timeout % 2 ^ 16) in
      bind-Runs (write hello) _
        (Works-Runs (write hello)
          (write-Works hello (write_hello-Writes c.id (c.timeout_config.server_timeout % 2 ^ 16))))
        (λ _.
          bind-Runs send_send_buf _ (Works-Runs send_send_buf send_send_buf-Works)
            (λ _ c f. wait_for_hello-WaitsFor c.turns c refl f))
        c f

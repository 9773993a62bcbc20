-- ===== src/Client/Steps/Loop.antt =====
-- loop and run of include/eshet.hpp, in steps.
use eshetcpp.Base.{
  ℕ, zero, suc, ◌+◌, ◌-◌, ◌%◌, ◌^◌, ◌≡◌, refl, ◌∙◌, Bool, true, false, List, [], ◌∷◌, none, some,
  length, ◌==◌,
}
use eshetcpp.Msgpack.{Msgpack}
use eshetcpp.Data.{Result}
use eshetcpp.Wire.SendBuf.{write_reply}
use eshetcpp.Client.State.{Client, Network, Turn, Ready, Command, ResultChannel}
use eshetcpp.Client.Outcome.{Outcome, blocked, done, M, and_then, ◌>>◌, pure, update}
use eshetcpp.Client.Commands.{visit_command}
use eshetcpp.Client.Waiting.{read_close, receive}
use eshetcpp.Client.Connection.{cleanup_connection, connect, do_hello}
use eshetcpp.Client.Register.{reregister}
use eshetcpp.Client.Loop.{
  check_ping, read_ping_result, read_reply, read_command, send_ping, handle_timeout, send_reply,
  loop_case, serve, when, loop, wait_for_exit, exit_case, run_loop, run, next_timeout, double_delay,
  reset_delay, min_delay,
}
use eshetcpp.Client.Steps.{
  Steps, here, one, start, step, reads_ping, reads_reply, pings_until, counts,
}
use eshetcpp.Client.Steps.Code.{
  IdFits, Ends, Ends-and_then, Works, Runs, bind-Works, if-Works, list_read, Works-Runs, bind-Runs,
  elim-Runs, works_then,
}
use eshetcpp.Client.Steps.Writers.{write_reply-Writes}
use eshetcpp.Client.Steps.Waits.{WaitsFor, wait_then}
use eshetcpp.Client.Steps.Commands.{write_send, visit_command-Steps, visit_ping-Works}
use eshetcpp.Client.Steps.Messages.{read_close-Works, receive-Works}
use eshetcpp.Client.Steps.Connection.{cleanup_connection-Works, connect-Works, do_hello-Runs}
use eshetcpp.Client.Steps.Register.{reregister-Runs}

module _ {Obj : Type 0} ⦃m : Msgpack Obj⦄ ⦃net : Network⦄ where
  check_ping-Works : (r : Result Obj) → Works (check_ping r)
  unfolding check_ping
  check_ping-Works (Result.success value) c f = one (pings_until none)
  check_ping-Works (Result.error value) c f = here

  read_ping_result-Works : Works {Obj = Obj} read_ping_result
  unfolding read_ping_result
  read_ping_result-Works c f =
      list_read c (λ rest. record c { ping_result = rest }) c.ping_result
        (λ x rest e. reads_ping x rest e)

  read_reply-Works : Works {Obj = Obj} read_reply
  unfolding read_reply
  read_reply-Works c f =
      list_read c (λ rest. record c { on_reply = rest }) c.on_reply
        (λ x rest e. reads_reply x rest e)

module _ {Obj : Type 0} ⦃m : Msgpack Obj⦄ ⦃net : Network⦄ where
  send_ping-Works : Works {Obj = Obj} send_ping
  unfolding send_ping
  send_ping-Works =
      bind-Works (visit_command (Command.ping ResultChannel.ping)) _ visit_ping-Works
        (λ _ c f. one (pings_until (some (c.now + c.timeout_config.ping_timeout))))

  handle_timeout-Works : (timeout : ℕ) → Works {Obj = Obj} (handle_timeout timeout)
  unfolding handle_timeout
  handle_timeout-Works timeout c f =
      if-Works (timeout == c.idle_timeout) send_ping (pure false) send_ping-Works (λ c f. here) c f

  send_reply-Works : (call_id id : ℕ) (r : Result Obj) → Works (send_reply call_id id r)
  unfolding send_reply
  send_reply-Works call_id id r c f =
      if-Works (call_id == c.connection_id) _ (pure tt)
        (write_send (write_reply id r) (write_reply-Writes id r)) (λ c f. here) c f

  -- A command is taken off its channel and carried out.
  command_case :
      (l : List (Command Obj)) (c : Client Obj)
      → c.on_command ≡ l
      → IdFits c
      → Ends (Steps c) (
          and_then
            (elim l as (λ l. Outcome Obj (Command Obj)) [
              | [] ↦ blocked c
              | command ∷ rest ↦ done command (record c { on_command = rest })
            ])
            (λ command. visit_command command >> pure true))
  command_case [] c e f = here
  command_case (command ∷ rest) c e f =
      Ends-and_then (Steps c) (Steps c) (visit_command command (record c { on_command = rest })) _
        (λ d s. s) (visit_command-Steps command rest c e f) (λ _ d s. s)

  loop_case-Works : (timeout : ℕ) (ready : Ready) → Works {Obj = Obj} (loop_case timeout ready)
  unfolding loop_case read_command
  loop_case-Works timeout Ready.timed_out = handle_timeout-Works timeout
  loop_case-Works timeout Ready.ping_result =
      bind-Works read_ping_result check_ping read_ping_result-Works check_ping-Works
  loop_case-Works timeout Ready.on_close = bind-Works read_close _ read_close-Works (λ _ c f. here)
  loop_case-Works timeout Ready.on_message = bind-Works receive _ receive-Works (λ _ c f. here)
  loop_case-Works timeout Ready.on_reply =
      bind-Works read_reply _ read_reply-Works λ (call_id, id, r).
        bind-Works (send_reply call_id id r) _ (send_reply-Works call_id id r) (λ _ c f. here)
  loop_case-Works timeout Ready.on_command = λ c f. command_case c.on_command c refl f
  loop_case-Works timeout Ready.should_exit = λ c f. here
  loop_case-Works timeout Ready.local_result = λ c f. here

  serve-WaitsFor : (ts : List (Turn Obj)) → WaitsFor ts (serve ts)
  unfolding serve
  serve-WaitsFor [] c e f = (start, f)
  serve-WaitsFor (t ∷ ts) c e f =
      let timeout = next_timeout c.ping_timeout c.idle_timeout in
      wait_then t ts _
        (λ c e f.
          works_then (loop_case timeout t.ready c) _ c f (loop_case-Works timeout t.ready c f)
            λ again d same fits. goes_on again ts (serve-WaitsFor ts) d (same ∙ e) fits)
        c e f
    where
      goes_on :
          (again : Bool) (ts : List (Turn Obj))
          → WaitsFor ts (serve ts)
          → WaitsFor ts
              (elim again as (λ b. M Obj (Unit {0})) [ true ↦ serve ts | false ↦ pure tt ])
      goes_on true ts k = k
      goes_on false ts k = λ c e f. (start, f)

  when-Runs : (x : M Obj Bool) (rest : M Obj (Unit {0})) → Runs x → Runs rest → Runs (when x rest)
  when-Runs x rest kx kr = bind-Runs x _ kx λ b. elim-Runs b rest (pure tt) kr (λ c f. (start, f))

  abbrev count_connection : M Obj (Unit {0})
  count_connection = update (λ c. record c { connection_id = (c.connection_id + 1) % 2 ^ 16 })

  count_connection-Runs : Runs count_connection
  count_connection-Runs c f = (step start counts, f)

  pub loop-Runs : Runs {Obj = Obj} loop
  unfolding loop
  loop-Runs = when-Runs connect _ (Works-Runs connect connect-Works) (
      bind-Runs count_connection _ count_connection-Runs λ _.
        when-Runs do_hello _ do_hello-Runs
          (when-Runs reregister _ reregister-Runs (λ c f. serve-WaitsFor c.turns c refl f)))

  exits : (ts : List (Turn Obj)) → WaitsFor ts (wait_for_exit ts)
  unfolding wait_for_exit
  exits [] = λ c e f. (start, f)
  exits (t ∷ ts) = wait_then t ts (pure t.ready) (λ c e f. (start, f))

  exit_case-Runs :
      (ready : Ready) (again : M Obj (Unit {0})) → Runs again → Runs (exit_case ready again)
  unfolding exit_case
  exit_case-Runs Ready.should_exit again k = Works-Runs cleanup_connection cleanup_connection-Works
  exit_case-Runs Ready.timed_out again k = k
  exit_case-Runs _ again k = λ c f. (start, f)

  run_loop-Runs : (fuel delay : ℕ) → Runs {Obj = Obj} (run_loop fuel delay)
  unfolding run_loop
  run_loop-Runs zero delay c f = (start, f)
  run_loop-Runs (suc fuel) delay c f =
      bind-Runs loop _ loop-Runs
        (λ _ c1.
          bind-Runs (λ c. wait_for_exit c.turns c) _ (λ c f. exits c.turns c refl f)
            (λ ready.
              exit_case-Runs ready _
                (run_loop-Runs fuel (double_delay (reset_delay (c1.now - c.now) delay))))
            c1)
        c f

  pub run-Reaches : Runs {Obj = Obj} run
  unfolding run
  run-Reaches c f = run_loop-Runs (suc (length c.turns)) min_delay c f

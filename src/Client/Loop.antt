-- ===== src/Client/Loop.antt =====
-- loop and run of include/eshet.hpp. Times are in seconds.
pub mod Pings
pub mod Backoff
pub mod Served
pub mod Answers
use eshetcpp.Base.{
  ℕ, zero, suc, ◌+◌, ◌-◌, ◌*◌, ◌%◌, ◌^◌, min, Bool, true, false, List, [], ◌∷◌, Option, none, some,
  length, ◌==◌, ltb, leb, if◌then◌else◌, protocol_error,
}
use eshetcpp.Base.Bytes.{Bytes}
use eshetcpp.Msgpack.{Msgpack}
use eshetcpp.Data.{Result}
use eshetcpp.Wire.SendBuf.{write_reply}
use eshetcpp.Client.State.{Client, Network, Turn, Ready, Command, ResultChannel}
use eshetcpp.Client.Outcome.{
  Outcome, done, raised, blocked, M, and_then, ◌>>=◌, ◌>>◌, pure, raise, update, read_state,
}
use eshetcpp.Client.Commands.{write, send_send_buf, visit_command}
use eshetcpp.Client.Waiting.{take_turn, never, read_close, receive}
use eshetcpp.Client.Connection.{cleanup_connection, connect, do_hello}
use eshetcpp.Client.Register.{reregister}

-- The timeout of the wait in `loop`.
unfoldable pub next_timeout : Option ℕ → ℕ → ℕ
next_timeout none idle_timeout = idle_timeout
next_timeout (some ping_timeout) idle_timeout = min ping_timeout idle_timeout

module _ {Obj : Type 0} where
  unfoldable pub check_ping : Result Obj → M Obj Bool
  check_ping (Result.success value) = update (λ c. record c { ping_timeout = none }) >> pure true
  check_ping (Result.error value) = raise protocol_error

  unfoldable pub read_ping_result : M Obj (Result Obj)
  read_ping_result c = elim c.ping_result [
    | [] ↦ blocked c
    | r ∷ rest ↦ done r (record c { ping_result = rest })
  ]

  unfoldable pub read_reply : M Obj (ℕ × ℕ × Result Obj)
  read_reply c = elim c.on_reply [
    | [] ↦ blocked c
    | r ∷ rest ↦ done r (record c { on_reply = rest })
  ]

  unfoldable pub read_command : M Obj (Command Obj)
  read_command c = elim c.on_command [
    | [] ↦ blocked c
    | r ∷ rest ↦ done r (record c { on_command = rest })
  ]

module _ {Obj : Type 0} ⦃m : Msgpack Obj⦄ ⦃net : Network⦄ where
  unfoldable pub send_ping : M Obj Bool
  send_ping = do
    visit_command (Command.ping ResultChannel.ping)
    update (λ c. record c { ping_timeout = some (c.now + c.timeout_config.ping_timeout) })
    pure true

  unfoldable pub handle_timeout : ℕ → M Obj Bool
  unfolding send_ping
  handle_timeout timeout = do
    idle_timeout ← read_state (λ c. c.idle_timeout)
    if timeout == idle_timeout then send_ping else pure false

  -- A reply to a call of an earlier connection is dropped.
  unfoldable pub send_reply : ℕ → ℕ → Result Obj → M Obj (Unit {0})
  send_reply call_connection_id id result = do
    connection_id ← read_state (λ c. c.connection_id)
    if call_connection_id == connection_id
        then write (write_reply id result) >> send_send_buf
        else pure tt

  -- The switch of `loop`: whether it goes round again.
  unfoldable pub loop_case : ℕ → Ready → M Obj Bool
  unfolding handle_timeout check_ping read_ping_result send_reply read_reply read_command
  loop_case timeout Ready.timed_out = handle_timeout timeout
  loop_case timeout Ready.ping_result = read_ping_result >>= check_ping
  loop_case timeout Ready.on_close = read_close >> pure false
  loop_case timeout Ready.on_message = receive >> pure true
  loop_case timeout Ready.on_reply = do
    (call_connection_id, id, result) ← read_reply
    send_reply call_connection_id id result
    pure true
  loop_case timeout Ready.on_command = do command ← read_command; visit_command command; pure true
  loop_case timeout Ready.should_exit = pure false
  loop_case timeout Ready.local_result = never

  -- `while (true)` of `loop`
  unfoldable pub serve : List (Turn Obj) → M Obj (Unit {0})
  unfolding next_timeout
  serve [] = blocked
  serve (t ∷ ts) = do
    timeout ← read_state (λ c. next_timeout c.ping_timeout c.idle_timeout)
    take_turn t ts
    again ← loop_case timeout t.ready
    elim again [ true ↦ serve ts | false ↦ pure tt ]

  -- `if (!ok) return;` and otherwise the rest.
  abbrev pub when : M Obj Bool → M Obj (Unit {0}) → M Obj (Unit {0})
  when m rest = m >>= λ ok. elim ok [ true ↦ rest | false ↦ pure tt ]

  unfoldable pub loop : M Obj (Unit {0})
  loop = when connect (
      update (λ c. record c { connection_id = (c.connection_id + 1) % 2 ^ 16 })
      >> when do_hello (when reregister (λ c. serve c.turns c)))

abbrev pub min_delay : ℕ
min_delay = 1

abbrev pub max_delay : ℕ
max_delay = 30

abbrev pub reset_thresh : ℕ
reset_thresh = 10

-- `if ((end - start) >= reset_thresh) delay = min_delay;`
unfoldable pub reset_delay : ℕ → ℕ → ℕ
reset_delay elapsed delay = if leb reset_thresh elapsed then min_delay else delay

-- `delay *= 2; if (delay > max_delay) delay = max_delay;`
unfoldable pub double_delay : ℕ → ℕ
double_delay delay = let twice = delay * 2 in if ltb max_delay twice then max_delay else twice

module _ {Obj : Type 0} ⦃m : Msgpack Obj⦄ ⦃net : Network⦄ where
  -- `wait_for(delay, should_exit)`
  unfoldable pub wait_for_exit : List (Turn Obj) → M Obj Ready
  wait_for_exit [] = blocked
  wait_for_exit (t ∷ ts) = take_turn t ts >> pure t.ready

  unfoldable pub exit_case : Ready → M Obj (Unit {0}) → M Obj (Unit {0})
  exit_case Ready.should_exit again = cleanup_connection
  exit_case Ready.timed_out again = again
  exit_case _ again = never

  -- `while (true)` of `run`, on fuel: each round takes the turn of its wait_for at least.
  unfoldable pub run_loop : ℕ → ℕ → M Obj (Unit {0})
  unfolding exit_case reset_delay double_delay
  run_loop zero delay = blocked
  run_loop (suc fuel) delay = do
    start ← read_state (λ c. c.now)
    loop
    end ← read_state (λ c. c.now)
    ready ← (λ c. wait_for_exit c.turns c)
    exit_case ready (run_loop fuel (double_delay (reset_delay (end - start) delay)))

  unfoldable pub run : M Obj (Unit {0})
  run c = run_loop (suc (length c.turns)) min_delay c

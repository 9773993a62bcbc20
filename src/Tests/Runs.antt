-- ===== src/Tests/Runs.antt =====
-- Whole runs of a client: connected, given an id, and told to exit.
use eshetcpp.Base.{
  false, true, ◌==◌, if◌then◌else◌, arith, ℕ, ◌≡◌, refl, take, drop, List, [], ◌∷◌, Option, none,
  some,
}
use eshetcpp.Base.Int.{pos}
use eshetcpp.Base.Text.{codes}
use eshetcpp.Wire.SendBuf.Frames.{hello}
use eshetcpp.Wire.Unpacker.Framing.{framed}
use eshetcpp.Client.State.{Client, Turn, Ready, told_to_exit, Effect, sends, closes}
use eshetcpp.Client.Loop
use eshetcpp.Client.Connection
use eshetcpp.Client.Waiting
use eshetcpp.Client.Register
use eshetcpp.Client.Loop.Served.{offline, joined, greeted, loop-serve}
use eshetcpp.Client.Loop.Answers.{answer_to, loop_case-on_reply}
use eshetcpp.Client.Messages.Protocol.{encode}
use eshetcpp.Client.Commands.Requests.{sent}
use eshetcpp.Client.Register.{reregister}
use eshetcpp.Client.Register.Answered.{settled, answered}
use eshetcpp.Client.Register.Refused.{reregister-refused}
use eshetcpp.Client.Register.Stops.{refused}
use eshetcpp.Stringize.Render.{IsSmall, count}
use eshetcpp.Client.Messages.Protocol.{reply_error}
use eshetcpp.Client.Register.Requests.{Request, turns_for, granted_all}
use eshetcpp.Client.Register.Granted.{requests_of, reregister-granted_all}
use eshetcpp.Data.{Result, StateUpdate}
use eshetcpp.Wire.Unpacker
use eshetcpp.Wire.Parser.{read_msgpack}
use eshetcpp.Wire.SendBuf.{write_hello}
use eshetcpp.Client.Api.{arrive}
use eshetcpp.Client.Commands.{send_send_buf}
use eshetcpp.Client.Outcome.{Outcome, done, raised, blocked}
use eshetcpp.Client.Start.{new_client, default_timeouts}
use eshetcpp.Client.Connection.Hello.{answering}
use eshetcpp.Client.Loop.{run, run_loop, min_delay, loop, serve, loop_case}
use eshetcpp.Client.Invariant.{IsValid, Ends, new_client-IsValid}
use eshetcpp.Client.Invariant.Loop.{run-IsValid}
use eshetcpp.Tests.Setting.{pair, one_byte, one_byte_trips, takes_all}
use eshetcpp.Client.Invariant.Rounds.{round, run_from, run-rounds}

-- Nothing but the end of the program.
abbrev exits : ℕ → Turn ℕ
exits time = record { arrivals = told_to_exit ∷ []; time = time; ready = Ready.should_exit }

abbrev turns_of_run : List (Turn ℕ)
turns_of_run = answering one_byte_trips 1 9 ∷ exits 2 ∷ exits 2 ∷ []

abbrev pub started : Client ℕ
started = record (new_client (codes "localhost") (pos 11236) none default_timeouts) {
  turns = turns_of_run;
}

started-IsValid : IsValid 3 started
started-IsValid =
    new_client-IsValid (codes "localhost") (pos 11236) none default_timeouts turns_of_run

abbrev effects_of : Outcome ℕ (Unit {0}) → Option (List (Effect ℕ))
effects_of (done a c) = some c.effects
effects_of (raised e c) = none
effects_of (blocked c) = none

-- It says hello, and closes its socket.
test_run :
    effects_of (run started) ≡ some (sends 3 (framed (hello {Obj = ℕ} none 30)) ∷ closes 3 ∷ [])
unfolding run run_loop Loop.loop Connection.connect Connection.do_hello send_send_buf new_client
    Waiting.take_turn Waiting.read_message Waiting.push_unpacker Waiting.read_unpacker Unpacker.read
    Unpacker.push Loop.wait_for_exit Register.reregister Loop.serve Loop.loop_case Loop.exit_case
    Connection.cleanup_connection Connection.hello_case Connection.wait_for_hello
    Connection.hello_message Connection.handle_hello_message arrive read_msgpack write_hello
test_run = refl

run-IsValid_example : Ends 3 (run started)
run-IsValid_example = run-IsValid 3 started started-IsValid

run-rounds_example :
    (run started ≡ run_from min_delay started)
    × ((delay : ℕ) → run_from delay started ≡ round run_from delay started)
run-rounds_example = run-rounds started started-IsValid

-- It had registered one of each, and is connected again.
abbrev registered : Client ℕ
registered = record started {
  next_id = 65534;
  action_channels = (codes "/act", 1) ∷ [];
  registered_states =
      (codes "/on", StateUpdate.known 5 0) ∷ (codes "/off", StateUpdate.unknown 0) ∷ [];
  observed_states = (codes "/see", 2) ∷ [];
  registered_events = (codes "/bell", tt) ∷ [];
  listened_events = (codes "/door", 3) ∷ [];
}

abbrev granting : List Request → List (Turn ℕ)
granting rs = turns_for one_byte_trips (λ id. 4) (λ id. 9) 65534 rs []

reregister-granted_all_example :
    reregister (settled 3 (granting (requests_of registered)) registered)
    ≡ done true (
        settled 3 []
          (granted_all one_byte_trips (λ id. 4) (λ id. 9) 3 (requests_of registered) registered))
reregister-granted_all_example =
    reregister-granted_all one_byte_trips (λ id. 4) (λ id. 9) (λ calls size. refl)
      (λ id. omega arith) 3 [] registered (omega arith)

reregister-refused_example :
    let before = take 5 (requests_of registered) in
    let d = granted_all one_byte_trips (λ id. 4) (λ id. 9) 3 before registered in
    reregister (
      settled 3
        (turns_for one_byte_trips
          (λ id. 4)
          (λ id. 9)
          65534
          before
          (answered 5 (reply_error d.next_id 9) []))
        registered)
    ≡ done false (settled 3 [] (refused 3 5 (Request.observed (codes "/see") 2) (pair 9) d))
unfolding IsSmall count
reregister-refused_example =
    reregister-refused one_byte_trips (λ id. 4) (λ id. 9) (λ calls size. refl) (λ id. omega arith) 3
      5 9 (pair 9) (take 5 (requests_of registered)) (drop 6 (requests_of registered))
      (Request.observed (codes "/see") 2) [] registered (omega arith) refl
      (omega arith, (tt, (tt, tt))) (omega arith) refl

loop-serve_example :
    loop (offline (answering one_byte_trips 3 8 ∷ granting (requests_of registered)) registered)
    ≡ serve [] (
        settled 3 [] (
          granted_all one_byte_trips
            (λ id. 4)
            (λ id. 9)
            3
            (requests_of registered)
            (greeted 3 3 8 (joined registered))))
loop-serve_example =
    loop-serve one_byte_trips (λ id. 4) (λ id. 9) (λ calls size. refl) (λ id. omega arith) 3 3 8 []
      registered refl (omega arith) (omega arith)

-- The program answers a call of the connection 0, which is this one.
abbrev answers : Client ℕ
answers = record registered { sockfd = some 3; on_reply = (0, 7, Result.success 5) ∷ [] }

loop_case-on_reply_example :
    loop_case 15 Ready.on_reply answers
    ≡ done true (
        if 0 == 0
        then sent 3
            (encode {Obj = ℕ} (answer_to 7 (Result.success 5)))
            (record answers { on_reply = [] })
        else record answers { on_reply = [] })
unfolding new_client
loop_case-on_reply_example =
    loop_case-on_reply 15 3 0 7 (Result.success 5) [] answers refl
      (record { open_socket = refl; takes_all = refl })

-- ===== src/Tools/Cli.antt =====
-- src/cli.cpp: the subcommands, and main.
--
-- CLI11 (submodules/CLI11, a library of another project) parses the arguments: the result of
-- app.parse is an argument of main. The channels of a program are the numbers 0, for results, and
-- 1, for what comes later.
pub mod Commands
pub mod Streams
use eshetcpp.Base.{ℕ, Bool, true, false, List, [], ◌∷◌, ◌++◌, ◌==◌, Option}
use eshetcpp.Base.Bytes.{Bytes}
use eshetcpp.Base.Text.{codes}
use eshetcpp.Log.{c_str}
use eshetcpp.Msgpack.{Objects}
use eshetcpp.Data.{Result, StateResult, StateUpdate}
use eshetcpp.Client.Api.{
  action_call_pack, state_register, state_changed, state_unknown, state_observe, event_register,
  event_emit, event_listen, exit,
}
use eshetcpp.Client.Api
use eshetcpp.Tools.Json.{
  RapidJson, json_str_to_msgpack, Stop, error_message, uncaught, exited, Attempt, gives, fails,
}
use eshetcpp.Tools.Session.{
  Session, Ran, done, stopped, waits, Program, and_then, ◌>>=◌, ◌>>◌, pure, stop, try, update, gets,
  ask, print_line, print_error, start_client, read_result, read_state_result,
}

-- `line.size() && line[0] == c`
abbrev pub starts_with : ℕ → Bytes → Bool
starts_with c [] = false
starts_with c (x ∷ xs) = x == c

module _ {Obj : Type 0} ⦃b : Objects Obj⦄ where
  unfoldable pub check_result : Result Obj → Program Obj (Unit {0})
  check_result (Result.success value) = pure tt
  check_result (Result.error value) = stop (error_message (b.print value))

  unfoldable pub show_result : Result Obj → Program Obj (Unit {0})
  unfolding check_result
  show_result (Result.success value) = print_line (b.print value)
  show_result (Result.error value) = check_result (Result.error value)

  unfoldable pub show_state : StateResult Obj → Program Obj (Unit {0})
  unfolding check_result
  show_state (StateResult.known value t) = print_line (b.print value)
  show_state (StateResult.unknown t) = print_line (codes "unknown")
  show_state (StateResult.error value) = check_result (Result.error value)

  unfoldable pub show_update : StateUpdate Obj → Program Obj (Unit {0})
  show_update (StateUpdate.known value t) = print_line (b.print value)
  show_update (StateUpdate.unknown t) = print_line (codes "unknown")

  -- `while (1) std::cout << events.read().get() << std::endl;`
  unfoldable pub show_events : List Obj → Program Obj (Unit {0})
  show_events [] = waits
  show_events (o ∷ rest) =
      update (λ s. record s { events = rest }) >> (print_line (b.print o) >> show_events rest)

  -- `while (1) std::visit(..., changed_chan.read());`
  unfoldable pub show_updates : List (StateUpdate Obj) → Program Obj (Unit {0})
  unfolding show_update
  show_updates [] = waits
  show_updates (u ∷ rest) =
      update (λ s. record s { state_updates = rest }) >> (show_update u >> show_updates rest)

  unfoldable pub listen : Bytes → Program Obj (Unit {0})
  unfolding start_client read_result check_result show_events
  listen path = do
    start_client
    ask (event_listen path 1 0)
    res ← read_result
    check_result res
    events ← gets (λ s. s.events)
    show_events events

  unfoldable pub observe : Bytes → Program Obj (Unit {0})
  unfolding start_client read_state_result show_state show_updates
  observe path = do
    start_client
    ask (state_observe path 0 1)
    res ← read_state_result
    show_state res
    updates ← gets (λ s. s.state_updates)
    show_updates updates

  unfoldable pub get : Bytes → Program Obj (Unit {0})
  unfolding start_client read_result show_result
  get path = do start_client; ask (Api.get path 0); res ← read_result; show_result res

module _ {Obj : Type 0} ⦃b : Objects Obj⦄ ⦃rj : RapidJson⦄ where
  -- The loop over the arguments of a call.
  unfoldable pub parse_args : List Bytes → Program Obj (List Obj)
  parse_args [] = pure []
  parse_args (arg ∷ args) = do
    o ← try (json_str_to_msgpack arg)
    args_o ← parse_args args
    pure (o ∷ args_o)

  unfoldable pub call : Bytes → List Bytes → Program Obj (Unit {0})
  unfolding parse_args start_client read_result show_result
  call path args = do
    args_o ← parse_args args
    start_client
    ask (action_call_pack path 0 (b.of_array args_o))
    res ← read_result
    ask exit
    show_result res

  unfoldable pub set : Bytes → Bytes → Program Obj (Unit {0})
  unfolding start_client read_result show_result
  set path value_str = do
    value ← try (json_str_to_msgpack value_str)
    start_client
    ask (Api.set path value 0)
    res ← read_result
    show_result res

  -- `update_str` of publish
  unfoldable pub update_str : Bytes → Bytes → Program Obj (Unit {0})
  unfolding read_result check_result
  update_str path value_str = do
    value ← try (json_str_to_msgpack value_str)
    ask (state_changed path value 0)
    res ← read_result
    check_result res

  unfoldable pub set_unknown : Bytes → Program Obj (Unit {0})
  unfolding read_result check_result
  set_unknown path = do ask (state_unknown path 0); res ← read_result; check_result res

  -- The loop over the lines of the standard input.
  unfoldable pub publish_lines : Bytes → List Bytes → Program Obj (Unit {0})
  unfolding update_str set_unknown
  publish_lines path [] = pure tt
  publish_lines path (line ∷ rest) =
      update (λ s. record s { input = rest }) >> elim (starts_with b'q' line) [
        | true ↦ pure tt
        | false ↦
            elim (starts_with b'u' line) [ true ↦ set_unknown path | false ↦ update_str path line ]
            >> publish_lines path rest
      ]

  -- `if (s.size()) f(s);`
  abbrev pub unless_empty : (Bytes → Program Obj (Unit {0})) → Bytes → Program Obj (Unit {0})
  unless_empty f [] = pure tt
  unless_empty f (c ∷ cs) = f (c ∷ cs)

  unfoldable pub publish : Bytes → Bytes → Program Obj (Unit {0})
  unfolding start_client read_result check_result update_str publish_lines
  publish path initial_value_str = do
    start_client
    ask (state_register path 0)
    res ← read_result
    check_result res
    unless_empty (update_str path) initial_value_str
    lines ← gets (λ s. s.input)
    publish_lines path lines

  unfoldable pub emit_str : Bytes → Bytes → Program Obj (Unit {0})
  unfolding read_result check_result
  emit_str path value_str = do
    value ← try (json_str_to_msgpack value_str)
    ask (event_emit path value 0)
    res ← read_result
    check_result res

  unfoldable pub emit_lines : Bytes → List Bytes → Program Obj (Unit {0})
  unfolding emit_str
  emit_lines path [] = pure tt
  emit_lines path (line ∷ rest) =
      update (λ s. record s { input = rest }) >> elim (starts_with b'q' line) [
        | true ↦ pure tt
        | false ↦ emit_str path line >> emit_lines path rest
      ]

  emit_values : Bytes → Bytes → List Bytes → Program Obj (Unit {0})
  unfolding emit_str emit_lines
  emit_values path [] lines = emit_lines path lines
  emit_values path (c ∷ cs) lines = emit_str path (c ∷ cs)

  unfoldable pub emit : Bytes → Bytes → Program Obj (Unit {0})
  unfolding start_client read_result check_result emit_values
  emit path value_to_emit_str = do
    start_client
    ask (event_register path 0)
    res ← read_result
    check_result res
    lines ← gets (λ s. s.input)
    emit_values path value_to_emit_str lines

-- What app.parse finds: a subcommand with its arguments, an absent one being empty; or a
-- CLI::ParseError, with what app.exit returns for it.
pub data Invocation : Type 0 where
  call_command : (path : Bytes) (args : List Bytes) → Invocation
  listen_command observe_command get_command : (path : Bytes) → Invocation
  set_command publish_command emit_command : (path value : Bytes) → Invocation
  usage : (code : ℕ) → Invocation

module _ {Obj : Type 0} where
  -- `catch (const error_message &e)`: e.what() is message.c_str()
  abbrev pub caught : Ran Obj ℕ → Ran Obj ℕ
  caught (done code s) = done code s
  caught (stopped (error_message text) s) =
      (print_error (codes "error: " ++ c_str text) >> pure 1) s
  caught (stopped (uncaught e) s) = stopped (uncaught e) s
  caught (stopped (exited code) s) = stopped (exited code) s
  caught (waits s) = waits s

module _ {Obj : Type 0} ⦃b : Objects Obj⦄ ⦃rj : RapidJson⦄ where
  unfoldable pub run_command : Invocation → Program Obj ℕ
  unfolding call listen observe get set publish emit
  run_command (call_command path args) = call path args >> pure 0
  run_command (listen_command path) = listen path >> pure 0
  run_command (observe_command path) = observe path >> pure 0
  run_command (get_command path) = get path >> pure 0
  run_command (set_command path value) = set path value >> pure 0
  run_command (publish_command path value) = publish path value >> pure 0
  run_command (emit_command path value) = emit path value >> pure 0
  run_command (usage code) = pure code

  unfoldable pub main : Invocation → Program Obj ℕ
  unfolding run_command
  main invocation s = caught (run_command invocation s)

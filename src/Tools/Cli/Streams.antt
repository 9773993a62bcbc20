-- ===== src/Tools/Cli/Streams.antt =====
-- The subcommands that go on: listen and observe print what comes, publish and emit send what is
-- typed.
use eshetcpp.Base.{
  ◌≡◌, refl, ap, ◌∙◌, true, false, List, [], ◌∷◌, ◌++◌, map, Option, none, some, ok, arith,
  append-nil, append_assoc, length,
}
use eshetcpp.Base.Bytes.{Bytes}
use eshetcpp.Base.Int.{ℤ}
use eshetcpp.Base.Text.{codes}
use eshetcpp.Msgpack.{Objects}
use eshetcpp.Data.{Result, StateResult, StateUpdate}
use eshetcpp.Client.State.{Client}
use eshetcpp.Client.Api.{state_register, state_changed, state_unknown, state_observe, event_listen}
use eshetcpp.Client.Start.{new_client_at, default_timeouts}
use eshetcpp.Tools.Host.{get_host_port}
use eshetcpp.Tools.Json.{RapidJson, json_str_to_msgpack, gives}
use eshetcpp.Tools.Session.{Session, done, waits, and_then, read_result, read_state_result}
use eshetcpp.Tools.Cli.{
  starts_with, check_result, show_update, show_updates, show_events, show_state, listen, observe,
  update_str, set_unknown, publish_lines, publish, listen_command, observe_command, publish_command,
  run_command, caught, main,
}
use eshetcpp.Tools.Cli.Commands.{start_client-ok}

module _ {Obj : Type 0} ⦃b : Objects Obj⦄ where
  abbrev pub update_text : StateUpdate Obj → Bytes
  update_text (StateUpdate.known o t) = b.print o
  update_text (StateUpdate.unknown t) = codes "unknown"

  show_update-text :
      (u : StateUpdate Obj) (s : Session Obj)
      → show_update u s ≡ done tt (record s { output = s.output ++ update_text u ∷ [] })
  unfolding show_update
  show_update-text (StateUpdate.known o t) s = refl
  show_update-text (StateUpdate.unknown t) s = refl

  show_updates-map :
      (us : List (StateUpdate Obj)) (s : Session Obj)
      → s.state_updates ≡ us
      → show_updates us s
        ≡ waits (record s { state_updates = []; output = s.output ++ map update_text us })
  unfolding show_updates
  show_updates-map [] s e = rw (append-nil s.output, ← e) refl
  show_updates-map (u ∷ us) s e =
      rw
        (
          show_update-text u (record s { state_updates = us }),
          show_updates-map us
              (record s { state_updates = us; output = s.output ++ update_text u ∷ [] }) refl,
          append_assoc s.output (update_text u ∷ []) (map update_text us),
        )
        refl

  show_events-map :
      (os : List Obj) (s : Session Obj)
      → s.events ≡ os
      → show_events os s ≡ waits (record s { events = []; output = s.output ++ map b.print os })
  unfolding show_events
  show_events-map [] s e = rw (append-nil s.output, ← e) refl
  show_events-map (o ∷ os) s e =
      rw
        (
          show_events-map os (record s { events = os; output = s.output ++ b.print o ∷ [] }) refl,
          append_assoc s.output (b.print o ∷ []) (map b.print os),
        )
        refl

  abbrev pub as_result : StateUpdate Obj → StateResult Obj
  as_result (StateUpdate.known o t) = StateResult.known o t
  as_result (StateUpdate.unknown t) = StateResult.unknown t

  show_state-text :
      (u : StateUpdate Obj) (s : Session Obj)
      → show_state (as_result u) s ≡ done tt (record s { output = s.output ++ update_text u ∷ [] })
  unfolding show_state
  show_state-text (StateUpdate.known o t) s = refl
  show_state-text (StateUpdate.unknown t) s = refl

module _ {Obj : Type 0} ⦃b : Objects Obj⦄ ⦃rj : RapidJson⦄ where
  -- `observe`: with a readable ESHET_SERVER and a first result that is no error, main observes the
  -- path, prints the state and every later one, each on a line of its own in the order of their
  -- arrival, and goes on waiting.
  pub main-observe :
      (path : Bytes) (s : Session Obj) (hostport : Bytes × ℤ) (u : StateUpdate Obj)
      (rest : List (StateResult Obj))
      → get_host_port s.eshet_server ≡ ok hostport
      → s.state_results ≡ as_result u ∷ rest
      → main (observe_command path) s
        ≡ waits (record s {
          client = some (state_observe path 0 1 (new_client_at hostport none default_timeouts));
          state_results = rest;
          state_updates = [];
          output = s.output ++ map update_text (u ∷ s.state_updates);
        })
  unfolding main run_command observe read_state_result
  main-observe path s hostport u rest e f =
      let asked : Session Obj = record s {
        client = some (state_observe path 0 1 (new_client_at hostport none default_timeouts));
        state_results = rest;
      } in
      rw
        (
          start_client-ok s hostport e,
          f,
          show_state-text u asked,
          show_updates-map s.state_updates
              (record asked { output = s.output ++ update_text u ∷ [] }) refl,
          append_assoc s.output (update_text u ∷ []) (map update_text s.state_updates),
        )
        refl

  -- `listen`: with a readable ESHET_SERVER and a first result that is a success, main listens to the
  -- path, prints every event on a line of its own in the order of their arrival, and goes on waiting.
  pub main-listen :
      (path : Bytes) (s : Session Obj) (hostport : Bytes × ℤ) (o : Obj) (rest : List (Result Obj))
      → get_host_port s.eshet_server ≡ ok hostport
      → s.results ≡ Result.success o ∷ rest
      → main (listen_command path) s
        ≡ waits (record s {
          client = some (event_listen path 1 0 (new_client_at hostport none default_timeouts));
          results = rest;
          events = [];
          output = s.output ++ map b.print s.events;
        })
  unfolding main run_command listen read_result check_result
  main-listen path s hostport o rest e f =
      let asked : Session Obj = record s {
        client = some (event_listen path 1 0 (new_client_at hostport none default_timeouts));
        results = rest;
      } in
      rw (start_client-ok s hostport e, f, show_events-map s.events asked refl) refl

  -- A line of the standard input stands for a change: unknown if it starts with `u`, and the object
  -- of its JSON otherwise.
  abbrev pub Reads : Bytes → Option Obj → Type 0
  Reads line none = (starts_with b'q' line ≡ false) × (starts_with b'u' line ≡ true)
  Reads line (some o) =
      (starts_with b'q' line ≡ false)
      × (starts_with b'u' line ≡ false)
      × (json_str_to_msgpack line ≡ gives o)

  -- The lines stand for these changes, up to their end or a line that starts with `q`, and those
  -- behind that line are left.
  abbrev pub ReadsAll : List Bytes → List (Option Obj) → List Bytes → Type 0
  ReadsAll [] [] left = left ≡ []
  ReadsAll [] (u ∷ us) left = ⊥
  ReadsAll (line ∷ lines) [] left = (starts_with b'q' line ≡ true) × (left ≡ lines)
  ReadsAll (line ∷ lines) (u ∷ us) left = Reads line u × ReadsAll lines us left

  abbrev pub change : Bytes → Option Obj → Client Obj → Client Obj
  change path none = state_unknown path 0
  change path (some o) = state_changed path o 0

  -- One command for each change, in their order.
  abbrev pub change_all : Bytes → List (Option Obj) → Client Obj → Client Obj
  change_all path [] c = c
  change_all path (u ∷ us) c = change_all path us (change path u c)

  -- The client, the results that will come and the lines that will be read.
  abbrev pub at : Client Obj → List (Result Obj) → List Bytes → Session Obj → Session Obj
  at c results lines s = record s { client = some c; results = results; input = lines }

  publish_line :
      (path line : Bytes) (u : Option Obj) (ack : Obj) (rest : List (Result Obj))
      (lines : List Bytes) (c : Client Obj) (s : Session Obj)
      → Reads line u
      → publish_lines path (line ∷ lines) (at c (Result.success ack ∷ rest) (line ∷ lines) s)
        ≡ publish_lines path lines (at (change path u c) rest lines s)
  unfolding publish_lines set_unknown update_str read_result check_result
  publish_line path line none ack rest lines c s h = rw (h.0, h.1) refl
  publish_line path line (some o) ack rest lines c s h = rw (h.0, h.1, h.2) refl

  publish_lines-change_all :
      (path : Bytes) (lines left : List Bytes) (us : List (Option Obj)) (acks : List Obj)
      (rest : List (Result Obj)) (c : Client Obj) (s : Session Obj)
      → ReadsAll lines us left
      → length acks ≡ length us
      → publish_lines path lines (at c (map Result.success acks ++ rest) lines s)
        ≡ done tt (at (change_all path us c) rest left s)
  unfolding publish_lines
  publish_lines-change_all path [] left [] [] rest c s h n = rw h refl
  publish_lines-change_all path (line ∷ lines) left [] [] rest c s h n = rw (h.0, h.1) refl
  publish_lines-change_all path [] left (u ∷ us) acks rest c s h n = absurd h
  publish_lines-change_all path lines left [] (ack ∷ acks) rest c s h n = absurd (omega arith)
  publish_lines-change_all path (line ∷ lines) left (u ∷ us) [] rest c s h n = absurd (omega arith)
  publish_lines-change_all path (line ∷ lines) left (u ∷ us) (ack ∷ acks) rest c s h n =
      publish_line path line u ack (map Result.success acks ++ rest) lines c s h.0
      ∙ publish_lines-change_all path lines left us acks rest (change path u c) s h.1 (omega arith)

  -- `publish` without an initial value, with a readable ESHET_SERVER, lines that stand for changes and
  -- as many successes as it asks for: main registers the state, sends the changes of the lines in
  -- their order, each behind the reply to the one before, reads no line behind the first that starts
  -- with `q`, and returns 0.
  pub main-publish :
      (path : Bytes) (left : List Bytes) (us : List (Option Obj)) (ack : Obj) (acks : List Obj)
      (rest : List (Result Obj)) (s : Session Obj) (hostport : Bytes × ℤ)
      → get_host_port s.eshet_server ≡ ok hostport
      → s.results ≡ Result.success ack ∷ map Result.success acks ++ rest
      → ReadsAll s.input us left
      → length acks ≡ length us
      → main (publish_command path []) s
        ≡ done 0 (
            at
              (change_all path us
                (state_register path 0 (new_client_at hostport none default_timeouts)))
              rest
              left
              s)
  unfolding main run_command publish read_result check_result
  main-publish path left us ack acks rest s hostport e f h n =
      let c : Client Obj = state_register path 0 (new_client_at hostport none default_timeouts) in
      rw (start_client-ok s hostport e, f)
        (ap (λ r. caught (and_then r (λ _. done 0)))
          (publish_lines-change_all path s.input left us acks rest c s h n))

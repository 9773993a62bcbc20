-- ===== src/Tools/Cli/Commands.antt =====
-- What the subcommands that make one request do, and the exit codes of main.
use eshetcpp.Base.{ℕ, ◌≡◌, refl, true, false, List, [], ◌∷◌, ◌++◌, map, none, some, ok, logic_error}
use eshetcpp.Base.Bytes.{Bytes}
use eshetcpp.Base.Int.{ℤ}
use eshetcpp.Base.Text.{codes, decimal}
use eshetcpp.Log.{c_str}
use eshetcpp.Msgpack.{Objects}
use eshetcpp.Data.{Result}
use eshetcpp.Client.State.{Client}
use eshetcpp.Client.Api.{action_call_pack, exit}
use eshetcpp.Client.Api
use eshetcpp.Client.Start.{new_client_at, default_timeouts}
use eshetcpp.Tools.Host.{get_host_port}
use eshetcpp.Tools.Json.{
  Json, RapidJson, document, failure, json_str_to_msgpack, uncaught, gives, fails, from_parsed,
}
use eshetcpp.Tools.Json.Build.{representable, build, json_to_msgpack-build}
use eshetcpp.Tools.Session.{Session, Ran, done, stopped, and_then, start_client, read_result}
use eshetcpp.Tools.Cli.{
  check_result, show_result, get, set, call, parse_args, get_command, set_command, call_command,
  run_command, caught, main,
}

module _ {Obj : Type 0} ⦃b : Objects Obj⦄ where
  -- The client that the program made was asked for this, and one result was read.
  abbrev pub asked :
      (Client Obj → Client Obj) → Bytes × ℤ → List (Result Obj) → Session Obj → Session Obj
  asked request hostport rest s = record s {
    client = some (request (new_client_at hostport none default_timeouts));
    results = rest;
  }

  -- A success is printed, and the program returns 0; an error goes to the standard error, and the
  -- program returns 1.
  abbrev pub reported : Result Obj → Session Obj → Ran Obj ℕ
  reported (Result.success o) s = done 0 (record s { output = s.output ++ b.print o ∷ [] })
  reported (Result.error o) s =
      done 1 (record s { errors = s.errors ++ (codes "error: " ++ c_str (b.print o)) ∷ [] })

  caught_show :
      (r : Result Obj) (s : Session Obj)
      → caught (and_then (show_result r s) (λ _. done 0)) ≡ reported r s
  unfolding show_result check_result
  caught_show (Result.success o) s = refl
  caught_show (Result.error o) s = refl

  pub start_client-ok :
      (s : Session Obj) (hostport : Bytes × ℤ)
      → get_host_port s.eshet_server ≡ ok hostport
      → start_client s
        ≡ done tt (record s { client = some (new_client_at hostport none default_timeouts) })
  unfolding start_client
  start_client-ok s hostport e = rw e refl

module _ ⦃rj : RapidJson⦄ where
  -- Each text is JSON with representable numbers.
  abbrev pub AreJson : List Bytes → List Json → Type 0
  AreJson [] [] = Unit
  AreJson (text ∷ texts) (j ∷ js) =
      (rj.parse text ≡ document j) × (representable j ≡ true) × AreJson texts js
  AreJson _ _ = ⊥

module _ {Obj : Type 0} ⦃b : Objects Obj⦄ ⦃rj : RapidJson⦄ where
  -- `get`: with a readable ESHET_SERVER and a first result, main asks the client for the path, and
  -- reports the result.
  pub main-get :
      (path : Bytes) (s : Session Obj) (hostport : Bytes × ℤ) (r : Result Obj)
      (rest : List (Result Obj))
      → get_host_port s.eshet_server ≡ ok hostport
      → s.results ≡ r ∷ rest
      → main (get_command path) s ≡ reported r (asked (Api.get path 0) hostport rest s)
  unfolding main run_command get read_result
  main-get path s hostport r rest e f =
      rw (start_client-ok s hostport e, f) (caught_show r (asked (Api.get path 0) hostport rest s))

  -- A text that rapidjson parses, with all its numbers doubles or in the range of an int64_t.
  pub json_str_to_msgpack-build :
      (text : Bytes) (j : Json)
      → rj.parse text ≡ document j
      → representable j ≡ true
      → json_str_to_msgpack {Obj = Obj} text ≡ gives (build j)
  unfolding json_str_to_msgpack
  json_str_to_msgpack-build text j e r = rw (e, json_to_msgpack-build j, r) refl

  json_str_to_msgpack-large :
      (text : Bytes) (j : Json)
      → rj.parse text ≡ document j
      → representable j ≡ false
      → json_str_to_msgpack {Obj = Obj} text ≡ fails (uncaught logic_error)
  unfolding json_str_to_msgpack
  json_str_to_msgpack-large text j e r = rw (e, json_to_msgpack-build j, r) refl

  json_str_to_msgpack-failure :
      (text : Bytes) (code offset : ℕ)
      → rj.parse text ≡ failure code offset
      → json_str_to_msgpack {Obj = Obj} text ≡ from_parsed (failure code offset)
  unfolding json_str_to_msgpack
  json_str_to_msgpack-failure text code offset e = rw e refl

  -- `set`: with a value that is JSON with representable numbers, a readable ESHET_SERVER and a first
  -- result, main asks the client to set the path to the object of the value, and reports the result.
  pub main-set :
      (path text : Bytes) (j : Json) (s : Session Obj) (hostport : Bytes × ℤ) (r : Result Obj)
      (rest : List (Result Obj))
      → rj.parse text ≡ document j
      → representable j ≡ true
      → get_host_port s.eshet_server ≡ ok hostport
      → s.results ≡ r ∷ rest
      → main (set_command path text) s
        ≡ reported r (asked (Api.set path (build j) 0) hostport rest s)
  unfolding main run_command set read_result
  main-set path text j s hostport r rest p q e f =
      rw (json_str_to_msgpack-build text j p q, start_client-ok s hostport e, f)
        (caught_show r (asked (Api.set path (build j) 0) hostport rest s))

  -- `set` with a value that is no JSON makes no client: main returns 1 with the message and the place
  -- of the parse error on the standard error, and nothing on the standard output.
  pub main-set_no_json :
      (path text : Bytes) (code offset : ℕ) (s : Session Obj)
      → rj.parse text ≡ failure code offset
      → main (set_command path text) s
        ≡ done 1 (record s {
          errors =
              s.errors
              ++ (codes "error: "
                  ++ c_str (rj.parse_error code ++ (codes " (" ++ (decimal offset ++ codes ")"))))
                ∷ [];
        })
  unfolding main run_command set
  main-set_no_json path text code offset s e =
      rw (json_str_to_msgpack-failure text code offset e) refl

  -- `set` with a JSON value that holds an integer above the range of an int64_t: the program ends by
  -- the std::logic_error of json_to_msgpack, which main does not catch, and nothing is printed.
  pub main-set_large :
      (path text : Bytes) (j : Json) (s : Session Obj)
      → rj.parse text ≡ document j
      → representable j ≡ false
      → main (set_command path text) s ≡ stopped (uncaught logic_error) s
  unfolding main run_command set
  main-set_large path text j s e r = rw (json_str_to_msgpack-large text j e r) refl

  parse_args-build :
      (texts : List Bytes) (js : List Json) (s : Session Obj)
      → AreJson texts js
      → parse_args texts s ≡ done (map build js) s
  unfolding parse_args
  parse_args-build [] [] s h = refl
  parse_args-build [] (j ∷ js) s h = absurd h
  parse_args-build (text ∷ texts) [] s h = absurd h
  parse_args-build (text ∷ texts) (j ∷ js) s h =
      rw (json_str_to_msgpack-build text j h.0 h.1, parse_args-build texts js s h.2) refl

  -- `call`: with arguments that are JSON with representable numbers, a readable ESHET_SERVER and a
  -- first result, main calls the action with the array of their objects, in order, tells the client
  -- to exit and reports the result.
  pub main-call :
      (path : Bytes) (texts : List Bytes) (js : List Json) (s : Session Obj) (hostport : Bytes × ℤ)
      (r : Result Obj) (rest : List (Result Obj))
      → AreJson texts js
      → get_host_port s.eshet_server ≡ ok hostport
      → s.results ≡ r ∷ rest
      → main (call_command path texts) s
        ≡ reported r (
            asked
              (λ c. exit (action_call_pack path 0 (b.of_array (map build js)) c))
              hostport
              rest
              s)
  unfolding main run_command call read_result
  main-call path texts js s hostport r rest h e f =
      rw (parse_args-build texts js s h, start_client-ok s hostport e, f)
        (caught_show r (
          asked (λ c. exit (action_call_pack path 0 (b.of_array (map build js)) c)) hostport rest
            s))

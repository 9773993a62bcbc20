-- ===== src/Tests/Tools.antt =====
-- Runs of the command-line programs, with a toy rapidjson and objects that are numbers.
use eshetcpp.Base.{
  ◌↔◌, ℕ, ◌^◌, ◌≡◌, refl, true, List, [], ◌∷◌, ◌++◌, map, length, none, some, ok, throw,
  invalid_argument, logic_error, arith, ◌==◌, if◌then◌else◌,
}
use eshetcpp.Base.Bytes.{Bytes}
use eshetcpp.Base.Int.{ℤ, pos, negsuc}
use eshetcpp.Base.Text.{codes, decimal}
use eshetcpp.Msgpack.{Objects}
use eshetcpp.Data.{Result, StateUpdate, StateResult}
use eshetcpp.Client.Api.{action_call_pack, state_register, state_observe, event_listen, exit}
use eshetcpp.Client.Api
use eshetcpp.Client.Start.{new_client_at, default_timeouts}
use eshetcpp.Tools.Host.{get_host_port}
use eshetcpp.Tools.Host.Ports.{get_host_port-decimal, get_host_port-IsNoNumber}
use eshetcpp.Tools.Json.{
  Json, Elements, Parsed, RapidJson, document, failure, json_to_msgpack, json_str_to_msgpack,
  exited,
}
use eshetcpp.Tools.Json.Build.{representable, build, json_to_msgpack-build}
use eshetcpp.Tools.Session.{Session, done, stopped, waits}
use eshetcpp.Tools.Cli.{
  main, get_command, call_command, observe_command, listen_command, publish_command,
}
use eshetcpp.Tools.Cli.Commands.{asked, reported, main-get, main-call}
use eshetcpp.Tools.Cli.Streams.{
  update_text, change_all, at, main-observe, main-listen, main-publish,
}
use eshetcpp.Tools.Complete.{split_path, completions}
use eshetcpp.Tools.Complete.Program
use eshetcpp.Tools.Complete.Words.{Offers, nothing, skips, directory, leaf, completions-Offers}
use eshetcpp.Tools.Complete.Program.Listing.{Lists, asked_ls, main-listing, main-no_word}

-- Every object is the listing of a directory with one entry.
abbrev pub home : List (Bytes × Bytes)
home = (codes "light", codes "state") ∷ (codes "x", codes "dir") ∷ (codes "lift", codes "dir") ∷ []

abbrev pub home_lines : List Bytes
home_lines = codes "/home/light " ∷ codes "/home/lift/" ∷ []

-- The second entry is not offered.
pub home-Offers : Offers (codes "/home/") (codes "li") home home_lines
home-Offers =
    leaf (codes "light") (codes "state") (codes "ght", refl) (λ e. ground arith)
      (skips (codes "x") (codes "dir") (λ e. ground arith)
        (directory (codes "lift") (codes "dir") (codes "ft", refl) refl nothing))

abbrev number_of : ℤ → ℕ
number_of (pos n) = n
number_of (negsuc n) = n

instance abbrev numbers : Objects ℕ
numbers = record {
  nil = 0;
  of_bool = λ v. 1;
  of_double = λ v. v;
  of_int64 = number_of;
  of_str = length;
  of_array = length;
  of_map = length;
  print = decimal;
  equal = λ x y. x == y;
  elements = λ o. some (1 ∷ 2 ∷ []);
  as_string = λ o. some (codes "dir");
  as_pairs = λ o. some home;
}

-- A text that starts with `!` is a large number, one that starts with `x` an error.
abbrev toy_parse : Bytes → Parsed
toy_parse [] = failure 1 0
toy_parse (c ∷ cs) =
    if c == b'!'
    then document (Json.uint64 (2 ^ 63))
    else if c == b'x'
    then failure 3 0
    else document (Json.int64 (pos c))

instance abbrev toy_json : RapidJson
toy_json = record { parse = toy_parse; parse_error = λ code. codes "Invalid value." }

abbrev idle : Session ℕ
idle = record {
  eshet_server = some (codes "pi:8080");
  input = codes "1" ∷ codes "u" ∷ codes "q" ∷ codes "2" ∷ [];
  client = none;
  results = Result.success 7 ∷ Result.success 8 ∷ Result.success 9 ∷ [];
  state_results = StateResult.unknown 0 ∷ [];
  state_updates = StateUpdate.known 4 0 ∷ StateUpdate.unknown 0 ∷ [];
  events = 5 ∷ 6 ∷ [];
  output = [];
  errors = [];
}

abbrev refused : Session ℕ
refused = record idle { results = Result.error 3 ∷ [] }

abbrev pi : Bytes × ℤ
pi = (codes "pi", pos 8080)

at_pi : get_host_port (some (codes "pi:8080")) ≡ ok pi
unfolding get_host_port
at_pi = refl

get_host_port-decimal_example :
    (get_host_port (some (codes "pi")) ≡ ok (codes "pi", pos 11236))
    × (get_host_port (some (codes "pi" ++ b':' ∷ decimal 8080)) ≡ ok (codes "pi", pos 8080))
get_host_port-decimal_example =
    get_host_port-decimal (codes "pi") 8080 (omega arith, (omega arith, tt)) (omega arith)

get_host_port-IsNoNumber_example :
    get_host_port (some (codes "pi" ++ b':' ∷ codes "http")) ≡ throw invalid_argument
get_host_port-IsNoNumber_example =
    get_host_port-IsNoNumber (codes "pi") (codes "http") (omega arith, (omega arith, tt))
      (refl, refl, omega arith, omega arith)

abbrev mixed : Json
mixed =
    Json.array
      (Elements.element (Json.uint64 (2 ^ 63)) (Elements.element Json.null Elements.no_elements))

json_to_msgpack-build_example :
    json_to_msgpack {Obj = ℕ} mixed
    ≡ (if representable mixed then ok (build mixed) else throw logic_error)
json_to_msgpack-build_example = json_to_msgpack-build {Obj = ℕ} ⦃b = numbers⦄ mixed

main-get_example :
    main (get_command (codes "/a")) refused
    ≡ reported (Result.error 3) (asked (Api.get (codes "/a") 0) pi [] refused)
main-get_example = main-get (codes "/a") refused pi (Result.error 3) [] at_pi refl

main-call_example :
    main (call_command (codes "/a") (codes "4" ∷ [])) refused
    ≡ reported (Result.error 3) (
        asked
          (λ c. exit (
            action_call_pack
              (codes "/a")
              0
              (length (map (build {Obj = ℕ}) (Json.int64 (pos b'4') ∷ [])))
              c))
          pi
          []
          refused)
unfolding representable
main-call_example =
    main-call (codes "/a") (codes "4" ∷ []) (Json.int64 (pos b'4') ∷ []) refused pi (Result.error 3)
      [] (refl, refl, tt) at_pi refl

main-observe_example :
    main (observe_command (codes "/s")) idle
    ≡ waits (record idle {
      client = some (state_observe (codes "/s") 0 1 (new_client_at pi none default_timeouts));
      state_results = [];
      state_updates = [];
      output = [] ++ map update_text (StateUpdate.unknown 0 ∷ idle.state_updates);
    })
main-observe_example = main-observe (codes "/s") idle pi (StateUpdate.unknown 0) [] at_pi refl

main-listen_example :
    main (listen_command (codes "/e")) idle
    ≡ waits (record idle {
      client = some (event_listen (codes "/e") 1 0 (new_client_at pi none default_timeouts));
      results = Result.success 8 ∷ Result.success 9 ∷ [];
      events = [];
      output = [] ++ map decimal (5 ∷ 6 ∷ []);
    })
main-listen_example =
    main-listen (codes "/e") idle pi 7 (Result.success 8 ∷ Result.success 9 ∷ []) at_pi refl

main-publish_example :
    main (publish_command (codes "/s") []) idle
    ≡ done 0 (
        at
          (change_all
            (codes "/s")
            (some b'1' ∷ none ∷ [])
            (state_register (codes "/s") 0 (new_client_at pi none default_timeouts)))
          []
          (codes "2" ∷ [])
          idle)
unfolding json_str_to_msgpack json_to_msgpack
main-publish_example =
    main-publish (codes "/s") (codes "2" ∷ []) (some b'1' ∷ none ∷ []) 7 (8 ∷ 9 ∷ []) [] idle pi
      at_pi refl ((refl, refl, refl), ((refl, refl), (refl, refl))) refl

Lists-home : Lists {Obj = ℕ} 0 home
Lists-home = record { type = 1; listing = 2; pair = refl; is_dir = refl; has_entries = refl }

abbrev argv : List Bytes
argv = codes "eshet_complete" ∷ codes "eshet" ∷ codes "/home/li" ∷ []

main-listing_example :
    (Program.main argv (record idle { results = Result.success 0 ∷ [] })
      ≡ done 0 (record (asked_ls (codes "/home/") pi [] idle) { output = [] ++ home_lines }))
    × (Program.main argv (record idle { results = Result.error 3 ∷ [] })
        ≡ done 0 (asked_ls (codes "/home/") pi [] idle))
unfolding split_path
main-listing_example =
    main-listing (codes "eshet_complete") (codes "eshet") (codes "/home/li") [] idle pi 0 3 home
      home_lines [] at_pi Lists-home home-Offers

main-no_word_example :
    Program.main (codes "eshet_complete" ∷ []) idle
    ≡ stopped (exited 1) (record idle {
      client = some (new_client_at pi none default_timeouts);
      errors = [] ++ codes "expected three arguments" ∷ [];
    })
main-no_word_example = main-no_word (codes "eshet_complete" ∷ []) idle pi (omega arith) at_pi

equal_self : (x : ℕ) → (x == x) ≡ true
equal_self x = ground arith

completions-Offers_example :
    Offers (codes "/home/") (codes "li") home home_lines
    ↔ (home_lines ≡ completions (codes "/home/") (codes "li") home)
completions-Offers_example = completions-Offers (codes "/home/") (codes "li") home home_lines

-- ===== src/Tools/Session.antt =====
-- What the programs of src/cli.cpp and src/complete.cpp see and do.
--
-- A program makes one client, whose on_command then holds what the program asked of it, in order. A
-- read of a channel gives what the client pushes to it, in order: the lists of a Session are all
-- that will come. A program that reads a channel to which nothing more comes waits for ever.
use eshetcpp.Base.{List, [], ◌∷◌, ◌++◌, Option, none, some}
use eshetcpp.Base.Bytes.{Bytes}
use eshetcpp.Data.{Result, StateResult, StateUpdate}
use eshetcpp.Client.State.{Client}
use eshetcpp.Client.Start.{new_client_at, default_timeouts}
use eshetcpp.Tools.Host.{get_host_port}
use eshetcpp.Tools.Json.{Stop, Attempt, gives, fails, attempt}

module _ (Obj : Type 0) where
  pub record Session : Type 0 where
    -- ESHET_SERVER in the environment, and the lines of the standard input
    pub eshet_server : Option Bytes
    pub input : List Bytes
    pub client : Option (Client Obj)
    -- what is pushed to the program's Channel<Result>, Channel<StateResult>, Channel<StateUpdate>
    -- and Channel<msgpack::object_handle>
    pub results : List (Result Obj)
    pub state_results : List (StateResult Obj)
    pub state_updates : List (StateUpdate Obj)
    pub events : List Obj
    -- the lines on the standard output and the standard error
    pub output : List Bytes
    pub errors : List Bytes

module _ (Obj A : Type 0) where
  pub data Ran : Type 0 where
    done : A → Session Obj → Ran
    stopped : Stop → Session Obj → Ran
    waits : Session Obj → Ran

abbrev pub Program : Type 0 → Type 0 → Type 0
Program Obj A = Session Obj → Ran Obj A

abbrev pub on_some : {A : Type 0} → (A → A) → Option A → Option A
on_some f none = none
on_some f (some a) = some (f a)

module _ {Obj : Type 0} where
  abbrev pub and_then : {A B : Type 0} → Ran Obj A → (A → Program Obj B) → Ran Obj B
  and_then (done a s) k = k a s
  and_then (stopped e s) k = stopped e s
  and_then (waits s) k = waits s

  infixl 5 ◌>>=◌ ◌>>◌
  abbrev pub ◌>>=◌ : {A B : Type 0} → Program Obj A → (A → Program Obj B) → Program Obj B
  m >>= k = λ s. and_then (m s) k

  abbrev pub ◌>>◌ : {B : Type 0} → Program Obj (Unit {0}) → Program Obj B → Program Obj B
  m >> n = m >>= λ _. n

  abbrev pub pure : {A : Type 0} → A → Program Obj A
  pure a = done a

  abbrev pub stop : {A : Type 0} → Stop → Program Obj A
  stop e = stopped e

  abbrev pub try : {A : Type 0} → Attempt A → Program Obj A
  try (gives a) = done a
  try (fails e) = stopped e

  abbrev pub gets : {A : Type 0} → (Session Obj → A) → Program Obj A
  gets f s = done (f s) s

  abbrev pub update : (Session Obj → Session Obj) → Program Obj (Unit {0})
  update f s = done tt (f s)

  -- A call of a method of the client.
  abbrev pub ask : (Client Obj → Client Obj) → Program Obj (Unit {0})
  ask f = update (λ s. record s { client = on_some f s.client })

  -- `std::cout << line << std::endl`
  abbrev pub print_line : Bytes → Program Obj (Unit {0})
  print_line line = update (λ s. record s { output = s.output ++ line ∷ [] })

  -- `std::cerr << line << std::endl`
  abbrev pub print_error : Bytes → Program Obj (Unit {0})
  print_error line = update (λ s. record s { errors = s.errors ++ line ∷ [] })

  -- `ESHETClient client(get_host_port());`
  unfoldable pub start_client : Program Obj (Unit {0})
  start_client = do
    server ← gets (λ s. s.eshet_server)
    hostport ← try (attempt (get_host_port server))
    update (λ s. record s { client = some (new_client_at hostport none default_timeouts) })

  unfoldable pub read_result : Program Obj (Result Obj)
  read_result s = elim s.results [ [] ↦ waits s | r ∷ rest ↦ done r (record s { results = rest }) ]

  unfoldable pub read_state_result : Program Obj (StateResult Obj)
  read_state_result s = elim s.state_results [
    | [] ↦ waits s
    | r ∷ rest ↦ done r (record s { state_results = rest })
  ]

-- ===== src/Client/Loop/Pings.antt =====
-- The pings of `loop` in include/eshet.hpp, and a server that does not answer them.
use eshetcpp.Base.{
  ℕ, ◌+◌, ◌%◌, ◌^◌, ◌∙◌, ◌<◌, ◌≤◌, ◌≡◌, refl, List, [], ◌∷◌, none, some, min, true, false, ◌==◌,
  arith,
}
use eshetcpp.Msgpack.{Msgpack}
use eshetcpp.Client.State.{Client, Network, Turn, Ready, ResultChannel, results}
use eshetcpp.Client.Outcome.{done}
use eshetcpp.Client.Commands.Requests.{Sends, ping_message, sent, awaiting, visit_ping}
use eshetcpp.Client.Waiting.{take_turn}
use eshetcpp.Client.Loop.{next_timeout, handle_timeout, send_ping, loop_case, serve}

same_time : (n : ℕ) → (n == n) ≡ true
same_time n = ground arith

earlier : (t a b : ℕ) → a < b → (min (t + a) (t + b) == t + b) ≡ false
earlier t a b lt = ground arith

module _ {Obj : Type 0} where
  -- A wait that ends at a time with nothing having come.
  abbrev pub silent : ℕ → Turn Obj
  silent time = record { arrivals = []; time = time; ready = Ready.timed_out }

  -- The wait ended at this time, and a ping went out.
  abbrev pub pinged : ℕ → ℕ → List (Turn Obj) → Client Obj → Client Obj
  pinged fd time rest c =
      record (sent fd (ping_message c.next_id)
        (awaiting (results ResultChannel.ping) (record c { turns = rest; now = time }))) {
          ping_timeout = some (time + c.timeout_config.ping_timeout);
        }

module _ {Obj : Type 0} ⦃m : Msgpack Obj⦄ ⦃net : Network⦄ where
  serve-ping :
      (c : Client Obj) (fd time : ℕ) (ts : List (Turn Obj))
      → next_timeout c.ping_timeout c.idle_timeout ≡ c.idle_timeout
      → Sends c fd (ping_message c.next_id)
      → serve (silent time ∷ ts) c ≡ serve ts (pinged fd time ts c)
  unfolding serve loop_case handle_timeout send_ping take_turn
  serve-ping c fd time ts e h =
      let sends : Sends (record c { turns = ts; now = time }) fd (ping_message c.next_id) = record {
        open_socket = h.open_socket;
        takes_all = h.takes_all;
      } in
      rw
        (
          e,
          same_time c.idle_timeout,
          visit_ping (record c { turns = ts; now = time }) fd ResultChannel.ping sends,
        )
        refl

  -- A client with no ping under way, whose ping_timeout is shorter than its idle_ping, on an open
  -- socket that takes the ping: when two waits of `loop` end with nothing having come, it sends one
  -- ping at the first and leaves the loop at the second.
  pub silent_server-closes :
      (c : Client Obj) (fd t1 t2 : ℕ) (ts : List (Turn Obj))
      → c.ping_timeout ≡ none
      → c.timeout_config.ping_timeout < c.timeout_config.idle_ping
      → Sends c fd (ping_message c.next_id)
      → serve (silent t1 ∷ silent t2 ∷ ts) c
        ≡ done tt (record (pinged fd t1 (silent t2 ∷ ts) c) { turns = ts; now = t2 })
  unfolding serve loop_case handle_timeout take_turn next_timeout
  silent_server-closes c fd t1 t2 ts e lt h =
      rw (serve-ping c fd t1 (silent t2 ∷ ts) (rw e refl) h)
        (rw (earlier t1 c.timeout_config.ping_timeout c.timeout_config.idle_ping lt) refl)

  -- A client with no ping under way, whose ping_timeout is as long as its idle_ping or longer, on an
  -- open socket that takes both pings: two waits that end with nothing having come send two pings,
  -- and the loop goes on.
  pub silent_server-stays :
      (c : Client Obj) (fd t1 t2 : ℕ) (ts : List (Turn Obj))
      → c.ping_timeout ≡ none
      → c.timeout_config.idle_ping ≤ c.timeout_config.ping_timeout
      → Sends c fd (ping_message c.next_id)
      → Sends (pinged fd t1 (silent t2 ∷ ts) c) fd (ping_message ((c.next_id + 1) % 2 ^ 16))
      → serve (silent t1 ∷ silent t2 ∷ ts) c
        ≡ serve ts (pinged fd t2 ts (pinged fd t1 (silent t2 ∷ ts) c))
  unfolding next_timeout
  silent_server-stays c fd t1 t2 ts e le h k =
      serve-ping c fd t1 (silent t2 ∷ ts) (rw e refl) h
      ∙ serve-ping (pinged fd t1 (silent t2 ∷ ts) c) fd t2 ts (omega arith) k

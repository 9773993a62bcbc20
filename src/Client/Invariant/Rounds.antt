-- ===== src/Client/Invariant/Rounds.antt =====
-- `while (true)` of `run` in include/eshet.hpp, without its fuel.
use eshetcpp.Base.{ℕ, zero, suc, ◌-◌, ◌<◌, ◌≤◌, ◌≡◌, refl, List, [], ◌∷◌, length, arith}
use eshetcpp.Msgpack.{Msgpack}
use eshetcpp.Client.State.{Client, Network, Turn, Ready}
use eshetcpp.Client.Outcome.{Outcome, done, raised, blocked, M, and_then, ◌>>=◌, ◌>>◌, read_state}
use eshetcpp.Client.Waiting.{take_turn}
use eshetcpp.Client.Loop.{
  loop, wait_for_exit, exit_case, run_loop, run, min_delay, double_delay, reset_delay,
}
use eshetcpp.Client.Invariant.{IsValid, Ends}
use eshetcpp.Client.Invariant.Preserved.{turn-IsValid}
use eshetcpp.Client.Invariant.Loop.{loop-IsValid}

module _ {Obj : Type 0} where
  and_then-same :
      {A B : Type 0} (n : ℕ) (o : Outcome Obj A) (k k' : A → M Obj B)
      → Ends n o
      → ((a : A) (c : Client Obj) → IsValid n c → k a c ≡ k' a c)
      → and_then o k ≡ and_then o k'
  and_then-same n (done a c) k k' v same = same a c v
  and_then-same n (raised e c) k k' v same = refl
  and_then-same n (blocked c) k k' v same = refl

  tighten : (n : ℕ) (c : Client Obj) → IsValid n c → IsValid (length c.turns) c
  tighten n c v = ground arith

module _ {Obj : Type 0} ⦃m : Msgpack Obj⦄ ⦃net : Network⦄ where
  -- One connection and the wait behind it; `again` goes on with the next delay.
  abbrev pub round : (ℕ → M Obj (Unit {0})) → ℕ → M Obj (Unit {0})
  round again delay = do
    start ← read_state (λ c. c.now)
    loop
    end ← read_state (λ c. c.now)
    ready ← (λ c. wait_for_exit c.turns c)
    exit_case ready (again (double_delay (reset_delay (end - start) delay)))

  -- What `run` does from this delay on.
  abbrev pub run_from : ℕ → M Obj (Unit {0})
  run_from delay c = run_loop (suc (length c.turns)) delay c

  exit_case-same :
      (ready : Ready) (again again' : M Obj (Unit {0})) (c : Client Obj)
      → again c ≡ again' c
      → exit_case ready again c ≡ exit_case ready again' c
  unfolding exit_case
  exit_case-same Ready.should_exit again again' c e = refl
  exit_case-same Ready.timed_out again again' c e = e
  exit_case-same Ready.ping_result again again' c e = refl
  exit_case-same Ready.on_close again again' c e = refl
  exit_case-same Ready.on_message again again' c e = refl
  exit_case-same Ready.on_reply again again' c e = refl
  exit_case-same Ready.on_command again again' c e = refl
  exit_case-same Ready.local_result again again' c e = refl

  -- The wait takes a turn.
  wait-same :
      (n : ℕ) (ts : List (Turn Obj)) (again again' : M Obj (Unit {0})) (c : Client Obj)
      → IsValid n c
      → length ts ≤ n
      → ((k : ℕ) (c : Client Obj) → k < n → IsValid k c → again c ≡ again' c)
      → and_then (wait_for_exit ts c) (λ ready. exit_case ready again)
        ≡ and_then (wait_for_exit ts c) (λ ready. exit_case ready again')
  unfolding wait_for_exit take_turn
  wait-same n [] again again' c v le same = refl
  wait-same n (t ∷ ts) again again' c v le same =
      exit_case-same t.ready again again' _
        (same (length ts) _ (omega arith) (turn-IsValid (length ts) t ts n c v (omega arith)))

  round-same :
      (n delay : ℕ) (again again' : ℕ → M Obj (Unit {0})) (c : Client Obj)
      → IsValid n c
      → ((k delay : ℕ) (c : Client Obj) → k < n → IsValid k c → again delay c ≡ again' delay c)
      → round again delay c ≡ round again' delay c
  round-same n delay again again' c v same =
      and_then-same n (loop c) _ _ (loop-IsValid n c v) λ _ c1 v1.
        let next = double_delay (reset_delay (c1.now - c.now) delay) in
        wait-same n c1.turns (again next) (again' next) c1 v1 v1.turns_bound (λ k. same k next)

  -- More fuel than there are turns makes no difference.
  run_loop-enough :
      (n f g delay : ℕ) (c : Client Obj)
      → IsValid n c
      → n < f
      → n < g
      → run_loop f delay c ≡ run_loop g delay c
  unfolding run_loop
  run_loop-enough n zero g delay c v lt lt' = ground arith
  run_loop-enough n (suc f) zero delay c v lt lt' = ground arith
  run_loop-enough n (suc f) (suc g) delay c v lt lt' =
      round-same n delay (run_loop f) (run_loop g) c v
        λ k delay c less v. run_loop-enough k f g delay c v (omega arith) (omega arith)

  run_from-round :
      (delay : ℕ) (c : Client Obj)
      → IsValid (length c.turns) c
      → run_from delay c ≡ round run_from delay c
  unfolding run_loop
  run_from-round delay c v =
      round-same (length c.turns) delay (run_loop (length c.turns)) run_from c v
        λ k delay c' less v'.
          run_loop-enough (length c'.turns) (length c.turns) (suc (length c'.turns)) delay c'
            (tighten k c' v') (ground arith) (omega arith)

  -- From a valid client, `run` starts with the least delay, and with any delay its loop makes a
  -- connection, waits, and then stops or is the same loop with the next delay: the fuel never ends it.
  pub run-rounds :
      (c : Client Obj)
      → IsValid (length c.turns) c
      → (run c ≡ run_from min_delay c) × ((delay : ℕ) → run_from delay c ≡ round run_from delay c)
  unfolding run
  run-rounds c v = (refl, λ delay. run_from-round delay c v)

-- ===== src/Client/Loop/Backoff.antt =====
-- The delays between connections of `run` in include/eshet.hpp.
use eshetcpp.Base.{ℕ, suc, ◌+◌, ◌^◌, ◌≤◌, ◌<◌, ◌≡◌, ◌∙◌, ap, List, [], ◌∷◌, min, length, All, arith}
use eshetcpp.Client.Loop.{reset_delay, double_delay, min_delay, max_delay, reset_thresh}

-- The delay behind rounds of these lengths.
abbrev pub delays : List ℕ → ℕ → ℕ
delays [] delay = delay
delays (elapsed ∷ rest) delay = delays rest (double_delay (reset_delay elapsed delay))

-- What a delay is doubled to is a delay again.
double_delay-max : (n : ℕ) → double_delay (min (2 ^ n) max_delay) ≡ min (2 ^ suc n) max_delay
unfolding double_delay
double_delay-max n = ground arith

-- A delay is at least min_delay and at most max_delay.
abbrev pub IsDelay : ℕ → Type 0
IsDelay delay = (min_delay ≤ delay) × (delay ≤ max_delay)

-- Whatever the lengths of the rounds, the delay behind them is at least a second and at most 30.
pub delays-IsDelay : (rounds : List ℕ) (delay : ℕ) → IsDelay delay → IsDelay (delays rounds delay)
unfolding double_delay reset_delay
delays-IsDelay [] delay h = h
delays-IsDelay (elapsed ∷ rest) delay h = delays-IsDelay rest _ (ground arith)

-- From a delay of 2 ^ n seconds, or 30 if that is less, rounds of less than ten seconds each lead to
-- 2 ^ (n + k) seconds for k rounds, or 30 if that is less.
pub delays-short :
    (rounds : List ℕ) (n : ℕ)
    → All (λ elapsed. elapsed < reset_thresh) rounds
    → delays rounds (min (2 ^ n) max_delay) ≡ min (2 ^ (n + length rounds)) max_delay
unfolding reset_delay
delays-short [] n h = ap (λ k. min (2 ^ k) max_delay) (omega arith)
delays-short (elapsed ∷ rest) n h =
    let kept : reset_delay elapsed (min (2 ^ n) max_delay) ≡ min (2 ^ n) max_delay = ground arith in
    ap (λ d. delays rest (double_delay d)) kept
    ∙ ap (delays rest) (double_delay-max n)
    ∙ delays-short rest (suc n) h.1
    ∙ ap (λ k. min (2 ^ k) max_delay) (omega arith)

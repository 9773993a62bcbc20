-- ===== src/Client/Invariant/Loop.antt =====
-- The invariant, where loop and run of include/eshet.hpp end.
use eshetcpp.Base.{ℕ}
use eshetcpp.Msgpack.{Msgpack}
use eshetcpp.Client.State.{Client, Network}
use eshetcpp.Client.Outcome.{M}
use eshetcpp.Client.Loop.{loop, run}
use eshetcpp.Client.Steps.{Reaches}
use eshetcpp.Client.Steps.Code.{IdFits, Runs, Ends-map}
use eshetcpp.Client.Steps.Loop.{loop-Runs, run-Reaches}
use eshetcpp.Client.Invariant.{IsValid, Ends}
use eshetcpp.Client.Invariant.Preserved.{Reaches-IsValid}

module _ {Obj : Type 0} ⦃m : Msgpack Obj⦄ ⦃net : Network⦄ (n : ℕ) where
  Runs-Ends : {A : Type 0} (x : M Obj A) → Runs x → (c : Client Obj) → IsValid n c → Ends n (x c)
  Runs-Ends x h c v =
      Ends-map (λ d. Reaches c d × IdFits d) (IsValid n) (x c) (λ d r. Reaches-IsValid n r.0 v)
        (h c v.next_id_fits)

module _ {Obj : Type 0} ⦃m : Msgpack Obj⦄ ⦃net : Network⦄ (n : ℕ) where
  pub loop-IsValid : (c : Client Obj) → IsValid n c → Ends n (loop c)
  loop-IsValid = Runs-Ends n loop loop-Runs

  -- A valid client is valid when `run` returns, throws or waits for ever, whatever the turns bring:
  -- ids stay below 2 ^ 16, the maps stay in the order of their keys, and a receiving thread runs on an
  -- open socket only.
  pub run-IsValid : (c : Client Obj) → IsValid n c → Ends n (run c)
  run-IsValid = Runs-Ends n run run-Reaches

-- ===== src/Client/Steps/Waits.antt =====
-- `wait` in the loops of include/eshet.hpp, as a step.
use eshetcpp.Base.{◌≡◌, refl, List, [], ◌∷◌}
use eshetcpp.Msgpack.{Msgpack}
use eshetcpp.Client.State.{
  Network, Client, Turn, Arrival, received, closed, replied, commanded, told_to_exit,
}
use eshetcpp.Client.Outcome.{M, ◌>>◌}
use eshetcpp.Client.Api.{arrive}
use eshetcpp.Client.Waiting.{arrive_all, take_turn}
use eshetcpp.Client.Steps.{Reaches, start, waits}
use eshetcpp.Client.Steps.Code.{IdFits, Ends, Reaches-then}
use eshetcpp.Client.Steps.Frames.{Frames, untouched, Frames-trans}

module _ {Obj : Type 0} where
  arrive-Frames : (a : Arrival Obj) (c : Client Obj) → Frames c (arrive a c)
  unfolding arrive
  arrive-Frames (received bytes) c = untouched refl refl
  arrive-Frames closed c = untouched refl refl
  arrive-Frames (replied connection_id id r) c = untouched refl refl
  arrive-Frames (commanded command) c = untouched refl refl
  arrive-Frames told_to_exit c = untouched refl refl

  arrive_all-Frames : (as' : List (Arrival Obj)) (c : Client Obj) → Frames c (arrive_all as' c)
  unfolding arrive_all
  arrive_all-Frames [] c = untouched refl refl
  arrive_all-Frames (a ∷ as') c =
      Frames-trans (arrive-Frames a c) (arrive_all-Frames as' (arrive a c))

module _ {Obj : Type 0} ⦃m : Msgpack Obj⦄ ⦃net : Network⦄ where
  -- The code makes steps and waits, where these turns are still to come.
  abbrev pub WaitsFor : {A : Type 0} → List (Turn Obj) → M Obj A → Type 0
  WaitsFor ts x =
      (c : Client Obj) → c.turns ≡ ts → IdFits c → Ends (λ d. Reaches c d × IdFits d) (x c)

  pub wait_then :
      {A : Type 0} (t : Turn Obj) (ts : List (Turn Obj)) (x : M Obj A)
      → WaitsFor ts x
      → WaitsFor (t ∷ ts) (take_turn t ts >> x)
  unfolding take_turn
  wait_then t ts x h c e f =
      let d : Client Obj = record c { turns = ts; now = t.time } in
      let k = arrive_all-Frames t.arrivals d in
      Reaches-then {c = c} {d = arrive_all t.arrivals d} (x (arrive_all t.arrivals d))
        (waits t ts start e) (h (arrive_all t.arrivals d) k.same_turns (k.next_id_fits f))

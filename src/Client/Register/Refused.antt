-- ===== src/Client/Register/Refused.antt =====
-- reregister of include/eshet.hpp, with a server that refuses one of its requests.
use eshetcpp.Base.{ℕ, ◌+◌, ◌^◌, ◌<◌, ◌≡◌, List, ◌∷◌, ◌++◌, some, length, false}
use eshetcpp.Msgpack.{Msgpack, RoundTrips}
use eshetcpp.Stringize.Render.{Tree, callbacks, IsSmall}
use eshetcpp.Client.State.{Client, Network, Turn}
use eshetcpp.Client.Outcome.{done}
use eshetcpp.Client.Messages.Protocol.{reply_error}
use eshetcpp.Client.Register.{reregister}
use eshetcpp.Client.Register.Answered.{settled, answered}
use eshetcpp.Client.Register.Requests.{Request, turns_for, granted_all}
use eshetcpp.Client.Register.Stops.{refused}
use eshetcpp.Client.Register.Granted.{requests_of, reregister-Registers}

module _ {Obj : Type 0} ⦃m : Msgpack Obj⦄ ⦃net : Network⦄ (trips : RoundTrips m) (time : ℕ → ℕ)
    (object : ℕ → Obj) (takes : (calls size : ℕ) → net.accepts calls size ≡ some size)
    (small : (id : ℕ) → length (m.pack (object id)) + 3 < 2 ^ 16) (fd : ℕ) where
  -- On an open socket that takes every byte, with nothing awaited and no bytes left over, and a server
  -- that grants the requests up to one of them and refuses that one, each by a small object:
  -- reregister has sent the messages up to the refused one, logs its path and the text of the object,
  -- returns false, and sends nothing more.
  pub reregister-refused :
      (at : ℕ) (o : Obj) (t : Tree) (before after : List Request) (r : Request)
      (ts : List (Turn Obj)) (c : Client Obj)
      → length (m.pack o) + 3 < 2 ^ 16
      → m.parse o ≡ callbacks t
      → IsSmall t
      → c.next_id < 2 ^ 16
      → requests_of c ≡ before ++ r ∷ after
      → let d = granted_all trips time object fd before c in
        reregister (
          settled fd
            (turns_for trips time object c.next_id before
              (answered at (reply_error d.next_id o) ts))
            c)
        ≡ done false (settled fd ts (refused fd at r t d))
  unfolding reregister
  reregister-refused at o t before after r ts c size parses trees fits e =
      (reregister-Registers trips time object takes small fd c).1 at o t before after r ts c size
        parses trees fits e

-- ===== src/Client/Invariant.antt =====
-- The invariant of the fields of ESHETClientActor in include/eshet.hpp.
pub mod Preserved
pub mod Loop
pub mod Rounds
use eshetcpp.Base.{
  ℕ, suc, ◌+◌, ◌%◌, ◌^◌, ◌<◌, ◌≤◌, ◌≡◌, refl, Bool, true, false, List, [], ◌∷◌, Option, none, some,
  length, Except, ok, throw, Exception, arith, if◌then◌else◌,
}
use eshetcpp.Base.Bytes.{Bytes}
use eshetcpp.Base.SortedMap.{emplace, erase, assign, nat_key, bytes_key}
use eshetcpp.Base.SortedMap.Order.{
  IsSorted, AllKeys, nat-Ordered, bytes-Ordered, emplace-IsSorted, assign-IsSorted, erase-IsSorted,
  emplace-AllKeys, erase-AllKeys,
}
use eshetcpp.Base.Int.{ℤ}
use eshetcpp.Client.Start.{new_client}
use eshetcpp.Client.State.{Client, TimeoutConfig, Turn, ReplyChannel, ResultChannel, Effect}
use eshetcpp.Client.Steps.Code
use eshetcpp.Client.Outcome.{
  Outcome, done, raised, blocked, M, and_then, ◌>>=◌, ◌>>◌, lift, update, emit,
}
use eshetcpp.Client.Commands.{get_id, expect_reply}

-- A receiving thread runs on an open socket only.
abbrev pub RunsOnSocket : Bool → Option ℕ → Type 0
RunsOnSocket true none = ⊥
RunsOnSocket _ _ = Unit

module _ {Obj : Type 0} where
  -- Ids of requests and connections fit in 16 bits, the maps are in the order of their keys, with each
  -- key once, a receiving thread has a socket, and at most `n` waits are still to come.
  pub record IsValid (n : ℕ) (c : Client Obj) : Type 0 where
    pub next_id_fits : c.next_id < 2 ^ 16
    pub connection_id_fits : c.connection_id < 2 ^ 16
    pub reply_ids_fit : AllKeys (λ id. id < 2 ^ 16) c.reply_channels
    pub replies_sorted : IsSorted c.reply_channels
    pub actions_sorted : IsSorted c.action_channels
    pub states_sorted : IsSorted c.registered_states
    pub observed_sorted : IsSorted c.observed_states
    pub events_sorted : IsSorted c.registered_events
    pub listened_sorted : IsSorted c.listened_events
    pub thread_on_socket : RunsOnSocket c.recv_thread c.sockfd
    pub turns_bound : length c.turns ≤ n

  -- However the code ends, the client that it leaves is valid.
  abbrev pub Ends : {A : Type 0} → ℕ → Outcome Obj A → Type 0
  Ends n = Code.Ends (IsValid n)

  -- A new client is valid, with its turns still to come.
  pub new_client-IsValid :
      (hostname : Bytes) (port : ℤ) (id : Option Obj) (timeouts : TimeoutConfig)
      (turns : List (Turn Obj))
      → IsValid (length turns) (record (new_client hostname port id timeouts) { turns = turns })
  unfolding new_client
  new_client-IsValid hostname port id timeouts turns = ground arith

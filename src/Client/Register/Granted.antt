-- ===== src/Client/Register/Granted.antt =====
-- reregister of include/eshet.hpp: the messages that it has to send.
use eshetcpp.Base.{ℕ, ◌+◌, ◌^◌, ◌<◌, ◌≡◌, Bool, List, [], ◌∷◌, ◌++◌, some, length, true, arith}
use eshetcpp.Base.Bytes.{Bytes}
use eshetcpp.Msgpack.{Msgpack, RoundTrips}
use eshetcpp.Data.{StateUpdate}
use eshetcpp.Wire.SendBuf.{
  SendBuf, write_action_register, write_state_register, write_state_changed, write_state_unknown,
  write_event_register, write_event_listen,
}
use eshetcpp.Wire.SendBuf.Frames.{frame, write_path-frame, write_path_pack-frame}
use eshetcpp.Client.State.{Client, Network, Turn}
use eshetcpp.Client.Outcome.{done, M}
use eshetcpp.Client.Commands.Requests.{with_path, with_value}
use eshetcpp.Client.Register.{
  request, observe_again, unless_failed, reregister, reregister_actions, reregister_states,
  reobserve_states, reregister_events, relisten_events,
}
use eshetcpp.Client.Register.Answered.{settled}
use eshetcpp.Client.Register.Requests.{
  Request, checked, observed, turns_for, granted_all, request-granted, observe_again-granted,
}
use eshetcpp.Client.Register.Stops.{
  Registers, unless_failed-Registers, nothing-Registers, request-Stops, observe_again-Stops,
}

abbrev action_requests : List (Bytes × ℕ) → List Request
action_requests [] = []
action_requests ((path, chan) ∷ rest) =
    checked path (λ id. with_path 0x10 id path) ∷ action_requests rest

abbrev observe_requests : List (Bytes × ℕ) → List Request
observe_requests [] = []
observe_requests ((path, chan) ∷ rest) = observed path chan ∷ observe_requests rest

abbrev event_requests : List (Bytes × Unit {0}) → List Request
event_requests [] = []
event_requests ((path, _) ∷ rest) =
    checked path (λ id. with_path 0x30 id path) ∷ event_requests rest

abbrev listen_requests : List (Bytes × ℕ) → List Request
listen_requests [] = []
listen_requests ((path, chan) ∷ rest) =
    checked path (λ id. with_path 0x32 id path) ∷ listen_requests rest

module _ {Obj : Type 0} ⦃m : Msgpack Obj⦄ where
  abbrev value_message : ℕ → Bytes → StateUpdate Obj → Bytes
  value_message id path (StateUpdate.known o t) = with_value 0x41 id path o
  value_message id path (StateUpdate.unknown t) = with_path 0x42 id path

  -- A state is registered, and then its value is sent.
  abbrev state_requests : List (Bytes × StateUpdate Obj) → List Request
  state_requests [] = []
  state_requests ((path, value) ∷ rest) =
      checked path (λ id. with_path 0x40 id path)
      ∷ checked path (λ id. value_message id path value)
      ∷ state_requests rest

  -- All that the program has registered, in the order of the maps.
  abbrev pub requests_of : Client Obj → List Request
  requests_of c =
      action_requests c.action_channels
      ++ (state_requests c.registered_states
          ++ (observe_requests c.observed_states
              ++ (event_requests c.registered_events ++ listen_requests c.listened_events)))

  write_state_changed-frame :
      (id : ℕ) (path : Bytes) (value : StateUpdate Obj) (b : SendBuf)
      → write_state_changed id path value b ≡ frame (value_message id path value)
  unfolding write_state_changed write_state_unknown
  write_state_changed-frame id path (StateUpdate.known o t) b =
      write_path_pack-frame 0x41 id path o b
  write_state_changed-frame id path (StateUpdate.unknown t) b = write_path-frame 0x42 id path b

module _ {Obj : Type 0} ⦃m : Msgpack Obj⦄ ⦃net : Network⦄ (trips : RoundTrips m) (time : ℕ → ℕ)
    (object : ℕ → Obj) (takes : (calls size : ℕ) → net.accepts calls size ≡ some size)
    (small : (id : ℕ) → length (m.pack (object id)) + 3 < 2 ^ 16) (fd : ℕ) where
  request-Registers :
      (path : Bytes) (f : ℕ → SendBuf → SendBuf) (message : ℕ → Bytes)
      → ((id : ℕ) (b : SendBuf) → f id b ≡ frame (message id))
      → Registers trips time object takes fd (checked path message ∷ []) (request path f)
  request-Registers path f message framed = (
    λ ts c fits.
        let size = small c.next_id in
        request-granted trips time object takes fd path f message ts c framed fits (omega arith),
    request-Stops trips time object takes fd path f message framed,
  )

  -- A request, and the rest if it is granted.
  first_request :
      (path : Bytes) (f : ℕ → SendBuf → SendBuf) (message : ℕ → Bytes) (rs : List Request)
      (rest : M Obj Bool)
      → ((id : ℕ) (b : SendBuf) → f id b ≡ frame (message id))
      → Registers trips time object takes fd rs rest
      → Registers trips time object takes fd
          (checked path message ∷ rs)
          (unless_failed (request path f) rest)
  first_request path f message rs rest framed =
      unless_failed-Registers trips time object takes fd (checked path message ∷ []) rs
        (request path f) rest (request-Registers path f message framed)

  reregister_actions-Registers :
      (l : List (Bytes × ℕ))
      → Registers trips time object takes fd (action_requests l) (reregister_actions l)
  unfolding reregister_actions write_action_register
  reregister_actions-Registers [] = nothing-Registers trips time object takes fd
  reregister_actions-Registers ((path, chan) ∷ rest) =
      first_request path _ (λ id. with_path 0x10 id path) (action_requests rest) _
        (λ id. write_path-frame 0x10 id path) (reregister_actions-Registers rest)

  reregister_states-Registers :
      (l : List (Bytes × StateUpdate Obj))
      → Registers trips time object takes fd (state_requests l) (reregister_states l)
  unfolding reregister_states write_state_register
  reregister_states-Registers [] = nothing-Registers trips time object takes fd
  reregister_states-Registers ((path, value) ∷ rest) =
      let changed =
        first_request path _ (λ id. value_message id path value) (state_requests rest) _
          (λ id. write_state_changed-frame id path value) (reregister_states-Registers rest) in
      first_request path _ (λ id. with_path 0x40 id path)
        (checked path (λ id. value_message id path value) ∷ state_requests rest) _
        (λ id. write_path-frame 0x40 id path) changed

  reobserve_states-Registers :
      (l : List (Bytes × ℕ))
      → Registers trips time object takes fd (observe_requests l) (reobserve_states l)
  unfolding reobserve_states
  reobserve_states-Registers [] = nothing-Registers trips time object takes fd
  reobserve_states-Registers ((path, chan) ∷ rest) =
      unless_failed-Registers trips time object takes fd (observed path chan ∷ [])
        (observe_requests rest) (observe_again path chan) (reobserve_states rest)
        (
          λ ts c fits.
              let size = small c.next_id in
              observe_again-granted trips time object takes fd path chan ts c fits (omega arith),
          observe_again-Stops trips time object takes fd path chan,
        )
        (reobserve_states-Registers rest)

  reregister_events-Registers :
      (l : List (Bytes × Unit {0}))
      → Registers trips time object takes fd (event_requests l) (reregister_events l)
  unfolding reregister_events write_event_register
  reregister_events-Registers [] = nothing-Registers trips time object takes fd
  reregister_events-Registers ((path, _) ∷ rest) =
      first_request path _ (λ id. with_path 0x30 id path) (event_requests rest) _
        (λ id. write_path-frame 0x30 id path) (reregister_events-Registers rest)

  relisten_events-Registers :
      (l : List (Bytes × ℕ))
      → Registers trips time object takes fd (listen_requests l) (relisten_events l)
  unfolding relisten_events write_event_listen
  relisten_events-Registers [] = nothing-Registers trips time object takes fd
  relisten_events-Registers ((path, chan) ∷ rest) =
      first_request path _ (λ id. with_path 0x32 id path) (listen_requests rest) _
        (λ id. write_path-frame 0x32 id path) (relisten_events-Registers rest)

  -- What reregister does with these maps.
  pub reregister-Registers :
      (c : Client Obj)
      → Registers trips time object takes fd (requests_of c) (
          unless_failed (reregister_actions c.action_channels) (
            unless_failed (reregister_states c.registered_states) (
              unless_failed (reobserve_states c.observed_states) (
                unless_failed
                  (reregister_events c.registered_events)
                  (relisten_events c.listened_events)))))
  reregister-Registers c =
      let both = unless_failed-Registers trips time object takes fd in
      both (action_requests c.action_channels) _ (reregister_actions c.action_channels) _
        (reregister_actions-Registers c.action_channels)
        (both (state_requests c.registered_states) _ (reregister_states c.registered_states) _
          (reregister_states-Registers c.registered_states)
          (both (observe_requests c.observed_states) _ (reobserve_states c.observed_states) _
            (reobserve_states-Registers c.observed_states)
            (both (event_requests c.registered_events) _ (reregister_events c.registered_events) _
              (reregister_events-Registers c.registered_events)
              (relisten_events-Registers c.listened_events))))

  -- On an open socket that takes every byte, with nothing awaited and no bytes left over, and a server
  -- that grants each request with a small object: reregister sends one message for each action, two
  -- for each state (its registration and its last value), and one for each observed state, event and
  -- event that is listened to, in this order, with ids that go up by one, and to 0 behind 65535; the
  -- value of each observed state goes to its channel; and it returns true, with nothing awaited.
  pub reregister-granted_all :
      (ts : List (Turn Obj)) (c : Client Obj)
      → c.next_id < 2 ^ 16
      → reregister (settled fd (turns_for trips time object c.next_id (requests_of c) ts) c)
        ≡ done true (settled fd ts (granted_all trips time object fd (requests_of c) c))
  unfolding reregister
  reregister-granted_all ts c fits = (reregister-Registers c).0 ts c fits

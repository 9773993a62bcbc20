-- ===== src/Client/Loop/Served.antt =====
-- `loop` of include/eshet.hpp up to its first wait: cleanup_connection, connect, do_hello, reregister.
use eshetcpp.Base.{
  ℕ, suc, ◌+◌, ◌%◌, ◌^◌, ◌<◌, ◌≡◌, refl, sym, ap, ◌∙◌, List, [], ◌∷◌, ◌++◌, none, some, length,
  true, false, append-nil, append_assoc,
}
use eshetcpp.Base.Bytes.{Bytes}
use eshetcpp.Msgpack.{Msgpack, RoundTrips}
use eshetcpp.Data.{StateUpdate}
use eshetcpp.Wire.SendBuf.Frames.{hello}
use eshetcpp.Client.State.{Client, Network, Turn, pushes_update}
use eshetcpp.Client.Outcome.{done, emit, and_then}
use eshetcpp.Client.Commands.Requests.{sent}
use eshetcpp.Client.Connection.{
  cleanup_connection, close_socket, reset_connection, disconnect_replies, forget_states, connect,
  connected,
}
use eshetcpp.Client.Connection.Farewell.{forgotten}
use eshetcpp.Client.Connection.Hello.{answering, do_hello-id}
use eshetcpp.Client.Register.Answered.{settled}
use eshetcpp.Client.Register.Requests.{turns_for, granted_all}
use eshetcpp.Client.Register.Granted.{requests_of, reregister-granted_all}
use eshetcpp.Client.Loop.{loop, serve}

module _ {Obj : Type 0} where
  -- Without a connection, and with nothing left of an earlier one.
  abbrev pub offline : List (Turn Obj) → Client Obj → Client Obj
  offline ts c = record (settled 0 ts c) {
    sockfd = none;
    on_close = 0;
    ping_timeout = none;
    ping_result = [];
  }

  forget_states-forgotten :
      (l : List (Bytes × ℕ)) (c : Client Obj)
      → forget_states l c ≡ record c { effects = c.effects ++ forgotten l }
  unfolding forget_states
  forget_states-forgotten [] c = ap (λ e. record c { effects = e }) (sym (append-nil c.effects))
  forget_states-forgotten ((path, chan) ∷ rest) c =
      forget_states-forgotten rest (emit (pushes_update chan (StateUpdate.unknown 0)) c)
      ∙ ap (λ e. record c { effects = e })
          (append_assoc c.effects (pushes_update chan (StateUpdate.unknown 0) ∷ [])
            (forgotten rest))

  -- Every observed state is unknown again, and there is a socket and a thread that reads it.
  abbrev pub joined : Client Obj → Client Obj
  joined c = record c {
    recv_thread = true;
    connection_id = (c.connection_id + 1) % 2 ^ 16;
    calls = suc c.calls;
    effects = c.effects ++ forgotten c.observed_states;
    on_close = 0;
    ping_timeout = none;
    ping_result = [];
  }

module _ {Obj : Type 0} ⦃m : Msgpack Obj⦄ ⦃net : Network⦄ where
  -- The hello went out, and the server gave the client an id.
  abbrev pub greeted : ℕ → ℕ → Obj → Client Obj → Client Obj
  greeted fd at o c = record (sent fd (hello c.id (c.timeout_config.server_timeout % 2 ^ 16)) c) {
    now = at;
    id = some o;
  }

  cleanup_connection-offline :
      (ts : List (Turn Obj)) (c : Client Obj)
      → cleanup_connection (offline ts c)
        ≡ done tt (
            offline ts (record c {
              recv_thread = false;
              effects = c.effects ++ forgotten c.observed_states;
            }))
  unfolding cleanup_connection close_socket reset_connection disconnect_replies
  cleanup_connection-offline ts c =
      rw (forget_states-forgotten c.observed_states (record (offline ts c) { recv_thread = false }))
        refl

  connect-offline :
      (fd : ℕ) (ts : List (Turn Obj)) (c : Client Obj)
      → net.connects c.hostname c.port c.calls ≡ some fd
      → connect (offline ts c)
        ≡ done true (settled fd ts (record (joined c) { connection_id = c.connection_id }))
  unfolding connect connected
  connect-offline fd ts c e =
      ap (λ o. and_then o (λ _ c. connected (net.connects c.hostname c.port c.calls) c))
        (cleanup_connection-offline ts c)
      ∙ rw (e, connected) refl

module _ {Obj : Type 0} ⦃m : Msgpack Obj⦄ ⦃net : Network⦄ (trips : RoundTrips m) (time : ℕ → ℕ)
    (object : ℕ → Obj) (takes : (calls size : ℕ) → net.accepts calls size ≡ some size)
    (small : (id : ℕ) → length (m.pack (object id)) + 3 < 2 ^ 16) where
  -- A client that is offline, with no bytes left over and nothing awaited; connect gives a socket that
  -- takes every byte; the server answers the hello with a small id for the client, and grants each
  -- request of reregister with a small object: then `loop` tells the program that each observed state
  -- is unknown, counts the connection, sends the hello and every request, and goes on to serve the
  -- program with what the server has said.
  pub loop-serve :
      (fd at : ℕ) (o : Obj) (ts : List (Turn Obj)) (c : Client Obj)
      → net.connects c.hostname c.port c.calls ≡ some fd
      → length (0x04 ∷ m.pack o) < 2 ^ 16
      → c.next_id < 2 ^ 16
      → loop (
          offline
            (answering trips at o ∷ turns_for trips time object c.next_id (requests_of c) ts)
            c)
        ≡ serve ts (
            settled fd ts
              (granted_all trips time object fd (requests_of c) (greeted fd at o (joined c))))
  unfolding loop
  loop-serve fd at o ts c opens fits id_fits =
      let more : List (Turn Obj) = turns_for trips time object c.next_id (requests_of c) ts in
      let d : Client Obj = settled fd (answering trips at o ∷ more) (joined c) in
      rw
        (
          connect-offline fd (answering trips at o ∷ more) c opens,
          do_hello-id trips d fd at o more refl refl refl
              (record { open_socket = refl; takes_all = takes _ _ }) fits,
          reregister-granted_all trips time object takes small fd ts (greeted fd at o (joined c))
              id_fits,
        )
        refl

-- ===== src/Tests/Serving.antt =====
-- A client that serves a connection, begins one and ends one.
use eshetcpp.Base.{
  ℕ, ◌+◌, ◌%◌, ◌^◌, ◌≡◌, refl, [], ◌∷◌, none, length, min, false, arith, protocol_error,
}
use eshetcpp.Base.SortedMap.{nat_key, bytes_key}
use eshetcpp.Data.{Result, StateUpdate}
use eshetcpp.Wire.Unpacker.Stream.{buffered}
use eshetcpp.Wire.SendBuf.Frames.{hello}
use eshetcpp.Client.State.{Client, pushes_result, pushes_update, closes}
use eshetcpp.Client.Outcome.{done, raised}
use eshetcpp.Client.Commands.Requests.{sent}
use eshetcpp.Client.Connection.{cleanup_connection, do_hello}
use eshetcpp.Client.Connection.Cleanup.{CleansUp, cleanup_connection-CleansUp}
use eshetcpp.Client.Connection.Greeted.{HelloEvent, turn_of, do_hello-after_hello}
use eshetcpp.Client.Loop.{serve, max_delay}
use eshetcpp.Client.Loop.Pings.{silent, pinged, silent_server-closes, silent_server-stays}
use eshetcpp.Client.Loop.Backoff.{delays, IsDelay, delays-short, delays-IsDelay}
use eshetcpp.Tests.Setting.{one_byte, one_byte_trips, takes_all}
use eshetcpp.Tests.Messages.{connected, waiting, Sends-any}

silent_server-closes_example :
    serve (silent 15 ∷ silent 20 ∷ []) connected
    ≡ done tt (record (pinged 3 15 (silent 20 ∷ []) connected) { turns = []; now = 20 })
silent_server-closes_example =
    silent_server-closes connected 3 15 20 [] refl (omega arith) (Sends-any connected _ refl)

abbrev patient : Client ℕ
patient = record connected {
  timeout_config = record { idle_ping = 15; server_timeout = 30; ping_timeout = 15 };
}

silent_server-stays_example :
    serve (silent 15 ∷ silent 30 ∷ []) patient
    ≡ serve [] (pinged 3 30 [] (pinged 3 15 (silent 30 ∷ []) patient))
silent_server-stays_example =
    silent_server-stays patient 3 15 30 [] refl (omega arith) (Sends-any patient _ refl)
      (Sends-any (pinged 3 15 (silent 30 ∷ []) patient) _ refl)

delays-short_example :
    delays (0 ∷ 3 ∷ 9 ∷ []) (min (2 ^ 0) max_delay)
    ≡ min (2 ^ (0 + length {A = ℕ} (0 ∷ 3 ∷ 9 ∷ []))) max_delay
delays-short_example =
    delays-short (0 ∷ 3 ∷ 9 ∷ []) 0 (omega arith, (omega arith, (omega arith, tt)))

delays-IsDelay_example : IsDelay (delays (0 ∷ 12 ∷ 9 ∷ []) 16)
delays-IsDelay_example = delays-IsDelay (0 ∷ 12 ∷ 9 ∷ []) 16 (omega arith, omega arith)

-- A client that has said hello, to which the server sends a call at the time 1.
abbrev greeting : Client ℕ
greeting = record connected { turns = turn_of 1 (HelloEvent.says_other 0x11 (0 ∷ [])) ∷ [] }

do_hello-after_hello_example :
    do_hello greeting
    ≡ raised protocol_error (record (sent 3 (hello {Obj = ℕ} none (30 % 2 ^ 16)) greeting) {
      turns = [];
      now = 1;
      on_message = [];
      unpacker = buffered [];
    })
do_hello-after_hello_example =
    do_hello-after_hello one_byte_trips greeting 3 1 (HelloEvent.says_other 0x11 (0 ∷ [])) [] refl
      refl refl (Sends-any greeting _ refl) (omega arith) (omega arith, omega arith)

-- The socket is closed, the request is answered with an error, and the state is unknown.
abbrev cleaned : Client ℕ
cleaned = record waiting {
  sockfd = none;
  recv_thread = false;
  calls = 1;
  reply_channels = [];
  effects =
      closes 3 ∷ pushes_result 4 (Result.error 12) ∷ pushes_update 8 (StateUpdate.unknown 0) ∷ [];
}

cleanup_connection-CleansUp_example :
    (c' : Client ℕ) × ((cleanup_connection waiting ≡ done tt c') × CleansUp waiting c')
cleanup_connection-CleansUp_example = cleanup_connection-CleansUp waiting refl

test_cleanup : cleanup_connection waiting ≡ done tt cleaned
unfolding cleanup_connection
test_cleanup = refl

-- ===== src/Client/Connection/Hello.antt =====
-- The exchange of hello messages in do_hello of include/eshet.hpp.
use eshetcpp.Base.{
  ℕ, ◌%◌, ◌^◌, ◌<◌, ◌≡◌, refl, ap, ◌∙◌, ◌∷◌, List, [], none, some, append-nil, length, true,
}
use eshetcpp.Base.Bytes.{Bytes}
use eshetcpp.Msgpack.{Msgpack, RoundTrips}
use eshetcpp.Wire.SendBuf.Frames.{hello, write_hello-frame}
use eshetcpp.Wire.Unpacker.{push}
use eshetcpp.Wire.Unpacker.Framing.{framed, read-framed}
use eshetcpp.Wire.Unpacker.Stream.{buffered, read-split}
use eshetcpp.Client.State.{Client, Network, Turn, Ready, received}
use eshetcpp.Client.Outcome.{done, and_then}
use eshetcpp.Client.Commands.Requests.{Sends, sent, send_frame}
use eshetcpp.Client.Body.WellFormed.{just_msgpack-run}
use eshetcpp.Client.Waiting.{read_unpacker, push_unpacker, read_message, take_turn}
use eshetcpp.Client.Connection.{
  do_hello, handle_hello_message, wait_for_hello, hello_case, hello_message, expect_nothing,
}

module _ {Obj : Type 0} ⦃m : Msgpack Obj⦄ ⦃net : Network⦄ (trips : RoundTrips m) where
  pub handle_hello-id :
      (o : Obj) (c : Client Obj)
      → handle_hello_message (0x04 ∷ m.pack o) c ≡ done tt (record c { id = some o })
  unfolding handle_hello_message
  handle_hello-id o c = rw (just_msgpack-run trips o)

  -- A wait that ends with a hello of the server, which gives the client an id.
  abbrev pub answering : ℕ → Obj → Turn Obj
  answering time o = record {
    arrivals = received (framed (0x04 ∷ m.pack o)) ∷ [];
    time = time;
    ready = Ready.on_message;
  }

  pub read-alone :
      (message : Bytes) (c : Client Obj)
      → length message < 2 ^ 16
      → read_unpacker (record c { unpacker = buffered (framed message) })
        ≡ done (some message) (record c { unpacker = buffered [] })
  unfolding read_unpacker
  read-alone message c h = rw (← append-nil (framed message), read-framed message [] h)

  pub read-none :
      (c : Client Obj)
      → read_unpacker (record c { unpacker = buffered [] })
        ≡ done none (record c { unpacker = buffered [] })
  unfolding read_unpacker
  read-none c = rw (read-split [])

  -- On an open socket that takes the frame, with no bytes of the server left over, do_hello sends
  -- the hello with the client's id and its timeout modulo 65536; when the wait ends with the
  -- server's hello that gives an id, do_hello succeeds, the client has that id, and nothing else
  -- has changed but what the send changes.
  pub do_hello-id :
      (c : Client Obj) (fd time : ℕ) (o : Obj) (ts : List (Turn Obj))
      → c.turns ≡ answering time o ∷ ts
      → c.on_message ≡ []
      → c.unpacker ≡ buffered []
      → Sends c fd (hello c.id (c.timeout_config.server_timeout % 2 ^ 16))
      → length (0x04 ∷ m.pack o) < 2 ^ 16
      → do_hello c
        ≡ done true (record (sent fd (hello c.id (c.timeout_config.server_timeout % 2 ^ 16)) c) {
          turns = ts;
          now = time;
          id = some o;
          on_message = [];
          unpacker = buffered [];
        })
  unfolding do_hello wait_for_hello take_turn read_message push_unpacker push hello_case
      hello_message expect_nothing
  do_hello-id c fd time o ts turn no_message no_bytes sends fits =
      let timeout : ℕ = c.timeout_config.server_timeout % 2 ^ 16 in
      let message : Bytes = 0x04 ∷ m.pack o in
      let d : Client Obj = record (sent fd (hello c.id timeout) c) {
        turns = ts;
        now = time;
        on_message = [];
      } in
      let e : Client Obj = record d { id = some o } in
      let after_id : hello_message (wait_for_hello ts) (some message)
            (record d { unpacker = buffered [] })
          ≡ done true (record e { unpacker = buffered [] }) =
        rw (handle_hello-id o (record d { unpacker = buffered [] }), read-none e) refl in
      rw
        (
          send_frame c fd _ _ (write_hello-frame c.id timeout c.send_buf) sends,
          turn,
          no_message,
          no_bytes,
        )
        (ap (λ r. and_then r (hello_message (wait_for_hello ts))) (read-alone message d fits)
          ∙ after_id)

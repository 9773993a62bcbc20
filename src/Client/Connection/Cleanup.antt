-- ===== src/Client/Connection/Cleanup.antt =====
-- What is left of a connection, and what the program hears of its end.
use eshetcpp.Base.{
  false, ℕ, ◌≡◌, refl, ap, ◌∙◌, List, [], ◌∷◌, ◌++◌, Option, none, some, true, suc, append-nil,
  arith,
}
use mathlib.Core.Path.{subst}
use eshetcpp.Base.Bytes.{Bytes}
use eshetcpp.Msgpack.{Msgpack}
use eshetcpp.Client.State.{
  Client, Network, ReplyChannel, ResultChannel, StateChannel, results, states, closes,
}
use eshetcpp.Client.Outcome.{Outcome, emit, done, raised, blocked, and_then}
use eshetcpp.Client.Connection.{
  push_disconnected, disconnect_replies, forget_states, reset_connection, close_socket,
  cleanup_connection,
}
use eshetcpp.Client.Connection.Farewell.{
  Keeps, Keeps-trans, forgotten, closing, Steps, Steps-trans, farewells, reset_connection-Steps,
}

module _ {Obj : Type 0} ⦃net : Network⦄ where
  -- A socket that was open is closed, if the call succeeds.
  record Closes (c c' : Client Obj) : Type 0 where
    shut : c'.sockfd ≡ none
    steps : Steps c c' (closing c.sockfd)
    channels : c'.reply_channels ≡ c.reply_channels
    thread : c'.recv_thread ≡ c.recv_thread

  close_socket-Closes :
      (s : Option ℕ) (c c' : Client Obj)
      → c.sockfd ≡ s
      → close_socket s c ≡ done tt c'
      → Closes c c'
  unfolding close_socket
  close_socket-Closes none c c' e h = ground (arith, append-nil c.effects)
  close_socket-Closes (some fd) c c' e h = ground arith

module _ {Obj : Type 0} ⦃m : Msgpack Obj⦄ ⦃net : Network⦄ where
  -- The one client has nothing of the connection of the other, and told its end to the program.
  pub record CleansUp (c c' : Client Obj) : Type 0 where
    pub shut : c'.sockfd ≡ none
    pub no_thread : c'.recv_thread ≡ false
    pub no_replies : c'.reply_channels ≡ []
    pub no_ping : c'.ping_timeout ≡ none
    pub no_ping_result : c'.ping_result ≡ []
    pub no_close : c'.on_close ≡ 0
    pub no_message : c'.on_message ≡ []
    pub keeps : Keeps c c'
    pub told :
        c'.effects
        ≡ c.effects
          ++ (closing c.sockfd ++ (farewells c.reply_channels ++ forgotten c.observed_states))

  push_disconnected-socket :
      (chan : ReplyChannel) (c : Client Obj)
      → ((push_disconnected chan c).sockfd ≡ c.sockfd)
        × ((push_disconnected chan c).recv_thread ≡ c.recv_thread)
  unfolding push_disconnected
  push_disconnected-socket (results (ResultChannel.user n)) c = (refl, refl)
  push_disconnected-socket (results ResultChannel.ping) c = (refl, refl)
  push_disconnected-socket (results ResultChannel.local) c = (refl, refl)
  push_disconnected-socket (states (StateChannel.user n)) c = (refl, refl)
  push_disconnected-socket (states StateChannel.local) c = (refl, refl)

  disconnect_replies-socket :
      (l : List (ℕ × ReplyChannel)) (c : Client Obj)
      → ((disconnect_replies l c).sockfd ≡ c.sockfd)
        × ((disconnect_replies l c).recv_thread ≡ c.recv_thread)
  unfolding disconnect_replies
  disconnect_replies-socket [] c = (refl, refl)
  disconnect_replies-socket ((id, chan) ∷ rest) c =
      let d = push_disconnected chan c in
      let later = disconnect_replies-socket rest d in
      let now = push_disconnected-socket chan c in (later.0 ∙ now.0, later.1 ∙ now.1)

  forget_states-fields :
      (l : List (Bytes × ℕ)) (c : Client Obj)
      → ((forget_states l c).sockfd ≡ c.sockfd)
        × ((forget_states l c).reply_channels ≡ c.reply_channels)
        × ((forget_states l c).recv_thread ≡ c.recv_thread)
  unfolding forget_states
  forget_states-fields [] c = (refl, refl, refl)
  forget_states-fields ((path, chan) ∷ rest) c = forget_states-fields rest _

  reset_after :
      (c d : Client Obj) → c.recv_thread ≡ false → Closes c d → CleansUp c (reset_connection d)
  unfolding reset_connection
  reset_after c d stopped h =
      let k : Steps d (reset_connection d)
          (farewells d.reply_channels ++ forgotten d.observed_states) =
        reset_connection-Steps d in
      let d1 : Client Obj = disconnect_replies d.reply_channels d in
      let fields = forget_states-fields d1.observed_states (record d1 { reply_channels = [] }) in
      let all : Steps c (reset_connection d)
          (closing c.sockfd ++ (farewells d.reply_channels ++ forgotten d.observed_states)) =
        Steps-trans (closing c.sockfd) (farewells d.reply_channels ++ forgotten d.observed_states)
          h.steps k in
      record {
        shut = fields.0 ∙ (disconnect_replies-socket d.reply_channels d).0 ∙ h.shut;
        no_thread =
            fields.2 ∙ (disconnect_replies-socket d.reply_channels d).1 ∙ h.thread ∙ stopped;
        no_replies = fields.1;
        no_ping = refl;
        no_ping_result = refl;
        no_close = refl;
        no_message = refl;
        keeps = all.0;
        told =
            all.1
            ∙ ap
                (λ r.
                  c.effects ++ (closing c.sockfd ++ (farewells r ++ forgotten d.observed_states)))
                h.channels
            ∙ ap
                (λ o.
                  c.effects ++ (closing c.sockfd ++ (farewells c.reply_channels ++ forgotten o)))
                h.steps.0.same_observed;
      }

  after_close :
      (c : Client Obj) (o : Outcome Obj (Unit {0})) (c' : Client Obj)
      → c.recv_thread ≡ false
      → ((d : Client Obj) → o ≡ done tt d → Closes c d)
      → and_then o (λ _ d. done tt (reset_connection d)) ≡ done tt c'
      → CleansUp c c'
  after_close c (done u d) c' stopped h e =
      let q : reset_connection d ≡ c' = ground arith in
      subst (CleansUp c) q (reset_after c d stopped (h d refl))
  after_close c (raised x d) c' stopped h e = ground arith
  after_close c (blocked d) c' stopped h e = ground arith

  cleaned_up : (c c' : Client Obj) → cleanup_connection c ≡ done tt c' → CleansUp c c'
  unfolding cleanup_connection
  cleaned_up c c' e =
      let b : Client Obj = record c { recv_thread = false } in
      let h : CleansUp b c' =
        after_close b (close_socket b.sockfd b) c' refl (λ d. close_socket-Closes b.sockfd b d refl)
          e in
      record {
        shut = h.shut;
        no_thread = h.no_thread;
        no_replies = h.no_replies;
        no_ping = h.no_ping;
        no_ping_result = h.no_ping_result;
        no_close = h.no_close;
        no_message = h.no_message;
        keeps = Keeps-trans (ground arith) h.keeps;
        told = h.told;
      }

  close_socket-returns :
      (s : Option ℕ) (c : Client Obj)
      → net.closes_well c.calls ≡ true
      → (d : Client Obj) × (close_socket s c ≡ done tt d)
  unfolding close_socket
  close_socket-returns none c well = (c, refl)
  close_socket-returns (some fd) c well =
      (emit (closes fd) (record c { sockfd = none; calls = suc c.calls }), rw well refl)

  -- If the system closes the socket, cleanup_connection returns; then the socket is closed, the
  -- receiving thread is gone and nothing of the connection is left but the unpacker: no request, ping, message or close notice. The
  -- program's channels have heard of it, and nothing else: an error for each request, in the order of
  -- the ids, then unknown for each observed state; and what was registered is kept.
  pub cleanup_connection-CleansUp :
      (c : Client Obj)
      → net.closes_well c.calls ≡ true
      → (c' : Client Obj) × ((cleanup_connection c ≡ done tt c') × CleansUp c c')
  unfolding cleanup_connection
  cleanup_connection-CleansUp c well =
      let b : Client Obj = record c { recv_thread = false } in
      let (d, closed) = close_socket-returns b.sockfd b well in
      let returns : cleanup_connection c ≡ done tt (reset_connection d) =
        ap (λ o. and_then o (λ _ d. done tt (reset_connection d))) closed in
      (reset_connection d, (returns, cleaned_up c (reset_connection d) returns))

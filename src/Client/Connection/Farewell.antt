-- ===== src/Client/Connection/Farewell.antt =====
-- What the program hears of the end of a connection, and what the client keeps.
use eshetcpp.Base.{
  ℕ, ◌≡◌, refl, sym, ap, ◌∙◌, List, [], ◌∷◌, ◌++◌, Option, none, some, append-nil, append_assoc,
  arith,
}
use eshetcpp.Base.Bytes.{Bytes}
use eshetcpp.Base.Text.{codes}
use eshetcpp.Msgpack.{Msgpack}
use eshetcpp.Data.{Result, StateResult, StateUpdate}
use eshetcpp.Client.State.{
  Client, Effect, ReplyChannel, ResultChannel, StateChannel, results, states, closes, pushes_result,
  pushes_state, pushes_update,
}
use eshetcpp.Client.Connection.{
  push_disconnected, disconnect_replies, forget_states, reset_connection,
}

module _ {Obj : Type 0} where
  -- What a new connection needs of the old one: the client's id, what was registered, and what is
  -- still to be done.
  pub record Keeps (c c' : Client Obj) : Type 0 where
    pub same_id : c'.id ≡ c.id
    pub same_actions : c'.action_channels ≡ c.action_channels
    pub same_states : c'.registered_states ≡ c.registered_states
    pub same_observed : c'.observed_states ≡ c.observed_states
    pub same_events : c'.registered_events ≡ c.registered_events
    pub same_listened : c'.listened_events ≡ c.listened_events
    pub same_commands : c'.on_command ≡ c.on_command
    pub same_next_id : c'.next_id ≡ c.next_id
    pub same_unpacker : c'.unpacker ≡ c.unpacker

  abbrev pub keeps_all : (c : Client Obj) → Keeps c c
  keeps_all c = record {
    same_id = refl;
    same_actions = refl;
    same_states = refl;
    same_observed = refl;
    same_events = refl;
    same_listened = refl;
    same_commands = refl;
    same_next_id = refl;
    same_unpacker = refl;
  }

  pub Keeps-trans : {a b c : Client Obj} → Keeps a b → Keeps b c → Keeps a c
  Keeps-trans h k = record {
    same_id = k.same_id ∙ h.same_id;
    same_actions = k.same_actions ∙ h.same_actions;
    same_states = k.same_states ∙ h.same_states;
    same_observed = k.same_observed ∙ h.same_observed;
    same_events = k.same_events ∙ h.same_events;
    same_listened = k.same_listened ∙ h.same_listened;
    same_commands = k.same_commands ∙ h.same_commands;
    same_next_id = k.same_next_id ∙ h.same_next_id;
    same_unpacker = k.same_unpacker ∙ h.same_unpacker;
  }

  abbrev pub forgotten : List (Bytes × ℕ) → List (Effect Obj)
  forgotten [] = []
  forgotten ((path, chan) ∷ rest) = pushes_update chan (StateUpdate.unknown 0) ∷ forgotten rest

  abbrev pub closing : Option ℕ → List (Effect Obj)
  closing none = []
  closing (some fd) = closes fd ∷ []

  -- Both what the client keeps, and the effects so far with more behind them.
  abbrev pub Steps : Client Obj → Client Obj → List (Effect Obj) → Type 0
  Steps c c' more = Keeps c c' × (c'.effects ≡ c.effects ++ more)

  pub Steps-trans :
      {a b c : Client Obj} (xs ys : List (Effect Obj))
      → Steps a b xs
      → Steps b c ys
      → Steps a c (xs ++ ys)
  Steps-trans {a} xs ys h k =
      (Keeps-trans h.0 k.0, k.1 ∙ ap (λ e. e ++ ys) h.1 ∙ append_assoc a.effects xs ys)

  forget_states-Steps :
      (l : List (Bytes × ℕ)) (c : Client Obj) → Steps c (forget_states l c) (forgotten l)
  unfolding forget_states
  forget_states-Steps [] c = (keeps_all c, sym (append-nil c.effects))
  forget_states-Steps ((path, chan) ∷ rest) c =
      Steps-trans (pushes_update chan (StateUpdate.unknown 0) ∷ []) (forgotten rest)
        (ground arith, refl) (forget_states-Steps rest _)

module _ {Obj : Type 0} ⦃m : Msgpack Obj⦄ where
  abbrev pub gone : Obj
  gone = m.of_string (codes "disconnected")

  -- A channel of the program gets the error; the client's own channels are cleared or gone.
  abbrev pub farewell : ReplyChannel → List (Effect Obj)
  farewell (results (ResultChannel.user n)) = pushes_result n (Result.error gone) ∷ []
  farewell (states (StateChannel.user n)) = pushes_state n (StateResult.error gone) ∷ []
  farewell _ = []

  abbrev pub farewells : List (ℕ × ReplyChannel) → List (Effect Obj)
  farewells [] = []
  farewells ((id, chan) ∷ rest) = farewell chan ++ farewells rest

  push_disconnected-Steps :
      (chan : ReplyChannel) (c : Client Obj) → Steps c (push_disconnected chan c) (farewell chan)
  unfolding push_disconnected
  push_disconnected-Steps (results (ResultChannel.user n)) c = (ground arith, refl)
  push_disconnected-Steps (results ResultChannel.ping) c =
      (ground arith, sym (append-nil c.effects))
  push_disconnected-Steps (results ResultChannel.local) c =
      (ground arith, sym (append-nil c.effects))
  push_disconnected-Steps (states (StateChannel.user n)) c = (ground arith, refl)
  push_disconnected-Steps (states StateChannel.local) c = (ground arith, sym (append-nil c.effects))

  disconnect_replies-Steps :
      (l : List (ℕ × ReplyChannel)) (c : Client Obj)
      → Steps c (disconnect_replies l c) (farewells l)
  unfolding disconnect_replies
  disconnect_replies-Steps [] c = (keeps_all c, sym (append-nil c.effects))
  disconnect_replies-Steps ((id, chan) ∷ rest) c =
      Steps-trans (farewell chan) (farewells rest) (push_disconnected-Steps chan c)
        (disconnect_replies-Steps rest _)

  pub reset_connection-Steps :
      (c : Client Obj)
      → Steps c (reset_connection c) (farewells c.reply_channels ++ forgotten c.observed_states)
  unfolding reset_connection
  reset_connection-Steps c =
      let c1 : Client Obj = disconnect_replies c.reply_channels c in
      let h : Steps c c1 (farewells c.reply_channels) =
        disconnect_replies-Steps c.reply_channels c in
      let c2 : Client Obj = record c1 { reply_channels = [] } in
      let k : Steps c2 (forget_states c1.observed_states c2) (forgotten c1.observed_states) =
        forget_states-Steps c1.observed_states c2 in
      let between : Keeps c1 c2 = ground arith in
      let behind : Keeps (forget_states c1.observed_states c2) (reset_connection c) =
        ground arith in
      (
        Keeps-trans (Keeps-trans h.0 between) (Keeps-trans k.0 behind),
        k.1
            ∙ ap (λ o. c1.effects ++ forgotten o) h.0.same_observed
            ∙ ap (λ e. e ++ forgotten c.observed_states) h.1
            ∙ append_assoc c.effects (farewells c.reply_channels) (forgotten c.observed_states),
      )

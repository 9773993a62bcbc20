-- ===== src/Client/Steps.antt =====
-- The changes that the code of include/eshet.hpp makes to the client, as a step relation.
pub mod Protocol
pub mod Frames
pub mod Writers
pub mod Code
pub mod Waits
pub mod Commands
pub mod Messages
pub mod Connection
pub mod Kept
pub mod Observed
pub mod Replies
pub mod Register
pub mod Loop
use eshetcpp.Base.{
  ◌++◌, ok, ℕ, suc, ◌+◌, ◌%◌, ◌^◌, ◌<◌, ◌≡◌, refl, ◌∙◌, Bool, true, false, List, [], ◌∷◌, Option,
  none, some, take, length, arith,
}
use eshetcpp.Base.Bytes.{Bytes}
use eshetcpp.Base.SortedMap.{lookup, emplace, erase, nat_key, bytes_key}
use eshetcpp.Msgpack.{Msgpack}
use eshetcpp.Data.{Result, StateResult, StateUpdate, AnyResult}
use eshetcpp.Wire.SendBuf.{SendBuf}
use eshetcpp.Wire.SendBuf.Frames.{frame}
use eshetcpp.Wire.Unpacker
use eshetcpp.Wire.Unpacker.{Unpacker}
use eshetcpp.Client.State.{
  Client, Network, Turn, Command, Effect, ReplyChannel, ResultChannel, StateChannel, results,
  states, sends, closes, logs, pushes_update, pushes_call, pushes_event, pushes_result,
  pushes_state, action_call, action_register, state_register, state_changed, state_observe,
  event_register, event_emit, event_listen, get, set, ping, disconnect,
}
use eshetcpp.Client.Outcome.{emit, push_result, push_state}
use eshetcpp.Client.Commands.Requests.{channel_of, keep, awaiting}
use eshetcpp.Client.Connection.{reset_connection}
use eshetcpp.Client.Waiting.{arrive_all}
use eshetcpp.Client.Steps.Protocol.{ClientMessage, encode}

-- The client's own channels for replies.
abbrev pub IsOwn : ReplyChannel → Type 0
IsOwn (results (ResultChannel.user n)) = ⊥
IsOwn (states (StateChannel.user n)) = ⊥
IsOwn _ = Unit

-- A reply of this kind is what the channel waits for.
abbrev pub accepts : {Obj : Type 0} → ReplyChannel → AnyResult Obj → Bool
accepts (results chan) (AnyResult.success o) = true
accepts (results chan) (AnyResult.error o) = true
accepts (states chan) (AnyResult.known o t) = true
accepts (states chan) (AnyResult.unknown t) = true
accepts (states chan) (AnyResult.error o) = true
accepts _ _ = false

-- What the client pushes that is no reply to a command, and a line of the log: a call of an action
-- that is registered, with the number of this connection; an event that is listened to; a change of a
-- state that is observed; the value of one of the observed states, when it is observed again.
pub data IsNotice {Obj : Type 0} (c : Client Obj) : Effect Obj → Type 0 where
  calls_action :
      (path : Bytes) (chan id : ℕ) (args : Obj)
      → lookup path c.action_channels ≡ some chan
      → IsNotice c
          (pushes_call chan (record { connection_id = c.connection_id; id = id; args = args }))
  notifies_event :
      (path : Bytes) (chan : ℕ) (o : Obj)
      → lookup path c.listened_events ≡ some chan
      → IsNotice c (pushes_event chan o)
  changes_state :
      (path : Bytes) (chan : ℕ) (u : StateUpdate Obj)
      → lookup path c.observed_states ≡ some chan
      → IsNotice c (pushes_update chan u)
  observes_again :
      (before after : List (Bytes × ℕ)) (path : Bytes) (chan : ℕ) (u : StateUpdate Obj)
      → c.observed_states ≡ before ++ (path, chan) ∷ after
      → IsNotice c (pushes_update chan u)
  logs_line : (text : Bytes) → IsNotice c (logs text)

module _ {Obj : Type 0} where
  -- A command of the program becomes an entry for its reply, and is kept to be registered again.
  abbrev pub begun : Command Obj → Client Obj → Client Obj
  begun command c = elim (channel_of command) [
    | none ↦ record c { on_close = suc c.on_close }
    | some chan ↦ keep command (awaiting chan c)
  ]

module _ {Obj : Type 0} ⦃m : Msgpack Obj⦄ ⦃net : Network⦄ where
  pub data Step (c : Client Obj) : Client Obj → Type 0 where
    -- ids and entries for replies
    takes_id : Step c (record c { next_id = (c.next_id + 1) % 2 ^ 16 })
    awaits :
        (id : ℕ) (chan : ReplyChannel)
        → id < 2 ^ 16
        → IsOwn chan
        → Step c (record c { reply_channels = emplace id chan c.reply_channels })
    begins :
        (command : Command Obj) (rest : List (Command Obj))
        → c.on_command ≡ command ∷ rest
        → Step c (begun command (record c { on_command = rest }))
    gives_result :
        (id : ℕ) (chan : ResultChannel) (r : Result Obj)
        → lookup id c.reply_channels ≡ some (results chan)
        → Step c (push_result chan r (record c { reply_channels = erase id c.reply_channels }))
    gives_state :
        (id : ℕ) (chan : StateChannel) (r : StateResult Obj)
        → lookup id c.reply_channels ≡ some (states chan)
        → Step c (push_state chan r (record c { reply_channels = erase id c.reply_channels }))
    drops :
        (id : ℕ) (chan : ReplyChannel) (r : AnyResult Obj)
        → lookup id c.reply_channels ≡ some chan
        → accepts chan r ≡ false
        → Step c (record c { reply_channels = erase id c.reply_channels })
    -- what goes out
    writes :
        (message : ClientMessage Obj) (b : SendBuf)
        → b ≡ frame (encode message)
        → Step c (record c { send_buf = b })
    calls_system : Step c (record c { calls = suc c.calls })
    sends_bytes :
        (fd n : ℕ)
        → c.sockfd ≡ some fd
        → net.accepts c.calls (length c.send_buf.sbuf) ≡ some n
        → Step c (emit (sends fd (take n c.send_buf.sbuf)) (record c { calls = suc c.calls }))
    notifies : (e : Effect Obj) → IsNotice c e → Step c (emit e c)
    -- what comes in
    reads_message :
        (bytes : Bytes) (rest : List Bytes)
        → c.on_message ≡ bytes ∷ rest
        → Step c (record c { on_message = rest })
    feeds : (bytes : Bytes) → Step c (record c { unpacker = Unpacker.push bytes c.unpacker })
    unpacks :
        (message : Option Bytes) (u : Unpacker)
        → Unpacker.read c.unpacker ≡ ok (message, u)
        → Step c (record c { unpacker = u })
    reads_close : (n : ℕ) → c.on_close ≡ suc n → Step c (record c { on_close = n })
    reads_reply :
        (r : ℕ × ℕ × Result Obj) (rest : List (ℕ × ℕ × Result Obj))
        → c.on_reply ≡ r ∷ rest
        → Step c (record c { on_reply = rest })
    reads_ping :
        (r : Result Obj) (rest : List (Result Obj))
        → c.ping_result ≡ r ∷ rest
        → Step c (record c { ping_result = rest })
    local_results_become : (rs : List (Result Obj)) → Step c (record c { local_results = rs })
    local_states_become : (rs : List (StateResult Obj)) → Step c (record c { local_states = rs })
    -- deadlines and the client's name
    idles_until : (t : ℕ) → Step c (record c { idle_timeout = t })
    pings_until : (t : Option ℕ) → Step c (record c { ping_timeout = t })
    is_named : (o : Obj) → Step c (record c { id = some o })
    -- the connection
    joins :
        (fd : ℕ)
        → net.connects c.hostname c.port c.calls ≡ some fd
        → Step c (record c { sockfd = some fd; recv_thread = true; calls = suc c.calls })
    counts : Step c (record c { connection_id = (c.connection_id + 1) % 2 ^ 16 })
    stops_thread : Step c (record c { recv_thread = false })
    closes_socket :
        (fd : ℕ)
        → c.recv_thread ≡ false
        → c.sockfd ≡ some fd
        → Step c (emit (closes fd) (record c { sockfd = none; calls = suc c.calls }))
    resets : Step c (reset_connection c)

  -- Steps with no wait between them.
  pub data Steps (c : Client Obj) : Client Obj → Type 0 where
    here : Steps c c
    next : {d e : Client Obj} → Steps c d → Step d e → Steps c e

  -- Steps and waits.
  pub data Reaches (c : Client Obj) : Client Obj → Type 0 where
    start : Reaches c c
    step : {d e : Client Obj} → Reaches c d → Step d e → Reaches c e
    waits :
        {d : Client Obj} (t : Turn Obj) (ts : List (Turn Obj))
        → Reaches c d
        → d.turns ≡ t ∷ ts
        → Reaches c (arrive_all t.arrivals (record d { turns = ts; now = t.time }))

  pub Steps-trans : {a b c : Client Obj} → Steps a b → Steps b c → Steps a c
  Steps-trans r here = r
  Steps-trans r (next s st) = next (Steps-trans r s) st

  pub Reaches-trans : {a b c : Client Obj} → Reaches a b → Reaches b c → Reaches a c
  Reaches-trans r start = r
  Reaches-trans r (step s st) = step (Reaches-trans r s) st
  Reaches-trans r (waits t ts s e) = waits t ts (Reaches-trans r s) e

  pub Steps-Reaches : {a b : Client Obj} → Steps a b → Reaches a b
  Steps-Reaches here = start
  Steps-Reaches (next s st) = step (Steps-Reaches s) st

  pub one : {a b : Client Obj} → Step a b → Steps a b
  one st = next here st

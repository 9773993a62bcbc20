-- ===== src/Client/State.antt =====
-- The state of ESHETClientActor, its commands (commands.hpp), and what it is given and gives.
--
-- A Channel of actorpp is a number for the program's channels, and a queue of the client for its
-- own. A push to a channel of the program, a send, a close and a line of the log are effects, kept
-- in order in `effects`. CloseReasons and the tokens of `should_exit` are never looked at: on_close
-- is the number of them, and `should_exit` says whether one is there.
use eshetcpp.Base.{ℕ, Bool, List, Option}
use eshetcpp.Base.Bytes.{Bytes}
use eshetcpp.Base.Int.{ℤ}
use eshetcpp.Data.{Result, StateResult, StateUpdate, Call}
use eshetcpp.Wire.SendBuf.{SendBuf}
use eshetcpp.Wire.Unpacker.{Unpacker}

-- A Channel<Result>: one of the program's, the client's ping_result, or the local one of
-- wait_for_reply.
pub data ResultChannel : Type 0 where
  user : ℕ → ResultChannel
  ping local : ResultChannel

-- A Channel<StateResult>
pub data StateChannel : Type 0 where
  user : ℕ → StateChannel
  local : StateChannel

-- std::variant<Channel<Result>, Channel<StateResult>>
pub data ReplyChannel : Type 0 where
  results : ResultChannel → ReplyChannel
  states : StateChannel → ReplyChannel

pub record TimeoutConfig : Type 0 where
  pub idle_ping : ℕ
  pub server_timeout : ℕ
  pub ping_timeout : ℕ

module _ (Obj : Type 0) where
  pub data Command : Type 0 where
    action_call : (path : Bytes) (result_chan : ResultChannel) (args : Obj) → Command
    action_register : (path : Bytes) (result_chan : ResultChannel) (call_chan : ℕ) → Command
    state_register : (path : Bytes) (result_chan : ResultChannel) → Command
    state_changed : (path : Bytes) (result_chan : ResultChannel) (value : StateUpdate Obj) → Command
    state_observe : (path : Bytes) (result_chan : StateChannel) (changed_chan : ℕ) → Command
    event_register : (path : Bytes) (result_chan : ResultChannel) → Command
    event_emit : (path : Bytes) (result_chan : ResultChannel) (value : Obj) → Command
    event_listen : (path : Bytes) (result_chan : ResultChannel) (event_chan : ℕ) → Command
    get : (path : Bytes) (result_chan : ResultChannel) → Command
    set : (path : Bytes) (result_chan : ResultChannel) (value : Obj) → Command
    ping : (result_chan : ResultChannel) → Command
    disconnect : Command

  pub data Effect : Type 0 where
    sends : (sockfd : ℕ) → Bytes → Effect
    closes : (sockfd : ℕ) → Effect
    logs : Bytes → Effect
    pushes_result : ℕ → Result Obj → Effect
    pushes_state : ℕ → StateResult Obj → Effect
    pushes_update : ℕ → StateUpdate Obj → Effect
    pushes_call : ℕ → Call Obj → Effect
    pushes_event : ℕ → Obj → Effect

  -- What reaches the client's channels from other threads.
  pub data Arrival : Type 0 where
    received : Bytes → Arrival
    closed : Arrival
    replied : (connection_id id : ℕ) → Result Obj → Arrival
    commanded : Command → Arrival
    told_to_exit : Arrival

-- What a `wait` returns: its timeout, or the channel that it chose.
pub data Ready : Type 0 where
  timed_out ping_result on_close on_message on_reply on_command should_exit local_result : Ready

module _ (Obj : Type 0) where
  -- One `wait`: what arrives before it returns, the time then, and what it returns.
  pub record Turn : Type 0 where
    pub arrivals : List (Arrival Obj)
    pub time : ℕ
    pub ready : Ready

  pub record Client : Type 0 where
    pub hostname : Bytes
    pub port : ℤ
    pub id : Option Obj
    pub timeout_config : TimeoutConfig
    pub ping_timeout : Option ℕ
    pub idle_timeout : ℕ
    pub ping_result : List (Result Obj)
    pub should_exit : Bool
    pub sockfd : Option ℕ
    pub on_message : List Bytes
    pub on_close : ℕ
    pub recv_thread : Bool
    pub connection_id : ℕ
    pub unpacker : Unpacker
    pub reply_channels : List (ℕ × ReplyChannel)
    pub action_channels : List (Bytes × ℕ)
    pub registered_states : List (Bytes × StateUpdate Obj)
    pub observed_states : List (Bytes × ℕ)
    pub registered_events : List (Bytes × Unit {0})
    pub listened_events : List (Bytes × ℕ)
    pub on_command : List (Command Obj)
    pub on_reply : List (ℕ × ℕ × Result Obj)
    pub send_buf : SendBuf
    pub next_id : ℕ
    -- the local channels of wait_for_reply
    pub local_results : List (Result Obj)
    pub local_states : List (StateResult Obj)
    -- the clock, the waits that are still to come, the system calls made, and the effects so far
    pub now : ℕ
    pub turns : List Turn
    pub calls : ℕ
    pub effects : List (Effect Obj)

-- The operating system: a number counts the calls before this one.
pub record Network : Type 0 where
  -- actorpp::connect to a host and port: a socket, or a std::runtime_error with its text
  pub connects : Bytes → ℤ → ℕ → Option ℕ
  pub connect_error : ℕ → Bytes
  -- send() of a number of bytes: how many it takes, or an error
  pub accepts : ℕ → ℕ → Option ℕ
  -- whether close() returns 0
  pub closes_well : ℕ → Bool

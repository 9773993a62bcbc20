-- ===== src/Client/Start.antt =====
-- The constructors of ESHETClientActor in include/eshet.hpp, with the initializers of its fields.
use eshetcpp.Base.{false, [], Option, none}
use eshetcpp.Base.Bytes.{Bytes}
use eshetcpp.Base.Int.{ℤ}
use eshetcpp.Wire.SendBuf
use eshetcpp.Wire.Unpacker
use eshetcpp.Client.State.{Client, TimeoutConfig}

abbrev pub default_timeouts : TimeoutConfig
default_timeouts = record { idle_ping = 15; server_timeout = 30; ping_timeout = 5 }

module _ {Obj : Type 0} where
  -- sockfd is -1, and the time of idle_timeout is that of the epoch.
  unfoldable pub new_client : Bytes → ℤ → Option Obj → TimeoutConfig → Client Obj
  new_client hostname port id timeout_config = record {
    hostname = hostname;
    port = port;
    id = id;
    timeout_config = timeout_config;
    ping_timeout = none;
    idle_timeout = 0;
    ping_result = [];
    should_exit = false;
    sockfd = none;
    on_message = [];
    on_close = 0;
    recv_thread = false;
    connection_id = 0;
    unpacker = Unpacker.empty;
    reply_channels = [];
    action_channels = [];
    registered_states = [];
    observed_states = [];
    registered_events = [];
    listened_events = [];
    on_command = [];
    on_reply = [];
    send_buf = SendBuf.empty;
    next_id = 0;
    local_results = [];
    local_states = [];
    now = 0;
    turns = [];
    calls = 0;
    effects = [];
  }

  -- The constructor that takes the host and the port as a pair.
  unfoldable pub new_client_at : Bytes × ℤ → Option Obj → TimeoutConfig → Client Obj
  unfolding new_client
  new_client_at hostport id timeout_config = new_client hostport.0 hostport.1 id timeout_config

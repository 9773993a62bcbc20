-- ===== src/Tests/Messages.antt =====
-- Commands, replies and messages at small clients.
use eshetcpp.Base.{
  ℕ, ◌≡◌, ◌≢◌, refl, [], ◌∷◌, ◌++◌, none, some, All, true, false, arith, protocol_error,
}
use eshetcpp.Base.Bytes.{Bytes}
use eshetcpp.Base.Int.{pos}
use eshetcpp.Base.Text.{codes}
use eshetcpp.Base.SortedMap.{lookup, erase, nat_key, bytes_key}
use eshetcpp.Data.{Result, AnyResult}
use eshetcpp.Wire.Unpacker.Stream.{buffered}
use eshetcpp.Wire.Unpacker.Framing.{framed_all}
use eshetcpp.Client.State.{Client, Command, ResultChannel, results, pushes_result}
use eshetcpp.Client.Outcome.{done, raised, emit, ◌>>=◌}
use eshetcpp.Client.Commands.{visit_command}
use eshetcpp.Client.Commands.Requests.{Sends, message_of, keep, awaiting, sent, visit_command-Sends}
use eshetcpp.Client.Messages.{handle_message, handle_reply}
use eshetcpp.Client.Messages.Protocol.{ServerMessage, encode, react, handle_message-encode}
use eshetcpp.Client.Messages.Replies.{requested, reply-request, reply-request_in_use, reply_once}
use eshetcpp.Client.Messages.Malformed.{Returns, handle_message-Returns}
use eshetcpp.Client.Waiting
use eshetcpp.Client.Waiting.{read_unpacker, next_message}
use eshetcpp.Client.Waiting.Receive.{
  handle_all, handle_all-round, handle_each, receive-handles_each,
}
use eshetcpp.Tests.Setting.{one_byte, one_byte_trips, one_byte_moves, takes_all}

-- A client with the default times, connected on socket 3, with no request yet.
abbrev pub connected : Client ℕ
connected = record {
  hostname = codes "localhost";
  port = pos 11236;
  id = none;
  timeout_config = record { idle_ping = 15; server_timeout = 30; ping_timeout = 5 };
  ping_timeout = none;
  idle_timeout = 15;
  ping_result = [];
  should_exit = false;
  sockfd = some 3;
  on_message = [];
  on_close = 0;
  recv_thread = true;
  connection_id = 1;
  unpacker = buffered [];
  reply_channels = [];
  action_channels = [];
  registered_states = [];
  observed_states = [];
  registered_events = [];
  listened_events = [];
  on_command = [];
  on_reply = [];
  send_buf = record { sbuf = [] };
  next_id = 0;
  local_results = [];
  local_states = [];
  now = 0;
  turns = [];
  calls = 0;
  effects = [];
}

abbrev pub path : Bytes
path = codes "/a"

-- The request 0 is awaited on the channel 4.
abbrev pub waiting : Client ℕ
waiting = record connected {
  next_id = 0;
  reply_channels = (0, results (ResultChannel.user 4)) ∷ [];
  observed_states = (path, 8) ∷ [];
}

pub Sends-any : (c : Client ℕ) (message : Bytes) → c.sockfd ≡ some 3 → Sends c 3 message
Sends-any c message e = record { open_socket = e; takes_all = refl }

no_zero : All (λ b. b ≢ 0) path
no_zero = (omega arith, (omega arith, tt))

abbrev change : ServerMessage ℕ
change = ServerMessage.changed_known path 5

abbrev answer : ServerMessage ℕ
answer = ServerMessage.reply_ok 0 9

handle_message-encode_example : handle_message (encode answer) waiting ≡ react answer waiting
handle_message-encode_example = handle_message-encode one_byte_trips answer waiting (omega arith)

reply-request_example :
    let c' : Client ℕ =
      requested one_byte_moves one_byte_trips
        (Command.get path (ResultChannel.user 6))
        (results (ResultChannel.user 6))
        3
        connected in
    (visit_command (Command.get path (ResultChannel.user 6)) connected ≡ done tt c')
    × (handle_message (encode answer) c'
        ≡ done tt (
            emit
              (pushes_result 6 (Result.success 9))
              (record c' { reply_channels = erase 0 c'.reply_channels })))
unfolding lookup
reply-request_example =
    reply-request one_byte_moves one_byte_trips (Command.get path (ResultChannel.user 6)) connected
      6 3 9 refl (Sends-any connected _ refl) (omega arith) refl

reply-request_in_use_example :
    let c' : Client ℕ =
      requested one_byte_moves one_byte_trips
        (Command.get path (ResultChannel.user 6))
        (results (ResultChannel.user 6))
        3
        waiting in
    (visit_command (Command.get path (ResultChannel.user 6)) waiting ≡ done tt c')
    × (handle_message (encode answer) c'
        ≡ done tt (
            emit
              (pushes_result 4 (Result.success 9))
              (record c' { reply_channels = erase 0 c'.reply_channels })))
unfolding lookup
reply-request_in_use_example =
    reply-request_in_use one_byte_moves one_byte_trips (Command.get path (ResultChannel.user 6))
      waiting 6 4 3 9 refl (Sends-any waiting _ refl) (omega arith) refl

visit_command-Sends_example :
    visit_command (Command.set path (ResultChannel.user 6) 9) connected
    ≡ done tt (
        sent 3 (message_of {Obj = ℕ} 0 (Command.set path (ResultChannel.user 6) 9)) (
          keep
            (Command.set path (ResultChannel.user 6) 9)
            (awaiting (results (ResultChannel.user 6)) connected)))
visit_command-Sends_example =
    visit_command-Sends one_byte_moves (Command.set path (ResultChannel.user 6) 9) connected
      (results (ResultChannel.user 6)) 3 refl (Sends-any connected _ refl)

handle_message-Returns_example : Returns (handle_message (0x11 ∷ 0 ∷ []) connected)
handle_message-Returns_example = handle_message-Returns (0x11 ∷ 0 ∷ []) connected

abbrev answered : Client ℕ
answered = emit (pushes_result 4 (Result.success 9)) (record waiting { reply_channels = [] })

reply_once_example :
    (handle_reply 0 (AnyResult.error 2) answered ≡ raised protocol_error answered)
    × ((j : ℕ) → j ≢ 0 → lookup j answered.reply_channels ≡ lookup j waiting.reply_channels)
unfolding handle_reply lookup erase
reply_once_example = reply_once 0 (AnyResult.success 9) (AnyResult.error 2) waiting answered refl

-- Two changes of an observed state came in one piece.
abbrev told : Client ℕ
told = record waiting { on_message = framed_all (encode change ∷ encode change ∷ []) ∷ [] }

receive-handles_each_example :
    Waiting.receive told
    ≡ handle_each (encode change ∷ encode change ∷ []) (record told { on_message = [] })
receive-handles_each_example =
    receive-handles_each (encode change ∷ encode change ∷ []) [] told
      (omega arith, (omega arith, tt)) refl refl

-- They are in the unpacker, and the first byte of a third frame with them.
abbrev cut_short : Client ℕ
cut_short = record waiting {
  unpacker = buffered (framed_all (encode change ∷ encode change ∷ []) ++ 0x47 ∷ []);
}

handle_all-round_example :
    handle_all cut_short ≡ (read_unpacker >>= λ message. next_message message handle_all) cut_short
handle_all-round_example = handle_all-round cut_short

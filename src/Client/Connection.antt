-- ===== src/Client/Connection.antt =====
-- connect, cleanup_connection, do_hello and handle_hello_message of include/eshet.hpp.
pub mod Farewell
pub mod Cleanup
pub mod Hello
pub mod Greeted
use eshetcpp.Base.{
  ℕ, zero, suc, ◌+◌, ◌%◌, ◌^◌, Bool, true, false, List, [], ◌∷◌, ◌++◌, Option, none, some, ◌==◌,
  if◌then◌else◌, protocol_error, runtime_error,
}
use eshetcpp.Base.Bytes.{Bytes}
use eshetcpp.Base.Text.{codes}
use eshetcpp.Msgpack.{Msgpack}
use eshetcpp.Data.{Result, StateResult, StateUpdate}
use eshetcpp.Wire.SendBuf.{write_hello}
use eshetcpp.Client.State.{
  Client, Network, Turn, Ready, ReplyChannel, results, states, closes, logs, pushes_update,
}
use eshetcpp.Client.Outcome.{
  Outcome, done, raised, blocked, M, and_then, ◌>>=◌, ◌>>◌, pure, raise, lift, update, read_state,
  emit, push_result, push_state,
}
use eshetcpp.Client.Body.{run, nothing, just_msgpack}
use eshetcpp.Client.Commands.{write, send_send_buf}
use eshetcpp.Client.Waiting.{
  take_turn, never, read_close, read_message, push_unpacker, read_unpacker,
}

module _ {Obj : Type 0} where
  -- `state.second.push(Unknown{})`
  unfoldable pub forget_states : List (Bytes × ℕ) → Client Obj → Client Obj
  forget_states [] c = c
  forget_states ((path, chan) ∷ rest) c =
      forget_states rest (emit (pushes_update chan (StateUpdate.unknown 0)) c)

module _ {Obj : Type 0} ⦃m : Msgpack Obj⦄ where
  -- `c.push(Error("disconnected"))`
  unfoldable pub push_disconnected : ReplyChannel → Client Obj → Client Obj
  unfolding push_result push_state
  push_disconnected (results chan) =
      push_result chan (Result.error (m.of_string (codes "disconnected")))
  push_disconnected (states chan) =
      push_state chan (StateResult.error (m.of_string (codes "disconnected")))

  unfoldable pub disconnect_replies : List (ℕ × ReplyChannel) → Client Obj → Client Obj
  unfolding push_disconnected
  disconnect_replies [] c = c
  disconnect_replies ((id, chan) ∷ rest) c = disconnect_replies rest (push_disconnected chan c)

  -- What cleanup_connection does behind the closing of the socket.
  unfoldable pub reset_connection : Client Obj → Client Obj
  unfolding disconnect_replies forget_states
  reset_connection c =
      let c1 = disconnect_replies c.reply_channels c in
      let c2 = forget_states c1.observed_states (record c1 { reply_channels = [] }) in
      record c2 { ping_timeout = none; ping_result = []; on_close = 0; on_message = [] }

module _ {Obj : Type 0} ⦃net : Network⦄ where
  unfoldable pub close_socket : Option ℕ → M Obj (Unit {0})
  close_socket none c = done tt c
  close_socket (some fd) c =
      if net.closes_well c.calls
      then done tt (emit (closes fd) (record c { sockfd = none; calls = suc c.calls }))
      else raised runtime_error (record c { calls = suc c.calls })

module _ {Obj : Type 0} ⦃m : Msgpack Obj⦄ ⦃net : Network⦄ where
  unfoldable pub cleanup_connection : M Obj (Unit {0})
  unfolding close_socket reset_connection
  cleanup_connection = do
    update (λ c. record c { recv_thread = false })
    sockfd ← read_state (λ c. c.sockfd)
    close_socket sockfd
    update reset_connection

  unfoldable pub connected : Option ℕ → M Obj Bool
  connected none c =
      done false (emit (logs (net.connect_error c.calls)) (record c { calls = suc c.calls }))
  connected (some fd) c =
      done true (record c { sockfd = some fd; recv_thread = true; calls = suc c.calls })

  unfoldable pub connect : M Obj Bool
  unfolding cleanup_connection connected
  connect = cleanup_connection >> λ c. connected (net.connects c.hostname c.port c.calls) c

  unfoldable pub handle_hello_message : Bytes → M Obj (Unit {0})
  unfolding run nothing just_msgpack
  handle_hello_message [] = raise protocol_error
  handle_hello_message (type ∷ body) =
      if type == 0x03
      then lift (run nothing body)
      else if type == 0x04
      then (do id ← lift (run just_msgpack body); update (λ c. record c { id = some id }))
      else raise protocol_error

  -- The server has nothing more to say before it has answered.
  unfoldable pub expect_nothing : Option Bytes → M Obj Bool
  expect_nothing none = pure true
  expect_nothing (some message) = raise protocol_error

  unfoldable pub hello_message : M Obj Bool → Option Bytes → M Obj Bool
  unfolding handle_hello_message expect_nothing
  hello_message again none = again
  hello_message again (some message) = do
    handle_hello_message message
    more ← read_unpacker
    expect_nothing more

  unfoldable pub hello_case : Ready → M Obj Bool → M Obj Bool
  unfolding hello_message
  hello_case Ready.on_close again = read_close >> pure false
  hello_case Ready.on_message again = do
    bytes ← read_message
    push_unpacker bytes
    message ← read_unpacker
    hello_message again message
  hello_case Ready.should_exit again = pure false
  hello_case _ again = never

  unfoldable pub wait_for_hello : List (Turn Obj) → M Obj Bool
  unfolding hello_case
  wait_for_hello [] = blocked
  wait_for_hello (t ∷ ts) = take_turn t ts >> hello_case t.ready (wait_for_hello ts)

  -- server_timeout.count() is cut to 16 bits by the parameter of write_hello.
  unfoldable pub do_hello : M Obj Bool
  unfolding wait_for_hello
  do_hello = do
    c ← read_state (λ c. c)
    write (write_hello c.id (c.timeout_config.server_timeout % 2 ^ 16))
    send_send_buf
    λ c. wait_for_hello c.turns c

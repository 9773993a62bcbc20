-- ===== src/Wire/SendBuf.antt =====
-- struct SendBuf of include/eshet/parse.hpp: the message under construction.
pub mod Frames
use eshetcpp.Base.{ℕ, ◌-◌, ◌/◌, ◌%◌, ◌^◌, List, [], ◌∷◌, ◌++◌, Option, none, some, length, set}
use eshetcpp.Base.Bytes.{Bytes}
use eshetcpp.Msgpack.{Msgpack}
use eshetcpp.Data.{Result, StateUpdate}

pub record SendBuf : Type 0 where
  pub sbuf : Bytes

-- The constructor reserves room; the buffer is empty.
abbrev pub empty : SendBuf
empty = record { sbuf = [] }

-- `sbuf.write(data, size)`
abbrev pub write : Bytes → SendBuf → SendBuf
write bytes b = record { sbuf = b.sbuf ++ bytes }

unfoldable pub start_msg : ℕ → SendBuf → SendBuf
start_msg type b = write (0x47 ∷ 0 ∷ 0 ∷ type ∷ []) (record { sbuf = [] })

unfoldable pub write8 : ℕ → SendBuf → SendBuf
write8 value = write (value % 2 ^ 8 ∷ [])

unfoldable pub write16 : ℕ → SendBuf → SendBuf
write16 value = write (value / 2 ^ 8 % 2 ^ 8 ∷ value % 2 ^ 8 ∷ [])

-- `s.c_str()` has a zero behind the string.
unfoldable pub write_string : Bytes → SendBuf → SendBuf
write_string s = write (s ++ 0 ∷ [])

-- The length of what follows the three bytes of the header, cut to 16 bits.
unfoldable pub write_size : SendBuf → SendBuf
write_size b =
    let size = length b.sbuf - 3 in
    record { sbuf = set (set b.sbuf 1 (size / 2 ^ 8 % 2 ^ 8)) 2 (size % 2 ^ 8) }

unfoldable pub write_path : ℕ → ℕ → Bytes → SendBuf → SendBuf
unfolding start_msg write16 write_string write_size
write_path message id path b = write_size (write_string path (write16 id (start_msg message b)))

unfoldable pub write_action_register : ℕ → Bytes → SendBuf → SendBuf
unfolding write_path
write_action_register = write_path 0x10

unfoldable pub write_state_register : ℕ → Bytes → SendBuf → SendBuf
unfolding write_path
write_state_register = write_path 0x40

unfoldable pub write_state_observe : ℕ → Bytes → SendBuf → SendBuf
unfolding write_path
write_state_observe = write_path 0x46

unfoldable pub write_event_register : ℕ → Bytes → SendBuf → SendBuf
unfolding write_path
write_event_register = write_path 0x30

unfoldable pub write_event_listen : ℕ → Bytes → SendBuf → SendBuf
unfolding write_path
write_event_listen = write_path 0x32

unfoldable pub write_get : ℕ → Bytes → SendBuf → SendBuf
unfolding write_path
write_get = write_path 0x23

unfoldable pub write_ping : ℕ → SendBuf → SendBuf
unfolding start_msg write16 write_size
write_ping id b = write_size (write16 id (start_msg 0x09 b))

-- `write_state_changed` of an `Unknown`
unfoldable pub write_state_unknown : ℕ → Bytes → SendBuf → SendBuf
unfolding write_path
write_state_unknown = write_path 0x42

module _ {Obj : Type 0} ⦃m : Msgpack Obj⦄ where
  unfoldable pub write_msgpack : Obj → SendBuf → SendBuf
  write_msgpack value = write (m.pack value)

  unfoldable pub write_pack : ℕ → ℕ → Obj → SendBuf → SendBuf
  unfolding start_msg write16 write_msgpack write_size
  write_pack message id value b =
      write_size (write_msgpack value (write16 id (start_msg message b)))

  unfoldable pub write_path_pack : ℕ → ℕ → Bytes → Obj → SendBuf → SendBuf
  unfolding start_msg write16 write_string write_msgpack write_size
  write_path_pack message id path value b =
      write_size (write_msgpack value (write_string path (write16 id (start_msg message b))))

  unfoldable pub write_hello : Option Obj → ℕ → SendBuf → SendBuf
  unfolding start_msg write8 write16 write_msgpack write_size
  write_hello none server_timeout b =
      write_size (write16 server_timeout (write8 1 (start_msg 0x01 b)))
  write_hello (some id) server_timeout b =
      write_size (write_msgpack id (write16 server_timeout (write8 1 (start_msg 0x02 b))))

  -- The overloads of `write_reply` for a Success, an Error and a Result.
  unfoldable pub write_reply : ℕ → Result Obj → SendBuf → SendBuf
  unfolding write_pack
  write_reply id (Result.success value) = write_pack 0x05 id value
  write_reply id (Result.error value) = write_pack 0x06 id value

  unfoldable pub write_action_call : ℕ → Bytes → Obj → SendBuf → SendBuf
  unfolding write_path_pack
  write_action_call = write_path_pack 0x11

  -- The overloads of `write_state_changed` for a Known, an Unknown and a StateUpdate.
  unfoldable pub write_state_changed : ℕ → Bytes → StateUpdate Obj → SendBuf → SendBuf
  unfolding write_path_pack write_state_unknown
  write_state_changed id path (StateUpdate.known value t) = write_path_pack 0x41 id path value
  write_state_changed id path (StateUpdate.unknown t) = write_state_unknown id path

  unfoldable pub write_event_emit : ℕ → Bytes → Obj → SendBuf → SendBuf
  unfolding write_path_pack
  write_event_emit = write_path_pack 0x31

  unfoldable pub write_set : ℕ → Bytes → Obj → SendBuf → SendBuf
  unfolding write_path_pack
  write_set = write_path_pack 0x24

-- ===== src/Wire/SendBuf/Frames.antt =====
-- What each writer of SendBuf leaves in the buffer: one frame, whatever was there before.
use eshetcpp.Base.{
  ℕ, suc, ◌-◌, ◌/◌, ◌%◌, ◌^◌, ◌≡◌, ap, ◌∙◌, [], ◌∷◌, ◌++◌, Option, none, some, length, arith,
  append_assoc,
}
use eshetcpp.Base.Bytes.{Bytes}
use eshetcpp.Msgpack.{Msgpack}
use eshetcpp.Wire.SendBuf.{
  SendBuf, write_size, write_path, write_pack, write_path_pack, write_ping, write_hello,
}

-- 16 bits, the high byte first.
abbrev pub u16 : ℕ → Bytes
u16 n = n / 2 ^ 8 % 2 ^ 8 ∷ n % 2 ^ 8 ∷ []

-- The magic byte, the length of the message in 16 bits, the message.
abbrev pub frame : Bytes → SendBuf
frame message = record { sbuf = 0x47 ∷ (u16 (length message) ++ message) }

write_size-frame :
    (message : Bytes) → write_size (record { sbuf = 0x47 ∷ 0 ∷ 0 ∷ message }) ≡ frame message
unfolding write_size
write_size-frame message =
    let three : suc (suc (suc (length message))) - 3 ≡ length message = omega arith in rw three

pub write_path-frame :
    (t id : ℕ) (path : Bytes) (b : SendBuf)
    → write_path t id path b ≡ frame (t ∷ u16 id ++ (path ++ 0 ∷ []))
unfolding write_path
write_path-frame t id path b = write_size-frame (t ∷ u16 id ++ (path ++ 0 ∷ []))

pub write_ping-frame : (id : ℕ) (b : SendBuf) → write_ping id b ≡ frame (0x09 ∷ u16 id)
unfolding write_ping
write_ping-frame id b = write_size-frame (0x09 ∷ u16 id)

module _ {Obj : Type 0} ⦃m : Msgpack Obj⦄ where
  pub write_pack-frame :
      (t id : ℕ) (o : Obj) (b : SendBuf) → write_pack t id o b ≡ frame (t ∷ u16 id ++ m.pack o)
  unfolding write_pack
  write_pack-frame t id o b = write_size-frame (t ∷ u16 id ++ m.pack o)

  pub write_path_pack-frame :
      (t id : ℕ) (path : Bytes) (o : Obj) (b : SendBuf)
      → write_path_pack t id path o b ≡ frame (t ∷ u16 id ++ (path ++ 0 ∷ m.pack o))
  unfolding write_path_pack
  write_path_pack-frame t id path o b =
      ap (λ w. write_size (record { sbuf = 0x47 ∷ 0 ∷ 0 ∷ t ∷ (u16 id ++ w) }))
        (append_assoc path (0 ∷ []) (m.pack o))
      ∙ write_size-frame (t ∷ u16 id ++ (path ++ 0 ∷ m.pack o))

  -- The message of a hello: the client's id follows if it has one.
  abbrev pub hello : Option Obj → ℕ → Bytes
  hello none timeout = 0x01 ∷ 1 ∷ u16 timeout
  hello (some id) timeout = 0x02 ∷ 1 ∷ u16 timeout ++ m.pack id

  pub write_hello-frame :
      (id : Option Obj) (timeout : ℕ) (b : SendBuf)
      → write_hello id timeout b ≡ frame (hello id timeout)
  unfolding write_hello
  write_hello-frame none timeout b = write_size-frame (0x01 ∷ 1 ∷ u16 timeout)
  write_hello-frame (some id) timeout b = write_size-frame (0x02 ∷ 1 ∷ u16 timeout ++ m.pack id)

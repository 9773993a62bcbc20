-- ===== src/Data.antt =====
-- include/eshet/data.hpp: the values that replies, states and calls carry. A handle and the object
-- in it are one `Obj`; Time is a count of milliseconds (uint32_t).
pub mod Convert
pub mod Handle
pub mod Values
use eshetcpp.Base.{ℕ}

module _ (Obj : Type 0) where
  -- std::variant<Success, Error>
  pub data Result : Type 0 where
    success error : Obj → Result

  -- std::variant<Known, Unknown, Error>
  pub data StateResult : Type 0 where
    known : Obj → ℕ → StateResult
    unknown : ℕ → StateResult
    error : Obj → StateResult

  -- std::variant<Known, Unknown>
  pub data StateUpdate : Type 0 where
    known : Obj → ℕ → StateUpdate
    unknown : ℕ → StateUpdate

  -- std::variant<Success, Known, Unknown, Error>
  pub data AnyResult : Type 0 where
    success : Obj → AnyResult
    known : Obj → ℕ → AnyResult
    unknown : ℕ → AnyResult
    error : Obj → AnyResult

  -- struct Call, without its reply_chan, which is the client's on_reply in every Call.
  pub record Call : Type 0 where
    pub connection_id : ℕ
    pub id : ℕ
    pub args : Obj

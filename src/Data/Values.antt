-- ===== src/Data/Values.antt =====
-- Comparing and printing values, and Error as an exception, of include/eshet/data.hpp.
pub mod Laws
use eshetcpp.Base.{ℕ, Bool, true, false, not, List, [], ◌∷◌, ◌++◌, Except, ok, throw}
use eshetcpp.Base.Bytes.{Bytes}
use eshetcpp.Base.Text.{codes}
use eshetcpp.Log.{c_str}
use eshetcpp.Msgpack.{Msgpack, Objects}
use eshetcpp.Stringize.{append_msgpack}
use eshetcpp.Data.{Result, StateResult, StateUpdate, AnyResult}

module _ {Obj : Type 0} ⦃b : Objects Obj⦄ where
  -- operator== of std::variant: the alternatives are the same, and their values are equal. A Known is
  -- compared as a HasMsgpackObject, and two Unknowns are always equal: t_since_change does not
  -- count.
  unfoldable pub result_eq : Result Obj → Result Obj → Bool
  result_eq (Result.success x) (Result.success y) = b.equal x y
  result_eq (Result.error x) (Result.error y) = b.equal x y
  result_eq _ _ = false

  unfoldable pub state_result_eq : StateResult Obj → StateResult Obj → Bool
  state_result_eq (StateResult.known x t) (StateResult.known y u) = b.equal x y
  state_result_eq (StateResult.unknown t) (StateResult.unknown u) = true
  state_result_eq (StateResult.error x) (StateResult.error y) = b.equal x y
  state_result_eq _ _ = false

  unfoldable pub state_update_eq : StateUpdate Obj → StateUpdate Obj → Bool
  state_update_eq (StateUpdate.known x t) (StateUpdate.known y u) = b.equal x y
  state_update_eq (StateUpdate.unknown t) (StateUpdate.unknown u) = true
  state_update_eq _ _ = false

  -- operator<< of a HasMsgpackObject with this name
  unfoldable pub print_named : Bytes → Obj → Bytes
  print_named name value = name ++ (codes "(" ++ (b.print value ++ codes ")"))

  -- operator<< of the variants
  unfoldable pub print_any : AnyResult Obj → Bytes
  unfolding print_named
  print_any (AnyResult.success value) = print_named (codes "Success") value
  print_any (AnyResult.known value t) = print_named (codes "Known") value
  print_any (AnyResult.unknown t) = codes "unknown"
  print_any (AnyResult.error value) = print_named (codes "Error") value

-- An Error with the text that `what` keeps.
pub record ErrorText (Obj : Type 0) : Type 0 where
  pub value : Obj
  pub error_str : Bytes

module _ {Obj : Type 0} where
  -- `error_str += ")"`, and c_str()
  abbrev pub keep_text : ErrorText Obj → Except Bytes → Except (Bytes × ErrorText Obj)
  keep_text e (throw x) = throw x
  keep_text e (ok s) = ok (c_str (s ++ codes ")"), record e { error_str = s ++ codes ")" })

module _ {Obj : Type 0} ⦃m : Msgpack Obj⦄ where
  text_or_build : Bytes → ErrorText Obj → Except (Bytes × ErrorText Obj)
  text_or_build [] e = keep_text e (append_msgpack (codes "Error(") e.value)
  text_or_build (c ∷ cs) e = ok (c_str (c ∷ cs), e)

  -- The text up to its first zero byte, and the Error with what it keeps.
  unfoldable pub what : ErrorText Obj → Except (Bytes × ErrorText Obj)
  unfolding text_or_build
  what e = text_or_build e.error_str e

  -- The copy constructor of Error clones the object; the text is not copied.
  unfoldable pub copy_error : ErrorText Obj → ErrorText Obj
  copy_error e = record { value = m.clone e.value; error_str = [] }

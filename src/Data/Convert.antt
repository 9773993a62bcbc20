-- ===== src/Data/Convert.antt =====
-- include/eshet/util.hpp: convert_variant, at the two types of reply channel. The callback of
-- handle_reply takes a Result or a StateResult; an AnyResult that is neither converts to none.
use eshetcpp.Base.{Option, none, some}
use eshetcpp.Data.{Result, StateResult, AnyResult}

module _ {Obj : Type 0} where
  unfoldable pub to_result : AnyResult Obj → Option (Result Obj)
  to_result (AnyResult.success o) = some (Result.success o)
  to_result (AnyResult.known o t) = none
  to_result (AnyResult.unknown t) = none
  to_result (AnyResult.error o) = some (Result.error o)

  unfoldable pub to_state_result : AnyResult Obj → Option (StateResult Obj)
  to_state_result (AnyResult.success o) = none
  to_state_result (AnyResult.known o t) = some (StateResult.known o t)
  to_state_result (AnyResult.unknown t) = some (StateResult.unknown t)
  to_state_result (AnyResult.error o) = some (StateResult.error o)

-- ===== src/Data/Handle.antt =====
-- HasMsgpackObject and oh_with_zone of include/eshet/data.hpp: a C++ value as an object, and back.
use eshetcpp.Base.{Bool, not}
use eshetcpp.Base.{Except}
use eshetcpp.Msgpack.{Objects}

-- What msgpack-c has for a C++ type.
pub record Conversion (T Obj : Type 0) : Type 0 where
  -- msgpack::object(value), and msgpack::object(value, zone)
  pub object : T → Obj
  pub object_in_zone : T → Obj
  -- `o.convert(v)`: what v is then, or a type_error
  pub convert_to : Obj → T → Except T
  -- `T v;`
  pub initial : T

module _ {T Obj : Type 0} ⦃k : Conversion T Obj⦄ where
  unfoldable pub oh_with_zone : T → Obj
  oh_with_zone value = k.object_in_zone value

  -- the constructor from a value
  unfoldable pub of_value : T → Obj
  of_value t = k.object t

  unfoldable pub as_value : Obj → Except T
  as_value value = k.convert_to value k.initial

  -- `convert(v)`, also of a tuple of references, whose values are then one value
  unfoldable pub convert : Obj → T → Except T
  convert value v = k.convert_to value v

module _ {Obj : Type 0} ⦃b : Objects Obj⦄ where
  -- operator== and operator!=
  unfoldable pub object_eq : Obj → Obj → Bool
  object_eq value other = b.equal value other

  unfoldable pub object_ne : Obj → Obj → Bool
  unfolding object_eq
  object_ne value other = not (object_eq value other)

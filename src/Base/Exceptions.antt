-- ===== src/Base/Exceptions.antt =====
-- The exceptions of the library, and code that returns or throws.

-- `protocol_error` and `disconnected` are ProtocolError and Disconnected of data.hpp. The others
-- come from msgpack::unpack and from the standard library (std::stoi throws invalid_argument or
-- out_of_range), type_error from the conversions of msgpack-c, and `undefined` stands for a read
-- outside of an array, which is no exception but undefined behaviour.
pub data Exception : Type 0 where
  protocol_error disconnected unpack_error type_error : Exception
  runtime_error logic_error invalid_argument out_of_range undefined : Exception

pub data Except {ℓ} (A : Type ℓ) : Type ℓ where
  ok : A → Except A
  throw : Exception → Except A

-- ===== src/Tools/Json.antt =====
-- json_to_msgpack and json_str_to_msgpack of src/cli.cpp.
--
-- rapidjson (submodules/rapidjson, which is not part of this repository) is a parameter: what its
-- parser gives for a text, and the message of a parse error. A rapidjson::Value is what its tests
-- tell of it. IsFloat holds of no value of which IsDouble does not, and a number that is no double
-- and does not fit an int64_t is a `uint64`.
pub mod Build
pub mod Text
use eshetcpp.Base.{ℕ, Bool, List, [], ◌∷◌, ◌++◌, Except, ok, throw, Exception, logic_error}
use eshetcpp.Base.Bytes.{Bytes}
use eshetcpp.Base.Int.{ℤ}
use eshetcpp.Base.Text.{codes, decimal}
use eshetcpp.Msgpack.{Objects}

mutual
  pub data Json : Type 0 where
    null : Json
    boolean : Bool → Json
    double : ℕ → Json
    int64 : ℤ → Json
    uint64 : ℕ → Json
    string : Bytes → Json
    array : Elements → Json
    object : Members → Json

  pub data Elements : Type 0 where
    no_elements : Elements
    element : Json → Elements → Elements

  pub data Members : Type 0 where
    no_members : Members
    member : Bytes → Json → Members → Members

pub data Parsed : Type 0 where
  document : Json → Parsed
  failure : (code offset : ℕ) → Parsed

pub record RapidJson : Type 0 where
  pub parse : Bytes → Parsed
  pub parse_error : ℕ → Bytes

abbrev pub and_then {ℓ} : {A B : Type ℓ} → Except A → (A → Except B) → Except B
and_then (ok a) k = k a
and_then (throw e) k = throw e

module _ {Obj : Type 0} ⦃b : Objects Obj⦄ where
  unfoldable mutual
    pub json_to_msgpack : Json → Except Obj
    json_to_msgpack null = ok b.nil
    json_to_msgpack (boolean v) = ok (b.of_bool v)
    json_to_msgpack (double v) = ok (b.of_double v)
    json_to_msgpack (int64 v) = ok (b.of_int64 v)
    json_to_msgpack (uint64 v) = throw logic_error
    json_to_msgpack (string s) = ok (b.of_str s)
    json_to_msgpack (array els) = and_then (json_elements els) (λ arr. ok (b.of_array arr))
    json_to_msgpack (object mems) = and_then (json_members mems) (λ vec. ok (b.of_map vec))

    -- The loop over an array.
    pub json_elements : Elements → Except (List Obj)
    json_elements no_elements = ok []
    json_elements (element el els) =
        and_then (json_to_msgpack el) (λ o. and_then (json_elements els) (λ arr. ok (o ∷ arr)))

    -- The loop over an object. The name of an entry is a string.
    pub json_members : Members → Except (List (Obj × Obj))
    json_members no_members = ok []
    json_members (member name value mems) =
        and_then (json_to_msgpack value)
          (λ o. and_then (json_members mems) (λ vec. ok ((b.of_str name, o) ∷ vec)))

-- What ends a program: error_message of cli.cpp, an exception that it does not catch, and exit().
pub data Stop : Type 0 where
  error_message : Bytes → Stop
  uncaught : Exception → Stop
  exited : ℕ → Stop

pub data Attempt (A : Type 0) : Type 0 where
  gives : A → Attempt A
  fails : Stop → Attempt A

abbrev pub attempt : {A : Type 0} → Except A → Attempt A
attempt (ok a) = gives a
attempt (throw e) = fails (uncaught e)

module _ {Obj : Type 0} ⦃b : Objects Obj⦄ ⦃rj : RapidJson⦄ where
  abbrev pub from_parsed : Parsed → Attempt Obj
  from_parsed (document d) = attempt (json_to_msgpack d)
  from_parsed (failure code offset) =
      fails (error_message (rj.parse_error code ++ (codes " (" ++ (decimal offset ++ codes ")"))))

  unfoldable pub json_str_to_msgpack : Bytes → Attempt Obj
  json_str_to_msgpack json = from_parsed (rj.parse json)

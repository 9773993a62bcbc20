-- ===== src/Tools/Json/Build.antt =====
-- What json_to_msgpack builds, and for which documents.
use eshetcpp.Base.{
  ◌≡◌, refl, ap, ◌∙◌, Bool, true, false, ◌&&◌, List, [], ◌∷◌, if◌then◌else◌, Except, ok, throw,
  logic_error,
}
use eshetcpp.Msgpack.{Objects}
use eshetcpp.Tools.Json.{
  Json, Elements, Members, null, boolean, double, int64, uint64, string, array, object, no_elements,
  element, no_members, member, json_to_msgpack, json_elements, json_members, and_then,
}

-- No number of the document is above the range of an int64_t.
unfoldable mutual
  pub representable : Json → Bool
  representable (uint64 v) = false
  representable (array els) = all_representable els
  representable (object mems) = values_representable mems
  representable _ = true

  pub all_representable : Elements → Bool
  all_representable no_elements = true
  all_representable (element el els) = representable el && all_representable els

  pub values_representable : Members → Bool
  values_representable no_members = true
  values_representable (member name value mems) = representable value && values_representable mems

-- The same test, with the object in place of the code's early exits.
abbrev checked : {A : Type 0} → Bool → A → Except A
checked t a = if t then ok a else throw logic_error

both :
    {A B C : Type 0} (s t : Bool) (x : A) (y : B) (f : A → B → C)
    → and_then (checked s x) (λ a. and_then (checked t y) (λ c. ok (f a c)))
      ≡ checked (s && t) (f x y)
both true true x y f = refl
both true false x y f = refl
both false t x y f = refl

one :
    {A C : Type 0} (t : Bool) (x : A) (f : A → C)
    → and_then (checked t x) (λ a. ok (f a)) ≡ checked t (f x)
one true x f = refl
one false x f = refl

module _ {Obj : Type 0} ⦃b : Objects Obj⦄ where
  -- The object that stands for a document; what stands for a large number is not used.
  unfoldable mutual
    pub build : Json → Obj
    build null = b.nil
    build (boolean v) = b.of_bool v
    build (double v) = b.of_double v
    build (int64 v) = b.of_int64 v
    build (uint64 v) = b.nil
    build (string s) = b.of_str s
    build (array els) = b.of_array (build_all els)
    build (object mems) = b.of_map (build_entries mems)

    pub build_all : Elements → List Obj
    build_all no_elements = []
    build_all (element el els) = build el ∷ build_all els

    pub build_entries : Members → List (Obj × Obj)
    build_entries no_members = []
    build_entries (member name value mems) = (b.of_str name, build value) ∷ build_entries mems

  mutual
    unfolding json_to_msgpack representable build

    json_to_msgpack-checked : (j : Json) → json_to_msgpack j ≡ checked (representable j) (build j)
    json_to_msgpack-checked null = refl
    json_to_msgpack-checked (boolean v) = refl
    json_to_msgpack-checked (double v) = refl
    json_to_msgpack-checked (int64 v) = refl
    json_to_msgpack-checked (uint64 v) = refl
    json_to_msgpack-checked (string s) = refl
    json_to_msgpack-checked (array els) =
        ap (λ r. and_then r (λ arr. ok (b.of_array arr))) (json_elements-checked els)
        ∙ one (all_representable els) (build_all els) b.of_array
    json_to_msgpack-checked (object mems) =
        ap (λ r. and_then r (λ vec. ok (b.of_map vec))) (json_members-checked mems)
        ∙ one (values_representable mems) (build_entries mems) b.of_map

    json_elements-checked :
        (els : Elements) → json_elements els ≡ checked (all_representable els) (build_all els)
    json_elements-checked no_elements = refl
    json_elements-checked (element el els) =
        rw (json_to_msgpack-checked el, json_elements-checked els)
          (both (representable el) (all_representable els) (build el) (build_all els)
            (λ o arr. o ∷ arr))

    json_members-checked :
        (mems : Members)
        → json_members mems ≡ checked (values_representable mems) (build_entries mems)
    json_members-checked no_members = refl
    json_members-checked (member name value mems) =
        rw (json_to_msgpack-checked value, json_members-checked mems)
          (both (representable value) (values_representable mems) (build value) (build_entries mems)
            (λ o vec. (b.of_str name, o) ∷ vec))

  -- A document is turned into the object that stands for it if all its numbers are doubles or fit an
  -- int64_t; otherwise std::logic_error is thrown.
  pub json_to_msgpack-build :
      (j : Json) → json_to_msgpack j ≡ (if representable j then ok (build j) else throw logic_error)
  json_to_msgpack-build j = json_to_msgpack-checked j

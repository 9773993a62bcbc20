-- ===== src/Tools/Json/Text.antt =====
-- A JSON document through json_to_msgpack and back to text by append_msgpack.
use eshetcpp.Base.{suc, ◌≡◌, refl, ap, ◌∙◌, true, ◌++◌, length, ok}
use eshetcpp.Base.Bytes.{Bytes}
use eshetcpp.Base.Int.{ℤ, pos, negsuc}
use eshetcpp.Msgpack.{Msgpack, Objects, Builds, parse_items, parse_entries}
use eshetcpp.Stringize.{append_msgpack}
use eshetcpp.Stringize.Render.{
  Tree, Items, Entries, callbacks, item_callbacks, entry_callbacks, count, count_entries, IsSmall,
  AreSmall, EntriesAreSmall, render, append_msgpack-render,
}
use eshetcpp.Tools.Json.{
  Json, Elements, Members, null, boolean, double, int64, uint64, string, array, object, no_elements,
  element, no_members, member, json_to_msgpack,
}
use eshetcpp.Tools.Json.Build.{
  representable, build, build_all, build_entries, json_to_msgpack-build,
}

abbrev pub integer : ℤ → Tree
integer (pos n) = Tree.positive_integer n
integer (negsuc n) = Tree.negative_integer (negsuc n)

-- The document as a tree; a large number is not a part of any that is representable.
unfoldable mutual
  pub tree : Json → Tree
  tree null = Tree.nil
  tree (boolean v) = Tree.boolean v
  tree (double v) = Tree.float64 v
  tree (int64 v) = integer v
  tree (uint64 v) = Tree.nil
  tree (string s) = Tree.str s
  tree (array els) = Tree.array (items els)
  tree (object mems) = Tree.object (entries mems)

  pub items : Elements → Items
  items no_elements = Items.no_items
  items (element el els) = Items.item (tree el) (items els)

  pub entries : Members → Entries
  entries no_members = Entries.no_entries
  entries (member name value mems) = Entries.entry (Tree.str name) (tree value) (entries mems)

module _ {Obj : Type 0} ⦃m : Msgpack Obj⦄ ⦃b : Objects Obj⦄ (builds : Builds m b) where
  length-build_all : (els : Elements) → length (build_all {Obj = Obj} els) ≡ count (items els)
  unfolding tree build count
  length-build_all no_elements = refl
  length-build_all (element el els) = ap suc (length-build_all els)

  length-build_entries :
      (mems : Members) → length (build_entries {Obj = Obj} mems) ≡ count_entries (entries mems)
  unfolding tree build count_entries
  length-build_entries no_members = refl
  length-build_entries (member name value mems) = ap suc (length-build_entries mems)

  mutual
    unfolding tree build count count_entries IsSmall callbacks

    parse-build : (j : Json) → IsSmall (tree j) → m.parse (build j) ≡ callbacks (tree j)
    parse-build null h = builds.parse-nil
    parse-build (boolean v) h = builds.parse-of_bool v
    parse-build (double v) h = builds.parse-of_double v
    parse-build (int64 (pos n)) h = builds.parse-of_int64_pos n
    parse-build (int64 (negsuc n)) h = builds.parse-of_int64_negsuc n
    parse-build (uint64 v) h = builds.parse-nil
    parse-build (string s) h = builds.parse-of_str s
    parse-build (array els) h =
        builds.parse-of_array (build_all els) (rw (length-build_all els) h.0)
        ∙ rw (length-build_all els, parse_items-build els h.1) refl
    parse-build (object mems) h =
        builds.parse-of_map (build_entries mems) (rw (length-build_entries mems) h.0)
        ∙ rw (length-build_entries mems, parse_entries-build mems h.1) refl

    parse_items-build :
        (els : Elements)
        → AreSmall (items els)
        → parse_items m (build_all els) ≡ item_callbacks (items els)
    parse_items-build no_elements h = refl
    parse_items-build (element el els) h = rw (parse-build el h.0, parse_items-build els h.1) refl

    parse_entries-build :
        (mems : Members)
        → EntriesAreSmall (entries mems)
        → parse_entries m (build_entries mems) ≡ entry_callbacks (entries mems)
    parse_entries-build no_members h = refl
    parse_entries-build (member name value mems) h =
        rw (builds.parse-of_str name, parse-build value h.1, parse_entries-build mems h.2) refl

  -- A document whose numbers are doubles or fit an int64_t, and whose arrays and objects have less
  -- than 2 ^ 32 entries, is turned into an object, and the text of that object is that of the
  -- document as a tree.
  pub json_to_msgpack-text :
      (j : Json) (s : Bytes)
      → representable j ≡ true
      → IsSmall (tree j)
      → (json_to_msgpack {Obj = Obj} j ≡ ok (build j))
        × (append_msgpack {Obj = Obj} s (build j) ≡ ok (s ++ render (tree j)))
  json_to_msgpack-text j s r h = (
    json_to_msgpack-build j ∙ rw r refl,
    append_msgpack-render (build j) (tree j) s (parse-build j h) h,
  )

-- ===== src/Stringize/Render.antt =====
-- Objects as trees: the callbacks that object_parser makes on a tree, and its text by recursion.
use eshetcpp.Base.{
  ℕ, suc, ◌+◌, ◌-◌, ◌%◌, ◌^◌, ◌<◌, ◌≡◌, refl, Bool, List, [], ◌∷◌, ◌++◌, append-nil, append_assoc,
  arith, if◌then◌else◌, ok, ◌==◌,
}
use eshetcpp.Base.Bytes.{Bytes}
use eshetcpp.Base.Int.{ℤ}
use eshetcpp.Base.Text.{codes, decimal, decimal_ℤ, float32_text, float64_text}
use eshetcpp.Msgpack.{
  Msgpack, Visit, visit_nil, visit_boolean, visit_positive_integer, visit_negative_integer,
  visit_float32, visit_float64, visit_str, visit_bin, visit_ext, start_array, start_array_item,
  end_array_item, end_array, start_map, start_map_key, end_map_key, start_map_value, end_map_value,
  end_map,
}
use eshetcpp.Stringize.{Visitor, count_down, visit, visits, escape_all, append_msgpack}

mutual
  pub data Tree : Type 0 where
    nil : Tree
    boolean : Bool → Tree
    positive_integer : ℕ → Tree
    negative_integer : ℤ → Tree
    float32 float64 : ℕ → Tree
    str bin ext : Bytes → Tree
    array : Items → Tree
    object : Entries → Tree

  pub data Items : Type 0 where
    no_items : Items
    item : Tree → Items → Items

  pub data Entries : Type 0 where
    no_entries : Entries
    entry : Tree → Tree → Entries → Entries

unfoldable pub count : Items → ℕ
count no_items = 0
count (item t ts) = suc (count ts)

unfoldable pub count_entries : Entries → ℕ
count_entries no_entries = 0
count_entries (entry k v es) = suc (count_entries es)

unfoldable mutual
  unfolding count count_entries

  pub callbacks : Tree → List Visit
  callbacks nil = visit_nil ∷ []
  callbacks (boolean b) = visit_boolean b ∷ []
  callbacks (positive_integer n) = visit_positive_integer n ∷ []
  callbacks (negative_integer n) = visit_negative_integer n ∷ []
  callbacks (float32 f) = visit_float32 f ∷ []
  callbacks (float64 f) = visit_float64 f ∷ []
  callbacks (str s) = visit_str s ∷ []
  callbacks (bin s) = visit_bin s ∷ []
  callbacks (ext s) = visit_ext s ∷ []
  callbacks (array ts) = start_array (count ts) ∷ item_callbacks ts ++ end_array ∷ []
  callbacks (object es) = start_map (count_entries es) ∷ entry_callbacks es ++ end_map ∷ []

  pub item_callbacks : Items → List Visit
  item_callbacks no_items = []
  item_callbacks (item t ts) = start_array_item ∷ callbacks t ++ end_array_item ∷ item_callbacks ts

  pub entry_callbacks : Entries → List Visit
  entry_callbacks no_entries = []
  entry_callbacks (entry k v es) =
      start_map_key ∷ callbacks k
      ++ (end_map_key ∷ start_map_value ∷ callbacks v ++ end_map_value ∷ entry_callbacks es)

-- A comma between two items, and none behind the last.
abbrev comma : ℕ → Bytes
comma left = if left == 0 then [] else b',' ∷ []

unfoldable mutual
  unfolding count count_entries

  pub render : Tree → Bytes
  render nil = codes "null"
  render (boolean b) = if b then codes "true" else codes "false"
  render (positive_integer n) = decimal n
  render (negative_integer n) = decimal_ℤ n
  render (float32 f) = float32_text f
  render (float64 f) = float64_text f
  render (str s) = b'"' ∷ escape_all s ++ b'"' ∷ []
  render (bin s) = b'"' ∷ s ++ b'"' ∷ []
  render (ext s) = codes "EXT"
  render (array ts) = b'[' ∷ render_items ts ++ b']' ∷ []
  render (object es) = b'{' ∷ render_entries es ++ b'}' ∷ []

  pub render_items : Items → Bytes
  render_items no_items = []
  render_items (item t ts) = render t ++ (comma (count ts) ++ render_items ts)

  pub render_entries : Entries → Bytes
  render_entries no_entries = []
  render_entries (entry k v es) =
      render k ++ (b':' ∷ render v ++ (comma (count_entries es) ++ render_entries es))

-- The counts of msgpack are 32 bits wide.
unfoldable mutual
  unfolding count count_entries

  pub IsSmall : Tree → Type 0
  IsSmall (array ts) = (count ts < 2 ^ 32) × AreSmall ts
  IsSmall (object es) = (count_entries es < 2 ^ 32) × EntriesAreSmall es
  IsSmall _ = Unit

  pub AreSmall : Items → Type 0
  AreSmall no_items = Unit
  AreSmall (item t ts) = IsSmall t × AreSmall ts

  pub EntriesAreSmall : Entries → Type 0
  EntriesAreSmall no_entries = Unit
  EntriesAreSmall (entry k v es) = IsSmall k × IsSmall v × EntriesAreSmall es

abbrev at : Bytes → List ℕ → Visitor
at s sizes = record { s = s; m_current_size = sizes }

-- One `--back()` on a count that is not 0.
count_down-at :
    (s : Bytes) (k : ℕ) (sizes : List ℕ)
    → k < 2 ^ 32 - 1
    → count_down (suc k ∷ sizes) (at s (suc k ∷ sizes)) ≡ ok (at (s ++ comma k) (k ∷ sizes))
unfolding count_down
count_down-at s k sizes h =
    let back : (suc k + (2 ^ 32 - 1)) % 2 ^ 32 ≡ k = omega arith in
    ground (arith, back, append-nil s)

-- The rest of the callbacks go on behind the text so far.
abbrev After : List Visit → Bytes → List ℕ → Bytes → List ℕ → Type 0
After cs s sizes s' sizes' =
    (more : List Visit) → visits (cs ++ more) (at s sizes) ≡ visits more (at s' sizes')

mutual
  unfolding visits visit callbacks render IsSmall count

  After-callbacks :
      (t : Tree) (s : Bytes) (sizes : List ℕ)
      → IsSmall t
      → After (callbacks t) s sizes (s ++ render t) sizes
  After-callbacks nil s sizes h more = refl
  After-callbacks (boolean b) s sizes h more = refl
  After-callbacks (positive_integer n) s sizes h more = refl
  After-callbacks (negative_integer n) s sizes h more = refl
  After-callbacks (float32 f) s sizes h more = refl
  After-callbacks (float64 f) s sizes h more = refl
  After-callbacks (str x) s sizes h more = refl
  After-callbacks (bin x) s sizes h more = refl
  After-callbacks (ext x) s sizes h more = refl
  After-callbacks (array ts) s sizes h more =
      rw
        (
          append_assoc (item_callbacks ts) (end_array ∷ []) more,
          After-item_callbacks ts (s ++ b'[' ∷ []) sizes h.0 h.1 (end_array ∷ more),
        )
        (simp append_assoc)
  After-callbacks (object es) s sizes h more =
      rw
        (
          append_assoc (entry_callbacks es) (end_map ∷ []) more,
          After-entry_callbacks es (s ++ b'{' ∷ []) sizes h.0 h.1 (end_map ∷ more),
        )
        (simp append_assoc)

  After-item_callbacks :
      (ts : Items) (s : Bytes) (sizes : List ℕ)
      → count ts < 2 ^ 32
      → AreSmall ts
      → After (item_callbacks ts) s (count ts ∷ sizes) (s ++ render_items ts) (0 ∷ sizes)
  After-item_callbacks no_items s sizes c h more = rw (append-nil s)
  After-item_callbacks (item t ts) s sizes c h more =
      rw
        (
          append_assoc (callbacks t) (end_array_item ∷ item_callbacks ts) more,
          After-callbacks t s (suc (count ts) ∷ sizes) h.0
              (end_array_item ∷ item_callbacks ts ++ more),
          count_down-at (s ++ render t) (count ts) sizes (omega arith),
          After-item_callbacks ts ((s ++ render t) ++ comma (count ts)) sizes (omega arith) h.1
              more,
        )
        (simp append_assoc)

  After-entry_callbacks :
      (es : Entries) (s : Bytes) (sizes : List ℕ)
      → count_entries es < 2 ^ 32
      → EntriesAreSmall es
      → After (entry_callbacks es) s (count_entries es ∷ sizes) (s ++ render_entries es) (0 ∷ sizes)
  After-entry_callbacks no_entries s sizes c h more = rw (append-nil s)
  After-entry_callbacks (entry k v es) s sizes c h more =
      let value : List Visit =
        start_map_value ∷ callbacks v ++ end_map_value ∷ entry_callbacks es in
      let s' : Bytes = s ++ render k ++ b':' ∷ [] in
      rw
        (
          append_assoc (callbacks k) (end_map_key ∷ value) more,
          After-callbacks k s (suc (count_entries es) ∷ sizes) h.0 (end_map_key ∷ value ++ more),
          append_assoc (callbacks v) (end_map_value ∷ entry_callbacks es) more,
          After-callbacks v s' (suc (count_entries es) ∷ sizes) h.1
              (end_map_value ∷ entry_callbacks es ++ more),
          count_down-at (s' ++ render v) (count_entries es) sizes (omega arith),
          After-entry_callbacks es ((s' ++ render v) ++ comma (count_entries es)) sizes
              (omega arith) h.2 more,
        )
        (simp append_assoc)

module _ {Obj : Type 0} ⦃m : Msgpack Obj⦄ where
  -- An object on which object_parser makes the callbacks of a tree, with counts of 32 bits, is
  -- appended as the text of that tree; no size is missing, and what was there before stays.
  pub append_msgpack-render :
      (o : Obj) (t : Tree) (s : Bytes)
      → m.parse o ≡ callbacks t
      → IsSmall t
      → append_msgpack s o ≡ ok (s ++ render t)
  unfolding append_msgpack
  append_msgpack-render o t s e h =
      rw (e, ← append-nil (callbacks t), After-callbacks t s [] h []) (unfold visits in refl)

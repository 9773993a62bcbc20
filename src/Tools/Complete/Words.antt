-- ===== src/Tools/Complete/Words.antt =====
-- What split_path and the completions of a path promise.
use eshetcpp.Base.{
  ◌↔◌, suc, ◌≡◌, ◌≢◌, refl, sym, ap, ◌∙◌, true, List, [], ◌∷◌, ◌++◌, none, some, length, take, drop,
  All, append_assoc, arith, Bool-cases, inl, inr, take-append-drop, take-append,
}
use eshetcpp.Base.Bytes.{Bytes}
use eshetcpp.Base.SortedMap.{bytes_beq, bytes_beq_iff}
use eshetcpp.Base.Text.{codes}
use eshetcpp.Tools.Complete.{find_last_of, split_path, starts, completion, completions}

abbrev pub NoSlash : Bytes → Type 0
NoSlash = All (λ b. b ≢ b'/')

find_last_of-none : (name : Bytes) → NoSlash name → find_last_of b'/' name ≡ none
unfolding find_last_of
find_last_of-none [] h = refl
find_last_of-none (b ∷ bs) h = rw (find_last_of-none bs h.1) (ground arith)

find_last_of-append :
    (dir name : Bytes) → NoSlash name → find_last_of b'/' (dir ++ b'/' ∷ name) ≡ some (length dir)
unfolding find_last_of
find_last_of-append [] name h = rw (find_last_of-none name h)
find_last_of-append (b ∷ bs) name h = rw (find_last_of-append bs name h)

drop-front : (dir name : Bytes) → drop (suc (length dir)) (dir ++ b'/' ∷ name) ≡ name
drop-front [] name = refl
drop-front (b ∷ bs) name = drop-front bs name

-- A path with a slash is split behind the last one: a directory with its slash, and a name without
-- any.
pub split_path-append :
    (dir name : Bytes) → NoSlash name → split_path (dir ++ b'/' ∷ name) ≡ (dir ++ b'/' ∷ [], name)
unfolding split_path
split_path-append dir name h =
    rw (
      split_path,
      find_last_of-append dir name h,
      take-append dir (b'/' ∷ name),
      drop-front dir name,
    )

-- It goes on from this text.
abbrev pub Extends : Bytes → Bytes → Type 0
Extends word line = (rest : Bytes) × (line ≡ word ++ rest)

starts-prefix : (name prefix : Bytes) → starts name prefix ≡ true → Extends prefix name
unfolding starts
starts-prefix name prefix e = (
  drop (length prefix) name,
  sym (take-append-drop (length prefix) name)
      ∙ ap (λ l. l ++ drop (length prefix) name)
          ((bytes_beq_iff (take (length prefix) name) prefix).0 e),
)

completion-Extends :
    (dir type name prefix : Bytes)
    → Extends prefix name
    → Extends (dir ++ prefix) (completion dir type name)
unfolding completion
completion-Extends dir type name prefix (rest, e) =
    elim (Bool-cases (bytes_beq type (codes "dir"))) [
      | inl is ↦ (rest ++ codes "/", rw (is, e) (simp append_assoc))
      | inr not ↦ (rest ++ codes " ", rw (not, e) (simp append_assoc))
    ]

-- Every line that is offered goes on from the word that was begun: the directory and the prefix.
pub completions-Extends :
    (dir prefix : Bytes) (entries : List (Bytes × Bytes))
    → All (Extends (dir ++ prefix)) (completions dir prefix entries)
unfolding completions
completions-Extends dir prefix [] = tt
completions-Extends dir prefix ((name, type) ∷ entries) = elim (Bool-cases (starts name prefix)) [
  | inl is ↦ rw is (
    completion-Extends dir type name prefix (starts-prefix name prefix is),
    completions-Extends dir prefix entries,
  )
  | inr not ↦ rw not (completions-Extends dir prefix entries)
]

-- The lines to offer for these entries, in their order: the name of an entry is its first component. A
-- name that goes on from the prefix gives one line, which ends in a slash if the type is "dir" and in a
-- space otherwise; any other name gives none.
pub data Offers (dir prefix : Bytes) : List (Bytes × Bytes) → List Bytes → Type 0 where
  nothing : Offers dir prefix [] []
  skips :
      {entries : List (Bytes × Bytes)} {lines : List Bytes} (name type : Bytes)
      → (Extends prefix name → ⊥)
      → Offers dir prefix entries lines
      → Offers dir prefix ((name, type) ∷ entries) lines
  directory :
      {entries : List (Bytes × Bytes)} {lines : List Bytes} (name type : Bytes)
      → Extends prefix name
      → type ≡ codes "dir"
      → Offers dir prefix entries lines
      → Offers dir prefix ((name, type) ∷ entries) ((dir ++ (name ++ codes "/")) ∷ lines)
  leaf :
      {entries : List (Bytes × Bytes)} {lines : List Bytes} (name type : Bytes)
      → Extends prefix name
      → type ≢ codes "dir"
      → Offers dir prefix entries lines
      → Offers dir prefix ((name, type) ∷ entries) ((dir ++ (name ++ codes " ")) ∷ lines)

prefix-starts : (name prefix : Bytes) → Extends prefix name → starts name prefix ≡ true
unfolding starts
prefix-starts name prefix (rest, e) =
    (bytes_beq_iff (take (length prefix) name) prefix).1
      (ap (take (length prefix)) e ∙ take-append prefix rest)

entry-Offers :
    (dir prefix name type : Bytes) (entries : List (Bytes × Bytes)) (lines : List Bytes)
    → Extends prefix name
    → Offers dir prefix entries lines
    → Offers dir prefix ((name, type) ∷ entries) (completion dir type name ∷ lines)
unfolding completion
entry-Offers dir prefix name type entries lines ext h =
    elim (Bool-cases (bytes_beq type (codes "dir"))) [
      | inl is ↦ rw is (directory name type ext ((bytes_beq_iff type (codes "dir")).0 is) h)
      | inr not ↦
          rw not
            (leaf name type ext (λ e. let yes = (bytes_beq_iff type (codes "dir")).1 e in cc) h)
    ]

completions-offered :
    (dir prefix : Bytes) (entries : List (Bytes × Bytes))
    → Offers dir prefix entries (completions dir prefix entries)
unfolding completions
completions-offered dir prefix [] = nothing
completions-offered dir prefix ((name, type) ∷ entries) =
    let h = completions-offered dir prefix entries in
    elim (Bool-cases (starts name prefix)) [
      | inl is ↦
          rw is (entry-Offers dir prefix name type entries _ (starts-prefix name prefix is) h)
      | inr not ↦ rw not (skips name type (λ ext. let yes = prefix-starts name prefix ext in cc) h)
    ]

offered-completions :
    (dir prefix : Bytes) (entries : List (Bytes × Bytes)) (lines : List Bytes)
    → Offers dir prefix entries lines
    → lines ≡ completions dir prefix entries
unfolding completions completion
offered-completions dir prefix _ _ nothing = refl
offered-completions dir prefix _ _ (skips {entries} {lines} name type other h) =
    elim (Bool-cases (starts name prefix)) [
      | inl is ↦ absurd (other (starts-prefix name prefix is))
      | inr not ↦ rw not (offered-completions dir prefix entries lines h)
    ]
offered-completions dir prefix _ _ (directory {entries} {lines} name type ext is h) =
    rw
      (
        prefix-starts name prefix ext,
        (bytes_beq_iff type (codes "dir")).1 is,
        offered-completions dir prefix entries lines h,
      )
      refl
offered-completions dir prefix _ _ (leaf {entries} {lines} name type ext other h) =
    elim (Bool-cases (bytes_beq type (codes "dir"))) [
      | inl is ↦ absurd (other ((bytes_beq_iff type (codes "dir")).0 is))
      | inr not ↦
          rw (prefix-starts name prefix ext, not, offered-completions dir prefix entries lines h)
            refl
    ]

-- The lines that `completions` gives are those to offer for the entries, and no others are.
pub completions-Offers :
    (dir prefix : Bytes) (entries : List (Bytes × Bytes)) (lines : List Bytes)
    → Offers dir prefix entries lines ↔ (lines ≡ completions dir prefix entries)
completions-Offers dir prefix entries lines = (
  offered-completions dir prefix entries lines,
  λ e. rw e (completions-offered dir prefix entries),
)

-- ===== src/Tools/Complete.antt =====
-- src/complete.cpp: the words that a shell offers for a path that was begun.
--
-- The entries are the pairs that the server's /meta/ls gave for the directory. `std::tie(name, type)`
-- takes the first of a pair for the name and the second for the type, while a comment of main says
-- that each is [type, name]. The lines are what main prints, each without its newline.
pub mod Words
pub mod Program
use eshetcpp.Base.{
  ℕ, zero, suc, Bool, List, [], ◌∷◌, ◌++◌, Option, none, some, length, take, drop, ◌==◌,
  if◌then◌else◌,
}
use eshetcpp.Base.Bytes.{Bytes}
use eshetcpp.Base.SortedMap.{bytes_beq}
use eshetcpp.Base.Text.{codes}

-- Where the last byte of this value stands.
abbrev pub later : Bool → Option ℕ → Option ℕ
later here (some n) = some (suc n)
later here none = if here then some 0 else none

unfoldable pub find_last_of : ℕ → Bytes → Option ℕ
find_last_of x [] = none
find_last_of x (b ∷ bs) = later (b == x) (find_last_of x bs)

unfoldable pub split_path : Bytes → Bytes × Bytes
unfolding find_last_of
split_path path = elim (find_last_of b'/' path) [
  | none ↦ ([], [])
  | some last_slash ↦ (take last_slash path ++ codes "/", drop (suc last_slash) path)
]

-- `name.substr(0, prefix.size()) == prefix`
unfoldable pub starts : Bytes → Bytes → Bool
starts name prefix = bytes_beq (take (length prefix) name) prefix

unfoldable pub completion : Bytes → Bytes → Bytes → Bytes
completion dir_part type name =
    if bytes_beq type (codes "dir")
    then dir_part ++ (name ++ codes "/")
    else dir_part ++ (name ++ codes " ")

-- The loop of main over the entries.
unfoldable pub completions : Bytes → Bytes → List (Bytes × Bytes) → List Bytes
unfolding starts completion
completions dir_part prefix [] = []
completions dir_part prefix ((name, type) ∷ entries) =
    let rest = completions dir_part prefix entries in
    if starts name prefix then completion dir_part type name ∷ rest else rest

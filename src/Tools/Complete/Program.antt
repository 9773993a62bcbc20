-- ===== src/Tools/Complete/Program.antt =====
-- main of src/complete.cpp, and `error`, which it calls.
pub mod Listing
use eshetcpp.Base.{
  ℕ, Bool, true, false, List, [], ◌∷◌, ◌++◌, Option, none, some, ltb, ◌==◌, length, get_elem?,
  if◌then◌else◌, not, type_error, undefined,
}
use eshetcpp.Base.Bytes.{Bytes}
use eshetcpp.Base.SortedMap.{bytes_beq}
use eshetcpp.Base.Text.{codes}
use eshetcpp.Msgpack.{Objects}
use eshetcpp.Data.{Result}
use eshetcpp.Client.Api.{action_call_pack, exit}
use eshetcpp.Tools.Json.{uncaught, exited}
use eshetcpp.Tools.Session.{
  Session, done, Program, and_then, ◌>>=◌, ◌>>◌, pure, stop, ask, print_line, print_error,
  start_client, read_result,
}
use eshetcpp.Tools.Complete.{split_path, completions}

module _ {Obj : Type 0} where
  unfoldable pub error : {A : Type 0} → Bytes → Program Obj A
  error msg = print_error msg >> stop (exited 1)

  -- The output of the loop over the entries.
  unfoldable pub print_lines : List Bytes → Program Obj (Unit {0})
  print_lines [] = pure tt
  print_lines (line ∷ rest) = print_line line >> print_lines rest

  -- as<T>(), which throws a type_error.
  abbrev pub as_or_throw : {A : Type 0} → Option A → Program Obj A
  as_or_throw none = stop (uncaught type_error)
  as_or_throw (some a) = pure a

module _ {Obj : Type 0} ⦃b : Objects Obj⦄ where
  -- The pair of "dir" and the entries.
  unfoldable pub show_listing : Bytes → Bytes → List Obj → Program Obj ℕ
  unfolding error print_lines
  show_listing dir_part prefix (type ∷ listing ∷ []) = do
    name ← as_or_throw (b.as_string type)
    (if bytes_beq name (codes "dir") then pure tt else error (codes "expected type to be \"dir\""))
    entries ← as_or_throw (b.as_pairs listing)
    print_lines (completions dir_part prefix entries)
    pure 0
  show_listing dir_part prefix _ = error (codes "expected result to be a pair")

  unfoldable pub show_elements : Bytes → Bytes → Option (List Obj) → Program Obj ℕ
  unfolding show_listing
  show_elements dir_part prefix none = pure 1
  show_elements dir_part prefix (some elements) = show_listing dir_part prefix elements

  unfoldable pub show_reply : Bytes → Bytes → Result Obj → Program Obj ℕ
  unfolding show_elements
  show_reply dir_part prefix (Result.error value) = pure 0
  show_reply dir_part prefix (Result.success value) =
      show_elements dir_part prefix (b.elements value)

  -- `word = argv[2]`, behind the test of argc.
  unfoldable pub read_word : List Bytes → Program Obj Bytes
  unfolding error
  read_word (program ∷ command ∷ word ∷ rest) = pure word
  read_word _ = error (codes "expected three arguments")

  -- The arguments of /meta/ls are a tuple of one string.
  unfoldable pub main : List Bytes → Program Obj ℕ
  unfolding start_client read_word split_path read_result show_reply
  main argv = do
    start_client
    word ← read_word argv
    let parts = split_path word
    ask (action_call_pack (codes "/meta/ls") 0 (b.of_array (b.of_str parts.0 ∷ [])))
    res ← read_result
    ask exit
    show_reply parts.0 parts.1 res

-- ===== src/Tools/Complete/Program/Listing.antt =====
-- What the completion program prints for each reply to /meta/ls.
use eshetcpp.Base.{
  ℕ, ◌<◌, ◌≡◌, refl, true, List, [], ◌∷◌, ◌++◌, length, none, some, ok, arith, append-nil,
  append_assoc,
}
use eshetcpp.Base.Bytes.{Bytes}
use eshetcpp.Base.Int.{ℤ}
use eshetcpp.Base.Text.{codes}
use eshetcpp.Base.SortedMap.{bytes_beq, bytes_beq_iff}
use eshetcpp.Msgpack.{Objects}
use eshetcpp.Data.{Result}
use eshetcpp.Client.Api.{action_call_pack, exit}
use eshetcpp.Client.Start.{new_client_at, default_timeouts}
use eshetcpp.Tools.Host.{get_host_port}
use eshetcpp.Tools.Json.{exited}
use eshetcpp.Tools.Session.{Session, Ran, done, stopped, read_result}
use eshetcpp.Tools.Cli.Commands.{start_client-ok}
use eshetcpp.Tools.Complete.{split_path, completions}
use eshetcpp.Tools.Complete.Words.{Offers, completions-Offers}
use eshetcpp.Tools.Complete.Program.{
  print_lines, show_listing, show_elements, show_reply, read_word, error, main,
}

module _ {Obj : Type 0} where
  print_lines-append :
      (lines : List Bytes) (s : Session Obj)
      → print_lines lines s ≡ done tt (record s { output = s.output ++ lines })
  unfolding print_lines
  print_lines-append [] s = rw (append-nil s.output) refl
  print_lines-append (line ∷ rest) s =
      rw
        (
          print_lines-append rest (record s { output = s.output ++ line ∷ [] }),
          append_assoc s.output (line ∷ []) rest,
        )
        refl

module _ {Obj : Type 0} ⦃b : Objects Obj⦄ where
  -- A success with a pair of "dir" and entries.
  pub record Lists (o : Obj) (entries : List (Bytes × Bytes)) : Type 0 where
    pub type : Obj
    pub listing : Obj
    pub pair : b.elements o ≡ some (type ∷ listing ∷ [])
    pub is_dir : b.as_string type ≡ some (codes "dir")
    pub has_entries : b.as_pairs listing ≡ some entries

  -- The client was asked to list the directory, and then to exit.
  abbrev pub asked_ls : Bytes → Bytes × ℤ → List (Result Obj) → Session Obj → Session Obj
  asked_ls dir hostport rest s = record s {
    client = some (
        exit (
          action_call_pack (codes "/meta/ls") 0 (b.of_array (b.of_str dir ∷ []))
            (new_client_at hostport none default_timeouts)));
    results = rest;
  }

  shown :
      (dir prefix : Bytes) (o : Obj) (entries : List (Bytes × Bytes)) (s : Session Obj)
      → Lists o entries
      → show_reply dir prefix (Result.success o) s
        ≡ done 0 (record s { output = s.output ++ completions dir prefix entries })
  unfolding show_reply show_elements show_listing
  shown dir prefix o entries s l =
      let dir_self : bytes_beq (codes "dir") (codes "dir") ≡ true =
        (bytes_beq_iff (codes "dir") (codes "dir")).1 refl in
      rw
        (
          l.pair,
          l.is_dir,
          dir_self,
          l.has_entries,
          print_lines-append (completions dir prefix entries) s,
        )
        refl

  -- With a word, a readable ESHET_SERVER and a listing as the first result, main asks for the listing
  -- of the directory part of the word, prints the lines to offer for its entries and the rest of the
  -- word, and returns 0. With an error as the result it prints nothing and returns 0.
  pub main-listing :
      (program command word : Bytes) (more : List Bytes) (s : Session Obj) (hostport : Bytes × ℤ)
      (o e : Obj) (entries : List (Bytes × Bytes)) (lines : List Bytes) (rest : List (Result Obj))
      → get_host_port s.eshet_server ≡ ok hostport
      → Lists o entries
      → Offers (split_path word).0 (split_path word).1 entries lines
      → let dir : Bytes = (split_path word).0 in
        let run : Result Obj → Ran Obj ℕ =
          λ r. main (program ∷ command ∷ word ∷ more) (record s { results = r ∷ rest }) in
        (run (Result.success o)
          ≡ done 0 (record (asked_ls dir hostport rest s) { output = s.output ++ lines }))
        × (run (Result.error e) ≡ done 0 (asked_ls dir hostport rest s))
  unfolding main read_word read_result
  main-listing program command word more s hostport o e entries lines rest h l offers =
      let parts : Bytes × Bytes = split_path word in
      (
        rw
            (
              start_client-ok (record s { results = Result.success o ∷ rest }) hostport h,
              (completions-Offers parts.0 parts.1 entries lines).0 offers,
            )
            (shown parts.0 parts.1 o entries (asked_ls parts.0 hostport rest s) l),
        rw (start_client-ok (record s { results = Result.error e ∷ rest }) hostport h)
            (unfold show_reply in refl),
      )

  -- With fewer than three arguments, and a readable ESHET_SERVER, main says so on the standard error
  -- and exits with 1; the client was asked for nothing.
  pub main-no_word :
      (argv : List Bytes) (s : Session Obj) (hostport : Bytes × ℤ)
      → length argv < 3
      → get_host_port s.eshet_server ≡ ok hostport
      → main argv s
        ≡ stopped (exited 1) (record s {
          client = some (new_client_at hostport none default_timeouts);
          errors = s.errors ++ codes "expected three arguments" ∷ [];
        })
  unfolding main read_word error
  main-no_word [] s hostport n h = rw (start_client-ok s hostport h) refl
  main-no_word (a ∷ []) s hostport n h = rw (start_client-ok s hostport h) refl
  main-no_word (a ∷ c ∷ []) s hostport n h = rw (start_client-ok s hostport h) refl
  main-no_word (a ∷ c ∷ d ∷ rest) s hostport n h = absurd (omega arith)

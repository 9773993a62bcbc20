-- ===== src/Client/Body/Readers.antt =====
-- The bodies of messages as readers of lists, and what they make of well-formed bodies.
use eshetcpp.Base.{ℕ, ◌≡◌, refl, ap, ◌∙◌, arith, Except, ok, throw}
use eshetcpp.Base.Bytes.{Bytes}
use eshetcpp.Msgpack.{Msgpack}
use eshetcpp.Wire.Parser.{
  Parser, Read, parser, ◌>>=◌, ◌>>◌, pure, read16, read32, read_string, read_msgpack, check_empty,
}
use eshetcpp.Wire.Parser.Readers.{Get, ◌>=>◌, get16, get32, get_string, get_msgpack, get_end}
use eshetcpp.Wire.Parser.Refinement.{
  Refines, observe, bind-Refines, pure-Refines, read16-Refines, read32-Refines, read_string-Refines,
  read_msgpack-Refines, check_empty-Refines,
}
use eshetcpp.Client.Body.{
  run, value_of, id_only, id_time, path_only, id_msgpack, id_time_msgpack, id_path_msgpack,
  path_msgpack, just_msgpack,
}

abbrev pub result : {A : Type 0} → Except (A × Bytes) → Except A
result (ok (a, rest)) = ok a
result (throw e) = throw e

value_of-observe : {A : Type 0} (x : Except (A × Parser)) → value_of x ≡ result (observe x)
value_of-observe (ok (a, p)) = refl
value_of-observe (throw e) = refl

pub run-Refines :
    {A : Type 0} (r : Read A) (g : Get A) (body : Bytes)
    → Refines r g
    → run r body ≡ result (g body)
unfolding run
run-Refines r g body h =
    value_of-observe (r (parser body)) ∙ ap result (h (parser body) (omega arith)).0

-- The value, if nothing is left behind it.
abbrev pub finish : {A : Type 0} → A → Get A
finish a = get_end >=> λ _ rest. ok (a, rest)

abbrev finished : {A : Type 0} → A → Read A
finished a = check_empty >> pure a

finished-Refines : {A : Type 0} (a : A) → Refines (finished a) (finish a)
finished-Refines a =
    bind-Refines check_empty get_end (λ _. pure a) (λ _ rest. ok (a, rest)) check_empty-Refines
      λ _. pure-Refines a

abbrev pub id_only_reader : Get ℕ
id_only_reader = get16 >=> finish

pub id_only-Refines : Refines id_only id_only_reader
unfolding id_only
id_only-Refines = bind-Refines read16 get16 finished finish read16-Refines finished-Refines

abbrev pub path_only_reader : Get Bytes
path_only_reader = get_string >=> finish

pub path_only-Refines : Refines path_only path_only_reader
unfolding path_only
path_only-Refines =
    bind-Refines read_string get_string finished finish read_string-Refines finished-Refines

abbrev pub id_time_reader : Get (ℕ × ℕ)
id_time_reader = get16 >=> λ id. get32 >=> λ t. finish (id, t)

pub id_time-Refines : Refines id_time id_time_reader
unfolding id_time
id_time-Refines =
    bind-Refines read16 get16 _ _ read16-Refines
      λ id. bind-Refines read32 get32 _ _ read32-Refines λ t. finished-Refines (id, t)

module _ {Obj : Type 0} ⦃m : Msgpack Obj⦄ where
  msgpack-Refines :
      {B : Type 0} (f : Obj → B)
      → Refines (read_msgpack >>= λ oh. finished (f oh)) (get_msgpack >=> λ oh. finish (f oh))
  msgpack-Refines f =
      bind-Refines read_msgpack get_msgpack _ _ read_msgpack-Refines λ oh. finished-Refines (f oh)

  abbrev pub id_msgpack_reader : Get (ℕ × Obj)
  id_msgpack_reader = get16 >=> λ id. get_msgpack >=> λ oh. finish (id, oh)

  pub id_msgpack-Refines : Refines (id_msgpack {Obj = Obj}) id_msgpack_reader
  unfolding id_msgpack
  id_msgpack-Refines =
      bind-Refines read16 get16 _ _ read16-Refines λ id. msgpack-Refines (λ oh. (id, oh))

  abbrev pub id_time_msgpack_reader : Get (ℕ × ℕ × Obj)
  id_time_msgpack_reader = get16 >=> λ id. get32 >=> λ t. get_msgpack >=> λ oh. finish (id, t, oh)

  pub id_time_msgpack-Refines : Refines (id_time_msgpack {Obj = Obj}) id_time_msgpack_reader
  unfolding id_time_msgpack
  id_time_msgpack-Refines =
      bind-Refines read16 get16 _ _ read16-Refines
        λ id. bind-Refines read32 get32 _ _ read32-Refines λ t. msgpack-Refines (λ oh. (id, t, oh))

  abbrev pub id_path_msgpack_reader : Get (ℕ × Bytes × Obj)
  id_path_msgpack_reader =
      get16 >=> λ id. get_string >=> λ path. get_msgpack >=> λ oh. finish (id, path, oh)

  pub id_path_msgpack-Refines : Refines (id_path_msgpack {Obj = Obj}) id_path_msgpack_reader
  unfolding id_path_msgpack
  id_path_msgpack-Refines = bind-Refines read16 get16 _ _ read16-Refines λ id.
      bind-Refines read_string get_string _ _ read_string-Refines
        λ path. msgpack-Refines (λ oh. (id, path, oh))

  abbrev pub path_msgpack_reader : Get (Bytes × Obj)
  path_msgpack_reader = get_string >=> λ path. get_msgpack >=> λ oh. finish (path, oh)

  pub path_msgpack-Refines : Refines (path_msgpack {Obj = Obj}) path_msgpack_reader
  unfolding path_msgpack
  path_msgpack-Refines =
      bind-Refines read_string get_string _ _ read_string-Refines
        λ path. msgpack-Refines (λ oh. (path, oh))

  abbrev pub just_msgpack_reader : Get Obj
  just_msgpack_reader = get_msgpack >=> finish

  pub just_msgpack-Refines : Refines (just_msgpack {Obj = Obj}) just_msgpack_reader
  unfolding just_msgpack
  just_msgpack-Refines = msgpack-Refines (λ oh. oh)

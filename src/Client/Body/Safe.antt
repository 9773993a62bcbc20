-- ===== src/Client/Body/Safe.antt =====
-- The bodies of messages that handle_message of include/eshet.hpp parses, on any bytes at all.
use eshetcpp.Base.{
  ℕ, ◌≡◌, refl, ◌⊎◌, inl, inr, Bool, true, false, [], ◌∷◌, Option, none, some, ◌==◌, if◌then◌else◌,
  Except, ok, throw, Exception, protocol_error, unpack_error,
}
use eshetcpp.Base.Bytes.{Bytes}
use eshetcpp.Base.SortedMap.{nat_key, bytes_key}
use eshetcpp.Msgpack.{Msgpack}
use eshetcpp.Wire.Parser.{Read}
use eshetcpp.Wire.Parser.Readers.{
  Get, continue, ◌>=>◌, prepend, unpacked, get16, get32, get_string, get_msgpack,
}
use eshetcpp.Wire.Parser.Refinement.{Refines}
use eshetcpp.Client.Body.{
  run, id_only, id_time, path_only, id_msgpack, id_time_msgpack, id_path_msgpack, path_msgpack,
}
use eshetcpp.Client.Body.Readers.{
  result, finish, run-Refines, id_only_reader, id_time_reader, path_only_reader, id_msgpack_reader,
  id_time_msgpack_reader, id_path_msgpack_reader, path_msgpack_reader, id_only-Refines,
  id_time-Refines, path_only-Refines, id_msgpack-Refines, id_time_msgpack-Refines,
  id_path_msgpack-Refines, path_msgpack-Refines,
}

-- The exceptions of a malformed or unexpected message.
abbrev pub IsRefusal : Exception → Type 0
IsRefusal e = (e ≡ protocol_error) ⊎ (e ≡ unpack_error)

abbrev pub IsSafe : {A : Type 0} → Except A → Type 0
IsSafe (ok a) = Unit
IsSafe (throw e) = IsRefusal e

AllSafe : {A : Type 0} → Get A → Type 0
AllSafe g = (bs : Bytes) → IsSafe (g bs)

continue-IsSafe :
    {A B : Type 0} (x : Except (A × Bytes)) (k : A → Get B)
    → IsSafe x
    → ((a : A) → AllSafe (k a))
    → IsSafe (continue x k)
unfolding AllSafe
continue-IsSafe (ok (a, rest)) k h later = later a rest
continue-IsSafe (throw e) k h later = h

bind-AllSafe :
    {A B : Type 0} (g : Get A) (k : A → Get B)
    → AllSafe g
    → ((a : A) → AllSafe (k a))
    → AllSafe (g >=> k)
unfolding AllSafe
bind-AllSafe g k h later bs = continue-IsSafe (g bs) k (h bs) later

get16-AllSafe : AllSafe get16
unfolding AllSafe
get16-AllSafe [] = inl refl
get16-AllSafe (a ∷ []) = inl refl
get16-AllSafe (a ∷ b ∷ rest) = tt

get32-AllSafe : AllSafe get32
unfolding AllSafe
get32-AllSafe (a ∷ b ∷ c ∷ d ∷ rest) = tt
get32-AllSafe _ = inl refl

if-IsSafe :
    {A : Type 0} (b : Bool) (x y : Except A) → IsSafe x → IsSafe y → IsSafe (if b then x else y)
if-IsSafe true x y hx hy = hx
if-IsSafe false x y hx hy = hy

prepend-IsSafe : (b : ℕ) (x : Except (Bytes × Bytes)) → IsSafe x → IsSafe (prepend b x)
prepend-IsSafe b (ok (s, rest)) h = tt
prepend-IsSafe b (throw e) h = h

get_string-AllSafe : AllSafe get_string
unfolding AllSafe
get_string-AllSafe [] = inl refl
get_string-AllSafe (b ∷ rest) =
    if-IsSafe (b == 0) (ok ([], rest)) (prepend b (get_string rest)) tt
      (prepend-IsSafe b (get_string rest) (get_string-AllSafe rest))

finish-AllSafe : {A : Type 0} (a : A) → AllSafe (finish a)
unfolding AllSafe
finish-AllSafe a [] = tt
finish-AllSafe a (b ∷ rest) = inl refl

unpacked-IsSafe : {Obj : Type 0} (o : Option Obj) → IsSafe (unpacked o)
unpacked-IsSafe none = inr refl
unpacked-IsSafe (some o) = tt

get_msgpack-AllSafe : {Obj : Type 0} (m : Msgpack Obj) → AllSafe (get_msgpack ⦃m = m⦄)
unfolding AllSafe
get_msgpack-AllSafe m [] = inl refl
get_msgpack-AllSafe m (b ∷ rest) = unpacked-IsSafe (m.unpack (b ∷ rest))

run-IsSafe :
    {A : Type 0} (r : Read A) (g : Get A) (body : Bytes)
    → Refines r g
    → AllSafe g
    → IsSafe (run r body)
unfolding AllSafe
run-IsSafe r g body h s = rw (run-Refines r g body h) (result_safe (g body) (s body))
  where
    result_safe : {A : Type 0} (x : Except (A × Bytes)) → IsSafe x → IsSafe (result x)
    result_safe (ok (a, rest)) h = tt
    result_safe (throw e) h = h

module _ {Obj : Type 0} (m : Msgpack Obj) where
  pub id_msgpack-IsSafe : (body : Bytes) → IsSafe (run (id_msgpack ⦃m = m⦄) body)
  id_msgpack-IsSafe body =
      run-IsSafe (id_msgpack ⦃m = m⦄) (id_msgpack_reader ⦃m = m⦄) body (id_msgpack-Refines ⦃m = m⦄)
        (bind-AllSafe get16 _ get16-AllSafe λ id.
          bind-AllSafe (get_msgpack ⦃m = m⦄) _ (get_msgpack-AllSafe m)
            λ oh. finish-AllSafe (id, oh))

  pub id_time_msgpack-IsSafe : (body : Bytes) → IsSafe (run (id_time_msgpack ⦃m = m⦄) body)
  id_time_msgpack-IsSafe body =
      run-IsSafe (id_time_msgpack ⦃m = m⦄) (id_time_msgpack_reader ⦃m = m⦄) body
        (id_time_msgpack-Refines ⦃m = m⦄)
        (bind-AllSafe get16 _ get16-AllSafe λ id. bind-AllSafe get32 _ get32-AllSafe λ t.
          bind-AllSafe (get_msgpack ⦃m = m⦄) _ (get_msgpack-AllSafe m)
            λ oh. finish-AllSafe (id, t, oh))

  pub id_path_msgpack-IsSafe : (body : Bytes) → IsSafe (run (id_path_msgpack ⦃m = m⦄) body)
  id_path_msgpack-IsSafe body =
      run-IsSafe (id_path_msgpack ⦃m = m⦄) (id_path_msgpack_reader ⦃m = m⦄) body
        (id_path_msgpack-Refines ⦃m = m⦄)
        (bind-AllSafe get16 _ get16-AllSafe λ id.
          bind-AllSafe get_string _ get_string-AllSafe λ path.
            bind-AllSafe (get_msgpack ⦃m = m⦄) _ (get_msgpack-AllSafe m)
              λ oh. finish-AllSafe (id, path, oh))

  pub path_msgpack-IsSafe : (body : Bytes) → IsSafe (run (path_msgpack ⦃m = m⦄) body)
  path_msgpack-IsSafe body =
      run-IsSafe (path_msgpack ⦃m = m⦄) (path_msgpack_reader ⦃m = m⦄) body
        (path_msgpack-Refines ⦃m = m⦄)
        (bind-AllSafe get_string _ get_string-AllSafe λ path.
          bind-AllSafe (get_msgpack ⦃m = m⦄) _ (get_msgpack-AllSafe m)
            λ oh. finish-AllSafe (path, oh))

pub id_only-IsSafe : (body : Bytes) → IsSafe (run id_only body)
id_only-IsSafe body =
    run-IsSafe id_only id_only_reader body id_only-Refines
      (bind-AllSafe get16 finish get16-AllSafe finish-AllSafe)

pub path_only-IsSafe : (body : Bytes) → IsSafe (run path_only body)
path_only-IsSafe body =
    run-IsSafe path_only path_only_reader body path_only-Refines
      (bind-AllSafe get_string finish get_string-AllSafe finish-AllSafe)

pub id_time-IsSafe : (body : Bytes) → IsSafe (run id_time body)
id_time-IsSafe body = run-IsSafe id_time id_time_reader body id_time-Refines (
    bind-AllSafe get16 _ get16-AllSafe
      λ id. bind-AllSafe get32 _ get32-AllSafe λ t. finish-AllSafe (id, t))

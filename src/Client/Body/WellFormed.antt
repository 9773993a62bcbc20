-- ===== src/Client/Body/WellFormed.antt =====
-- What the bodies of well-formed messages parse to.
use eshetcpp.Base.{
  ℕ, ◌+◌, ◌*◌, ◌/◌, ◌%◌, ◌^◌, ◌<◌, ◌≡◌, ◌≢◌, refl, ◌∙◌, [], ◌∷◌, ◌++◌, All, arith, ok,
}
use eshetcpp.Base.Bytes.{Bytes}
use eshetcpp.Msgpack.{Msgpack, RoundTrips}
use eshetcpp.Wire.Parser.Readers.{get_string, get_msgpack}
use eshetcpp.Wire.SendBuf.Frames.{u16}
use eshetcpp.Client.Body.{
  run, id_only, id_time, path_only, id_msgpack, id_time_msgpack, id_path_msgpack, path_msgpack,
  just_msgpack,
}
use eshetcpp.Client.Body.Readers.{
  run-Refines, id_only_reader, path_only_reader, id_time_reader, id_msgpack_reader,
  id_time_msgpack_reader, id_path_msgpack_reader, path_msgpack_reader, just_msgpack_reader,
  id_only-Refines, id_time-Refines, path_only-Refines, id_msgpack-Refines, id_time_msgpack-Refines,
  id_path_msgpack-Refines, path_msgpack-Refines, just_msgpack-Refines,
}

-- 32 bits, the high byte first.
abbrev pub u32 : ℕ → Bytes
u32 n = n / 2 ^ 24 % 2 ^ 8 ∷ n / 2 ^ 16 % 2 ^ 8 ∷ n / 2 ^ 8 % 2 ^ 8 ∷ n % 2 ^ 8 ∷ []

-- A std::string that c_str() does not cut short.
abbrev pub NoZero : Bytes → Type 0
NoZero = All (λ b. b ≢ 0)

u16_value : (n : ℕ) → n < 2 ^ 16 → (n / 2 ^ 8 % 2 ^ 8 * 2 ^ 8 + n % 2 ^ 8) % 2 ^ 16 ≡ n
u16_value n h = omega arith

u32_value :
    (n : ℕ)
    → n < 2 ^ 32
    → (n / 2 ^ 24 % 2 ^ 8 * 2 ^ 24
          + n / 2 ^ 16 % 2 ^ 8 * 2 ^ 16
          + n / 2 ^ 8 % 2 ^ 8 * 2 ^ 8
          + n % 2 ^ 8)
        % 2 ^ 32
      ≡ n
u32_value n h = omega arith

get_string-append : (s rest : Bytes) → NoZero s → get_string (s ++ 0 ∷ rest) ≡ ok (s, rest)
get_string-append [] rest h = refl
get_string-append (b ∷ s) rest h = ground (arith, get_string-append s rest h.1)

module _ {Obj : Type 0} ⦃m : Msgpack Obj⦄ (trips : RoundTrips m) where
  get_msgpack-pack : (o : Obj) → get_msgpack (m.pack o) ≡ ok (o, [])
  get_msgpack-pack o = ground (arith, trips.unpack-pack o, trips.pack_starts o)

  module _ (id : ℕ) (small : id < 2 ^ 16) where
    pub id_msgpack-run : (o : Obj) → run id_msgpack (u16 id ++ m.pack o) ≡ ok (id, o)
    id_msgpack-run o =
        run-Refines id_msgpack id_msgpack_reader (u16 id ++ m.pack o) id_msgpack-Refines
        ∙ rw (u16_value id small, get_msgpack-pack o)

    pub id_time_msgpack-run :
        (t : ℕ) (o : Obj)
        → t < 2 ^ 32
        → run id_time_msgpack (u16 id ++ (u32 t ++ m.pack o)) ≡ ok (id, t, o)
    id_time_msgpack-run t o ht =
        run-Refines id_time_msgpack id_time_msgpack_reader (u16 id ++ (u32 t ++ m.pack o))
          id_time_msgpack-Refines
        ∙ rw (u16_value id small, u32_value t ht, get_msgpack-pack o)

    pub id_path_msgpack-run :
        (path : Bytes) (o : Obj)
        → NoZero path
        → run id_path_msgpack (u16 id ++ (path ++ 0 ∷ m.pack o)) ≡ ok (id, path, o)
    id_path_msgpack-run path o hp =
        run-Refines id_path_msgpack id_path_msgpack_reader (u16 id ++ (path ++ 0 ∷ m.pack o))
          id_path_msgpack-Refines
        ∙ rw (u16_value id small, get_string-append path (m.pack o) hp, get_msgpack-pack o)

  pub path_msgpack-run :
      (path : Bytes) (o : Obj)
      → NoZero path
      → run path_msgpack (path ++ 0 ∷ m.pack o) ≡ ok (path, o)
  path_msgpack-run path o hp =
      run-Refines path_msgpack path_msgpack_reader (path ++ 0 ∷ m.pack o) path_msgpack-Refines
      ∙ rw (get_string-append path (m.pack o) hp, get_msgpack-pack o)

  pub just_msgpack-run : (o : Obj) → run just_msgpack (m.pack o) ≡ ok o
  just_msgpack-run o =
      run-Refines just_msgpack just_msgpack_reader (m.pack o) just_msgpack-Refines
      ∙ rw (get_msgpack-pack o)

pub id_only-run : (id : ℕ) → id < 2 ^ 16 → run id_only (u16 id) ≡ ok id
id_only-run id small =
    run-Refines id_only id_only_reader (u16 id) id_only-Refines ∙ rw (u16_value id small)

pub id_time-run : (id t : ℕ) → id < 2 ^ 16 → t < 2 ^ 32 → run id_time (u16 id ++ u32 t) ≡ ok (id, t)
id_time-run id t small ht =
    run-Refines id_time id_time_reader (u16 id ++ u32 t) id_time-Refines
    ∙ rw (u16_value id small, u32_value t ht)

pub path_only-run : (path : Bytes) → NoZero path → run path_only (path ++ 0 ∷ []) ≡ ok path
path_only-run path hp =
    run-Refines path_only path_only_reader (path ++ 0 ∷ []) path_only-Refines
    ∙ rw (get_string-append path [] hp)

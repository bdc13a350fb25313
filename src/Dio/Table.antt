-- ===== src/Dio/Table.antt =====
-- The hash of the buffers as a map from their bases.
use windows_hammer2_dfly.Common.{
  ℕ, ◌≡◌, ◌≢◌, refl, sym, ap, ◌∙◌, none, some, List, [], ◌∷◌, ◌==◌, ==_iff, Bool-cases, inl, inr,
  arith,
}
use windows_hammer2_dfly.Dio.Types.{
  Dio, IoDev, hashv, find_dio, write_dio, append_dio, with_chain, lookup, store,
}

pub find_dio-pbase : (p : ℕ) (ds : List Dio) (d : Dio) → find_dio p ds ≡ some d → d.pbase ≡ p
unfolding find_dio
find_dio-pbase p [] e h = cc
find_dio-pbase p (d ∷ ds) e h = ground (arith, find_dio-pbase p ds e)

find_dio-write_self :
    (e : Dio) (ds : List Dio) {d : Dio}
    → find_dio e.pbase ds ≡ some d
    → find_dio e.pbase (write_dio e ds) ≡ some e
unfolding find_dio write_dio
find_dio-write_self e [] h = cc
find_dio-write_self e (d ∷ ds) h = elim (Bool-cases (d.pbase == e.pbase)) [
  | inl t ↦ rw t (rw ((==_iff e.pbase e.pbase).1 refl) refl)
  | inr f ↦ rw f (rw f (find_dio-write_self e ds (rw f at h)))
]

find_dio-write_ne :
    (e : Dio) (q : ℕ) (ds : List Dio) → q ≢ e.pbase → find_dio q (write_dio e ds) ≡ find_dio q ds
unfolding find_dio write_dio
find_dio-write_ne e q [] ne = refl
find_dio-write_ne e q (d ∷ ds) ne = ground (arith, find_dio-write_ne e q ds)

find_dio-append_self :
    (e : Dio) (ds : List Dio)
    → find_dio e.pbase ds ≡ none
    → find_dio e.pbase (append_dio e ds) ≡ some e
unfolding find_dio append_dio
find_dio-append_self e [] h = ground arith
find_dio-append_self e (d ∷ ds) h = ground (arith, find_dio-append_self e ds)

find_dio-append_ne :
    (e : Dio) (q : ℕ) (ds : List Dio) → q ≢ e.pbase → find_dio q (append_dio e ds) ≡ find_dio q ds
unfolding find_dio append_dio
find_dio-append_ne e q [] ne = ground arith
find_dio-append_ne e q (d ∷ ds) ne = ground (arith, find_dio-append_ne e q ds)

-- No base stands in a chain twice.
abbrev pub Distinct : List Dio → Type 0
Distinct [] = Unit {0}
Distinct (d ∷ ds) = (find_dio d.pbase ds ≡ none) × Distinct ds

write_dio-Distinct : (e : Dio) (ds : List Dio) → Distinct ds → Distinct (write_dio e ds)
unfolding write_dio
write_dio-Distinct e [] h = h
write_dio-Distinct e (d ∷ ds) (apart, h) = elim (Bool-cases (d.pbase == e.pbase)) [
  | inl t ↦ rw t (rw (← (==_iff d.pbase e.pbase).0 t) apart, h)
  | inr f ↦
      rw f
        (find_dio-write_ne e d.pbase ds (λ same. ground arith) ∙ apart, write_dio-Distinct e ds h)
]

some-ne-none : {d : Dio} → some d ≢ none
some-ne-none h = cc

append_dio-Distinct :
    (e : Dio) (ds : List Dio)
    → find_dio e.pbase ds ≡ none
    → Distinct ds
    → Distinct (append_dio e ds)
unfolding append_dio find_dio
append_dio-Distinct e [] none_there h = (refl, tt)
append_dio-Distinct e (d ∷ ds) none_there (apart, h) = elim (Bool-cases (d.pbase == e.pbase)) [
  | inl t ↦ absurd (some-ne-none (rw t at none_there))
  | inr f ↦ (
    find_dio-append_ne e d.pbase ds (λ same. ground arith) ∙ apart,
    append_dio-Distinct e ds (rw f at none_there) h,
  )
]

abbrev pub AllDistinct : IoDev → Type 0
AllDistinct s = (i : ℕ) → Distinct (s.iohash i)

-- `t` has the buffer `e` for the base `p`, and is like `s` for all others.
pub record Replaced (s : IoDev) (p : ℕ) (e : Dio) (t : IoDev) : Type 0 where
  pub here : lookup p t ≡ some e
  pub elsewhere : (q : ℕ) → q ≢ p → lookup q t ≡ lookup q s
  pub media : t.media ≡ s.media
  pub nvolumes : t.nvolumes ≡ s.nvolumes
  pub volumes : t.volumes ≡ s.volumes
  pub distinct : AllDistinct t

-- A chain of `s` is replaced.
module _ (p : ℕ) (ds : List Dio) (s : IoDev) where
  abbrev rechained : IoDev
  rechained = record s { iohash = with_chain (hashv p) ds s.iohash }

  lookup-rechained_self : lookup p rechained ≡ find_dio p ds
  unfolding lookup
  lookup-rechained_self = rw ((==_iff (hashv p) (hashv p)).1 refl) refl

  lookup-rechained_ne :
      (q : ℕ) → find_dio q ds ≡ find_dio q (s.iohash (hashv p)) → lookup q rechained ≡ lookup q s
  unfolding lookup
  lookup-rechained_ne q same = elim (Bool-cases (hashv q == hashv p)) [
    | inl t ↦
        rw t
          (same ∙ ap (λ (i : ℕ). find_dio q (s.iohash i)) (sym ((==_iff (hashv q) (hashv p)).0 t)))
    | inr f ↦ rw f refl
  ]

  rechained-AllDistinct : Distinct ds → AllDistinct s → AllDistinct rechained
  rechained-AllDistinct d all i = elim (Bool-cases (i == hashv p)) [
    | inl t ↦ rw t d
    | inr f ↦ rw f (all i)
  ]

pub store-Replaced :
    (e : Dio) (s : IoDev) {d : Dio}
    → lookup e.pbase s ≡ some d
    → AllDistinct s
    → Replaced s e.pbase e (store e s)
unfolding store lookup
store-Replaced e s h all =
    let ds = s.iohash (hashv e.pbase) in
    record {
      here = lookup-rechained_self e.pbase (write_dio e ds) s ∙ find_dio-write_self e ds h;
      elsewhere =
          λ q ne. lookup-rechained_ne e.pbase (write_dio e ds) s q (find_dio-write_ne e q ds ne);
      media = refl;
      nvolumes = refl;
      volumes = refl;
      distinct =
          rechained-AllDistinct e.pbase (write_dio e ds) s
            (write_dio-Distinct e ds (all (hashv e.pbase))) all;
    }

pub append-Replaced :
    (e : Dio) (s : IoDev)
    → lookup e.pbase s ≡ none
    → AllDistinct s
    → Replaced s e.pbase e (record s {
      iohash = with_chain (hashv e.pbase) (append_dio e (s.iohash (hashv e.pbase))) s.iohash;
    })
unfolding lookup
append-Replaced e s h all =
    let ds = s.iohash (hashv e.pbase) in
    record {
      here = lookup-rechained_self e.pbase (append_dio e ds) s ∙ find_dio-append_self e ds h;
      elsewhere =
          λ q ne. lookup-rechained_ne e.pbase (append_dio e ds) s q (find_dio-append_ne e q ds ne);
      media = refl;
      nvolumes = refl;
      volumes = refl;
      distinct =
          rechained-AllDistinct e.pbase (append_dio e ds) s
            (append_dio-Distinct e ds h (all (hashv e.pbase))) all;
    }

-- Two replacements of one base are one.
pub Replaced-trans :
    {s t u : IoDev} {p : ℕ} {d e : Dio} → Replaced s p d t → Replaced t p e u → Replaced s p e u
Replaced-trans a b = record {
  here = b.here;
  elsewhere = λ q ne. b.elsewhere q ne ∙ a.elsewhere q ne;
  media = b.media ∙ a.media;
  nvolumes = b.nvolumes ∙ a.nvolumes;
  volumes = b.volumes ∙ a.volumes;
  distinct = b.distinct;
}

-- ===== src/Dio/Found.antt =====
-- What `hammer2_io_alloc` gives: the buffer of a base with one more reference, in the hash.
use windows_hammer2_dfly.Common.{
  ℕ, ◌+◌, ◌^◌, ◌<◌, lt→ltb, ◌≡◌, ◌≢◌, refl, sym, ap, ◌∙◌, subst, Bool, true, false, not, ◌&&◌,
  Option, none, some, ◌==◌, ==_iff, ltb, if◌then◌else◌, Bool-cases, Checked, ok, ◌>>=◌, ◌>>◌,
  assert, inl, inr, arith, ◌≤◌,
}
use windows_hammer2_dfly.Common.Int.{ℤ, dec}
use windows_hammer2_dfly.Common.Words.{low_bits, high_bits, sub64}
use windows_hammer2_dfly.Disk.{pbuf_size, pbuf_radix, level1_radix, off_radix_bits}
use windows_hammer2_dfly.Ondisk.Types.{Volume}
use windows_hammer2_dfly.Ondisk.Volumes.{get_volume}
use windows_hammer2_dfly.Dio.Types.{
  Dio, IoDev, pbase_of, hashv, with_chain, append_dio, lookup, store, add_reference, hash_lookup,
  hash_enter, new_dio, touch, lsize_of, finish_alloc, create_dio, after_lookup, io_alloc,
}
use windows_hammer2_dfly.Dio.Table.{
  Replaced, AllDistinct, find_dio-pbase, store-Replaced, append-Replaced, Replaced-trans,
}

-- Where the buffer comes from.
pub data Origin (s : IoDev) (p now btype : ℕ) (d : Dio) : Type 0 where
  reused :
      (old : Dio)
      → lookup p s ≡ some old
      → d ≡ touch now (record old { refs = old.refs + 1 })
      → Origin s p now btype d
  created :
      (v : Volume)
      → lookup p s ≡ none
      → get_volume s.nvolumes s.volumes p ≡ ok v
      → low_bits v.offset level1_radix ≡ 0
      → d ≡ touch now (new_dio v p btype)
      → Origin s p now btype d

pub lookup-pbase : (p : ℕ) (s : IoDev) (d : Dio) → lookup p s ≡ some d → d.pbase ≡ p
unfolding lookup
lookup-pbase p s d h = find_dio-pbase p _ d h

-- A store at a base that the hash has, in a state that differs by a count.
pub stored :
    (e : Dio) (p : ℕ) (s : IoDev) (z : ℤ) (d : Dio)
    → e.pbase ≡ p
    → lookup p s ≡ some d
    → AllDistinct s
    → Replaced s p e (store e (record s { iofree_count = z }))
unfolding lookup
stored e p s z d same h all =
    let t = record s { iofree_count = z } in
    let r : Replaced t p e (store e t) =
      subst (λ (q : ℕ). Replaced t q e (store e t)) same
        (store-Replaced e t (ap (λ (q : ℕ). lookup q s) same ∙ h) all) in
    record {
      here = r.here;
      elsewhere = r.elsewhere;
      media = r.media;
      nvolumes = r.nvolumes;
      volumes = r.volumes;
      distinct = r.distinct;
    }

-- `refs++` keeps the count of free buffers, which no lookup reads.
counted : Dio → IoDev → ℤ
counted d s = if d.refs == 0 then dec s.iofree_count else s.iofree_count

add_reference-store :
    (d : Dio) (s : IoDev)
    → add_reference d s ≡ (
      record d { refs = d.refs + 1 },
      store (record d { refs = d.refs + 1 }) (record s { iofree_count = counted d s }),
    )
unfolding add_reference counted
add_reference-store d s = elim (Bool-cases (d.refs == 0)) [ inl t ↦ rw t refl | inr f ↦ rw f refl ]

finish_alloc-store :
    (now : ℕ) (d : Dio) (s : IoDev)
    → 1 ≤ d.refs
    → finish_alloc now d s ≡ ok (some (touch now d), store (touch now d) s)
unfolding finish_alloc touch
finish_alloc-store now d s le = let t : (d.refs == 0) ≡ false = ground arith in rw t refl

abbrev appended : Dio → IoDev → IoDev
appended d s = record s {
  iohash = with_chain (hashv d.pbase) (append_dio d (s.iohash (hashv d.pbase))) s.iohash;
}

hash_enter-none :
    (d : Dio) (s : IoDev) → lookup d.pbase s ≡ none → hash_enter d s ≡ (none, appended d s)
unfolding hash_enter
hash_enter-none d s h = rw (h, hash_enter) refl

hash_lookup-none : (p : ℕ) (s : IoDev) → lookup p s ≡ none → hash_lookup p s ≡ (none, s)
unfolding hash_lookup
hash_lookup-none p s h = rw (h, hash_lookup) refl

hash_lookup-some :
    (p : ℕ) (s : IoDev) (d : Dio)
    → lookup p s ≡ some d
    → hash_lookup p s ≡ (some (add_reference d s).0, (add_reference d s).1)
unfolding hash_lookup
hash_lookup-some p s d h = rw (h, hash_lookup) refl

add_reference-dio : (d : Dio) (s : IoDev) → (add_reference d s).0 ≡ record d { refs = d.refs + 1 }
unfolding add_reference
add_reference-dio d s = refl

-- The buffer that the hash has, with a reference, and touched.
module _ (now p : ℕ) (s : IoDev) (all : AllDistinct s) where
  abbrev pub Gives : Checked (Option Dio × IoDev) → Dio → Type 0
  Gives m e = (t : IoDev) × (m ≡ ok (some e, t)) × Replaced s p e t × (t.locked ≡ s.locked)

  touched-Gives :
      (d : Dio) (t : IoDev)
      → d.pbase ≡ p
      → 1 ≤ d.refs
      → Replaced s p d t
      → t.locked ≡ s.locked
      → Gives (finish_alloc now d t) (touch now d)
  unfolding touch store
  touched-Gives d t same le r l = (
    store (touch now d) t,
    finish_alloc-store now d t le,
    Replaced-trans r (stored (touch now d) p t t.iofree_count d same r.here r.distinct),
    l,
  )

  reused-Gives :
      (old : Dio)
      → lookup p s ≡ some old
      → Gives
          (finish_alloc now (record old { refs = old.refs + 1 }) (add_reference old s).1)
          (touch now (record old { refs = old.refs + 1 }))
  reused-Gives old h =
      let d = record old { refs = old.refs + 1 } in
      let t = store d (record s { iofree_count = counted old s }) in
      rw (add_reference-store old s) (
        touched-Gives d t (lookup-pbase p s old h) (omega arith)
          (stored d p s (counted old s) old (lookup-pbase p s old h) h all) (unfold store in refl))

  created-Gives :
      (btype : ℕ) (v : Volume)
      → lookup p s ≡ none
      → get_volume s.nvolumes s.volumes p ≡ ok v
      → low_bits v.offset level1_radix ≡ 0
      → Gives (create_dio now s p btype) (touch now (new_dio v p btype))
  unfolding create_dio new_dio
  created-Gives btype v h served whole =
      let d = new_dio v p btype in
      rw (served, whole, hash_enter-none d s h)
        (touched-Gives d (appended d s) refl (omega arith) (append-Replaced d s h all) refl)

-- `hammer2_io_alloc` of an offset: its base, and what it gives.
abbrev pub base_of : ℕ → ℕ
base_of data_off = pbase_of (high_bits data_off off_radix_bits)

abbrev in_base : ℕ → ℕ → Bool
in_base data_off lsize =
    not (base_of data_off == 0)
    && pbase_of (sub64 (high_bits data_off off_radix_bits + lsize) 1) == base_of data_off

==_false : (a b : ℕ) → a ≢ b → (a == b) ≡ false
==_false a b ne = ground arith

-- A call for `lsize` bytes at an offset whose low bits have the size: the bytes lie in one buffer,
-- which is not the first of the volumes.
pub record IsRequest (lbase lsize : ℕ) : Type 0 where
  pub small : lbase < 2 ^ 64
  pub some_radix : 1 ≤ low_bits lbase off_radix_bits
  pub most_radix : low_bits lbase off_radix_bits ≤ pbuf_radix
  pub size : 2 ^ low_bits lbase off_radix_bits ≡ lsize
  pub some_size : 1 ≤ lsize
  pub not_first : pbuf_size ≤ lbase
  pub inside : high_bits lbase off_radix_bits + lsize ≤ base_of lbase + pbuf_size

-- The base has a buffer, or one is created on the volume that serves it.
pub data Available (s : IoDev) (p : ℕ) (createit : Bool) : Type 0 where
  cached : (old : Dio) → lookup p s ≡ some old → Available s p createit
  creatable :
      (v : Volume)
      → createit ≡ true
      → lookup p s ≡ none
      → get_volume s.nvolumes s.volumes p ≡ ok v
      → low_bits v.offset level1_radix ≡ 0
      → Available s p createit

module _ (lbase lsize : ℕ) (q : IsRequest lbase lsize) where
  lsize_of-request : lsize_of lbase ≡ ok lsize
  unfolding lsize_of
  lsize_of-request =
      let a : (low_bits lbase off_radix_bits == 0) ≡ false = ground (arith, q.some_radix) in
      let b : ltb (low_bits lbase off_radix_bits) 31 ≡ true =
        lt→ltb _ _ (omega (arith, q.most_radix)) in
      rw (a, b) (ap (λ (n : ℕ). ok n) q.size)

  in_base-request : in_base lbase lsize ≡ true
  in_base-request =
      let low = q.not_first in
      let room = q.inside in
      let some = q.some_size in
      let bound = q.small in
      let a : (base_of lbase == 0) ≡ false = ==_false (base_of lbase) 0 (λ e. omega arith) in
      let b : (pbase_of (sub64 (high_bits lbase off_radix_bits + lsize) 1) == base_of lbase)
          ≡ true =
        (==_iff _ _).1 (omega arith) in
      rw (a, b) refl

  module _ (now btype : ℕ) (s : IoDev) (all : AllDistinct s)
      (locked : not (s.locked == 0) ≡ true) where
    io_alloc-after :
        (createit : Bool)
        → io_alloc now s lbase btype createit
          ≡ after_lookup now (base_of lbase) btype createit (hash_lookup (base_of lbase) s)
    unfolding io_alloc
    io_alloc-after createit =
        ap
          (λ (b : Bool).
            assert b
            >> (lsize_of lbase >>= λ n.
                assert (in_base lbase n)
                >> after_lookup now (base_of lbase) btype createit (hash_lookup (base_of lbase) s)))
          locked
        ∙ rw (lsize_of-request, in_base-request) refl

    pub io_alloc-found :
        (createit : Bool)
        → Available s (base_of lbase) createit
        → (d : Dio) × Origin s (base_of lbase) now btype d
          × Gives now (base_of lbase) s all (io_alloc now s lbase btype createit) d
    io_alloc-found createit (cached old h) =
        let d = touch now (record old { refs = old.refs + 1 }) in
        (
          d,
          reused old h refl,
          subst (λ (m : Checked (Option Dio × IoDev)). Gives now (base_of lbase) s all m d)
              (sym (
                io_alloc-after createit
                ∙ rw (hash_lookup-some (base_of lbase) s old h, add_reference-dio old s) refl))
              (reused-Gives now (base_of lbase) s all old h),
        )
    io_alloc-found createit (creatable v creates h on_volume whole) =
        let d = touch now (new_dio v (base_of lbase) btype) in
        (
          d,
          created v h on_volume whole refl,
          subst (λ (m : Checked (Option Dio × IoDev)). Gives now (base_of lbase) s all m d)
              (sym
                (io_alloc-after createit ∙ rw (creates, hash_lookup-none (base_of lbase) s h) refl))
              (created-Gives now (base_of lbase) s all btype v h on_volume whole),
        )

    pub io_alloc-missed :
        lookup (base_of lbase) s ≡ none → io_alloc now s lbase btype false ≡ ok (none, s)
    io_alloc-missed h = io_alloc-after false ∙ rw (hash_lookup-none (base_of lbase) s h) refl

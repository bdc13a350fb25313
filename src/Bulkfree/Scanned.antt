-- ===== src/Bulkfree/Scanned.antt =====
-- The record of a reference in the bitmaps of a range, and what later merges make of its blocks.
use native.Mathlib.Nat.{one-le-pow}
use windows_hammer2_dfly.Common.{
  ℕ, ◌+◌, ◌-◌, ◌*◌, ◌/◌, ◌%◌, ◌^◌, ◌≤◌, ◌<◌, ◌≡◌, ◌≢◌, refl, sym, inl, inr, Bool, true, false, not,
  ◌&&◌, ◌||◌, List, ◌==◌, ltb, leb, if◌then◌else◌, length, length-set, get_or, set, get_or-set_self,
  get_or-set_ne, Bool-cases, ℕ_discrete, ok, arith,
}
use windows_hammer2_dfly.Common.Words.{high_bits, low_bits, u64, ◌<<<◌}
use windows_hammer2_dfly.Freemap.Bmap.{Bmap}
use windows_hammer2_dfly.Freemap.Bmap.Marks.{state}
use windows_hammer2_dfly.Bulkfree.Record.{Range, init_bmap, record_blocks, record_in, record_data}
use windows_hammer2_dfly.Bulkfree.Found.{
  IsCollected, IsFound, blocks_of, IsFound-IsCollected, record_blocks-IsFound,
}

record_in-IsFound :
    (type off bytes : ℕ) (b : Bmap)
    → IsCollected b
    → off + bytes ≤ 2 ^ 22
    → (b' : Bmap) × (record_in type off bytes b ≡ ok b')
      × IsFound (off / 16384) (blocks_of bytes) b b'
unfolding record_in
record_in-IsFound type off bytes b c inside = elim (Bool-cases (b.class == 0)) [
  | inl fresh ↦ rw (fresh, not_over) (found _ refl)
  | inr classed ↦ rw (classed, not_over) (found _ refl)
]
  where
    not_over : ltb (2 ^ 22) (off + bytes) ≡ false
    not_over = ground arith

    found :
        (b0 : Bmap)
        → b0.bitmapq ≡ b.bitmapq
        → (b' : Bmap) × (record_blocks 256 bytes off b0 ≡ ok b')
          × IsFound (off / 16384) (blocks_of bytes) b b'
    found b0 same =
        let (b', e, f) =
          record_blocks-IsFound 256 bytes off b0
            (record { words = rw same c.words; known = rw same c.known }) (omega arith)
            (λ _. inside) in
        (b', e, record { words = f.words; states = rw same at f.states })

-- Block `n` of the range, 16KB each.
abbrev pub block : List Bmap → ℕ → ℕ
block bmaps n = state (get_or bmaps (n / 256) (init_bmap true)) (n % 256)

-- Block `n` holds a byte of the `bytes` at `off`, both counted from the start of the range.
abbrev pub touches : ℕ → ℕ → ℕ → Bool
touches off bytes n = ltb off ((n + 1) * 16384) && ltb (n * 16384) (off + bytes)

-- The bitmaps in memory for a range that starts at a multiple of 4MB.
pub record IsGathering (r : Range) (bmaps : List Bmap) : Type 0 where
  pub aligned : r.sbase % 2 ^ 22 ≡ 0
  pub covered : r.sstop ≡ r.sbase + length bmaps * 2 ^ 22
  pub bounded : r.sstop ≤ 2 ^ 63
  pub each : (i : ℕ) → i < length bmaps → IsCollected (get_or bmaps i (init_bmap true))

-- The callback takes a reference for the range: from its start to its end, in the storage, and from
-- the start of the allocator on.
abbrev pub in_range : Range → ℕ → Bool
in_range r data_off =
    let off = high_bits data_off 6 in
    leb r.sbase off && ltb off r.sstop && leb r.allocator_beg off && ltb off r.total_size

-- A place that the freemap hands out, wherever it lies: storage with a size, within its 4MB, that has
-- no more blocks than its size needs. Small storage need not lie at a multiple of its size.
pub record IsReference (data_off : ℕ) : Type 0 where
  pub sized : 1 ≤ low_bits data_off 6
  pub packed :
      (high_bits data_off 6) % 16384 + 2 ^ low_bits data_off 6
      ≤ blocks_of (2 ^ low_bits data_off 6) * 16384
  pub whole : (high_bits data_off 6) % 2 ^ 22 + 2 ^ low_bits data_off 6 ≤ 2 ^ 22

module _ (r : Range) (type data_off : ℕ) (bmaps : List Bmap) (g : IsGathering r bmaps)
    (ref : IsReference data_off) (here : in_range r data_off ≡ true) where
  above : r.sbase ≤ high_bits data_off 6
  above = ground arith

  below : high_bits data_off 6 < r.sstop
  below = ground arith

  allocated : r.allocator_beg ≤ high_bits data_off 6
  allocated = ground arith

  in_storage : high_bits data_off 6 < r.total_size
  in_storage = ground arith

  off : ℕ
  off = high_bits data_off 6 - r.sbase

  size : ℕ
  size = 2 ^ low_bits data_off 6

  index : ℕ
  index = off / 2 ^ 22

  size_small : size ≤ 2 ^ 22
  unfolding size
  size_small = omega (arith, ref.whole)

  size_some : 1 ≤ size
  unfolding size
  size_some = one-le-pow _ 2 (omega arith)

  room : off % 2 ^ 22 + size ≤ 2 ^ 22
  unfolding off size
  room = omega (arith, ref.whole, g.aligned, above)

  packed : off % 16384 + size ≤ blocks_of size * 16384
  unfolding off size
  packed = omega (arith, ref.packed, g.aligned, above)

  within : index < length bmaps
  unfolding index off
  within = omega (arith, g.covered, below, above)

  inside : high_bits data_off 6 + size ≤ r.sstop
  unfolding off index
  inside = omega (arith, room, within, g.covered, above)

  not_beyond : ltb r.sstop (u64 (high_bits data_off 6 + u64 (1 <<< low_bits data_off 6))) ≡ false
  unfolding size
  not_beyond =
      let e : 1 <<< low_bits data_off 6 ≡ 2 ^ low_bits data_off 6 = omega arith in
      rw e (ground (arith, inside, g.bounded, size_small))

  -- The blocks of the record in the bitmap at `index`.
  covers :
      (n : ℕ)
      → n / 256 ≡ index
      → (leb (off % 2 ^ 22 / 16384) (n % 256)
          && ltb (n % 256) (off % 2 ^ 22 / 16384 + blocks_of size))
        ≡ touches off size n
  unfolding index
  covers n same = ground (arith, size_some, packed)

  covers_not : (n : ℕ) → n / 256 ≢ index → touches off size n ≡ false
  unfolding index
  covers_not n other = ground (arith, room)

  passes :
      (ltb (high_bits data_off 6) r.sbase || leb r.sstop (high_bits data_off 6) ≡ false)
      × (ltb (high_bits data_off 6) r.allocator_beg ≡ false)
      × (leb r.total_size (high_bits data_off 6) ≡ false)
      × (not (low_bits data_off 6 == 0) ≡ true)
  passes = (
    ground (arith, above, below),
    ground (arith, allocated),
    ground (arith, in_storage),
    ground (arith, ref.sized),
  )

  here_or_there :
      (b' : Bmap)
      → IsFound (off % 2 ^ 22 / 16384) (blocks_of size) (get_or bmaps index (init_bmap true)) b'
      → (n : ℕ) → n < length bmaps * 256
      → block (set bmaps index b') n ≡ (if touches off size n then 3 else block bmaps n)
  here_or_there b' f n lt = elim (ℕ_discrete (n / 256) index) [
    | yes same ↦ rw (← covers n same) (
        rw (same, get_or-set_self bmaps index b' (init_bmap true) within)
          (f.states (n % 256) (omega arith)))
    | no ne ↦
        rw (
          covers_not n ne,
          get_or-set_ne bmaps index (n / 256) b' (init_bmap true) (λ e. ne (sym e)),
        )
  ]

  still-IsGathering : (b' : Bmap) → IsCollected b' → IsGathering r (set bmaps index b')
  still-IsGathering b' c = record {
    aligned = g.aligned;
    covered = rw (length-set bmaps index b') g.covered;
    bounded = g.bounded;
    each = λ i lt. elim (ℕ_discrete i index) [
      | yes e ↦ rw (e, get_or-set_self bmaps index b' (init_bmap true) within) c
      | no ne ↦
          rw (get_or-set_ne bmaps index i b' (init_bmap true) (λ e. ne (sym e)))
            (g.each i (rw (length-set bmaps index b') at lt))
    ];
  }

  whole_size : u64 (1 <<< low_bits data_off 6) ≡ size
  unfolding size
  whole_size = omega (arith, size_small)

  returned :
      (b' : Bmap)
      → record_in type (off % 2 ^ 22) size (get_or bmaps index (init_bmap true)) ≡ ok b'
      → record_data r type data_off bmaps ≡ ok (set bmaps index b')
  unfolding record_data off index
  returned b' e =
      let (inside_range, above, stored, sized) = passes in
      rw (inside_range, above, stored, sized, not_beyond, whole_size, e) refl

  recorded :
      (after : List Bmap) × (record_data r type data_off bmaps ≡ ok after)
      × IsGathering r after
      × (length after ≡ length bmaps)
      × ((n : ℕ)
          → n < length bmaps * 256
          → block after n ≡ (if touches off size n then 3 else block bmaps n))
  unfolding index
  recorded =
      let (b', e, f) =
        record_in-IsFound type (off % 2 ^ 22) size (get_or bmaps index (init_bmap true))
          (g.each index within) room in
      (
        set bmaps index b',
        returned b' e,
        still-IsGathering b' (IsFound-IsCollected _ _ _ b' (g.each index within) f),
        length-set bmaps index b',
        here_or_there b' f,
      )

-- Block `n` holds a byte of a reference that is taken for the range.
abbrev pub touches_in : Range → ℕ → ℕ → Bool
touches_in r data_off n =
    in_range r data_off && touches (high_bits data_off 6 - r.sbase) (2 ^ low_bits data_off 6) n

module _ (r : Range) (type data_off : ℕ) (bmaps : List Bmap) (g : IsGathering r bmaps) where
  -- What the record leaves.
  pub record IsMarkedFor (after : List Bmap) : Type 0 where
    pub gathering : IsGathering r after
    pub same_length : length after ≡ length bmaps
    pub blocks :
        (n : ℕ)
        → n < length bmaps * 256
        → block after n ≡ (if touches_in r data_off n then 3 else block bmaps n)

  skipped : in_range r data_off ≡ false → record_data r type data_off bmaps ≡ ok bmaps
  unfolding record_data
  skipped out = ground arith

  -- A reference in the range is one that the freemap hands out; others may be any.
  pub record_data-IsMarkedFor :
      (in_range r data_off ≡ true → IsReference data_off)
      → (after : List Bmap) × (record_data r type data_off bmaps ≡ ok after) × IsMarkedFor after
  unfolding recorded off size
  record_data-IsMarkedFor ref = elim (Bool-cases (in_range r data_off)) [
    | inl here ↦
        let (after, e, gathering, same_length, blocks) =
          recorded r type data_off bmaps g (ref here) here in
        (
          after,
          e,
          record {
            gathering = gathering;
            same_length = same_length;
            blocks = λ n lt. rw here (blocks n lt);
          },
        )
    | inr out ↦ (
      bmaps,
      skipped out,
      record { gathering = g; same_length = refl; blocks = λ n lt. rw out refl },
    )
  ]

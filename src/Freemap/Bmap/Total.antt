-- ===== src/Freemap/Bmap/Total.antt =====
-- `hammer2_bmap_alloc` returns: no assertion fails and the loops end.
use windows_hammer2_dfly.Common.{
  lt→ltb, ℕ, zero, suc, ◌+◌, ◌*◌, ◌/◌, ◌%◌, ◌^◌, ◌≤◌, ◌<◌, bit_and, ◌≡◌, ◌≢◌, refl, ◌∙◌, ap, inl,
  inr, true, false, Option, none, some, ◌==◌, ==_iff, Bool-cases, length, ℕ_discrete, Checked, ok,
  arith, ◌&&◌, leb, ltb, not,
}
use windows_hammer2_dfly.Common.Words.{u64, ◌<<<◌}
use windows_hammer2_dfly.Common.Pairs.Masks.{span, pair-span, and-span_clear, and-span_zero}
use windows_hammer2_dfly.Freemap.Bmap.{
  Bmap, Slot, covering_mask, newnz_of, bmradix_of, low_mask, find_slot, commit_slot, bmap_alloc,
  use_linear, linear_slot, keyed_slot, scan_slot, scan_elements,
}
use windows_hammer2_dfly.Freemap.Bmap.Fit.{Fit, fit}
use windows_hammer2_dfly.Freemap.Bmap.Scan.{shifted_mask, scan_elements-none}
use windows_hammer2_dfly.Freemap.Bmap.Marks.{state}
use windows_hammer2_dfly.Freemap.Bmap.Slots.{word_at, IsSlot, find_slot-IsSlot}

-- The value is a result, and no assertion failed.
abbrev pub Returns {ℓ} : {A : Type ℓ} → Checked A → Type ℓ
Returns {A} r = (a : A) × (r ≡ ok a)

-- The loop over the 64KB buffers of an element finds the buffer of a block.
module _ (m block : ℕ) (some_blocks : 1 ≤ m) (in_word : block < 32) where
  covers_block : (q : ℕ) → q ≡ block / 4 → bit_and (span 4 (q * 4)) (span m block) ≢ 0
  covers_block q here clear =
      let three = pair-span 4 (q * 4) block (omega arith) (omega arith) in
      let none = and-span_clear m block (span 4 (q * 4)) clear block (omega arith) (omega arith) in
      omega (arith, three, none)

  covering_mask-Returns :
      (left q pbmmask : ℕ)
      → pbmmask ≡ span 4 (q * 4)
      → q ≤ block / 4
      → block / 4 < q + left
      → Returns (covering_mask left pbmmask (span m block))
  unfolding covering_mask
  covering_mask-Returns zero q pbmmask e le lt = absurd (omega arith)
  covering_mask-Returns (suc left) q pbmmask e le lt =
      elim (Bool-cases (bit_and pbmmask (span m block) == 0)) [
        | inl miss ↦
            let later : q < block / 4 = ahead ((==_iff _ 0).0 miss) in
            rw miss (
              covering_mask-Returns left (q + 1) (u64 (pbmmask <<< 8)) (next later) (omega arith)
                (omega arith))
        | inr found ↦ (pbmmask, rw found)
      ]
    where
      ahead : bit_and pbmmask (span m block) ≡ 0 → q < block / 4
      ahead clear = elim (ℕ_discrete q (block / 4)) [
        | yes here ↦ absurd (covers_block q here (rw (← e) clear))
        | no ne ↦ omega arith
      ]

      next : q < block / 4 → u64 (pbmmask <<< 8) ≡ span 4 ((q + 1) * 4)
      next later = rw e (
          shifted_mask 4 (q * 4) 4 (omega arith)
          ∙ ap (span 4) (let e : q * 4 + 4 ≡ (q + 1) * 4 = omega arith in e))

module _ {radix : ℕ} (f : Fit radix) (b : Bmap) where
  newnz_of-Returns :
      (s : Slot) (basep : ℕ) → IsSlot f b s → Returns (newnz_of b s (2 ^ radix) basep)
  unfolding newnz_of
  newnz_of-Returns s basep is =
      elim (Bool-cases ((bit_and (word_at b s.i) s.bmmask == 0) && not (2 ^ radix == 65536))) [
        | inl looks ↦ rw (looks, looked.1) (_, refl)
        | inr skips ↦ rw skips (none, refl)
      ]
    where
      looked : Returns (covering_mask 8 (low_mask 8) s.bmmask)
      looked = rw (is.mask) (
          covering_mask-Returns f.blocks is.block f.some_blocks
            (omega (arith, is.inside, f.some_blocks)) 8 0 (low_mask 8) (unfold low_mask in refl)
            (omega arith) (omega (arith, is.inside, f.some_blocks)))

  commit_slot-Returns :
      (free class basep : ℕ) (s : Slot)
      → IsSlot f b s
      → Returns (commit_slot free b class radix basep s)
  unfolding commit_slot
  commit_slot-Returns free class basep s is =
      let (newnz, e) = newnz_of-Returns s basep is in rw (e, lt→ltb _ _ is.element) (_, refl)

  -- What the assertions ask: the linear iterator is a multiple of 1KB and not negative, and the key
  -- of a data block of 16KB or more is a multiple of its size.
  pub record IsReady (class key : ℕ) : Type 0 where
    pub linear_small : b.linear < 2 ^ 31
    pub linear_whole : b.linear % 1024 ≡ 0
    pub key_whole : 14 ≤ radix → class / 256 ≡ 3 → key % 2 ^ radix ≡ 0

  linear_slot-Returns :
      b.linear < 2 ^ 31
      → b.linear % 1024 ≡ 0
      → use_linear b (2 ^ radix) ≡ true
      → Returns (linear_slot b (2 ^ radix) (bmradix_of radix))
  unfolding linear_slot
  linear_slot-Returns positive whole used = rw (not_neg, room, aligned) (_, refl)
    where
      not_neg : not (leb (2 ^ 31) b.linear) ≡ true
      not_neg = ground arith

      room : leb (b.linear + 2 ^ radix) (2 ^ 22) ≡ true
      room = unfold use_linear in ground arith

      aligned : (b.linear % 1024 == 0) ≡ true
      aligned = ground arith

  keyed_slot-Returns :
      (key : ℕ)
      → 14 ≤ radix
      → key % 2 ^ radix ≡ 0
      → Returns (keyed_slot b key (2 ^ radix) (bmradix_of radix))
  unfolding keyed_slot
  keyed_slot-Returns key large whole = rw (element, block, inside) (_, refl)
    where
      element : ltb (key % 2 ^ 22 / 524288) 8 ≡ true
      element = ground arith

      block : ltb (key % 2 ^ 19 / 16384 * 2) 64 ≡ true
      block = ground arith

      inside : leb (key % 2 ^ 19 / 16384 * 2 + bmradix_of radix) 64 ≡ true
      inside = ground (arith, f.bits, f.aligned key large whole)

  find_slot-Returns : (class key : ℕ) → IsReady class key → Returns (find_slot b class key radix)
  unfolding find_slot
  find_slot-Returns class key ready = elim (Bool-cases (use_linear b (2 ^ radix))) [
    | inl used ↦
        let (s, e) = linear_slot-Returns ready.linear_small ready.linear_whole used in
        rw (used, e) (some s, refl)
    | inr other ↦ elim (Bool-cases ((class / 256 == 3) && leb 14 radix)) [
      | inl keyed ↦
          rw (other, keyed)
            (keyed_slot-Returns key (ground arith) (ready.key_whole (ground arith) (ground arith)))
      | inr scans ↦ rw (other, scans) (_, refl)
    ]
  ]

chosen :
    {radix : ℕ} (f : Fit radix) (free : ℕ) (b : Bmap) (class key basep : ℕ)
    → length b.bitmapq ≡ 8
    → (found : Option Slot) → find_slot b class key radix ≡ ok found
    → Returns (bmap_alloc free b class key radix basep)
unfolding bmap_alloc
chosen f free b class key basep words none e = rw e (none, refl)
chosen f free b class key basep words (some s) e =
    let is = find_slot-IsSlot f b words class key s e in
    let (a, c) = commit_slot-Returns f b free class basep s is in rw (e, c) (some a, refl)

-- An allocation from a bitmap of 8 elements returns, either HAMMER2_ERROR_ENOSPC (`none`) or an
-- allocation: no assertion fails and every loop ends, for sizes up to 64KB, a linear iterator that
-- is a multiple of 1KB and not negative, and, for data of 16KB or more, a key that is a multiple of
-- the size.
pub bmap_alloc-Returns :
    (radix free : ℕ) (b : Bmap) (class key basep : ℕ)
    → (le : radix ≤ 16) → length b.bitmapq ≡ 8
    → IsReady (fit radix le) b class key
    → Returns (bmap_alloc free b class key radix basep)
bmap_alloc-Returns radix free b class key basep le words ready =
    let (found, e) = find_slot-Returns (fit radix le) b class key ready in
    chosen (fit radix le) free b class key basep words found e

no_slot :
    (radix free : ℕ) (b : Bmap) (class key basep : ℕ)
    → bmap_alloc free b class key radix basep ≡ ok none
    → find_slot b class key radix ≡ ok none
unfolding bmap_alloc
no_slot radix free b class key basep h = ground arith

no_scan :
    (radix : ℕ) (b : Bmap) (class key : ℕ)
    → find_slot b class key radix ≡ ok none
    → (use_linear b (2 ^ radix) ≡ false) × (scan_elements (bmradix_of radix) b.bitmapq 0 ≡ none)
unfolding find_slot keyed_slot scan_slot
no_scan radix b class key h = ground arith

run_used :
    {radix : ℕ} (f : Fit radix) (b : Bmap)
    → length b.bitmapq ≡ 8
    → scan_elements (bmradix_of radix) b.bitmapq 0 ≡ none
    → (p : ℕ) → p < 256
    → p % f.blocks ≡ 0
    → ¬ ((n : ℕ) → p ≤ n → n < p + f.blocks → state b n ≡ 0)
run_used f b words gave_up p lt whole all =
    let (start, round, inside) = f.split p whole in
    scan_elements-none f b.bitmapq 0 gave_up (p / 32) (p % 32 / f.blocks) (omega arith) round (
      rw start (
        and-span_zero f.blocks (p % 32) (word_at b (p / 32)) (λ j le lt'.
          let here : (p / 32 * 32 + j) / 32 ≡ p / 32 = omega arith in
          let there : (p / 32 * 32 + j) % 32 ≡ j = omega arith in
          rw (here, there) at (all (p / 32 * 32 + j) (omega arith) (omega arith)))))

-- For a size up to 64KB and a bitmap of 8 elements, HAMMER2_ERROR_ENOSPC is returned only if the
-- linear iterator has no room for the size, and no run of blocks that is as long as the size and
-- starts at a multiple of its length is free.
pub bmap_alloc-none :
    (radix free : ℕ) (b : Bmap) (class key basep : ℕ)
    → (le : radix ≤ 16) → length b.bitmapq ≡ 8
    → bmap_alloc free b class key radix basep ≡ ok none
    → (use_linear b (2 ^ radix) ≡ false)
      × ((p : ℕ)
          → p < 256
          → p % (fit radix le).blocks ≡ 0
          → ¬ ((n : ℕ) → p ≤ n → n < p + (fit radix le).blocks → state b n ≡ 0))
bmap_alloc-none radix free b class key basep le words h =
    let none_found = no_scan radix b class key (no_slot radix free b class key basep h) in
    (none_found.0, run_used (fit radix le) b words none_found.1)

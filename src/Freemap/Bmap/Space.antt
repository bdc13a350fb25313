-- ===== src/Freemap/Bmap/Space.antt =====
-- The accounting of `hammer2_bmap_alloc`: `avail` and `allocator_free` follow the bitmap.
use windows_hammer2_dfly.Common.{
  ℕ, zero, suc, ◌+◌, ◌*◌, ◌^◌, ◌≤◌, ◌<◌, bit_and, bit_or, ◌≡◌, ◌≢◌, inl, inr, false, List, [], ◌∷◌,
  some, ◌==◌, ==_iff, Bool-cases, ltb, lt→ltb, subst, ℕ_discrete, get_or, set, length-set, length,
  dec_lt, ok, arith,
}
use windows_hammer2_dfly.Common.Pairs.Masks.{
  pair, clear_count, clear_count-span, clear_count-used, clear_count-le, and-span_zero,
}
use windows_hammer2_dfly.Freemap.Bmap.{Bmap, Slot, Alloc, bgsize_of, bmap_alloc}
use windows_hammer2_dfly.Freemap.Bmap.Fit.{Fit, fit}
use windows_hammer2_dfly.Freemap.Bmap.Slots.{word_at, How, IsSlot}
use windows_hammer2_dfly.Freemap.Bmap.Marks.{IsCommit, bmap_alloc-IsCommit}

-- The free blocks of a row of elements.
abbrev pub clear_total : List ℕ → ℕ
clear_total [] = 0
clear_total (w ∷ ws) = clear_count 32 w + clear_total ws

pub clear_total-set :
    (ws : List ℕ) (i v : ℕ)
    → i < length ws
    → clear_total (set ws i v) + clear_count 32 (get_or ws i 0) ≡ clear_total ws + clear_count 32 v
clear_total-set [] i v lt = absurd (omega arith)
clear_total-set (w ∷ ws) zero v lt = omega arith
clear_total-set (w ∷ ws) (suc i) v lt = omega (arith, clear_total-set ws i v (omega arith))

pub clear_total-le : (ws : List ℕ) → clear_total ws ≤ length ws * 32
clear_total-le [] = omega arith
clear_total-le (w ∷ ws) = omega (arith, clear_total-le ws, clear_count-le 32 w)

-- `avail` is the storage of the blocks whose two bits are clear.
pub record IsCounted (b : Bmap) : Type 0 where
  pub words : length b.bitmapq ≡ 8
  pub avail : b.avail ≡ clear_total b.bitmapq * 16384

module _ {radix : ℕ} (f : Fit radix) (b : Bmap) (s : Slot) (is : IsSlot f b s) where
  -- A slot whose bits are not clear is one block that is already accounted for.
  used_small : bit_and (word_at b s.i) s.bmmask ≢ 0 → radix < 14
  used_small used = go is.how
    where
      go : How b (2 ^ radix) s is.block → radix < 14
      go (How.fresh clear _ _) = absurd (used clear)
      go (How.packed _ _ _ partial fits) = elim (dec_lt radix 14) [
        | yes p ↦ p
        | no np ↦ absurd (omega (arith, f.exact (omega arith), f.some_blocks))
      ]

  bgsize_clear : bit_and (word_at b s.i) s.bmmask ≡ 0 → bgsize_of b s radix ≡ f.blocks * 16384
  unfolding bgsize_of
  bgsize_clear clear = elim (dec_lt radix 14) [
    | yes p ↦ rw (lt→ltb _ _ p, clear) (omega (arith, f.small p))
    | no np ↦ rw (ltb_false np) (f.exact (omega arith))
  ]
    where
      ltb_false : ¬ (radix < 14) → ltb radix 14 ≡ false
      ltb_false np = ground arith

  bgsize_used : bit_and (word_at b s.i) s.bmmask ≢ 0 → bgsize_of b s radix ≡ 0
  unfolding bgsize_of
  bgsize_used used =
      rw (lt→ltb _ _ (used_small used)) (elim (Bool-cases (bit_and (word_at b s.i) s.bmmask == 0)) [
        | inl clear ↦ absurd (used ((==_iff _ 0).0 clear))
        | inr e ↦ rw e
      ])

  -- A used slot of one block has a bit set in it.
  used_pair :
      f.blocks ≡ 1 → bit_and (word_at b s.i) s.bmmask ≢ 0 → pair (word_at b s.i) is.block ≢ 0
  used_pair one used free = used (
      rw (is.mask) (
        and-span_zero f.blocks is.block (word_at b s.i) (λ k le lt.
          subst (λ n. pair (word_at b s.i) n ≡ 0) (let e : is.block ≡ k = omega arith in e) free)))

  -- The change of the free space is the change of the count.
  pub bgsize-count :
      clear_count 32 (bit_or (word_at b s.i) s.bmmask) * 16384 + bgsize_of b s radix
      ≡ clear_count 32 (word_at b s.i) * 16384
  bgsize-count = elim (ℕ_discrete (bit_and (word_at b s.i) s.bmmask) 0) [
    | yes clear ↦
        let counted =
          clear_count-span 32 f.blocks is.block (word_at b s.i) is.inside (rw (is.mask) at clear) in
        rw (bgsize_clear clear, is.mask) (omega (arith, counted))
    | no used ↦
        let one : f.blocks ≡ 1 = (f.small (used_small used)).0 in
        let counted = clear_count-used 32 is.block (word_at b s.i) (used_pair one used) in
        rw (bgsize_used used, is.mask, one) (omega (arith, counted))
  ]

module _ {radix : ℕ} (f : Fit radix) (free : ℕ) (b : Bmap) (class basep : ℕ) (a : Alloc)
    (counted : IsCounted b) (c : IsCommit f free b class basep a) where
  element : c.slot.i < length b.bitmapq
  element = omega (arith, counted.words, c.is_slot.element)

  balance :
      clear_total a.bmap.bitmapq * 16384 + bgsize_of b c.slot radix ≡ clear_total b.bitmapq * 16384
  balance = rw (c.words) (
      omega (
        arith,
        bgsize-count f b c.slot c.is_slot,
        clear_total-set b.bitmapq c.slot.i (bit_or (word_at b c.slot.i) c.slot.bmmask) element,
      ))

  total_le : clear_total b.bitmapq ≤ 256
  total_le = omega (arith, clear_total-le b.bitmapq, counted.words)

  IsCommit-IsCounted : IsCounted a.bmap
  IsCommit-IsCounted = record {
    words = rw (c.words, length-set b.bitmapq c.slot.i _) (counted.words);
    avail = rw (c.avail) (omega (arith, balance, counted.avail, total_le));
  }

  avail_change : a.bmap.avail + bgsize_of b c.slot radix ≡ b.avail
  avail_change = rw (c.avail) (omega (arith, balance, counted.avail, total_le))

  free_change : b.avail ≤ free → free < 2 ^ 64 → a.free + b.avail ≡ free + a.bmap.avail
  free_change le lt = ground (arith, c.free, avail_change)

-- A successful allocation of a size up to 64KB from a bitmap of 8 elements whose `avail` is the
-- storage of its unmarked blocks keeps it so, and takes the same amount off `avail` and off the
-- volume header's `allocator_free`, given that `avail` is within `allocator_free`, which has 64
-- bits; so it stays within it.
pub bmap_alloc-IsCounted :
    (radix free : ℕ) (b : Bmap) (class key basep : ℕ) (a : Alloc)
    → radix ≤ 16
    → IsCounted b
    → b.avail ≤ free
    → free < 2 ^ 64
    → bmap_alloc free b class key radix basep ≡ ok (some a)
    → IsCounted a.bmap × (a.free + b.avail ≡ free + a.bmap.avail) × (a.bmap.avail ≤ a.free)
bmap_alloc-IsCounted radix free b class key basep a le counted within lt h =
    let f = fit radix le in
    let c = bmap_alloc-IsCommit f free b class key basep counted.words a h in
    let moved = free_change f free b class basep a counted c within lt in
    (
      IsCommit-IsCounted f free b class basep a counted c,
      moved,
      omega (arith, moved, avail_change f free b class basep a counted c),
    )

-- ===== src/Freemap/Bmap/Marks.antt =====
-- What an allocation does to the bitmap: which of the 256 blocks of 16KB are marked.
use windows_hammer2_dfly.Common.{
  ℕ, ◌+◌, ◌*◌, ◌/◌, ◌%◌, ◌^◌, ◌≤◌, ◌<◌, bit_and, bit_or, ◌≡◌, ◌≢◌, sym, ◌⊎◌, inl, inr, some, ◌==◌,
  if◌then◌else◌, set, length, get_or-set_self, get_or-set_ne, ℕ_discrete, ok, arith,
}
use windows_hammer2_dfly.Common.Words.{u64, sub32, sub64}
use windows_hammer2_dfly.Common.Pairs.Masks.{
  pair, span, pair-or-span_in, pair-or-span_below, pair-or-span_above, and-span_clear,
}
use windows_hammer2_dfly.Freemap.Bmap.{
  Bmap, Slot, Alloc, bgsize_of, find_slot, commit_slot, bmap_alloc,
}
use windows_hammer2_dfly.Freemap.Bmap.Fit.{Fit, fit}
use windows_hammer2_dfly.Freemap.Bmap.Slots.{word_at, How, IsSlot, find_slot-IsSlot}

-- The two bits of block `n` of the 4MB: 0 is free and 3 allocated.
abbrev pub state : Bmap → ℕ → ℕ
state b n = pair (word_at b (n / 32)) (n % 32)

-- A successful call is a slot, and the commit of that slot.
pub record IsCommit {radix : ℕ} (f : Fit radix) (free_before : ℕ) (b : Bmap) (class basep : ℕ)
    (a : Alloc) : Type 0 where
  pub slot : Slot
  pub is_slot : IsSlot f b slot
  pub words : a.bmap.bitmapq ≡ set b.bitmapq slot.i (bit_or (word_at b slot.i) slot.bmmask)
  pub linear : a.bmap.linear ≡ slot.linear
  pub class_kept : a.bmap.class ≡ (if b.class == 0 then class else b.class)
  pub avail : a.bmap.avail ≡ sub32 b.avail (bgsize_of b slot radix)
  pub base : a.base ≡ u64 (basep + slot.offset)
  pub free : a.free ≡ (
      if bgsize_of b slot radix == 0
      then free_before
      else sub64 free_before (bgsize_of b slot radix))

module _ {radix : ℕ} (f : Fit radix) (free : ℕ) (b : Bmap) (class key base : ℕ) where
  alloc_slot :
      (a : Alloc)
      → bmap_alloc free b class key radix base ≡ ok (some a)
      → (s : Slot) × (find_slot b class key radix ≡ ok (some s))
        × (commit_slot free b class radix base s ≡ ok a)
  unfolding bmap_alloc
  alloc_slot a h = ground arith

  IsCommit-parts :
      (s : Slot) (a : Alloc)
      → IsSlot f b s
      → commit_slot free b class radix base s ≡ ok a
      → IsCommit f free b class base a
  unfolding commit_slot
  IsCommit-parts s a is h = record {
    slot = s;
    is_slot = is;
    words = ground arith;
    linear = ground arith;
    class_kept = ground arith;
    avail = ground arith;
    base = ground arith;
    free = ground arith;
  }

  pub bmap_alloc-IsCommit :
      length b.bitmapq ≡ 8
      → (a : Alloc) → bmap_alloc free b class key radix base ≡ ok (some a)
      → IsCommit f free b class base a
  bmap_alloc-IsCommit words a h =
      let (s, found, committed) = alloc_slot a h in
      IsCommit-parts s a (find_slot-IsSlot f b words class key s found) committed

-- The blocks of an allocation, and where its storage lies in the 4MB.
pub record IsMarked {radix : ℕ} (f : Fit radix) (b : Bmap) (basep : ℕ) (a : Alloc) : Type 0 where
  pub first : ℕ
  pub offset : ℕ
  pub base : a.base ≡ u64 (basep + offset)
  pub covers : first * 16384 ≤ offset
  pub room : offset + 2 ^ radix ≤ (first + f.blocks) * 16384
  pub in_range : first + f.blocks ≤ 256
  pub marked : (n : ℕ) → first ≤ n → n < first + f.blocks → state a.bmap n ≡ 3
  pub kept : (n : ℕ) → (n < first) ⊎ (first + f.blocks ≤ n) → state a.bmap n ≡ state b n
  pub origin :
      ((n : ℕ) → first ≤ n → n < first + f.blocks → state b n ≡ 0)
      ⊎ ((offset ≡ b.linear) × (first ≡ b.linear / 16384) × (b.linear % 16384 ≢ 0))

module _ {radix : ℕ} (f : Fit radix) (free : ℕ) (b : Bmap) (class basep : ℕ) (a : Alloc)
    (words : length b.bitmapq ≡ 8) (c : IsCommit f free b class basep a) where
  open c use {slot, is_slot}

  first_block : ℕ
  first_block = slot.i * 32 + is_slot.block

  marked_word : word_at a.bmap slot.i ≡ bit_or (word_at b slot.i) (span f.blocks is_slot.block)
  marked_word =
      rw (c.words, is_slot.mask)
        (get_or-set_self b.bitmapq slot.i _ 0 (omega (arith, words, is_slot.element)))

  other_word : (i : ℕ) → i ≢ slot.i → word_at a.bmap i ≡ word_at b i
  other_word i ne = rw (c.words) (get_or-set_ne b.bitmapq slot.i i _ 0 (λ e. ne (sym e)))

  state_inside : (n : ℕ) → first_block ≤ n → n < first_block + f.blocks → state a.bmap n ≡ 3
  unfolding first_block
  state_inside n le lt =
      let here : n / 32 ≡ slot.i = omega (arith, is_slot.inside) in
      rw (here, marked_word)
        (pair-or-span_in f.blocks is_slot.block (word_at b slot.i) (n % 32)
          (omega (arith, is_slot.inside)) (omega (arith, is_slot.inside)))

  state_outside :
      (n : ℕ) → (n < first_block) ⊎ (first_block + f.blocks ≤ n) → state a.bmap n ≡ state b n
  unfolding first_block
  state_outside n out = elim (ℕ_discrete (n / 32) slot.i) [
    | yes here ↦
        rw (here, marked_word)
          (elim out [
            | inl below ↦
                pair-or-span_below f.blocks is_slot.block (word_at b slot.i) (n % 32) (omega arith)
            | inr above ↦
                pair-or-span_above f.blocks is_slot.block (word_at b slot.i) (n % 32) (omega arith)
          ])
    | no ne ↦ rw (other_word (n / 32) ne)
  ]

  clear_before :
      bit_and (word_at b slot.i) slot.bmmask ≡ 0
      → (n : ℕ) → first_block ≤ n
      → n < first_block + f.blocks
      → state b n ≡ 0
  unfolding first_block
  clear_before clear n le lt =
      let here : n / 32 ≡ slot.i = omega (arith, is_slot.inside) in
      rw here (
        and-span_clear f.blocks is_slot.block (word_at b slot.i) (rw (is_slot.mask) at clear)
          (n % 32) (omega (arith, is_slot.inside)) (omega (arith, is_slot.inside)))

  placed : How b (2 ^ radix) slot is_slot.block → record {
    covers : first_block * 16384 ≤ slot.offset;
    room : slot.offset + 2 ^ radix ≤ (first_block + f.blocks) * 16384;
    origin :
        ((n : ℕ) → first_block ≤ n → n < first_block + f.blocks → state b n ≡ 0)
        ⊎ ((slot.offset ≡ b.linear) × (first_block ≡ b.linear / 16384) × (b.linear % 16384 ≢ 0));
  }
  placed (How.fresh clear place linear) = record {
    covers = unfold first_block in omega arith;
    room = unfold first_block in omega (arith, f.size);
    origin = inl (clear_before clear);
  }
  placed (How.packed place linear here partial fits) = record {
    covers = unfold first_block in omega arith;
    room = unfold first_block in omega (arith, f.some_blocks);
    origin = inr (place, unfold first_block in sym here, partial);
  }

  pub IsCommit-IsMarked : IsMarked f b basep a
  IsCommit-IsMarked = record {
    first = first_block;
    offset = slot.offset;
    base = c.base;
    covers = (placed is_slot.how).covers;
    room = (placed is_slot.how).room;
    in_range = unfold first_block in omega (arith, is_slot.inside, is_slot.element);
    marked = state_inside;
    kept = state_outside;
    origin = (placed is_slot.how).origin;
  }

-- A successful allocation of a size up to 64KB from a bitmap of 8 elements marks a run of blocks
-- as allocated (3) and changes no other block; the storage handed out lies in that run, inside the
-- 4MB; and either every block of the run was free (0), or the storage continues at the linear
-- iterator, inside the block that the iterator is in the middle of.
pub bmap_alloc-IsMarked :
    (radix free : ℕ) (b : Bmap) (class key basep : ℕ) (a : Alloc)
    → (le : radix ≤ 16) → length b.bitmapq ≡ 8
    → bmap_alloc free b class key radix basep ≡ ok (some a)
    → IsMarked (fit radix le) b basep a
bmap_alloc-IsMarked radix free b class key basep a le words h =
    let f = fit radix le in
    IsCommit-IsMarked f free b class basep a words
      (bmap_alloc-IsCommit f free b class key basep words a h)

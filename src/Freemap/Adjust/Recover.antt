-- ===== src/Freemap/Adjust/Recover.antt =====
-- Which block a recovery marks.
use windows_hammer2_dfly.Common.{
  ℕ, zero, suc, ◌+◌, ◌-◌, ◌*◌, ◌/◌, ◌%◌, ◌^◌, ◌≤◌, ◌<◌, bit_and, bit_or, ◌≡◌, ◌≢◌, ◌∙◌, sym, ap,
  inl, inr, false, ◌==◌, ==_iff, ltb, if◌then◌else◌, Bool-cases, get_or, set, get_or-set_self,
  get_or-set_ne, length, dec_lt, ℕ_discrete, ok, arith,
}
use windows_hammer2_dfly.Common.Words.{u64, ◌<<<◌}
use windows_hammer2_dfly.Common.Pairs.Masks.{
  pair, span, pair-or-span_in, pair-or-span_below, pair-or-span_above, or-span_absorb,
}
use windows_hammer2_dfly.Freemap.Bmap.{Bmap}
use windows_hammer2_dfly.Freemap.Bmap.Scan.{shifted_mask}
use windows_hammer2_dfly.Freemap.Bmap.Slots.{word_at}
use windows_hammer2_dfly.Freemap.Bmap.Marks.{state}
use windows_hammer2_dfly.Freemap.Types.{Leaf}
use windows_hammer2_dfly.Freemap.Leaf.{zero_bmap}
use windows_hammer2_dfly.Freemap.Adjust.{
  Marking, mark_block, mark_blocks, bmap_index, element_index, start_bit, marked_bmap, adjust_leaf,
}

-- The bitmap that holds an offset, before and after.
abbrev pub bmap_of : Leaf → ℕ → Bmap
bmap_of leaf data_off = get_or leaf.bmdata (bmap_index data_off) zero_bmap

-- The block of an offset among the 256 of its bitmap, and the block that the code computes.
abbrev pub true_block : ℕ → ℕ
true_block data_off = data_off / 2 ^ 14 % 256

abbrev pub coded_block : ℕ → ℕ
coded_block data_off = true_block data_off / 32 * 32 + true_block data_off % 16

-- One block marked: its entry is 3 and the others stay.
mark_block-word :
    (class block : ℕ) (m : Marking)
    → (mark_block class (span 1 block) m).word ≡ bit_or m.word (span 1 block)
unfolding mark_block
mark_block-word class block m = elim (Bool-cases (bit_and m.word (span 1 block) == span 1 block)) [
  | inl full ↦ rw full (sym (or-span_absorb 1 block m.word ((==_iff _ _).0 full)))
  | inr clear ↦ rw clear
]

span_pos : (b : ℕ) → 0 < span 1 b
span_pos zero = omega arith
span_pos (suc b) = omega (arith, span_pos b)

-- A recovery of up to 16KB goes through the loop once.
mark_once :
    (class block : ℕ) (m : Marking)
    → mark_blocks 1 class (span 1 block) m ≡ ok (mark_block class (span 1 block) m)
unfolding mark_blocks
mark_once class block m = ground (arith, span_pos block)

start_mask : (data_off : ℕ) → u64 (3 <<< start_bit data_off) ≡ span 1 (data_off / 2 ^ 14 % 16)
unfolding start_bit
start_mask data_off =
    shifted_mask 1 0 (data_off / 2 ^ 14 % 16) (omega arith)
    ∙ ap (span 1) (let e : 0 + data_off / 2 ^ 14 % 16 ≡ data_off / 2 ^ 14 % 16 = omega arith in e)

module _ (leaf : Leaf) (class data_off radix : ℕ) (one : radix ≤ 14)
    (bitmaps : length leaf.bmdata ≡ 256)
    (elements : length (bmap_of leaf data_off).bitmapq ≡ 8) where
  start : Marking
  start = record {
    word = word_at (bmap_of leaf data_off) (element_index data_off);
    avail = (bmap_of leaf data_off).avail;
    class = (bmap_of leaf data_off).class;
    bgsize = 0;
    modified = false;
  }

  marked : Marking
  marked = mark_block class (span 1 (data_off / 2 ^ 14 % 16)) start

  once_count : (if ltb radix 14 then 1 else 2 ^ (radix - 14)) ≡ 1
  once_count = elim (ℕ_discrete radix 14) [ yes e ↦ rw e | no ne ↦ ground arith ]

  adjust_once :
      (result : Leaf × Marking)
      → adjust_leaf leaf class data_off radix ≡ ok result
      → result.0.bmdata
        ≡ set leaf.bmdata
            (bmap_index data_off)
            (marked_bmap (bmap_of leaf data_off) (element_index data_off) marked)
  unfolding adjust_leaf marked start
  adjust_once result h =
      ground
        (arith, once_count, start_mask data_off, mark_once class (data_off / 2 ^ 14 % 16) start)

  bmap_after :
      (result : Leaf × Marking)
      → adjust_leaf leaf class data_off radix ≡ ok result
      → bmap_of result.0 data_off
        ≡ marked_bmap (bmap_of leaf data_off) (element_index data_off) marked
  bmap_after result h = rw (adjust_once result h) (
      get_or-set_self leaf.bmdata (bmap_index data_off) _ zero_bmap
        (unfold bmap_index in omega arith))

  words_after :
      (result : Leaf × Marking)
      → adjust_leaf leaf class data_off radix ≡ ok result
      → (bmap_of result.0 data_off).bitmapq
        ≡ set (bmap_of leaf data_off).bitmapq (element_index data_off) (
            bit_or
              (word_at (bmap_of leaf data_off) (element_index data_off))
              (span 1 (data_off / 2 ^ 14 % 16)))
  unfolding start
  words_after result h = rw (bmap_after result h) (
      unfold marked_bmap marked in
      ap (set (bmap_of leaf data_off).bitmapq (element_index data_off))
        (mark_block-word class (data_off / 2 ^ 14 % 16) start))

-- One entry set in one word of a bitmap.
set-state :
    (b b' : Bmap) (i t : ℕ)
    → i < length b.bitmapq
    → t < 32
    → b'.bitmapq ≡ set b.bitmapq i (bit_or (word_at b i) (span 1 t))
    → (state b' (i * 32 + t) ≡ 3) × ((n : ℕ) → n ≢ i * 32 + t → state b' n ≡ state b n)
set-state b b' i t inside lt words = (
  rw
      (
        let e : (i * 32 + t) / 32 ≡ i = omega arith in e,
        let e : (i * 32 + t) % 32 ≡ t = omega arith in e,
        here,
      )
      (pair-or-span_in 1 t (word_at b i) t (omega arith) (omega arith)),
  λ n ne. elim (ℕ_discrete (n / 32) i) [
    | no other ↦ rw words (
        ap (λ (w : ℕ). pair w (n % 32))
          (get_or-set_ne b.bitmapq i (n / 32) _ 0 (λ e. other (sym e))))
    | yes same ↦
        rw (same, here)
          (elim (dec_lt (n % 32) t) [
            | yes below ↦ pair-or-span_below 1 t (word_at b i) (n % 32) below
            | no above ↦ pair-or-span_above 1 t (word_at b i) (n % 32) (omega arith)
          ])
  ],
)
  where
    here : word_at b' i ≡ bit_or (word_at b i) (span 1 t)
    here = rw words (get_or-set_self b.bitmapq i _ 0 inside)

-- Recovering a block of up to 16KB in a leaf of 256 bitmaps marks one block of its bitmap as
-- allocated and keeps the state of every other. The block that is marked is the one whose number
-- within its element of 32 is the block's own number modulo 16.
pub adjust_leaf-marks :
    (leaf : Leaf) (class data_off radix : ℕ) (result : Leaf × Marking)
    → radix ≤ 14
    → length leaf.bmdata ≡ 256
    → length (bmap_of leaf data_off).bitmapq ≡ 8
    → adjust_leaf leaf class data_off radix ≡ ok result
    → (state (bmap_of result.0 data_off) (coded_block data_off) ≡ 3)
      × ((n : ℕ)
          → n ≢ coded_block data_off
          → state (bmap_of result.0 data_off) n ≡ state (bmap_of leaf data_off) n)
adjust_leaf-marks leaf class data_off radix result one bitmaps elements h =
    rw
      (let e : coded_block data_off ≡ element_index data_off * 32 + data_off / 2 ^ 14 % 16 =
          unfold element_index in omega arith in
        e)
      (set-state (bmap_of leaf data_off) (bmap_of result.0 data_off) (element_index data_off)
        (data_off / 2 ^ 14 % 16) (unfold element_index in omega arith) (omega arith)
        (words_after leaf class data_off radix one bitmaps elements result h))

-- Recovering a block of up to 16KB in a leaf of 256 bitmaps misses a free block whose number
-- within its element of 32 is 16 or more: it stays free.
pub adjust_leaf-misses :
    (leaf : Leaf) (class data_off radix : ℕ) (result : Leaf × Marking)
    → radix ≤ 14
    → length leaf.bmdata ≡ 256
    → length (bmap_of leaf data_off).bitmapq ≡ 8
    → 16 ≤ true_block data_off % 32
    → state (bmap_of leaf data_off) (true_block data_off) ≡ 0
    → adjust_leaf leaf class data_off radix ≡ ok result
    → state (bmap_of result.0 data_off) (true_block data_off) ≡ 0
adjust_leaf-misses leaf class data_off radix result one bitmaps elements upper free h =
    (adjust_leaf-marks leaf class data_off radix result one bitmaps elements h).1
      (true_block data_off) (λ e. omega arith)
    ∙ free

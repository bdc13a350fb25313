-- ===== src/Freemap/Bmap/Slots.antt =====
-- What `find_slot` chooses: where the slot lies, and that its bits are clear or that it continues
-- the block of the linear iterator.
use native.Mathlib.Nat.{zero-add, one-le-pow}
use windows_hammer2_dfly.Common.{
  ℕ, ◌+◌, ◌*◌, ◌/◌, ◌%◌, ◌^◌, ◌≤◌, ◌<◌, bit_and, ◌≡◌, ◌≢◌, refl, ◌∙◌, ap, subst, some-injective,
  ◌⊎◌, inl, inr, true, some, ◌==◌, if◌then◌else◌, Option-cases, get_or, length, dec_lt, ok, arith,
}
use windows_hammer2_dfly.Common.Words.{u32, u64, ◌<<<◌, low_bits}
use windows_hammer2_dfly.Common.Pairs.Masks.{span}
use windows_hammer2_dfly.Freemap.Bmap.{
  Bmap, Slot, use_linear, linear_slot, slot_at, scan_slot, keyed_slot, find_slot, low_mask,
  bmradix_of, scan_elements,
}
use windows_hammer2_dfly.Freemap.Bmap.Fit.{Fit}
use windows_hammer2_dfly.Freemap.Bmap.Scan.{shifted_mask, IsRun, scan_elements-IsHit}

abbrev pub word_at : Bmap → ℕ → ℕ
word_at b i = get_or b.bitmapq i 0

-- The two ways to a slot.
pub data How (b : Bmap) (size : ℕ) (s : Slot) (block : ℕ) : Type 0 where
  fresh :
      bit_and (word_at b s.i) s.bmmask ≡ 0
      → s.offset ≡ (s.i * 32 + block) * 16384
      → s.linear ≡ (if low_bits size 14 == 0 then b.linear else u32 (s.offset + size))
      → How b size s block
  packed :
      s.offset ≡ b.linear
      → s.linear ≡ u32 (s.offset + size)
      → b.linear / 16384 ≡ s.i * 32 + block
      → b.linear % 16384 ≢ 0
      → b.linear % 16384 + size ≤ 16384
      → How b size s block

pub record IsSlot {radix : ℕ} (f : Fit radix) (b : Bmap) (s : Slot) : Type 0 where
  pub block : ℕ
  pub inside : block + f.blocks ≤ 32
  pub element : s.i < 8
  pub mask : s.bmmask ≡ span f.blocks block
  pub how : How b (2 ^ radix) s block

module _ {radix : ℕ} (f : Fit radix) (b : Bmap) (words : length b.bitmapq ≡ 8) where
  -- A run of clear blocks is a fresh slot.
  run-IsSlot :
      (i j bmmask : ℕ)
      → i < 8
      → IsRun f.blocks (word_at b i) (j, bmmask)
      → IsSlot f b (slot_at b (2 ^ radix) i j bmmask)
  unfolding slot_at
  run-IsSlot i j bmmask lt run = record {
    block = run.block;
    inside = run.inside;
    element = lt;
    mask = run.mask;
    how = How.fresh (rw (run.mask) (run.clear)) (omega (arith, run.place)) refl;
  }

  scan_slot-IsSlot : (s : Slot) → scan_slot b (2 ^ radix) (bmradix_of radix) ≡ some s → IsSlot f b s
  unfolding scan_slot
  scan_slot-IsSlot s h = elim (Option-cases (scan_elements (bmradix_of radix) b.bitmapq 0)) [
    | inl e ↦ cc (rw (e, scan_slot) at h)
    | inr (found, e) ↦
        subst (IsSlot f b) (some-injective _ _ (rw (e, scan_slot) at h)) (chosen found e)
  ]
    where
      chosen :
          (found : ℕ × ℕ × ℕ)
          → scan_elements (bmradix_of radix) b.bitmapq 0 ≡ some found
          → IsSlot f b (slot_at b (2 ^ radix) found.0 found.1 found.2)
      chosen found e =
          let hit = scan_elements-IsHit f b.bitmapq 0 found e in
          run-IsSlot found.0 found.1 found.2 (omega (arith, hit.index, hit.within, words)) (
            subst (λ n. IsRun f.blocks (word_at b n) (found.1, found.2))
              (let e : hit.element ≡ found.0 = omega (arith, hit.index) in e) hit.run)

  -- The mask as the code shifts it, two bits for each block.
  shifted_low :
      (c : ℕ) → c + f.blocks ≤ 32 → u64 (low_mask (bmradix_of radix) <<< (c * 2)) ≡ span f.blocks c
  shifted_low c le =
      rw f.low (shifted_mask f.blocks 0 c (omega arith) ∙ ap (span f.blocks) (zero-add c))

  -- What the linear branch has checked and computed.
  record LinearParts (s : Slot) : Type 0 where
    room : b.linear + 2 ^ radix ≤ 2 ^ 22
    partial : b.linear % 16384 ≢ 0
    fits : b.linear % 16384 + 2 ^ radix ≤ 16384
    index : s.i ≡ b.linear / 524288
    offset : s.offset ≡ b.linear
    linear : s.linear ≡ u32 (b.linear + 2 ^ radix)
    mask : s.bmmask ≡ u64 (low_mask (bmradix_of radix) <<< (b.linear / 8192 % 64 / 2 * 2))

  linear_parts :
      (s : Slot)
      → use_linear b (2 ^ radix) ≡ true
      → linear_slot b (2 ^ radix) (bmradix_of radix) ≡ ok s
      → LinearParts s
  unfolding linear_slot use_linear
  linear_parts s used h = record {
    room = ground arith;
    partial = ground arith;
    fits = ground arith;
    index = ground arith;
    offset = ground arith;
    linear = ground arith;
    mask = ground arith;
  }

  linear_slot-IsSlot :
      (s : Slot)
      → use_linear b (2 ^ radix) ≡ true
      → linear_slot b (2 ^ radix) (bmradix_of radix) ≡ ok s
      → IsSlot f b s
  linear_slot-IsSlot s used h = record {
    block = b.linear / 16384 % 32;
    inside = omega (arith, one);
    element = omega (arith, parts.index, parts.room, positive);
    mask = parts.mask ∙ (rw shift (shifted_low (b.linear / 16384 % 32) (omega (arith, one))));
    how =
        How.packed parts.offset (rw parts.offset parts.linear) (omega (arith, parts.index))
          parts.partial parts.fits;
  }
    where
      parts : LinearParts s
      parts = linear_parts s used h

      positive : 1 ≤ 2 ^ radix
      positive = one-le-pow radix 2 (omega arith)

      shift : b.linear / 8192 % 64 / 2 ≡ b.linear / 16384 % 32
      shift = omega arith

      one : f.blocks ≡ 1
      one = elim (dec_lt radix 14) [
        | yes p ↦ (f.small p).0
        | no np ↦
            absurd (omega (arith, f.exact (omega arith), parts.fits, parts.partial, f.some_blocks))
      ]

  -- The element and the block that a key asks for.
  abbrev key_element : ℕ → ℕ
  key_element key = key % 2 ^ 22 / 524288

  abbrev key_block : ℕ → ℕ
  key_block key = key % 2 ^ 19 / 16384

  abbrev key_mask : ℕ → ℕ
  key_mask key = u64 (low_mask (bmradix_of radix) <<< (key_block key * 2))

  keyed_parts :
      (key : ℕ) (s : Slot)
      → keyed_slot b key (2 ^ radix) (bmradix_of radix) ≡ ok (some s)
      → (key_block key * 2 + bmradix_of radix ≤ 64)
        × (((bit_and (word_at b (key_element key)) (key_mask key) ≡ 0)
              × (slot_at b (2 ^ radix) (key_element key) (key_block key * 2) (key_mask key) ≡ s))
            ⊎ (scan_slot b (2 ^ radix) (bmradix_of radix) ≡ some s))
  unfolding keyed_slot
  keyed_parts key s h = ground arith

  keyed_slot-IsSlot :
      (key : ℕ) (s : Slot)
      → keyed_slot b key (2 ^ radix) (bmradix_of radix) ≡ ok (some s)
      → IsSlot f b s
  keyed_slot-IsSlot key s h = elim ((keyed_parts key s h).1) [
    | inl (clear, same) ↦ subst (IsSlot f b) same (
        run-IsSlot (key_element key) (key_block key * 2) (key_mask key) (omega arith) (record {
          block = key_block key;
          inside = inside;
          place = refl;
          mask = shifted_low (key_block key) inside;
          clear = rw (← shifted_low (key_block key) inside) clear;
        }))
    | inr scanned ↦ scan_slot-IsSlot s scanned
  ]
    where
      inside : key_block key + f.blocks ≤ 32
      inside = omega (arith, (keyed_parts key s h).0, f.bits)

  find_parts :
      (class key : ℕ) (s : Slot)
      → find_slot b class key radix ≡ ok (some s)
      → ((use_linear b (2 ^ radix) ≡ true) × (linear_slot b (2 ^ radix) (bmradix_of radix) ≡ ok s))
        ⊎ ((keyed_slot b key (2 ^ radix) (bmradix_of radix) ≡ ok (some s))
            ⊎ (scan_slot b (2 ^ radix) (bmradix_of radix) ≡ some s))
  unfolding find_slot
  find_parts class key s h = ground arith

  pub find_slot-IsSlot :
      (class key : ℕ) (s : Slot) → find_slot b class key radix ≡ ok (some s) → IsSlot f b s
  find_slot-IsSlot class key s h = elim (find_parts class key s h) [
    | inl (used, e) ↦ linear_slot-IsSlot s used e
    | inr (inl e) ↦ keyed_slot-IsSlot key s e
    | inr (inr e) ↦ scan_slot-IsSlot s e
  ]

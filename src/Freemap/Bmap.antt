-- ===== src/Freemap/Bmap.antt =====
-- `hammer2_bmap_alloc` of hammer2_freemap.c: allocation from one 4MB bitmap.
pub mod Fit
pub mod Scan
pub mod Slots
pub mod Marks
pub mod Space
pub mod Total
use windows_hammer2_dfly.Common.{
  ℕ, zero, suc, ◌+◌, ◌-◌, ◌*◌, ◌/◌, ◌^◌, bit_and, bit_or, Bool, not, ◌&&◌, ◌||◌, List, [], ◌∷◌,
  Option, none, some, ltb, leb, ◌==◌, if◌then◌else◌, get_or, set, Checked, ok, panic, ◌>>=◌, ◌>>◌,
  assert,
}
use windows_hammer2_dfly.Common.Words.{u32, u64, sub32, sub64, ◌<<<◌, ◌>>>◌, low_bits, high_bits}
use windows_hammer2_dfly.Disk.{
  seg_size, pbuf_size, pbuf_radix, freemap_block_radix, freemap_block_size, bmap_elements,
  bmap_bits_per_element, bmap_blocks_per_element, bmap_index_radix, bmap_radix,
}
use windows_hammer2_dfly.Disk.{BrefType.content as data_type}

-- `struct hammer2_bmap_data` without its reserved fields. `linear` is the bit pattern of an s32.
pub record Bmap : Type 0 where
  pub linear : ℕ
  pub class : ℕ
  pub avail : ℕ
  pub bitmapq : List ℕ

abbrev pub is_neg32 : ℕ → Bool
is_neg32 w = leb (2 ^ 31) w

-- Bits of an element per allocation; two for each block of 16KB.
unfoldable pub bmradix_of : ℕ → ℕ
bmradix_of radix =
    if leb radix freemap_block_radix then 2 else u64 (2 <<< (radix - freemap_block_radix))

-- The mask of `bmradix` low bits; all ones where it is the whole element.
unfoldable pub low_mask : ℕ → ℕ
low_mask bmradix =
    if bmradix == bmap_bits_per_element then u64 (2 ^ 64 - 1) else u64 (1 <<< bmradix) - 1

-- What an allocation uses: the element `i`, the mask in it, the offset, and the new `linear`.
pub record Slot : Type 0 where
  pub i : ℕ
  pub bmmask : ℕ
  pub offset : ℕ
  pub linear : ℕ

-- The test for the linear iterator.
unfoldable pub use_linear : Bmap → ℕ → Bool
use_linear b size =
    leb (low_bits b.linear freemap_block_radix + size) freemap_block_size
    && not (low_bits b.linear freemap_block_radix == 0)
    && (is_neg32 b.linear || ltb b.linear seg_size)

-- The first branch. The shift count is `& 62`: six bits, the lowest of them cleared.
unfoldable pub linear_slot : Bmap → ℕ → ℕ → Checked Slot
linear_slot b size bmradix = do
  assert (not (is_neg32 b.linear))
  assert (leb (b.linear + size) seg_size)
  assert (low_bits b.linear 10 == 0)
  let offset = b.linear
  let j = low_bits (offset / (freemap_block_size / 2)) 6 / 2 * 2
  ok (record {
    i = offset / (seg_size / bmap_elements);
    bmmask = u64 (low_mask bmradix <<< j);
    offset = offset;
    linear = u32 (offset + size);
  })

-- The inner loop of the element scan, with the rounds left until `j` is 64.
unfoldable pub scan_element : ℕ → ℕ → ℕ → ℕ → ℕ → Option (ℕ × ℕ)
scan_element zero bmradix word bmmask j = none
scan_element (suc left) bmradix word bmmask j =
    let rest = scan_element left bmradix word (u64 (bmmask <<< bmradix)) (j + bmradix) in
    if bit_and word bmmask == 0 then some (j, bmmask) else rest

-- The inner loop from its start: `j` runs from 0 to 64 by `bmradix`.
unfoldable pub scan_word : ℕ → ℕ → Option (ℕ × ℕ)
scan_word bmradix word =
    scan_element (bmap_bits_per_element / bmradix) bmradix word (low_mask bmradix) 0

-- The outer loop, over the elements from index `i` on.
unfoldable pub scan_elements : ℕ → List ℕ → ℕ → Option (ℕ × ℕ × ℕ)
scan_elements bmradix [] i = none
scan_elements bmradix (word ∷ words) i =
    let rest = scan_elements bmradix words (i + 1) in
    elim (scan_word bmradix word) [ some found ↦ some (i, found.0, found.1) | none ↦ rest ]

-- The label `success`.
unfoldable pub slot_at : Bmap → ℕ → ℕ → ℕ → ℕ → Slot
slot_at b size i j bmmask =
    let offset = i * (seg_size / bmap_elements) + j * (freemap_block_size / 2) in
    record {
      i = i;
      bmmask = bmmask;
      offset = offset;
      linear = if low_bits size freemap_block_radix == 0 then b.linear else u32 (offset + size);
    }

unfoldable pub scan_slot : Bmap → ℕ → ℕ → Option Slot
scan_slot b size bmradix = elim (scan_elements bmradix b.bitmapq 0) [
  | some found ↦ some (slot_at b size found.0 found.1 found.2)
  | none ↦ none
]

-- The place that the key of a data block asks for, taken if its bits are clear.
unfoldable pub keyed_slot : Bmap → ℕ → ℕ → ℕ → Checked (Option Slot)
keyed_slot b sub_key size bmradix =
    let i = low_bits sub_key bmap_radix / (2 ^ bmap_radix / bmap_elements) in
    let j =
      low_bits sub_key bmap_index_radix / (2 ^ bmap_index_radix / bmap_blocks_per_element) * 2 in
    let bmmask = u64 (low_mask bmradix <<< j) in
    do
      assert (ltb i bmap_elements)
      assert (ltb j (2 * bmap_blocks_per_element))
      assert (leb (j + bmradix) bmap_bits_per_element)
      ok (
          if bit_and (get_or b.bitmapq i 0) bmmask == 0
          then some (slot_at b size i j bmmask)
          else scan_slot b size bmradix)

unfoldable pub find_slot : Bmap → ℕ → ℕ → ℕ → Checked (Option Slot)
find_slot b class sub_key radix =
    let size = 2 ^ radix in
    let bmradix = bmradix_of radix in
    if use_linear b size
    then (linear_slot b size bmradix >>= λ s. ok (some s))
    else if (class >>> 8 == data_type) && leb freemap_block_radix radix
    then keyed_slot b sub_key size bmradix
    else ok (scan_slot b size bmradix)

-- `while ((pbmmask & bmmask) == 0) pbmmask <<= pbmradix;` with the rounds left. After eight rounds
-- the mask would be 0 and the loop endless, which `panic` stands for.
unfoldable pub covering_mask : ℕ → ℕ → ℕ → Checked ℕ
covering_mask zero pbmmask bmmask = panic
covering_mask (suc left) pbmmask bmmask =
    let rest = covering_mask left (u64 (pbmmask <<< 8)) bmmask in
    if bit_and pbmmask bmmask == 0 then rest else ok pbmmask

-- The argument of `hammer2_io_newnz`, where the 64KB buffer around the slot is unused. `pbmradix`
-- is 2 << (16 - 14).
unfoldable pub newnz_of : Bmap → Slot → ℕ → ℕ → Checked (Option ℕ)
newnz_of b s size base =
    let word = get_or b.bitmapq s.i 0 in
    let looking = covering_mask 8 (low_mask 8) s.bmmask in
    if (bit_and word s.bmmask == 0) && not (size == pbuf_size)
    then (looking >>= λ pbmmask. ok (
        if bit_and word pbmmask == 0
        then some (bit_or (u64 (base + high_bits s.offset pbuf_radix)) pbuf_radix)
        else none))
    else ok none

-- The bitmap-granular change of the free space.
unfoldable pub bgsize_of : Bmap → Slot → ℕ → ℕ
bgsize_of b s radix =
    if ltb radix freemap_block_radix
    then (if bit_and (get_or b.bitmapq s.i 0) s.bmmask == 0 then freemap_block_size else 0)
    else 2 ^ radix

-- The outcome: the bitmap, `*basep`, the volume header's `allocator_free`, and the buffer that was
-- instantiated without a read.
pub record Alloc : Type 0 where
  pub bmap : Bmap
  pub base : ℕ
  pub free : ℕ
  pub newnz : Option ℕ

unfoldable pub commit_slot : ℕ → Bmap → ℕ → ℕ → ℕ → Slot → Checked Alloc
commit_slot free b class radix base s =
    let bgsize = bgsize_of b s radix in
    do
      assert (ltb s.i bmap_elements)
      newnz ← newnz_of b s (2 ^ radix) base
      ok (record {
        bmap = record {
          linear = s.linear;
          class = if b.class == 0 then class else b.class;
          avail = sub32 b.avail bgsize;
          bitmapq = set b.bitmapq s.i (bit_or (get_or b.bitmapq s.i 0) s.bmmask);
        };
        base = u64 (base + s.offset);
        free = if bgsize == 0 then free else sub64 free bgsize;
        newnz = newnz;
      })

-- `none` is HAMMER2_ERROR_ENOSPC. `sub_key` is read only below bit 22, so its cast to int is not
-- seen.
unfoldable pub bmap_alloc : ℕ → Bmap → ℕ → ℕ → ℕ → ℕ → Checked (Option Alloc)
bmap_alloc free b class sub_key radix base = find_slot b class sub_key radix >>= λ found.
    elim found [
      | none ↦ ok none
      | some s ↦ commit_slot free b class radix base s >>= λ a. ok (some a)
    ]

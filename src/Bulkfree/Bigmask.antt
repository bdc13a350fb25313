-- ===== src/Bulkfree/Bigmask.antt =====
-- `bigmask_get` and `bigmask_good`: the radixes that a collected bitmap has room for.
use windows_hammer2_dfly.Common.{
  ℕ, zero, suc, ◌+◌, ◌-◌, ◌*◌, ◌/◌, ◌^◌, bit_and, bit_or, Bool, false, ◌||◌, List, [], ◌∷◌, ltb,
  ◌==◌, if◌then◌else◌, Checked, ok, ◌>>=◌, ◌>>◌, assert,
}
use windows_hammer2_dfly.Common.Words.{u32, u64, ◌<<<◌}
use windows_hammer2_dfly.Disk.{freemap_block_radix, bmap_bits_per_element}
use windows_hammer2_dfly.Freemap.Bmap.{Bmap}

-- The loop over `j`, with the turns left: some run of `iter` bits is clear.
unfoldable pub some_clear : ℕ → ℕ → ℕ → ℕ → Bool
some_clear zero iter scan mask = false
some_clear (suc left) iter scan mask =
    let later = some_clear left iter (u64 (scan <<< iter)) mask in bit_and scan mask == 0 || later

-- The mask of `iter` low bits, for an unsigned long of `width` bits; a shift by the width or more
-- is undefined.
unfoldable pub scan_mask : ℕ → ℕ → Checked ℕ
scan_mask width iter =
    if iter == bmap_bits_per_element
    then ok (u64 (2 ^ 64 - 1))
    else assert (ltb iter width) >> ok (2 ^ iter - 1)

-- The loop over `iter`, with the turns left.
unfoldable pub element_bigmask : ℕ → ℕ → ℕ → ℕ → ℕ → ℕ → Checked ℕ
element_bigmask zero width mask iter radix_mask bigmask = ok bigmask
element_bigmask (suc left) width mask iter radix_mask bigmask = do
  scan ← scan_mask width iter
  element_bigmask left width mask (iter * 2) (u32 (radix_mask * 2 + 1)) (
      if some_clear (bmap_bits_per_element / iter) iter scan mask
      then bit_or bigmask radix_mask
      else bigmask)

-- The loop over the elements. `radix_mask` starts with the bits up to HAMMER2_FREEMAP_BLOCK_RADIX,
-- and `iter` takes the six values from 2 to 64.
unfoldable pub elements_bigmask : ℕ → List ℕ → ℕ → Checked ℕ
elements_bigmask width [] bigmask = ok bigmask
elements_bigmask width (mask ∷ masks) bigmask = do
  next ← element_bigmask 6 width mask 2 (2 ^ (freemap_block_radix + 1) - 1) bigmask
  elements_bigmask width masks next

unfoldable pub bigmask_get : ℕ → Bmap → Checked ℕ
bigmask_get width b = elements_bigmask width b.bitmapq 0

unfoldable pub bigmask_good : ℕ → Bmap → ℕ → Checked Bool
bigmask_good width b live_bigmask =
    bigmask_get width b >>= λ bigmask. ok (bit_and live_bigmask bigmask == bigmask)

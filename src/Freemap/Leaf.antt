-- ===== src/Freemap/Leaf.antt =====
-- `hammer2_freemap_init`: the bitmaps of a new 1GB leaf.
pub mod Usable
use windows_hammer2_dfly.Common.{
  ℕ, zero, suc, ◌+◌, ◌-◌, ◌*◌, ◌^◌, Bool, false, ◌||◌, List, [], ◌∷◌, ltb, leb, if◌then◌else◌,
  replicate,
}
use windows_hammer2_dfly.Common.Words.{u64, sub64, high_bits}
use windows_hammer2_dfly.Disk.{
  seg_size, seg_radix, zone_seg, level1_size, level1_radix, level0_size, freemap_count,
  bmap_elements, fm_base, fm_zone_base,
}
use windows_hammer2_dfly.Freemap.Bmap.{Bmap}
use windows_hammer2_dfly.Freemap.Types.{Leaf}

-- The lowest key to initialise as free.
unfoldable pub lokey_of : ℕ → ℕ → ℕ
lokey_of allocator_beg key =
    let begin = high_bits (u64 (allocator_beg + (seg_size - 1))) seg_radix in
    let lokey = if ltb begin (fm_base key level1_radix) then fm_base key level1_radix else begin in
    if ltb lokey (u64 (fm_zone_base key + zone_seg))
    then u64 (fm_zone_base key + zone_seg)
    else lokey

-- The key at which storage ends, for this leaf.
unfoldable pub hikey_of : ℕ → ℕ → ℕ
hikey_of total_size key =
    let hikey = u64 (key + level1_size) in
    if ltb total_size hikey then high_bits total_size seg_radix else hikey

-- A bitmap after `bzero`, and one of the two that the loop makes of it.
abbrev pub zero_bmap : Bmap
zero_bmap = record { linear = 0; class = 0; avail = 0; bitmapq = replicate bmap_elements 0 }

abbrev pub free_bmap : Bmap
free_bmap = record zero_bmap { avail = level0_size }

abbrev pub full_bmap : Bmap
full_bmap = record zero_bmap { linear = seg_size; bitmapq = replicate bmap_elements (2 ^ 64 - 1) }

-- The loop over the 4MB entries, with the rounds left: the bitmaps from `key` on.
unfoldable pub init_bmdata : ℕ → ℕ → ℕ → ℕ → List Bmap
init_bmdata zero key lokey hikey = []
init_bmdata (suc left) key lokey hikey =
    (if ltb key lokey || leb hikey key then full_bmap else free_bmap)
    ∷ init_bmdata left (u64 (key + level0_size)) lokey hikey

-- The same loop's effect on `check.freemap.avail`.
unfoldable pub init_avail : ℕ → ℕ → ℕ → ℕ → ℕ → ℕ
init_avail zero key lokey hikey avail = avail
init_avail (suc left) key lokey hikey avail =
    init_avail left (u64 (key + level0_size)) lokey hikey
      (if ltb key lokey || leb hikey key then sub64 avail level0_size else avail)

-- A new leaf: cleared, its `bigmask` all ones, then initialised.
unfoldable pub freemap_init : ℕ → ℕ → ℕ → Leaf
freemap_init allocator_beg total_size key =
    let lokey = lokey_of allocator_beg key in
    let hikey = hikey_of total_size key in
    record {
      bmdata = init_bmdata freemap_count key lokey hikey;
      bigmask = 2 ^ 32 - 1;
      avail = init_avail freemap_count key lokey hikey level1_size;
      error = false;
    }

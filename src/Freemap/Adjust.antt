-- ===== src/Freemap/Adjust.antt =====
-- `hammer2_freemap_adjust` with HAMMER2_FREEMAP_DORECOVER, the one request that it accepts: marking
-- blocks as allocated when the device is mounted after a crash.
pub mod Recover
use windows_hammer2_dfly.Common.{
  ℕ, zero, suc, ◌+◌, ◌-◌, ◌*◌, ◌/◌, ◌%◌, ◌^◌, bit_and, bit_or, Bool, true, false, not, ◌&&◌, some,
  none, ltb, leb, ◌==◌, if◌then◌else◌, get_or, set, Checked, ok, panic, ◌>>=◌, ◌>>◌, assert,
}
use windows_hammer2_dfly.Common.Words.{u64, sub32, sub64, ◌<<<◌, low_bits, high_bits}
use windows_hammer2_dfly.Disk.{
  radix_max, zone_radix, zone_seg, level1_radix, seg_radix, freemap_count, freemap_block_radix,
  freemap_block_size, off_radix_bits, fm_base,
}
use windows_hammer2_dfly.Freemap.Bmap.{Bmap}
use windows_hammer2_dfly.Freemap.Types.{Blockref, Leaf, Dev}
use windows_hammer2_dfly.Freemap.Leaf.{zero_bmap}
use windows_hammer2_dfly.Freemap.Alloc.{class_of, lookup_leaf, put_leaf}

-- The locals of the loop, and the fields of the bitmap that it changes. `word` is `*bitmap`.
pub record Marking : Type 0 where
  pub word : ℕ
  pub avail : ℕ
  pub class : ℕ
  pub bgsize : ℕ
  pub modified : Bool

-- One block: nothing if its bits are set already.
unfoldable pub mark_block : ℕ → ℕ → Marking → Marking
mark_block class bmmask11 m =
    let clear = bit_and m.word bmmask11 == 0 in
    if bit_and m.word bmmask11 == bmmask11 then m else record {
      word = bit_or m.word bmmask11;
      avail = if clear then sub32 m.avail freemap_block_size else m.avail;
      class = if m.class == 0 then class else m.class;
      bgsize = if clear then m.bgsize + freemap_block_size else m.bgsize;
      modified = true;
    }

-- `while (count)`
unfoldable pub mark_blocks : ℕ → ℕ → ℕ → Marking → Checked Marking
mark_blocks zero class bmmask11 m = ok m
mark_blocks (suc count) class bmmask11 m =
    let rest = mark_blocks count class (u64 (bmmask11 <<< 2)) (mark_block class bmmask11 m) in
    if bmmask11 == 0 then panic else rest

-- The bitmap of the leaf and the element in it, as the code indexes them, and the bit to start at.
unfoldable pub bmap_index : ℕ → ℕ
bmap_index data_off = data_off / 2 ^ seg_radix % freemap_count

unfoldable pub element_index : ℕ → ℕ
element_index data_off = data_off / 2 ^ (seg_radix - 3) % 8

unfoldable pub start_bit : ℕ → ℕ
start_bit data_off = data_off / 2 ^ freemap_block_radix % 16 * 2

-- The changed bitmap: `linear` is reset if anything was marked.
unfoldable pub marked_bmap : Bmap → ℕ → Marking → Bmap
marked_bmap bmap element m = record {
  linear = if m.modified then 0 else bmap.linear;
  class = m.class;
  avail = m.avail;
  bitmapq = set bmap.bitmapq element m.word;
}

-- The work on the leaf, given the offset without its radix: the leaf and what is to be recorded.
unfoldable pub adjust_leaf : Leaf → ℕ → ℕ → ℕ → Checked (Leaf × Marking)
adjust_leaf leaf class data_off radix =
    let bmap = get_or leaf.bmdata (bmap_index data_off) zero_bmap in
    let element = element_index data_off in
    let count = if ltb radix freemap_block_radix then 1 else 2 ^ (radix - freemap_block_radix) in
    do
      m ← mark_blocks count class (u64 (3 <<< start_bit data_off)) (record {
        word = get_or bmap.bitmapq element 0;
        avail = bmap.avail;
        class = bmap.class;
        bgsize = 0;
        modified = false;
      })
      ok (
        record {
          bmdata = set leaf.bmdata (bmap_index data_off) (marked_bmap bmap element m);
          bigmask = if m.modified then 2 ^ 32 - 1 else leaf.bigmask;
          avail = leaf.avail;
          error = leaf.error;
        },
        m,
      )

unfoldable pub freemap_adjust : (ℕ → Bool) → Dev → Blockref → Checked Dev
freemap_adjust create dev bref =
    let radix = low_bits bref.data_off off_radix_bits in
    let data_off = high_bits bref.data_off off_radix_bits in
    let key = fm_base data_off level1_radix in
    let recover : Checked Dev = do
      assert (leb zone_seg (low_bits data_off zone_radix))
      found ← lookup_leaf create dev key
      (if found.0.error
          then ok dev
          else adjust_leaf found.0 (class_of bref) data_off radix >>= λ r.
              ok (record (put_leaf dev key r.0) {
                freemap_relaxed = if r.1.modified then false else dev.freemap_relaxed;
                allocator_free =
                    if r.1.bgsize == 0
                    then dev.allocator_free
                    else sub64 dev.allocator_free r.1.bgsize;
              }))
    in do
      assert dev.spmp
      assert (not (radix == 0))
      assert (leb radix radix_max)
      if ltb data_off dev.allocator_beg then ok dev else recover

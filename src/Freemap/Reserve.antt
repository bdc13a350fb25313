-- ===== src/Freemap/Reserve.antt =====
-- `hammer2_freemap_reserve`: the eight rotating places of a freemap block.
pub mod Rotate
use windows_hammer2_dfly.Common.{
  ℕ, ◌+◌, ◌-◌, ◌*◌, ◌/◌, ◌^◌, bit_or, Bool, ◌&&◌, ltb, leb, ◌==◌, if◌then◌else◌, Checked, ok, panic,
  ◌>>=◌, ◌>>◌, assert,
}
use windows_hammer2_dfly.Common.Words.{u64, low_bits, high_bits}
use windows_hammer2_dfly.Disk.{
  seg_radix, pbuf_size, zone_freemap_00, zone_freemap_end, zone_freemap_inc, nfreemaps,
  leveln_psize, off_radix_bits, fm_base,
}
use windows_hammer2_dfly.Disk.BrefType.{freemap_node, freemap_leaf}
use windows_hammer2_dfly.Freemap.Types.{Blockref}

-- The index of the place that is used next: 0 for a new block, else the one after the current.
unfoldable pub next_index : ℕ → Checked ℕ
next_index data_off =
    let off = low_bits (high_bits data_off off_radix_bits) seg_radix / pbuf_size in
    let index = (off - zone_freemap_00) / zone_freemap_inc in
    let following : Checked ℕ = do
      assert (leb zone_freemap_00 off && ltb off zone_freemap_end)
      assert (ltb index nfreemaps)
      ok (if index + 1 == nfreemaps then 0 else index + 1)
    in if high_bits data_off off_radix_bits == 0 then ok 0 else following

-- One case of the switch: the offset of the block for a level.
unfoldable pub level_off : Blockref → ℕ → ℕ → ℕ → ℕ → ℕ → Checked ℕ
level_off bref bytes index radix level type = do
  assert (bref.type == type)
  assert (bytes == leveln_psize)
  ok (
      u64
        (fm_base bref.key radix + (index * zone_freemap_inc + zone_freemap_00 + level) * pbuf_size))

unfoldable pub switch_off : Blockref → ℕ → ℕ → Checked ℕ
switch_off bref bytes index =
    if bref.keybits == 62
    then level_off bref bytes index 62 4 freemap_node
    else if bref.keybits == 54
    then level_off bref bytes index 54 3 freemap_node
    else if bref.keybits == 46
    then level_off bref bytes index 46 2 freemap_node
    else if bref.keybits == 38
    then level_off bref bytes index 38 1 freemap_node
    else if bref.keybits == 30
    then level_off bref bytes index 30 0 freemap_leaf
    else panic

unfoldable pub freemap_reserve : Blockref → ℕ → Checked Blockref
freemap_reserve bref radix = do
  index ← next_index bref.data_off
  off ← switch_off bref (2 ^ radix) index
  ok (record bref { data_off = bit_or off radix })

-- ===== src/Disk.antt =====
-- The media constants of hammer2_disk.h, and the error bits of hammer2.h.
pub mod BrefType
use windows_hammer2_dfly.Common.{ℕ, ◌*◌, ◌^◌, ◌/◌}
use windows_hammer2_dfly.Common.Words.{high_bits}

abbrev pub alloc_min : ℕ
alloc_min = 1024

abbrev pub alloc_max : ℕ
alloc_max = 65536

abbrev pub radix_min : ℕ
radix_min = 10

abbrev pub radix_max : ℕ
radix_max = 16

-- HAMMER2_SEGSIZE is 1 << HAMMER2_FREEMAP_LEVEL0_RADIX.
abbrev pub seg_radix : ℕ
seg_radix = 22

abbrev pub seg_size : ℕ
seg_size = 2 ^ seg_radix

abbrev pub pbuf_radix : ℕ
pbuf_radix = 16

abbrev pub pbuf_size : ℕ
pbuf_size = 65536

abbrev pub lbuf_radix : ℕ
lbuf_radix = 14

abbrev pub lbuf_size : ℕ
lbuf_size = 16384

abbrev pub volume_align : ℕ
volume_align = 8 * 1024 * 1024

-- HAMMER2_ZONE_BYTES64 and the reserved area at the base of a zone.
abbrev pub zone_radix : ℕ
zone_radix = 31

abbrev pub zone_seg : ℕ
zone_seg = 4 * 1024 * 1024

abbrev pub zone_freemap_inc : ℕ
zone_freemap_inc = 5

abbrev pub zone_freemap_00 : ℕ
zone_freemap_00 = 1

abbrev pub zone_freemap_end : ℕ
zone_freemap_end = 41

abbrev pub nfreemaps : ℕ
nfreemaps = 8

abbrev pub level1_radix : ℕ
level1_radix = 30

abbrev pub level1_size : ℕ
level1_size = 2 ^ level1_radix

abbrev pub level0_radix : ℕ
level0_radix = 22

abbrev pub level0_size : ℕ
level0_size = 2 ^ level0_radix

abbrev pub leveln_psize : ℕ
leveln_psize = 32768

-- HAMMER2_FREEMAP_LEVELN_PSIZE / sizeof(hammer2_bmap_data_t), which is 128 bytes.
abbrev pub freemap_count : ℕ
freemap_count = leveln_psize / 128

abbrev pub freemap_block_radix : ℕ
freemap_block_radix = 14

abbrev pub freemap_block_size : ℕ
freemap_block_size = 2 ^ freemap_block_radix

abbrev pub bmap_elements : ℕ
bmap_elements = 8

abbrev pub bmap_bits_per_element : ℕ
bmap_bits_per_element = 64

abbrev pub bmap_blocks_per_element : ℕ
bmap_blocks_per_element = 32

-- HAMMER2_BMAP_INDEX_SIZE is 2 ^ 19, the storage behind one element; HAMMER2_BMAP_SIZE is 2 ^ 22.
abbrev pub bmap_index_radix : ℕ
bmap_index_radix = 19

abbrev pub bmap_radix : ℕ
bmap_radix = 22

-- The low six bits of a data offset hold the radix.
abbrev pub off_radix_bits : ℕ
off_radix_bits = 6

-- H2FMBASE(key, radix) and H2FMZONEBASE(key)
abbrev pub fm_base : ℕ → ℕ → ℕ
fm_base key radix = high_bits key radix

abbrev pub fm_zone_base : ℕ → ℕ
fm_zone_base key = high_bits key level1_radix

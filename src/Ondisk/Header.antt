-- ===== src/Ondisk/Header.antt =====
-- hammer2_ondisk.c: `hammer2_read_volume_header`, which looks for the newest valid copy of the
-- header. The buffer is seen as the header that it holds.
use windows_hammer2_dfly.Common.{
  ℕ, zero, suc, Bool, true, ◌&&◌, Option, none, some, ltb, leb, ◌==◌, if◌then◌else◌, get_or,
}
use windows_hammer2_dfly.Common.Words.{◌<<<◌}
use windows_hammer2_dfly.Disk.{zone_radix}
use windows_hammer2_dfly.Ondisk.Types.{Voldata, einval, enomem, num_volhdrs, volume_id_hbo}

-- What the code asks of the platform: `bdev_nr_bytes`, whether `kvmalloc` has a buffer, the header that `hammer2_dev_bread` reads at
-- an offset, or its failure, and `hammer2_icrc32` of a range of the buffer.
pub record Media : Type 0 where
  pub nr_bytes : ℕ → ℕ
  pub memory : ℕ → Bool
  pub bread : ℕ → ℕ → Option Voldata
  pub icrc32 : Voldata → ℕ → ℕ → ℕ

-- The magic number and the three checksums. A header of the other byte order is skipped as well.
unfoldable pub is_valid_header : Media → Voldata → Bool
is_valid_header m vd =
    vd.magic == volume_id_hbo
    && get_or vd.icrc_sects 7 0 == m.icrc32 vd 0 508
    && get_or vd.icrc_sects 6 0 == m.icrc32 vd 512 512
    && vd.icrc_volheader == m.icrc32 vd 0 65532

-- The header kept so far, with its zone.
abbrev pub Found : Type 0
Found = Option (ℕ × Voldata)

-- zone == -1 || voldata->mirror_tid < vd->mirror_tid
unfoldable pub is_newer : Found → Voldata → Bool
is_newer none vd = true
is_newer (some (zone, voldata)) vd = ltb voldata.mirror_tid vd.mirror_tid

-- The copy that zone `i` holds, when it can be read and is valid.
unfoldable pub header_at : Media → ℕ → ℕ → Option Voldata
header_at m bdev i =
    if leb (m.nr_bytes bdev) (i <<< zone_radix)
    then none
    else elim (m.bread bdev (i <<< zone_radix)) [
      | none ↦ none
      | some vd ↦ if is_valid_header m vd then some vd else none
    ]

unfoldable pub keep_newer : ℕ → Option Voldata → Found → Found
keep_newer i none found = found
keep_newer i (some vd) found = if is_newer found vd then some (i, vd) else found

-- The loop over the zones from `i` on, `n` of them.
unfoldable pub header_loop : Media → ℕ → ℕ → ℕ → Found → Found
header_loop m bdev zero i found = found
header_loop m bdev (suc n) i found =
    header_loop m bdev n (suc i) (keep_newer i (header_at m bdev i) found)

-- The number behind the minus sign of an error, or the zone with the header.
pub data Reading : Type 0 where
  no_header : ℕ → Reading
  zone_header : ℕ → Voldata → Reading

abbrev pub reading_of : Found → Reading
reading_of none = no_header einval
reading_of (some (zone, vd)) = zone_header zone vd

unfoldable pub read_volume_header : Media → ℕ → Reading
read_volume_header m bdev =
    if m.memory bdev then reading_of (header_loop m bdev num_volhdrs 0 none) else no_header enomem

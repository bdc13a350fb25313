-- ===== src/Tests/OndiskRuns.antt =====
-- One device with one volume of 4GB.
use windows_hammer2_dfly.Common.{
  ◌^◌, ◌<◌, ◌≡◌, refl, true, none, some, [], ◌∷◌, ◌==◌, if◌then◌else◌, set, replicate, ok, arith,
}
use windows_hammer2_dfly.Ondisk.Types.{
  Voldata, Devvp, Volume, volume_id_hbo, bad_off, unset_volume, is_unset,
}
use windows_hammer2_dfly.Ondisk.Verify.{
  common_volume, common_volumes, verify_volumes_common, count_volumes, sum_volumes, loffs_fit,
  follows, size_fits, table_fits, verify_volumes_2, verify_volumes,
}
use windows_hammer2_dfly.Ondisk.Header.{
  Media, is_valid_header, is_newer, header_at, keep_newer, header_loop, read_volume_header,
}
use windows_hammer2_dfly.Ondisk.Volumes.{
  Scan, no_volumes, agrees, check_header, volume_of, or_first, is_null_bdev, add_volume,
  scan_devices, init_volumes, get_volume,
}
use windows_hammer2_dfly.Ondisk.Newest.{IsRead, read_volume_header-IsRead}
use windows_hammer2_dfly.Ondisk.Tiles.{AllSlots, sum_sizes, Tiles, verify_volumes-Tiles}
use windows_hammer2_dfly.Ondisk.Serve.{
  Serves, set-AllSlots, replicate-AllSlots, volume_of-IsSlot, get_volume-Serves,
}

abbrev header : Voldata
header = record {
  magic = volume_id_hbo;
  volu_size = 2 ^ 32;
  version = 2;
  volu_id = 0;
  nvolumes = 1;
  fsid = 5;
  fstype = 6;
  mirror_tid = 9;
  total_size = 2 ^ 32;
  icrc_sects = replicate 8 7;
  volu_loff = 0 ∷ replicate 63 bad_off;
  icrc_volheader = 7;
}

abbrev media : Media
media = record {
  nr_bytes = λ bdev. 2 ^ 33;
  memory = λ bdev. true;
  bread = λ bdev off. if off == 0 then some header else none;
  icrc32 = λ vd off size. 7;
}

abbrev device : Devvp
device = record { bdev = some 1; opened = true }

abbrev found : Scan
found = record {
  volumes = set (replicate 64 unset_volume) 0 (volume_of device header);
  root = header;
  root_zone = 0;
  root_dev = some 1;
  first = some header;
}

read_volume_header-IsRead_example : IsRead media 1 (read_volume_header media 1)
read_volume_header-IsRead_example = read_volume_header-IsRead media 1

found-verified : verify_volumes media.nr_bytes found.volumes header ≡ ok 0
unfolding verify_volumes verify_volumes_common common_volumes common_volume verify_volumes_2
    count_volumes sum_volumes loffs_fit table_fits follows size_fits is_unset volume_of
found-verified = refl

found-scanned : init_volumes media (device ∷ []) ≡ ok (0, found)
unfolding init_volumes scan_devices read_volume_header header_loop keep_newer is_newer header_at
    is_valid_header check_header agrees add_volume or_first is_null_bdev no_volumes verify_volumes
    verify_volumes_common common_volumes common_volume verify_volumes_2 count_volumes sum_volumes
    loffs_fit table_fits follows size_fits is_unset volume_of
found-scanned = refl

found-small : sum_sizes found.volumes < 2 ^ 64
unfolding sum_sizes is_unset volume_of
found-small = omega arith

found-AllSlots : AllSlots found.volumes
found-AllSlots =
    set-AllSlots (replicate 64 unset_volume) 0 (volume_of device header) (replicate-AllSlots 64)
      (volume_of-IsSlot device header)

verify_volumes-Tiles_example :
    Tiles 0 found.volumes (2 ^ 32)
    × (2 ^ 32 ≡ sum_sizes found.volumes)
    × (1 ≡ count_volumes found.volumes)
verify_volumes-Tiles_example =
    verify_volumes-Tiles media.nr_bytes found.volumes header found-AllSlots found-small
      (omega arith) found-verified

get_volume-Serves_example :
    (v : Volume) × (get_volume 1 found.volumes 1000000 ≡ ok v) × Serves v 1000000
get_volume-Serves_example =
    get_volume-Serves media (device ∷ []) found 1000000 found-scanned (omega arith) found-small
      (omega arith)

-- ===== src/Ondisk/Types.antt =====
-- The volume header of hammer2_disk.h and the volume table of hammer2.h, as hammer2_ondisk.c reads
-- them. Block devices are numbers.
use windows_hammer2_dfly.Common.{
  ℕ, ◌-◌, ◌^◌, Bool, true, false, Option, none, some, List, replicate,
}

-- `struct hammer2_volume_data`, the fields that are read; uuids are numbers.
pub record Voldata : Type 0 where
  pub magic : ℕ
  pub volu_size : ℕ
  pub version : ℕ
  pub volu_id : ℕ
  pub nvolumes : ℕ
  pub fsid : ℕ
  pub fstype : ℕ
  pub mirror_tid : ℕ
  pub total_size : ℕ
  pub icrc_sects : List ℕ
  pub volu_loff : List ℕ
  pub icrc_volheader : ℕ

-- `hammer2_devvp_t`; `none` is a NULL block device.
pub record Devvp : Type 0 where
  pub bdev : Option ℕ
  pub opened : Bool

-- `struct hammer2_volume`; the id -1 and a NULL device are `none`.
pub record Volume : Type 0 where
  pub dev : Option Devvp
  pub offset : ℕ
  pub size : ℕ
  pub id : Option ℕ

-- HAMMER2_MAX_VOLUMES, HAMMER2_ROOT_VOLUME, HAMMER2_NUM_VOLHDRS
abbrev pub max_volumes : ℕ
max_volumes = 64

abbrev pub root_volume : ℕ
root_volume = 0

abbrev pub num_volhdrs : ℕ
num_volhdrs = 4

-- HAMMER2_VOLUME_ID_HBO
abbrev pub volume_id_hbo : ℕ
volume_id_hbo = 5206527521446109201

-- HAMMER2_VOL_VERSION_MIN, _MULTI_VOLUMES and _WIP
abbrev pub vol_version_min : ℕ
vol_version_min = 1

abbrev pub vol_version_multi_volumes : ℕ
vol_version_multi_volumes = 2

abbrev pub vol_version_wip : ℕ
vol_version_wip = 3

-- (hammer2_off_t)-1
abbrev pub bad_off : ℕ
bad_off = 2 ^ 64 - 1

abbrev pub einval : ℕ
einval = 22

abbrev pub enomem : ℕ
enomem = 12

abbrev pub enxio : ℕ
enxio = 6

-- What `hammer2_init_volumes` writes in every slot first.
abbrev pub unset_volume : Volume
unset_volume = record { dev = none; offset = bad_off; size = bad_off; id = none }

-- A zeroed header.
abbrev pub zero_voldata : Voldata
zero_voldata = record {
  magic = 0;
  volu_size = 0;
  version = 0;
  volu_id = 0;
  nvolumes = 0;
  fsid = 0;
  fstype = 0;
  mirror_tid = 0;
  total_size = 0;
  icrc_sects = replicate 8 0;
  volu_loff = replicate 64 0;
  icrc_volheader = 0;
}

-- id == -1
unfoldable pub is_unset : Option ℕ → Bool
is_unset none = true
is_unset (some i) = false

-- ===== src/Ondisk/Volumes.antt =====
-- hammer2_ondisk.c: `hammer2_init_volumes` and `hammer2_get_volume`.
use windows_hammer2_dfly.Common.{
  ℕ, zero, suc, ◌+◌, Bool, true, false, not, ◌&&◌, ◌||◌, Option, none, some, List, [], ◌∷◌, ltb,
  leb, ◌==◌, if◌then◌else◌, Checked, ok, panic, ◌>>=◌, assert, get_or, set, replicate,
}
use windows_hammer2_dfly.Common.Words.{u64, high_bits}
use windows_hammer2_dfly.Disk.{off_radix_bits}
use windows_hammer2_dfly.Ondisk.Types.{
  Voldata, Devvp, Volume, max_volumes, root_volume, vol_version_min, vol_version_wip, einval, enxio,
  unset_volume, zero_voldata, is_unset,
}
use windows_hammer2_dfly.Ondisk.Header.{Media, no_header, zone_header, read_volume_header}
use windows_hammer2_dfly.Ondisk.Verify.{verify_volumes}

-- What the scan of the devices has found: the table, the root's header, its zone and device, and
-- the first header, whose version, count and uuids the others must have.
pub record Scan : Type 0 where
  pub volumes : List Volume
  pub root : Voldata
  pub root_zone : ℕ
  pub root_dev : Option ℕ
  pub first : Option Voldata

unfoldable pub no_volumes : Scan
no_volumes = record {
  volumes = replicate max_volumes unset_volume;
  root = zero_voldata;
  root_zone = 0;
  root_dev = none;
  first = none;
}

-- 0, or the error of a header that differs from the first.
unfoldable pub agrees : Option Voldata → Voldata → ℕ
agrees none vd = 0
agrees (some first) vd =
    if not (first.version == vd.version)
    then enxio
    else if not (first.nvolumes == vd.nvolumes)
    then enxio
    else if not (first.fsid == vd.fsid)
    then enxio
    else if not (first.fstype == vd.fstype)
    then enxio
    else 0

-- The checks of one device's header.
unfoldable pub check_header : Scan → Voldata → ℕ
check_header s vd =
    if leb max_volumes vd.volu_id
    then einval
    else if not (is_unset (get_or s.volumes vd.volu_id unset_volume).id)
    then einval
    else if not (agrees s.first vd == 0)
    then agrees s.first vd
    else if ltb vd.version vol_version_min || ltb vol_version_wip vd.version
    then einval
    else 0

unfoldable pub volume_of : Devvp → Voldata → Volume
volume_of e vd = record {
  dev = some e;
  offset = get_or vd.volu_loff vd.volu_id 0;
  size = vd.volu_size;
  id = some vd.volu_id;
}

unfoldable pub or_first : Option Voldata → Voldata → Option Voldata
or_first none vd = some vd
or_first (some first) vd = some first

unfoldable pub is_null_bdev : Option ℕ → Bool
is_null_bdev none = true
is_null_bdev (some bdev) = false

-- A header that has passed: its slot is filled, and the root's header kept.
unfoldable pub add_volume : Scan → Devvp → ℕ → ℕ → Voldata → Checked Scan
add_volume s e bdev zone vd =
    let t = record s {
      volumes = set s.volumes vd.volu_id (volume_of e vd);
      first = or_first s.first vd;
    } in
    if vd.volu_id == root_volume
    then (assert (is_null_bdev s.root_dev) >>= λ _.
        ok (record t { root = vd; root_zone = zone; root_dev = some bdev }))
    else ok t

-- The loop over the devices. The number is the error.
unfoldable pub scan_devices : Media → List Devvp → Scan → Checked (ℕ × Scan)
scan_devices m [] s = ok (0, s)
scan_devices m (e ∷ es) s = elim e.bdev [
  | none ↦ panic
  | some bdev ↦ elim (read_volume_header m bdev) [
    | no_header error ↦ ok (error, s)
    | zone_header zone vd ↦
        if check_header s vd == 0
        then (add_volume s e bdev zone vd >>= λ t. scan_devices m es t)
        else ok (check_header s vd, s)
  ]
]

unfoldable pub init_volumes : Media → List Devvp → Checked (ℕ × Scan)
init_volumes m devvpl = scan_devices m devvpl no_volumes >>= λ (error, s).
    if not (error == 0)
    then ok (error, s)
    else if s.root.version == 0
    then ok (einval, s)
    else (verify_volumes m.nr_bytes s.volumes s.root >>= λ verified. ok (verified, s))

-- `hammer2_get_volume`: the first of the `nvolumes` slots whose range has the offset.
unfoldable pub holds : Volume → ℕ → Bool
holds v offset = leb v.offset offset && ltb offset (u64 (v.offset + v.size))

unfoldable pub volume_at : ℕ → List Volume → ℕ → Option Volume
volume_at zero vs offset = none
volume_at (suc n) [] offset = none
volume_at (suc n) (v ∷ vs) offset =
    let rest = volume_at n vs offset in if holds v offset then some v else rest

unfoldable pub is_null_dev : Option Devvp → Bool
is_null_dev none = true
is_null_dev (some e) = false

unfoldable pub get_volume : ℕ → List Volume → ℕ → Checked Volume
get_volume nvolumes volumes offset =
    elim (volume_at nvolumes volumes (high_bits offset off_radix_bits)) [
      | none ↦ panic
      | some v ↦ assert (not (is_null_dev v.dev)) >>= λ _. ok v
    ]

-- ===== src/Ondisk/Serve.antt =====
-- `hammer2_get_volume` on the table that `hammer2_init_volumes` builds.
use windows_hammer2_dfly.Common.{
  ℕ, ◌⊎◌, zero, suc, ◌+◌, ◌^◌, ◌≤◌, ◌<◌, ◌≡◌, ◌≢◌, refl, dec_lt, ℕ_discrete, Checked-cases, subst,
  inl, inr, none, some, List, [], ◌∷◌, set, replicate, ok, Option-cases, arith,
}
use windows_hammer2_dfly.Common.Words.{high_bits}
use windows_hammer2_dfly.Disk.{off_radix_bits}
use windows_hammer2_dfly.Ondisk.Types.{
  Voldata, Devvp, Volume, max_volumes, vol_version_multi_volumes, unset_volume, is_unset,
}
use windows_hammer2_dfly.Ondisk.Header.{Media, Reading, no_header, zone_header, read_volume_header}
use windows_hammer2_dfly.Ondisk.Verify.{count_volumes, verify_volumes}
use windows_hammer2_dfly.Ondisk.Volumes.{
  Scan, no_volumes, check_header, volume_of, add_volume, scan_devices, init_volumes, holds,
  volume_at, is_null_dev, get_volume,
}
use windows_hammer2_dfly.Ondisk.Tiles.{
  IsSlot, AllSlots, no_slots, slot, sum_sizes, Tiles, rest, tile, verify_volumes-Tiles,
}

-- `v` serves the offset: a device is there, and its range has the offset with the radix cleared.
pub record Serves (v : Volume) (offset : ℕ) : Type 0 where
  pub there : v.dev ≢ none
  pub above : v.offset ≤ high_bits offset off_radix_bits
  pub below : high_bits offset off_radix_bits < v.offset + v.size

Tiles-le : {off end : ℕ} {vs : List Volume} → Tiles off vs end → off ≤ end
Tiles-le (rest h) = omega arith
Tiles-le (tile is_set dev e size t) = omega (arith, Tiles-le t)

Tiles-volume_at :
    (n x : ℕ) {off end : ℕ} {vs : List Volume}
    → Tiles off vs end
    → end < 2 ^ 64
    → count_volumes vs ≤ n
    → off ≤ x
    → x < end
    → (v : Volume) × (volume_at n vs x ≡ some v)
      × (v.dev ≢ none)
      × (v.offset ≤ x)
      × (x < v.offset + v.size)
unfolding volume_at holds count_volumes
Tiles-volume_at n x (rest h) lt count le below = absurd (omega arith)
Tiles-volume_at zero x (tile is_set dev e size t) lt count le below = absurd (ground arith)
Tiles-volume_at (suc n) x (tile {off} {end} {v} {vs} is_set dev e size t) lt count le below =
    elim (dec_lt x (off + v.size)) [
      | yes here ↦ (v, ground (arith, Tiles-le t), dev, ground arith, ground arith)
      | no past ↦
          go (omega arith) (omega (arith, Tiles-le t))
            (Tiles-volume_at n x t lt (ground arith) (omega arith) below)
    ]
  where
    go :
        off + v.size ≤ x
        → off + v.size < 2 ^ 64
        → (w : Volume) × (volume_at n vs x ≡ some w)
          × (w.dev ≢ none)
          × (w.offset ≤ x)
          × (x < w.offset + w.size)
        → (w : Volume) × (volume_at (suc n) (v ∷ vs) x ≡ some w)
          × (w.dev ≢ none)
          × (w.offset ≤ x)
          × (x < w.offset + w.size)
    go past fits (w, found, there, above, below) = (w, ground arith, there, above, below)

pub set-AllSlots :
    (vs : List Volume) (i : ℕ) (v : Volume) → AllSlots vs → IsSlot v → AllSlots (set vs i v)
set-AllSlots _ i v no_slots s = no_slots
set-AllSlots _ zero v (slot old ss) s = slot s ss
set-AllSlots _ (suc i) v (slot {vs} old ss) s = slot old (set-AllSlots vs i v ss s)

pub replicate-AllSlots : (n : ℕ) → AllSlots (replicate n unset_volume)
unfolding is_unset
replicate-AllSlots zero = no_slots
replicate-AllSlots (suc n) =
    slot (record { fresh = λ h. refl; mounted = λ h. absurd (ground arith) }) (replicate-AllSlots n)

pub volume_of-IsSlot : (e : Devvp) (vd : Voldata) → IsSlot (volume_of e vd)
unfolding volume_of is_unset
volume_of-IsSlot e vd = record {
  fresh = λ h. absurd (ground arith);
  mounted = λ h. λ gone. absurd (ground arith);
}

add_volume-AllSlots :
    (s t : Scan) (e : Devvp) (bdev zone : ℕ) (vd : Voldata)
    → AllSlots s.volumes
    → add_volume s e bdev zone vd ≡ ok t
    → AllSlots t.volumes
unfolding add_volume
add_volume-AllSlots s t e bdev zone vd ss h =
    subst AllSlots (written)
      (set-AllSlots s.volumes vd.volu_id (volume_of e vd) ss (volume_of-IsSlot e vd))
  where
    written : set s.volumes vd.volu_id (volume_of e vd) ≡ t.volumes
    written = ground arith

Reading-cases :
    (o : Reading)
    → ((error : ℕ) × (o ≡ no_header error))
      ⊎ ((zone : ℕ) × (vd : Voldata) × (o ≡ zone_header zone vd))
Reading-cases (no_header error) = inl (error, refl)
Reading-cases (zone_header zone vd) = inr (zone, vd, refl)

scan_devices-AllSlots :
    (m : Media) (es : List Devvp) (s t : Scan) (error : ℕ)
    → AllSlots s.volumes
    → scan_devices m es s ≡ ok (error, t)
    → AllSlots t.volumes
unfolding scan_devices
scan_devices-AllSlots m [] s t error ss h = subst AllSlots (ground arith) ss
scan_devices-AllSlots m (e ∷ es) s t error ss h = elim (Option-cases e.bdev) [
  | inl gone ↦ absurd (ground arith)
  | inr (bdev, eb) ↦ elim (Reading-cases (read_volume_header m bdev)) [
    | inl (wrong, er) ↦ subst AllSlots (ground arith) ss
    | inr (zone, vd, er) ↦ elim (ℕ_discrete (check_header s vd) 0) [
      | no bad ↦ subst AllSlots (ground arith) ss
      | yes good ↦ elim (Checked-cases (add_volume s e bdev zone vd)) [
        | inl stops ↦ absurd (ground arith)
        | inr (u, eu) ↦
            scan_devices-AllSlots m es u t error (add_volume-AllSlots s u e bdev zone vd ss eu)
              (ground arith)
      ]
    ]
  ]
]

no_volumes-AllSlots : AllSlots no_volumes.volumes
unfolding no_volumes
no_volumes-AllSlots = replicate-AllSlots max_volumes

-- The table that a successful `hammer2_init_volumes` verified.
init_volumes-verified :
    (m : Media) (devvpl : List Devvp) (s : Scan)
    → init_volumes m devvpl ≡ ok (0, s)
    → (scan_devices m devvpl no_volumes ≡ ok (0, s))
      × (verify_volumes m.nr_bytes s.volumes s.root ≡ ok 0)
unfolding init_volumes
init_volumes-verified m devvpl s h = elim (Checked-cases (scan_devices m devvpl no_volumes)) [
  | inl stops ↦ absurd (ground arith)
  | inr ((error, t), e) ↦ elim (Checked-cases (verify_volumes m.nr_bytes t.volumes t.root)) [
    | inl stops ↦ absurd (ground arith)
    | inr (verified, ev) ↦ ground arith
  ]
]

-- When `hammer2_init_volumes` succeeds on a file system of version 2 or above whose volumes' sizes add up to
-- less than 2 ^ 64, `hammer2_get_volume` finds, for every offset below the header's total size, a
-- volume with a device whose range has the offset: it does not panic.
pub get_volume-Serves :
    (m : Media) (devvpl : List Devvp) (s : Scan) (offset : ℕ)
    → init_volumes m devvpl ≡ ok (0, s)
    → vol_version_multi_volumes ≤ s.root.version
    → sum_sizes s.volumes < 2 ^ 64
    → offset < s.root.total_size
    → (v : Volume) × (get_volume s.root.nvolumes s.volumes offset ≡ ok v) × Serves v offset
unfolding get_volume is_null_dev
get_volume-Serves m devvpl s offset h multi small below =
    let passed = init_volumes-verified m devvpl s h in
    let slots = scan_devices-AllSlots m devvpl no_volumes s 0 no_volumes-AllSlots passed.0 in
    let tiles = verify_volumes-Tiles m.nr_bytes s.volumes s.root slots small multi passed.1 in
    serve (
      Tiles-volume_at s.root.nvolumes (high_bits offset off_radix_bits) tiles.0
        (omega (arith, tiles.1)) (omega (arith, tiles.2)) (omega arith) (omega arith))
  where
    serve :
        (v : Volume) × (volume_at s.root.nvolumes s.volumes (high_bits offset off_radix_bits)
            ≡ some v)
          × (v.dev ≢ none)
          × (v.offset ≤ high_bits offset off_radix_bits)
          × (high_bits offset off_radix_bits < v.offset + v.size)
        → (v : Volume) × (get_volume s.root.nvolumes s.volumes offset ≡ ok v) × Serves v offset
    serve (v, found, there, above, under) =
        (v, ground arith, record { there = there; above = above; below = under })

-- ===== src/Ondisk/Verify.antt =====
-- hammer2_ondisk.c: the checks of a volume table against the root volume's header.
use windows_hammer2_dfly.Common.{
  ℕ, zero, suc, ◌+◌, ◌%◌, Bool, true, false, not, ◌&&◌, Option, none, some, List, [], ◌∷◌, ltb, leb,
  ◌==◌, if◌then◌else◌, Checked, ok, panic, ◌>>=◌, get_or,
}
use windows_hammer2_dfly.Common.Words.{u64}
use windows_hammer2_dfly.Disk.{level1_size, volume_align}
use windows_hammer2_dfly.Ondisk.Types.{
  Voldata, Volume, root_volume, vol_version_multi_volumes, bad_off, einval, unset_volume, is_unset,
}

-- One turn of the loop of `hammer2_verify_volumes_common`. `nr_bytes` is `bdev_nr_bytes`. A
-- NULL device stops the code.
unfoldable pub common_volume : (nr_bytes : ℕ → ℕ) → Volume → Checked ℕ
common_volume nr_bytes v = elim v.dev [
  | none ↦ panic
  | some dev ↦ elim dev.bdev [
    | none ↦ ok einval
    | some bdev ↦
        if v.offset == bad_off
        then ok einval
        else if v.size == bad_off
        then ok einval
        else if ltb (nr_bytes bdev) v.size
        then ok einval
        else if v.size == 0
        then ok einval
        else ok 0
  ]
]

unfoldable pub common_volumes : (ℕ → ℕ) → List Volume → Checked ℕ
common_volumes nr_bytes [] = ok 0
common_volumes nr_bytes (v ∷ vs) =
    let rest = common_volumes nr_bytes vs in
    if is_unset v.id
    then rest
    else (common_volume nr_bytes v >>= λ error. if error == 0 then rest else ok error)

unfoldable pub verify_volumes_common : (ℕ → ℕ) → List Volume → Voldata → Checked ℕ
verify_volumes_common nr_bytes volumes root =
    if root.volu_id == root_volume then common_volumes nr_bytes volumes else ok einval

-- How many slots are set, and the sum of their sizes, which wraps; its order does not matter.
unfoldable pub count_volumes : List Volume → ℕ
count_volumes [] = 0
count_volumes (v ∷ vs) = let rest = count_volumes vs in if is_unset v.id then rest else suc rest

unfoldable pub sum_volumes : List Volume → ℕ
sum_volumes [] = 0
sum_volumes (v ∷ vs) =
    let rest = sum_volumes vs in if is_unset v.id then rest else u64 (v.size + rest)

-- Every element of the table from `i` on is `x`.
unfoldable pub all_equal : ℕ → List ℕ → Bool
all_equal x [] = true
all_equal x (y ∷ ys) = y == x && all_equal x ys

unfoldable pub verify_volumes_1 : List Volume → Voldata → ℕ
verify_volumes_1 volumes root =
    let vol = get_or volumes root_volume unset_volume in
    if not (count_volumes volumes == 1)
    then einval
    else if not (root.nvolumes == 0)
    then einval
    else if not (root.total_size == 0)
    then einval
    else if not (all_equal 0 root.volu_loff)
    then einval
    else if not (id_is_zero vol.id)
    then einval
    else if not (vol.offset == 0)
    then einval
    else if not (vol.size % volume_align == 0)
    then einval
    else 0
  where
    id_is_zero : Option ℕ → Bool
    id_is_zero none = false
    id_is_zero (some i) = i == 0

-- The two loops over `volu_loff`: the first `n` entries are not -1, the others are.
unfoldable pub loffs_fit : ℕ → List ℕ → Bool
loffs_fit n [] = true
loffs_fit zero (off ∷ offs) = off == bad_off && loffs_fit zero offs
loffs_fit (suc n) (off ∷ offs) = not (off == bad_off) && loffs_fit n offs

-- vol->id <= prev->id; -1 is below every id.
unfoldable pub id_le : Option ℕ → Option ℕ → Bool
id_le none p = true
id_le (some i) none = false
id_le (some i) (some j) = leb i j

-- A slot against the slot before it; the first slot starts at 0.
unfoldable pub follows : ℕ → Volume → Volume → Bool
follows zero prev v = v.offset == 0
follows (suc i) prev v = not (id_le v.id prev.id) && v.offset == u64 (prev.offset + prev.size)

-- The size of a slot: whole level 1 blocks, but for the last volume.
unfoldable pub size_fits : ℕ → ℕ → ℕ → Bool
size_fits n i size =
    if suc i == n then size % volume_align == 0 else leb level1_size size && size % level1_size == 0

-- The last loop of `hammer2_verify_volumes_2`, from slot `i` on.
unfoldable pub table_fits : ℕ → ℕ → Volume → List Volume → Bool
table_fits n i prev [] = true
table_fits n i prev (v ∷ vs) =
    let rest = table_fits n (suc i) v vs in
    if is_unset v.id
    then rest
    else v.offset % level1_size == 0 && follows i prev v && size_fits n i v.size && rest

unfoldable pub verify_volumes_2 : List Volume → Voldata → ℕ
verify_volumes_2 volumes root =
    if not (root.nvolumes == count_volumes volumes)
    then einval
    else if not (root.total_size == sum_volumes volumes)
    then einval
    else if not (loffs_fit (count_volumes volumes) root.volu_loff)
    then einval
    else if not (table_fits root.nvolumes 0 unset_volume volumes)
    then einval
    else 0

unfoldable pub verify_volumes : (ℕ → ℕ) → List Volume → Voldata → Checked ℕ
verify_volumes nr_bytes volumes root = verify_volumes_common nr_bytes volumes root >>= λ error.
    if not (error == 0)
    then ok error
    else if leb vol_version_multi_volumes root.version
    then ok (verify_volumes_2 volumes root)
    else ok (verify_volumes_1 volumes root)

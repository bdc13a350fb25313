-- ===== src/Ondisk/Tiles.antt =====
-- What `hammer2_verify_volumes` accepts: volumes that lie end to end from offset 0.
use windows_hammer2_dfly.Common.{
  ℕ, suc, ◌+◌, ◌^◌, ◌≤◌, ◌<◌, ◌≡◌, ◌≢◌, refl, sym, ap, ◌∙◌, subst, inl, inr, true, false, none,
  List, [], ◌∷◌, ok, Bool-cases, if◌then◌else◌, arith,
}
use windows_hammer2_dfly.Ondisk.Types.{
  Voldata, Volume, vol_version_multi_volumes, unset_volume, is_unset,
}
use windows_hammer2_dfly.Ondisk.Verify.{
  common_volume, common_volumes, verify_volumes_common, count_volumes, sum_volumes, follows, id_le,
  table_fits, verify_volumes_2, verify_volumes,
}

-- A slot that is not set is as `hammer2_init_volumes` leaves it; one that is set has a device.
pub record IsSlot (v : Volume) : Type 0 where
  pub fresh : is_unset v.id ≡ true → v ≡ unset_volume
  pub mounted : is_unset v.id ≡ false → v.dev ≢ none

pub data AllSlots : List Volume → Type 0 where
  no_slots : AllSlots []
  slot : {v : Volume} {vs : List Volume} → IsSlot v → AllSlots vs → AllSlots (v ∷ vs)

-- The sum of the sizes of the set slots, without wrap.
unfoldable pub sum_sizes : List Volume → ℕ
sum_sizes [] = 0
sum_sizes (v ∷ vs) = let rest = sum_sizes vs in if is_unset v.id then rest else v.size + rest

-- The set slots come first, and each begins where the one before it ends, from `off` to `end`.
pub data Tiles : ℕ → List Volume → ℕ → Type 0 where
  rest : {off : ℕ} {vs : List Volume} → count_volumes vs ≡ 0 → Tiles off vs off
  tile :
      {off end : ℕ} {v : Volume} {vs : List Volume}
      → is_unset v.id ≡ false
      → v.dev ≢ none
      → v.offset ≡ off
      → 0 < v.size
      → Tiles (off + v.size) vs end
      → Tiles off (v ∷ vs) end

after-unset :
    (n i : ℕ) (prev v : Volume) (vs : List Volume)
    → IsSlot v
    → is_unset v.id ≡ true
    → table_fits n i prev (v ∷ vs) ≡ true
    → table_fits n (suc i) unset_volume vs ≡ true
unfolding table_fits
after-unset n i prev v vs s unset h =
    ap (λ w. table_fits n (suc i) w vs) (sym (s.fresh unset)) ∙ ground arith

-- After an unset slot no set slot is accepted.
none-follow :
    (n i : ℕ) (vs : List Volume)
    → AllSlots vs
    → table_fits n (suc i) unset_volume vs ≡ true
    → count_volumes vs ≡ 0
unfolding table_fits count_volumes follows id_le
none-follow n i _ no_slots h = refl
none-follow n i _ (slot {v} {vs} s ss) h = elim (Bool-cases (is_unset v.id)) [
  | inl unset ↦
      ground
        (none-follow n (suc i) vs ss (after-unset n (suc i) unset_volume v vs s unset h), arith)
  | inr set ↦ absurd (ground arith)
]

common-head :
    (nr_bytes : ℕ → ℕ) (v : Volume) (vs : List Volume)
    → common_volumes nr_bytes (v ∷ vs) ≡ ok 0
    → is_unset v.id ≡ false
    → 0 < v.size
unfolding common_volumes common_volume
common-head nr_bytes v vs h set = ground arith

common-tail :
    (nr_bytes : ℕ → ℕ) (v : Volume) (vs : List Volume)
    → common_volumes nr_bytes (v ∷ vs) ≡ ok 0
    → common_volumes nr_bytes vs ≡ ok 0
unfolding common_volumes
common-tail nr_bytes v vs h = ground arith

sum_sizes-none : (vs : List Volume) → count_volumes vs ≡ 0 → sum_sizes vs ≡ 0
unfolding count_volumes sum_sizes
sum_sizes-none [] h = refl
sum_sizes-none (v ∷ vs) h = ground (arith, sum_sizes-none vs)

module _ (nr_bytes : ℕ → ℕ) (n : ℕ) where
  table-Tiles :
      (i : ℕ) (prev : Volume) (vs : List Volume) (off end : ℕ)
      → AllSlots vs
      → common_volumes nr_bytes vs ≡ ok 0
      → table_fits n (suc i) prev vs ≡ true
      → prev.offset + prev.size ≡ off
      → off + sum_sizes vs ≡ end
      → end < 2 ^ 64
      → Tiles off vs end
  unfolding table_fits follows sum_sizes count_volumes
  table-Tiles i prev _ off end no_slots c h e total lt =
      subst (Tiles off []) (omega arith) (rest refl)
  table-Tiles i prev _ off end (slot {v} {vs} s ss) c h e total lt =
      elim (Bool-cases (is_unset v.id)) [
        | inl unset ↦
            let none_set =
              none-follow n (suc i) vs ss (after-unset n (suc i) prev v vs s unset h) in
            subst (Tiles off (v ∷ vs)) (ground (arith, sum_sizes-none vs none_set))
              (rest (ground arith))
        | inr set ↦ tile set (s.mounted set) (ground arith) (common-head nr_bytes v vs c set) (
            table-Tiles (suc i) v vs (off + v.size) end ss (common-tail nr_bytes v vs c)
              (ground arith) (ground arith) (ground arith) lt)
      ]

  first-Tiles :
      (vs : List Volume)
      → AllSlots vs
      → common_volumes nr_bytes vs ≡ ok 0
      → table_fits n 0 unset_volume vs ≡ true
      → sum_sizes vs < 2 ^ 64
      → Tiles 0 vs (sum_sizes vs)
  unfolding table_fits follows sum_sizes count_volumes
  first-Tiles _ no_slots c h lt = rest refl
  first-Tiles _ (slot {v} {vs} s ss) c h lt = elim (Bool-cases (is_unset v.id)) [
    | inl unset ↦
        let none_set = none-follow n 0 vs ss (after-unset n 0 unset_volume v vs s unset h) in
        subst (Tiles 0 (v ∷ vs)) (ground (arith, sum_sizes-none vs none_set)) (rest (ground arith))
    | inr set ↦ tile set (s.mounted set) (ground arith) (common-head nr_bytes v vs c set) (
        table-Tiles 0 v vs (0 + v.size) (sum_sizes (v ∷ vs)) ss (common-tail nr_bytes v vs c)
          (ground arith) (ground arith) (ground arith) lt)
  ]

sum_volumes-exact : (vs : List Volume) → sum_sizes vs < 2 ^ 64 → sum_volumes vs ≡ sum_sizes vs
unfolding sum_volumes sum_sizes
sum_volumes-exact [] h = refl
sum_volumes-exact (v ∷ vs) h = elim (Bool-cases (is_unset v.id)) [
  | inl unset ↦ ground (arith, sum_volumes-exact vs)
  | inr set ↦ ground (arith, sum_volumes-exact vs (ground arith))
]

common_passed :
    (nr_bytes : ℕ → ℕ) (volumes : List Volume) (root : Voldata)
    → verify_volumes nr_bytes volumes root ≡ ok 0
    → common_volumes nr_bytes volumes ≡ ok 0
unfolding verify_volumes verify_volumes_common
common_passed nr_bytes volumes root h = ground arith

multi_passed :
    (nr_bytes : ℕ → ℕ) (volumes : List Volume) (root : Voldata)
    → vol_version_multi_volumes ≤ root.version
    → verify_volumes nr_bytes volumes root ≡ ok 0
    → (table_fits root.nvolumes 0 unset_volume volumes ≡ true)
      × (root.total_size ≡ sum_volumes volumes)
      × (root.nvolumes ≡ count_volumes volumes)
unfolding verify_volumes verify_volumes_common verify_volumes_2
multi_passed nr_bytes volumes root multi h = ground arith

-- A table whose slots are set from devices or unset, that `hammer2_verify_volumes` accepts for a
-- header of version 2 or above, and whose sizes add up to less than 2 ^ 64: the set slots come first, they lie
-- end to end from offset 0 to the header's total size,
-- which is the sum of their sizes, and the header counts them.
pub verify_volumes-Tiles :
    (nr_bytes : ℕ → ℕ) (volumes : List Volume) (root : Voldata)
    → AllSlots volumes
    → sum_sizes volumes < 2 ^ 64
    → vol_version_multi_volumes ≤ root.version
    → verify_volumes nr_bytes volumes root ≡ ok 0
    → Tiles 0 volumes root.total_size
      × (root.total_size ≡ sum_sizes volumes)
      × (root.nvolumes ≡ count_volumes volumes)
verify_volumes-Tiles nr_bytes volumes root slots small multi h =
    let passed = multi_passed nr_bytes volumes root multi h in
    (
      subst (Tiles 0 volumes) (ground (arith, sum_volumes-exact volumes)) (
          first-Tiles nr_bytes root.nvolumes volumes slots (common_passed nr_bytes volumes root h)
            passed.0 small),
      ground (arith, sum_volumes-exact volumes),
      passed.2,
    )

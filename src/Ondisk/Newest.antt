-- ===== src/Ondisk/Newest.antt =====
-- The copy of the volume header that `hammer2_read_volume_header` picks.
use windows_hammer2_dfly.Common.{
  ℕ, zero, suc, true, false, ◌+◌, ◌≤◌, ◌<◌, ◌≡◌, refl, sym, ap, subst, Option, none, some, ltb,
  if◌then◌else◌, Bool-cases, inl, inr, arith,
}
use native.Mathlib.Decide.{ℕ_discrete}
use windows_hammer2_dfly.Ondisk.Types.{Voldata, einval, enomem, num_volhdrs}
use windows_hammer2_dfly.Ondisk.Header.{
  Media, Found, is_newer, header_at, keep_newer, header_loop, Reading, no_header, zone_header,
  reading_of, read_volume_header,
}

module _ (m : Media) (bdev : ℕ) where
  -- Of the zones below `n`, `found` is the newest valid copy, and the first of those.
  pub data IsNewest (n : ℕ) : Found → Type 0 where
    absent : ((j : ℕ) → j < n → header_at m bdev j ≡ none) → IsNewest n none
    newest :
        (z : ℕ) (vd : Voldata)
        → z < n
        → header_at m bdev z ≡ some vd
        → ((j : ℕ) (other : Voldata)
            → j < n
            → header_at m bdev j ≡ some other
            → (other.mirror_tid ≤ vd.mirror_tid) × (j < z → other.mirror_tid < vd.mirror_tid))
        → IsNewest n (some (z, vd))

  keep_newer-IsNewest :
      (n : ℕ) (here : Option Voldata) (found : Found)
      → header_at m bdev n ≡ here
      → IsNewest n found
      → IsNewest (suc n) (keep_newer n here found)
  unfolding keep_newer is_newer
  keep_newer-IsNewest n none _ e (absent h) = absent (λ j lt. elim (ℕ_discrete j n) [
    | yes same ↦ subst (λ k. header_at m bdev k ≡ none) (sym same) e
    | no ne ↦ h j (omega arith)
  ])
  keep_newer-IsNewest n none _ e (newest z vd lt at best) =
      newest z vd (omega arith) at (λ j other below o. ground (arith, best j other))
  keep_newer-IsNewest n (some vd) _ e (absent h) =
      newest n vd (omega arith) e (λ j other below o. ground (arith, h j))
  keep_newer-IsNewest n (some vd) _ e (newest z old lt at best) =
      elim (Bool-cases (ltb old.mirror_tid vd.mirror_tid)) [
        | inl above ↦
            subst (IsNewest (suc n))
              (sym (ap (λ b. if b then some (n, vd) else some (z, old)) above))
              (newest n vd (omega arith) e (λ j other below o. ground (arith, best j other)))
        | inr not_above ↦
            subst (IsNewest (suc n))
              (sym (ap (λ b. if b then some (n, vd) else some (z, old)) not_above))
              (newest z old (omega arith) at (λ j other below o. ground (arith, best j other)))
      ]

  header_loop-IsNewest :
      (n i : ℕ) (found : Found) → IsNewest i found → IsNewest (n + i) (header_loop m bdev n i found)
  unfolding header_loop
  header_loop-IsNewest zero i found h = subst (λ k. IsNewest k found) (omega arith) h
  header_loop-IsNewest (suc n) i found h =
      subst (λ k. IsNewest k (header_loop m bdev (suc n) i found)) (omega arith)
        (header_loop-IsNewest n (suc i) (keep_newer i (header_at m bdev i) found)
          (keep_newer-IsNewest i (header_at m bdev i) found refl h))

  -- What the function returns: an error, or the zone and the header.
  pub data IsRead : Reading → Type 0 where
    without_memory : m.memory bdev ≡ false → IsRead (no_header enomem)
    without_header :
        m.memory bdev ≡ true
        → ((j : ℕ) → j < num_volhdrs → header_at m bdev j ≡ none)
        → IsRead (no_header einval)
    with_header :
        (z : ℕ) (vd : Voldata)
        → m.memory bdev ≡ true
        → IsNewest num_volhdrs (some (z, vd))
        → IsRead (zone_header z vd)

  IsNewest-IsRead :
      (found : Found)
      → m.memory bdev ≡ true
      → IsNewest num_volhdrs found
      → IsRead (reading_of found)
  IsNewest-IsRead none there (absent h) = without_header there h
  IsNewest-IsRead (some (z, vd)) there best = with_header z vd there best

  -- `hammer2_read_volume_header` fails with -ENOMEM if there is no memory for the buffer, and with
  -- -EINVAL if there is memory and none of the four zones has a valid header that can be read;
  -- otherwise it returns the zone and the header with the highest `mirror_tid` of the valid ones, the
  -- lowest zone of those that share it.
  pub read_volume_header-IsRead : IsRead (read_volume_header m bdev)
  unfolding read_volume_header
  read_volume_header-IsRead = elim (Bool-cases (m.memory bdev)) [
    | inr no_memory ↦ rw no_memory (without_memory no_memory)
    | inl there ↦ rw there (
        IsNewest-IsRead (header_loop m bdev 4 0 none) there
          (header_loop-IsNewest 4 0 none (absent (λ j lt. absurd (omega arith)))))
  ]

-- ===== src/Dio/Origins.antt =====
-- The buffer that `hammer2_io_alloc` gives is sound and shows what was seen before.
use windows_hammer2_dfly.Common.{
  ℕ, zero, suc, ◌+◌, ◌-◌, ◌%◌, ◌^◌, ◌≤◌, ◌<◌, ◌≡◌, ◌≢◌, refl, sym, ap, ◌∙◌, subst, not, false≢true,
  Option, none, some, List, [], ◌∷◌, Bool-cases, Checked, ok, panic, ok-injective, ◌>>=◌, assert,
  inl, inr, arith,
}
use windows_hammer2_dfly.Common.Words.{high_bits}
use windows_hammer2_dfly.Disk.{pbuf_size, off_radix_bits}
use windows_hammer2_dfly.Ondisk.Types.{Volume}
use windows_hammer2_dfly.Ondisk.Volumes.{holds, volume_at, is_null_dev, get_volume}
use windows_hammer2_dfly.Dio.Types.{Dio, IoDev, pbase_of, bdev_number, lookup, new_dio, touch}
use windows_hammer2_dfly.Dio.Found.{Origin, reused, created}
use windows_hammer2_dfly.Dio.View.{
  references, IsPlaced-alike, dio_byte, view, disk_byte, IsSound, IsCoherent, view-some, view-none,
}

volume_at-above :
    (n : ℕ) (vs : List Volume) (x : ℕ) (w : Volume) → volume_at n vs x ≡ some w → w.offset ≤ x
unfolding volume_at holds
volume_at-above zero vs x w h = cc
volume_at-above (suc n) [] x w h = cc
volume_at-above (suc n) (v ∷ vs) x w h = ground (arith, volume_at-above n vs x w)

panic-ne-ok : (v : Volume) → panic ≢ ok v
panic-ne-ok v h = cc

pub get_volume-above :
    (n : ℕ) (vs : List Volume) (x : ℕ) (v : Volume) → get_volume n vs x ≡ ok v → v.offset ≤ x
unfolding get_volume
get_volume-above n vs x v h = go (volume_at n vs (high_bits x off_radix_bits)) refl h
  where
    go :
        (o : Option Volume)
        → volume_at n vs (high_bits x off_radix_bits) ≡ o
        → (elim o as (λ _. Checked Volume) [
          | none ↦ panic
          | some w ↦ assert (not (is_null_dev w.dev)) >>= λ _. ok w
        ])
          ≡ ok v
        → v.offset ≤ x
    go none e h' = cc
    go (some w) e h' =
        let le = volume_at-above n vs (high_bits x off_radix_bits) w e in
        elim (Bool-cases (not (is_null_dev w.dev))) [
          | inl t ↦
              let same : w ≡ v = ok-injective w v (rw t at h') in
              let same_offset : w.offset ≡ v.offset = λ i. (same i).offset in omega arith
          | inr f ↦ absurd (panic-ne-ok v (rw f at h'))
        ]

-- The buffer that `hammer2_io_alloc` gives shows what was seen before, and is sound.
module _ (now btype : ℕ) (s : IoDev) (coherent : IsCoherent s) (p : ℕ) (d : Dio)
    (small : p < 2 ^ 64) (aligned : p % pbuf_size ≡ 0) where
  pub Origin-IsSound : Origin s p now btype d → IsSound s p d
  unfolding touch new_dio
  Origin-IsSound (reused old h e) =
      subst (λ (x : Dio). IsSound s p x) (sym e)
        (let so = coherent.sound p old h in
          let at = so.placed in
          record {
            placed = IsPlaced-alike s s p old _ refl refl refl refl refl at;
            filled = record { present = so.filled.present; clean = so.filled.clean };
            free = λ none_held. absurd (omega arith);
          })
  Origin-IsSound (created v h served whole e) =
      subst (λ (x : Dio). IsSound s p x) (sym e)
        (record {
          placed = record {
            volume = v;
            served = served;
            bdev = refl;
            dbase = refl;
            whole = whole;
            above = get_volume-above s.nvolumes s.volumes p v served;
            pbase = refl;
            aligned = aligned;
            small = small;
          };
          filled = record {
            present = λ good. absurd (false≢true good);
            clean = λ good. absurd (false≢true good);
          };
          free = λ none_held. absurd (omega arith);
        })

  pub Origin-view :
      Origin s p now btype d → (x : ℕ) → pbase_of x ≡ p → view s x ≡ dio_byte s.media d (x - p)
  unfolding touch new_dio
  Origin-view (reused old h e) x same =
      view-some s x (ap (λ (q : ℕ). lookup q s) same ∙ h)
      ∙ ap (λ (q : ℕ). dio_byte s.media old (x - q)) same
      ∙ ap (λ (y : Dio). dio_byte s.media y (x - p)) (sym e)
  Origin-view (created v h served whole e) x same =
      view-none s x (ap (λ (q : ℕ). lookup q s) same ∙ h)
      ∙ ap (λ (m : Checked Volume). disk_byte s.media m x)
          (ap (λ (q : ℕ). get_volume s.nvolumes s.volumes q) same ∙ served)
      ∙ ap (λ (q : ℕ). s.media (bdev_number v.dev) (q - v.offset + (x - q))) same
      ∙ ap (λ (y : Dio). dio_byte s.media y (x - p)) (sym e)

  pub Origin-refs : Origin s p now btype d → d.refs ≡ references (lookup p s) + 1
  unfolding touch new_dio
  Origin-refs (reused old h e) =
      ap (λ (x : Dio). x.refs) e ∙ ap (λ (o : Option Dio). references o + 1) (sym h)
  Origin-refs (created v h served whole e) =
      ap (λ (x : Dio). x.refs) e ∙ ap (λ (o : Option Dio). references o + 1) (sym h)

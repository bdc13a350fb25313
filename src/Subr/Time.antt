-- ===== src/Subr/Time.antt =====
-- hammer2_subr.c: the microseconds of the media and `struct timespec64`. `unsigned long`, which the
-- seconds pass through, has `w` bits: 32 on Windows, 64 on Linux.
use windows_hammer2_dfly.Common.{ℕ, ◌+◌, ◌*◌, ◌/◌, ◌%◌, ◌^◌, ◌≤◌, ◌<◌, ◌≡◌, ◌↔◌, ◌∙◌, arith}
use native.Mathlib.Nat.{pow-le-pow_right, mod-le, mod-lt, mod-eq_of_lt, mod-mod}
use windows_hammer2_dfly.Common.Words.{u32, u64}

pub record Timespec : Type 0 where
  pub tv_sec : ℕ
  pub tv_nsec : ℕ

unfoldable pub time_to_timespec : (w : ℕ) → ℕ → Timespec
time_to_timespec w xtime = record {
  tv_sec = xtime / 1000000 % 2 ^ w;
  tv_nsec = u32 (xtime % 1000000) * 1000 % 2 ^ w;
}

unfoldable pub timespec_to_time : (w : ℕ) → Timespec → ℕ
timespec_to_time w ts = u64 (u32 (ts.tv_nsec / 1000) + ts.tv_sec % 2 ^ w * 1000000)

seconds_kept : (w n : ℕ) → 32 ≤ w → (2 ^ 32 ≤ 2 ^ w) × (n % 2 ^ w ≤ n) × (n % 2 ^ w < 2 ^ w)
seconds_kept w n wide =
    let wider : 2 ^ 32 ≤ 2 ^ w = pow-le-pow_right (omega arith) wide in
    (wider, mod-le n (2 ^ w), mod-lt n (omega arith))

times_back :
    (w xtime : ℕ)
    → 32 ≤ w
    → xtime < 2 ^ 64
    → timespec_to_time w (time_to_timespec w xtime)
      ≡ xtime / 1000000 % 2 ^ w * 1000000 + xtime % 1000000
unfolding time_to_timespec timespec_to_time
times_back w xtime wide fits =
    let kept = seconds_kept w (xtime / 1000000) wide in
    let micros : u32 (xtime % 1000000) * 1000 % 2 ^ w ≡ xtime % 1000000 * 1000 =
      mod-eq_of_lt (omega arith) ∙ omega arith in
    rw (micros, mod-mod (xtime / 1000000) (2 ^ w)) (omega (arith, kept))

-- For a time of 64 bits and an `unsigned long` of at least 32, `hammer2_timespec_to_time` gives
-- back the time that `hammer2_time_to_timespec` was given if and only if its seconds fit an
-- `unsigned long`.
pub time_roundtrip :
    (w xtime : ℕ)
    → 32 ≤ w
    → xtime < 2 ^ 64
    → (timespec_to_time w (time_to_timespec w xtime) ≡ xtime) ↔ (xtime / 1000000 < 2 ^ w)
time_roundtrip w xtime wide fits =
    let kept = seconds_kept w (xtime / 1000000) wide in
    (
      (λ same. omega (arith, kept, times_back w xtime wide fits)),
      (λ fit. omega (arith, mod-eq_of_lt fit, times_back w xtime wide fits)),
    )

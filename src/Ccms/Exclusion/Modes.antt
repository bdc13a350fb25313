-- ===== src/Ccms/Exclusion/Modes.antt =====
-- ccms_cst.count and ccms_cst.td over the steps of a thread.
use windows_hammer2_dfly.Common.{ℕ, ◌<◌, ◌≡◌, ◌≢◌, refl, true, false, none, some, arith}
use windows_hammer2_dfly.Common.Int.{pos, negsuc}
use windows_hammer2_dfly.Ccms.{
  Cst, lock_pass, thread_lock, thread_unlock, upgrade_pass, lock_upgrade, lock_downgrade,
  unlock_upgraded, lock_owned, is_thread, is_null, released, unlock_exclusive, unlock_shared,
}
use windows_hammer2_dfly.Ccms.Threads.{
  Pc, Move, lock_shared, lock_exclusive, lock_sleeps, retry_shared, retry_exclusive, retry_sleeps,
  lock_again, unlock_inner, unlock_last, upgrade_now, upgrade_sleeps, upgrade_retry, upgrade_waits,
  downgrade, unlock_up, update,
}
use windows_hammer2_dfly.Ccms.Exclusion.{
  total, total-update, total-ge, shares, owns, extra_of, Mode, unowned, owned,
}

module _ (n : ℕ) (c : Cst) (pc : ℕ → Pc) (i : ℕ) (lt : i < n) where
  -- The shapes of a mode after thread `i` has gone to `p'`.
  module _ (c' : Cst) (p' : Pc) where
    left_unowned :
        ((j : ℕ) → owns (pc j) ≡ true → j ≡ i)
        → c'.count ≡ pos (total shares n (update pc i p'))
        → c'.td ≡ none
        → owns p' ≡ false
        → Mode n c' (update pc i p')
    left_unowned others count td free = unowned count td (λ j. ground (arith, others j))

    taken :
        ((j : ℕ) → owns (pc j) ≡ true → j ≡ i)
        → c'.count ≡ negsuc (extra_of p')
        → c'.td ≡ some i
        → owns p' ≡ true
        → total shares n (update pc i p') ≡ 0
        → Mode n c' (update pc i p')
    taken others count td mine empty =
        owned i (ground arith) td (ground arith) empty (λ j h. ground (arith, others j))

    kept :
        (o : ℕ)
        → o ≢ i
        → c'.count ≡ negsuc (extra_of (pc o))
        → c'.td ≡ some o
        → owns (pc o) ≡ true
        → ((j : ℕ) → owns (pc j) ≡ true → j ≡ o)
        → owns p' ≡ false
        → total shares n (update pc i p') ≡ 0
        → Mode n c' (update pc i p')
    kept o ne count td here only free empty =
        owned o (ground arith) td (ground arith) empty (λ j h. ground (arith, only j))

  pub Move-Mode :
      {p p' : Pc} {c' : Cst}
      → Mode n c pc
      → pc i ≡ p
      → Move i c p c' p'
      → Mode n c' (update pc i p')
  unfolding thread_lock lock_pass lock_owned is_thread is_null thread_unlock upgrade_pass
      lock_upgrade lock_downgrade unlock_upgraded released unlock_exclusive unlock_shared
  Move-Mode {p'} {c'} (unowned count td nobody) e (lock_shared h) =
      left_unowned c' p' (λ j. ground (arith, nobody j))
        (ground (arith, total-update shares n pc i p' lt)) (ground arith) refl
  Move-Mode {p'} {c'} (unowned count td nobody) e (lock_exclusive h) =
      taken c' p' (λ j. ground (arith, nobody j)) (ground arith) (ground arith) refl
        (ground (arith, total-update shares n pc i p' lt))
  Move-Mode {p'} {c'} (unowned count td nobody) e (lock_sleeps state h) =
      left_unowned c' p' (λ j. ground (arith, nobody j))
        (ground (arith, total-update shares n pc i p' lt)) (ground arith) refl
  Move-Mode {p'} {c'} (unowned count td nobody) e (retry_shared st h) =
      left_unowned c' p' (λ j. ground (arith, nobody j))
        (ground (arith, total-update shares n pc i p' lt)) (ground arith) refl
  Move-Mode {p'} {c'} (unowned count td nobody) e (retry_exclusive st h) =
      taken c' p' (λ j. ground (arith, nobody j)) (ground arith) (ground arith) refl
        (ground (arith, total-update shares n pc i p' lt))
  Move-Mode {p'} {c'} (unowned count td nobody) e (retry_sleeps h) =
      left_unowned c' p' (λ j. ground (arith, nobody j))
        (ground (arith, total-update shares n pc i p' lt)) (ground arith) refl
  Move-Mode (unowned count td nobody) e (lock_again state h) = absurd (ground (arith, nobody i))
  Move-Mode {p'} {c'} (unowned count td nobody) e (Move.unlock_shared h r) =
      left_unowned c' p' (λ j. ground (arith, nobody j))
        (ground (arith, total-update shares n pc i p' lt)) (ground arith) refl
  Move-Mode (unowned count td nobody) e (unlock_inner h r) = absurd (ground (arith, nobody i))
  Move-Mode (unowned count td nobody) e (unlock_last x y h r) = absurd (ground (arith, nobody i))
  Move-Mode {p'} {c'} (unowned count td nobody) e (upgrade_now h) =
      taken c' p' (λ j. ground (arith, nobody j)) (ground arith) (ground arith) refl
        (ground (arith, total-update shares n pc i p' lt))
  Move-Mode {p'} {c'} (unowned count td nobody) e (upgrade_sleeps h) =
      left_unowned c' p' (λ j. ground (arith, nobody j))
        (ground (arith, total-update shares n pc i p' lt)) (ground arith) refl
  Move-Mode {p'} {c'} (unowned count td nobody) e (upgrade_retry h) =
      taken c' p' (λ j. ground (arith, nobody j)) (ground arith) (ground arith) refl
        (ground (arith, total-update shares n pc i p' lt))
  Move-Mode {p'} {c'} (unowned count td nobody) e (upgrade_waits h) =
      left_unowned c' p' (λ j. ground (arith, nobody j))
        (ground (arith, total-update shares n pc i p' lt)) (ground arith) refl
  Move-Mode (unowned count td nobody) e (downgrade x y h r) = absurd (ground (arith, nobody i))
  Move-Mode (unowned count td nobody) e (unlock_up x y h r) = absurd (ground (arith, nobody i))
  Move-Mode (owned o count td here empty only) e (lock_shared h) = absurd (ground arith)
  Move-Mode (owned o count td here empty only) e (lock_exclusive h) = absurd (ground arith)
  Move-Mode {p'} {c'} (owned o count td here empty only) e (lock_sleeps state h) =
      kept c' p' o (ground arith) (ground arith) (ground arith) here only refl
        (ground (arith, total-update shares n pc i p' lt))
  Move-Mode (owned o count td here empty only) e (retry_shared st h) = absurd (ground arith)
  Move-Mode (owned o count td here empty only) e (retry_exclusive st h) = absurd (ground arith)
  Move-Mode {p'} {c'} (owned o count td here empty only) e (retry_sleeps h) =
      kept c' p' o (ground arith) (ground arith) (ground arith) here only refl
        (ground (arith, total-update shares n pc i p' lt))
  Move-Mode {p'} {c'} (owned o count td here empty only) e (lock_again state h) =
      taken c' p' (λ j. ground (arith, only j, only i)) (ground (arith, only i))
        (ground (arith, only i)) refl (ground (arith, total-update shares n pc i p' lt))
  Move-Mode (owned o count td here empty only) e (Move.unlock_shared h r) =
      absurd (ground (arith, total-ge shares n pc i lt))
  Move-Mode {p'} {c'} (owned o count td here empty only) e (unlock_inner h r) =
      taken c' p' (λ j. ground (arith, only j, only i)) (ground (arith, only i))
        (ground (arith, only i)) refl (ground (arith, total-update shares n pc i p' lt))
  Move-Mode {p'} {c'} (owned o count td here empty only) e (unlock_last x y h r) =
      left_unowned c' p' (λ j. ground (arith, only j, only i))
        (ground (arith, only i, total-update shares n pc i p' lt)) (ground (arith, only i)) refl
  Move-Mode (owned o count td here empty only) e (upgrade_now h) =
      absurd (ground (arith, total-ge shares n pc i lt))
  Move-Mode (owned o count td here empty only) e (upgrade_sleeps h) =
      absurd (ground (arith, total-ge shares n pc i lt))
  Move-Mode (owned o count td here empty only) e (upgrade_retry h) = absurd (ground arith)
  Move-Mode {p'} {c'} (owned o count td here empty only) e (upgrade_waits h) =
      kept c' p' o (ground arith) (ground arith) (ground arith) here only refl
        (ground (arith, total-update shares n pc i p' lt))
  Move-Mode {p'} {c'} (owned o count td here empty only) e (downgrade x y h r) =
      left_unowned c' p' (λ j. ground (arith, only j, only i))
        (ground (arith, only i, total-update shares n pc i p' lt)) (ground (arith, only i)) refl
  Move-Mode {p'} {c'} (owned o count td here empty only) e (unlock_up x y h r) =
      left_unowned c' p' (λ j. ground (arith, only j, only i))
        (ground (arith, only i, total-update shares n pc i p' lt)) (ground (arith, only i)) refl

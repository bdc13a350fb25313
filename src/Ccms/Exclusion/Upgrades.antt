-- ===== src/Ccms/Exclusion/Upgrades.antt =====
-- ccms_cst.upgrade over the steps of a thread.
use windows_hammer2_dfly.Common.{ℕ, ◌<◌, ◌≡◌, false, arith}
use windows_hammer2_dfly.Common.Int.{pos, is_neg}
use windows_hammer2_dfly.Ccms.{
  Cst, lock_pass, thread_lock, thread_unlock, upgrade_pass, lock_upgrade, lock_downgrade,
  unlock_upgraded, lock_owned, is_thread, is_null, released, unlock_exclusive, unlock_shared,
}
use windows_hammer2_dfly.Ccms.Threads.{
  Pc, shared, Move, lock_shared, lock_exclusive, lock_sleeps, retry_shared, retry_exclusive,
  retry_sleeps, lock_again, unlock_inner, unlock_last, upgrade_now, upgrade_sleeps, upgrade_retry,
  upgrade_waits, downgrade, unlock_up, update,
}
use windows_hammer2_dfly.Ccms.Exclusion.{
  total, total-update, total-ge, shares, pending, Mode, unowned, owned,
}

module _ (n : ℕ) (c : Cst) (pc : ℕ → Pc) (i : ℕ) (lt : i < n) where
  -- A shared holder shows in `count`.
  pub count-shared : Mode n c pc → pc i ≡ shared → is_neg c.count ≡ false
  count-shared (unowned count td nobody) e = ground arith
  count-shared (owned o count td here shared_none only) e =
      absurd (ground (arith, total-ge shares n pc i lt))

  pub Move-upgrade :
      {p p' : Pc} {c' : Cst}
      → Mode n c pc
      → pc i ≡ p
      → c.upgrade ≡ pos (total pending n pc)
      → Move i c p c' p'
      → c'.upgrade ≡ pos (total pending n (update pc i p'))
  unfolding thread_lock lock_pass lock_owned is_thread is_null thread_unlock upgrade_pass
      lock_upgrade lock_downgrade unlock_upgraded released unlock_exclusive unlock_shared
  Move-upgrade {p'} m e u (lock_shared h) = ground (arith, total-update pending n pc i p' lt)
  Move-upgrade {p'} m e u (lock_exclusive h) = ground (arith, total-update pending n pc i p' lt)
  Move-upgrade {p'} m e u (lock_sleeps state h) = ground (arith, total-update pending n pc i p' lt)
  Move-upgrade {p'} m e u (retry_shared st h) = ground (arith, total-update pending n pc i p' lt)
  Move-upgrade {p'} m e u (retry_exclusive st h) = ground (arith, total-update pending n pc i p' lt)
  Move-upgrade {p'} m e u (retry_sleeps h) = ground (arith, total-update pending n pc i p' lt)
  Move-upgrade {p'} m e u (lock_again state h) = ground (arith, total-update pending n pc i p' lt)
  Move-upgrade {p'} m e u (Move.unlock_shared h r) =
      ground (arith, total-update pending n pc i p' lt)
  Move-upgrade {p'} m e u (unlock_inner h r) = ground (arith, total-update pending n pc i p' lt)
  Move-upgrade {p'} m e u (unlock_last x y h r) = ground (arith, total-update pending n pc i p' lt)
  Move-upgrade {p'} m e u (upgrade_now h) =
      ground (arith, total-update pending n pc i p' lt, count-shared m e)
  Move-upgrade {p'} m e u (upgrade_sleeps h) =
      ground (arith, total-update pending n pc i p' lt, count-shared m e)
  Move-upgrade {p'} m e u (upgrade_retry h) = ground (arith, total-update pending n pc i p' lt)
  Move-upgrade {p'} m e u (upgrade_waits h) = ground (arith, total-update pending n pc i p' lt)
  Move-upgrade {p'} m e u (downgrade x y h r) = ground (arith, total-update pending n pc i p' lt)
  Move-upgrade {p'} m e u (unlock_up x y h r) = ground (arith, total-update pending n pc i p' lt)

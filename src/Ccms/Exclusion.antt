-- ===== src/Ccms/Exclusion.antt =====
-- What the lock's fields say of its threads: the invariant of hammer2_ccms.c.
pub mod Upgrades
pub mod Modes
pub mod Safety
use mathlib.Core.Logic.{ite}
use windows_hammer2_dfly.Common.{
  ℕ, zero, suc, ◌+◌, ◌≤◌, ◌<◌, ◌≡◌, ◌≢◌, refl, Bool, true, false, Option, none, some, Checked, ok,
  dec_lt, ℕ_discrete, arith,
}
use windows_hammer2_dfly.Common.Int.{ℤ, pos, negsuc, is_neg}
use windows_hammer2_dfly.Ccms.{
  Cst, cst_init, Pass, locked, sleeps, Released, lock_pass, thread_lock, thread_unlock,
  upgrade_pass, lock_upgrade, lock_downgrade, unlock_upgraded, lock_owned, is_thread, is_null,
  released, unlock_exclusive, unlock_shared,
}
use windows_hammer2_dfly.Ccms.Threads.{
  Pc, idle, waiting, shared, upgrading, owner, Move, lock_shared, lock_exclusive, lock_sleeps,
  retry_shared, retry_exclusive, retry_sleeps, lock_again, unlock_inner, unlock_last, upgrade_now,
  upgrade_sleeps, upgrade_retry, upgrade_waits, downgrade, unlock_up, update, System, Step, turn,
  start, Reach, begin, later,
}

-- How many of the first `n` threads are in a position.
unfoldable pub total : (Pc → ℕ) → ℕ → (ℕ → Pc) → ℕ
total w zero pc = 0
total w (suc n) pc = total w n pc + w (pc n)

total-update_above :
    (w : Pc → ℕ) (n : ℕ) (pc : ℕ → Pc) (i : ℕ) (p : Pc)
    → n ≤ i
    → total w n (update pc i p) ≡ total w n pc
unfolding total
total-update_above w zero pc i p le = refl
total-update_above w (suc n) pc i p le = ground (arith, total-update_above w n pc i p)

pub total-update :
    (w : Pc → ℕ) (n : ℕ) (pc : ℕ → Pc) (i : ℕ) (p : Pc)
    → i < n
    → total w n (update pc i p) + w (pc i) ≡ total w n pc + w p
unfolding total
total-update w zero pc i p lt = absurd (omega arith)
total-update w (suc n) pc i p lt = elim (dec_lt i n) [
  | yes below ↦ ground (arith, total-update w n pc i p below)
  | no last ↦ ground (arith, total-update_above w n pc i p)
]

abbrev pub shares : Pc → ℕ
shares shared = 1
shares _ = 0

-- A thread that upgrades, or has upgraded, its lock.
abbrev pub pending : Pc → ℕ
pending upgrading = 1
pending (owner extra true) = 1
pending _ = 0

abbrev pub owns : Pc → Bool
owns (owner extra up) = true
owns _ = false

abbrev pub extra_of : Pc → ℕ
extra_of (owner extra up) = extra
extra_of _ = 0

-- Either nobody owns the lock and `count` counts the shared holders, or one thread owns it, `count`
-- says how often, and nobody shares it.
pub data Mode (n : ℕ) (c : Cst) (pc : ℕ → Pc) : Type 0 where
  unowned :
      c.count ≡ pos (total shares n pc)
      → c.td ≡ none
      → ((j : ℕ) → owns (pc j) ≡ false)
      → Mode n c pc
  owned :
      (o : ℕ)
      → c.count ≡ negsuc (extra_of (pc o))
      → c.td ≡ some o
      → owns (pc o) ≡ true
      → total shares n pc ≡ 0
      → ((j : ℕ) → owns (pc j) ≡ true → j ≡ o)
      → Mode n c pc

pub record Inv (n : ℕ) (s : System) : Type 0 where
  pub upgrade : s.cst.upgrade ≡ pos (total pending n s.pc)
  pub mode : Mode n s.cst s.pc

pub total-ge : (w : Pc → ℕ) (n : ℕ) (pc : ℕ → Pc) (i : ℕ) → i < n → w (pc i) ≤ total w n pc
unfolding total
total-ge w zero pc i lt = absurd (omega arith)
total-ge w (suc n) pc i lt = elim (dec_lt i n) [
  | yes below ↦ ground (arith, total-ge w n pc i below)
  | no last ↦ ground arith
]

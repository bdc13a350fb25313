-- ===== src/Ccms/Threads.antt =====
-- Threads that use one lock, in any order: each pass and each release is a step. A thread pairs its
-- calls: it holds at most one shared lock, releases what it holds, and gives an upgraded lock back by
-- `ccms_thread_lock_downgrade` or `ccms_thread_unlock_upgraded`.
use windows_hammer2_dfly.Common.{ℕ, suc, ◌<◌, ◌≡◌, Bool, true, false, ok, ℕ_discrete}
use mathlib.Core.Logic.{ite}
use windows_hammer2_dfly.Ccms.{
  Cst, cst_init, locked, sleeps, Released, state_shared, state_exclusive, lock_pass, thread_lock,
  thread_unlock, upgrade_pass, lock_upgrade, lock_downgrade, unlock_upgraded,
}

-- Where a thread stands. `owner extra up` holds the lock `extra` times more than once; `up` tells
-- that it came by an upgrade.
pub data Pc : Type 0 where
  idle : Pc
  waiting : (state : ℕ) → Pc
  shared : Pc
  upgrading : Pc
  owner : (extra : ℕ) (up : Bool) → Pc

-- One step of thread `i`.
pub data Move (i : ℕ) (c : Cst) : Pc → Cst → Pc → Type 0 where
  lock_shared : {c' : Cst} → thread_lock c i state_shared ≡ ok (locked c') → Move i c idle c' shared
  lock_exclusive :
      {c' : Cst}
      → thread_lock c i state_exclusive ≡ ok (locked c')
      → Move i c idle c' (owner 0 false)
  lock_sleeps :
      {c' : Cst} (state : ℕ)
      → thread_lock c i state ≡ ok (sleeps c')
      → Move i c idle c' (waiting state)
  retry_shared :
      {c' : Cst} {state : ℕ}
      → state ≡ state_shared
      → lock_pass c i state ≡ ok (locked c')
      → Move i c (waiting state) c' shared
  retry_exclusive :
      {c' : Cst} {state : ℕ}
      → state ≡ state_exclusive
      → lock_pass c i state ≡ ok (locked c')
      → Move i c (waiting state) c' (owner 0 false)
  retry_sleeps :
      {c' : Cst} {state : ℕ}
      → lock_pass c i state ≡ ok (sleeps c')
      → Move i c (waiting state) c' (waiting state)
  lock_again :
      {c' : Cst} {extra : ℕ} {up : Bool} (state : ℕ)
      → thread_lock c i state ≡ ok (locked c')
      → Move i c (owner extra up) c' (owner (suc extra) up)
  unlock_shared :
      {r : Released} {c' : Cst} → thread_unlock c i ≡ ok r → c' ≡ r.cst → Move i c shared c' idle
  unlock_inner :
      {r : Released} {c' : Cst} {extra : ℕ} {up : Bool}
      → thread_unlock c i ≡ ok r
      → c' ≡ r.cst
      → Move i c (owner (suc extra) up) c' (owner extra up)
  unlock_last :
      {r : Released} {c' : Cst} {extra : ℕ} {up : Bool}
      → extra ≡ 0
      → up ≡ false
      → thread_unlock c i ≡ ok r
      → c' ≡ r.cst
      → Move i c (owner extra up) c' idle
  upgrade_now :
      {c' : Cst} {state : ℕ}
      → lock_upgrade c i ≡ ok (state, locked c')
      → Move i c shared c' (owner 0 true)
  upgrade_sleeps :
      {c' : Cst} {state : ℕ}
      → lock_upgrade c i ≡ ok (state, sleeps c')
      → Move i c shared c' upgrading
  upgrade_retry : {c' : Cst} → upgrade_pass c i ≡ locked c' → Move i c upgrading c' (owner 0 true)
  upgrade_waits : {c' : Cst} → upgrade_pass c i ≡ sleeps c' → Move i c upgrading c' upgrading
  downgrade :
      {r : Released} {c' : Cst} {extra : ℕ} {up : Bool}
      → extra ≡ 0
      → up ≡ true
      → lock_downgrade c i state_shared ≡ ok r
      → c' ≡ r.cst
      → Move i c (owner extra up) c' shared
  unlock_up :
      {r : Released} {c' : Cst} {extra : ℕ} {up : Bool}
      → extra ≡ 0
      → up ≡ true
      → unlock_upgraded c i state_shared ≡ ok r
      → c' ≡ r.cst
      → Move i c (owner extra up) c' idle

-- A family of thread positions, changed at one thread.
abbrev pub update : (ℕ → Pc) → ℕ → Pc → ℕ → Pc
update pc i p j = ite (ℕ_discrete i j) p (pc j)

-- The lock and its threads.
pub record System : Type 0 where
  pub cst : Cst
  pub pc : ℕ → Pc

pub data Step (n : ℕ) (s : System) : System → Type 0 where
  turn :
      (i : ℕ) {c : Cst} {p : Pc}
      → i < n
      → Move i s.cst (s.pc i) c p
      → Step n s (record { cst = c; pc = update s.pc i p })

abbrev pub start : System
start = record { cst = cst_init; pc = λ _. idle }

pub data Reach (n : ℕ) : System → Type 0 where
  begin : Reach n start
  later : {s t : System} → Reach n s → Step n s t → Reach n t

-- ===== src/Ccms.antt =====
-- hammer2_ccms.c: the thread lock of a cache state, shared or exclusive and recursive, with
-- upgrades. Each function below is what the code does under one hold of the structural spinlock; a
-- wait gives the spinlock up, and is a result `sleeps`, after which the pass is made again. LOCKENTER
-- and LOCKEXIT are empty.
pub mod Threads
pub mod Exclusion
use windows_hammer2_dfly.Common.{
  ℕ, zero, suc, Bool, true, false, not, ◌&&◌, ◌||◌, Option, none, some, ◌==◌, if◌then◌else◌,
  Checked, ok, panic, ◌>>=◌, ◌>>◌, assert,
}
use windows_hammer2_dfly.Common.Int.{ℤ, pos, negsuc, is_neg, is_pos, is_zero, inc, dec}

-- `struct ccms_cst`: the fields that the functions use. The counters are int32_t; their overflow is
-- undefined in C and is not modelled. Threads are numbers, and `td` is none for NULL.
pub record Cst : Type 0 where
  pub upgrade : ℤ
  pub count : ℤ
  pub blocked : Bool
  pub td : Option ℕ

-- CCMS_STATE_INVALID, CCMS_STATE_SHARED, CCMS_STATE_EXCLUSIVE
abbrev pub state_invalid : ℕ
state_invalid = 0

abbrev pub state_shared : ℕ
state_shared = 2

abbrev pub state_exclusive : ℕ
state_exclusive = 3

-- A pass through a lock loop: it ends with the lock, or the thread sleeps.
pub data Pass : Type 0 where
  locked : Cst → Pass
  sleeps : Cst → Pass

-- What a release leaves, and whether it wakes the sleepers.
pub record Released : Type 0 where
  pub cst : Cst
  pub wakes : Bool

unfoldable pub cst_init : Cst
cst_init = record { upgrade = pos 0; count = pos 0; blocked = false; td = none }

-- td == curthread, and td == NULL
unfoldable pub is_thread : Option ℕ → ℕ → Bool
is_thread none i = false
is_thread (some t) i = t == i

unfoldable pub is_null : Option ℕ → Bool
is_null none = true
is_null (some t) = false

unfoldable pub lock_owned : Cst → ℕ → Bool
lock_owned c curthread = is_neg c.count && is_thread c.td curthread

-- The loop of `ccms_thread_lock`, one pass.
unfoldable pub lock_pass : Cst → ℕ → ℕ → Checked Pass
lock_pass c curthread state =
    if state == state_shared
    then (if is_neg c.count || not (is_zero c.upgrade)
        then ok (sleeps (record c { blocked = true }))
        else (assert (is_null c.td) >>= λ _. ok (locked (record c { count = inc c.count }))))
    else if state == state_exclusive
    then (if not (is_zero c.count) || not (is_zero c.upgrade)
        then ok (sleeps (record c { blocked = true }))
        else ok (locked (record c { count = negsuc 0; td = some curthread })))
    else panic

-- `ccms_thread_lock` up to its first wait. The owner is never put to sleep.
unfoldable pub thread_lock : Cst → ℕ → ℕ → Checked Pass
thread_lock c curthread state =
    if lock_owned c curthread
    then ok (locked (record c { count = dec c.count }))
    else lock_pass c curthread state

-- `none` is EBUSY.
unfoldable pub thread_lock_nonblock : Cst → ℕ → ℕ → Checked (Option Cst)
thread_lock_nonblock c curthread state =
    if lock_owned c curthread
    then ok (some (record c { count = dec c.count }))
    else if state == state_shared
    then (if is_neg c.count || not (is_zero c.upgrade)
        then ok none
        else (assert (is_null c.td) >>= λ _. ok (some (record c { count = inc c.count }))))
    else if state == state_exclusive
    then (if not (is_zero c.count) || not (is_zero c.upgrade)
        then ok none
        else ok (some (record c { count = negsuc 0; td = some curthread })))
    else panic

-- The wakeup that ends a release.
unfoldable pub released : Cst → Released
released c = record { cst = record c { blocked = false }; wakes = c.blocked }

unfoldable pub unlock_exclusive : Cst → ℕ → Checked Released
unlock_exclusive c curthread = assert (is_thread c.td curthread) >>= λ _.
    if is_neg (inc c.count)
    then ok (record { cst = record c { count = inc c.count }; wakes = false })
    else ok (released (record c { count = pos 0; td = none }))

unfoldable pub unlock_shared : Cst → Released
unlock_shared c =
    if is_zero (dec c.count)
    then released (record c { count = dec c.count })
    else record { cst = record c { count = dec c.count }; wakes = false }

unfoldable pub thread_unlock : Cst → ℕ → Checked Released
thread_unlock c curthread =
    if is_neg c.count
    then unlock_exclusive c curthread
    else if is_pos c.count
    then ok (unlock_shared c)
    else panic

-- The state that `ccms_thread_lock_temp_restore` is given back, and the release.
unfoldable pub lock_temp_release : Cst → ℕ → Checked (ℕ × Released)
lock_temp_release c curthread =
    if is_neg c.count
    then (thread_unlock c curthread >>= λ r. ok (state_exclusive, r))
    else if is_pos c.count
    then (thread_unlock c curthread >>= λ r. ok (state_shared, r))
    else ok (state_invalid, record { cst = c; wakes = false })

unfoldable pub lock_temp_restore : Cst → ℕ → ℕ → Checked Pass
lock_temp_restore c curthread ostate = thread_lock c curthread ostate

-- The loop of `ccms_thread_lock_upgrade`, one pass.
unfoldable pub upgrade_pass : Cst → ℕ → Pass
upgrade_pass c curthread =
    if is_zero c.count
    then locked (record c { count = negsuc 0; td = some curthread })
    else sleeps (record c { blocked = true })

-- `ccms_thread_lock_upgrade` up to its first wait, with the state that it returns in the end.
unfoldable pub lock_upgrade : Cst → ℕ → Checked (ℕ × Pass)
lock_upgrade c curthread =
    if is_neg c.count
    then (assert (is_thread c.td curthread) >>= λ _. ok (state_exclusive, locked c))
    else if is_pos c.count
    then ok (
      state_shared,
      upgrade_pass (record c { upgrade = inc c.upgrade; count = dec c.count }) curthread,
    )
    else panic

unfoldable pub lock_downgrade : Cst → ℕ → ℕ → Checked Released
lock_downgrade c curthread ostate =
    if ostate == state_shared
    then (do
      assert (is_thread c.td curthread)
      assert (is_neg c.count && not (is_neg (inc c.count)))
      ok (released (record c { upgrade = dec c.upgrade; count = pos 1; td = none })))
    else ok (record { cst = c; wakes = false })

unfoldable pub lock_setown : Cst → ℕ → Checked Cst
lock_setown c curthread = assert (is_neg c.count) >>= λ _. ok (record c { td = some curthread })

unfoldable pub unlock_upgraded : Cst → ℕ → ℕ → Checked Released
unlock_upgraded c curthread ostate =
    if ostate == state_shared
    then (do
      assert (is_thread c.td curthread)
      assert (is_neg c.count && not (is_neg (inc c.count)))
      ok (released (record c { upgrade = dec c.upgrade; count = pos 0; td = none })))
    else thread_unlock c curthread

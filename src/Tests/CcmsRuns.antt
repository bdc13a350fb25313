-- ===== src/Tests/CcmsRuns.antt =====
-- Two threads at one lock of hammer2_ccms.c.
use windows_hammer2_dfly.Common.{
  ℕ, ◌≡◌, ◌≢◌, refl, inl, inr, true, false, some, ok, ℕ_discrete, arith,
}
use windows_hammer2_dfly.Common.Int.{pos, negsuc}
use windows_hammer2_dfly.Ccms.{
  Cst, cst_init, state_exclusive, locked, Released, thread_lock, lock_pass, lock_owned, is_thread,
  thread_unlock,
}
use windows_hammer2_dfly.Ccms.Threads.{
  owner, shared, lock_exclusive, update, System, turn, start, Reach, begin, later,
}
use windows_hammer2_dfly.Ccms.Exclusion.{owns, Inv}
use windows_hammer2_dfly.Ccms.Exclusion.Safety.{
  Reach-Inv, lock-Excludes, thread_unlock-Returns, thread_lock-Succeeds,
}

-- Thread 0 has taken the lock.
abbrev taken : System
taken = record {
  cst = record { upgrade = pos 0; count = negsuc 0; blocked = false; td = some 0 };
  pc = update start.pc 0 (owner 0 false);
}

taken-locks :
    thread_lock cst_init 0 state_exclusive
    ≡ ok (locked (record { upgrade = pos 0; count = negsuc 0; blocked = false; td = some 0 }))
unfolding thread_lock lock_pass lock_owned is_thread cst_init
taken-locks = refl

taken-reached : Reach 2 taken
taken-reached = later begin (turn 0 (omega arith) (lock_exclusive taken-locks))

Reach-Inv_example : Inv 2 taken
Reach-Inv_example = Reach-Inv 2 taken taken-reached

lock-Excludes_example : (owns (taken.pc 1) ≡ true → ◌≡◌ {A = ℕ} 1 0) × (taken.pc 1 ≢ shared)
unfolding ℕ_discrete
lock-Excludes_example = lock-Excludes 2 taken taken-reached 0 refl 1 (omega arith)

thread_unlock-Returns_example : (r : Released) × (thread_unlock taken.cst 0 ≡ ok r)
unfolding ℕ_discrete
thread_unlock-Returns_example =
    thread_unlock-Returns 2 taken taken-reached 0 (omega arith) (inl refl)

thread_lock-Succeeds_example : (c : Cst) × (thread_lock start.cst 1 state_exclusive ≡ ok (locked c))
thread_lock-Succeeds_example =
    thread_lock-Succeeds 2 start begin 1 (λ j. inl refl) state_exclusive (inr refl)

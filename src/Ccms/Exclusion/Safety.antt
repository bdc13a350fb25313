-- ===== src/Ccms/Exclusion/Safety.antt =====
-- Exclusion and progress of ccms_thread_lock in every reachable state.
use windows_hammer2_dfly.Common.{
  panic, sym, ap, ◌∙◌, ◌⊎◌, inl, inr, ℕ, zero, suc, ◌<◌, ◌≡◌, ◌≢◌, refl, true, none, Checked, ok,
  arith,
}
use windows_hammer2_dfly.Common.Int.{pos}
use windows_hammer2_dfly.Ccms.{
  state_shared, state_exclusive, Cst, cst_init, Pass, locked, sleeps, Released, lock_pass,
  thread_lock, thread_unlock, lock_owned, is_thread, is_null, unlock_exclusive, unlock_shared,
}
use windows_hammer2_dfly.Ccms.Threads.{
  Pc, idle, waiting, shared, System, turn, start, Reach, begin, later,
}
use windows_hammer2_dfly.Ccms.Exclusion.{
  total, total-ge, shares, pending, owns, Mode, unowned, owned, Inv,
}
use windows_hammer2_dfly.Ccms.Exclusion.Upgrades.{Move-upgrade}
use windows_hammer2_dfly.Ccms.Exclusion.Modes.{Move-Mode}

total-zero :
    (w : Pc → ℕ) (n : ℕ) (pc : ℕ → Pc) → ((j : ℕ) → j < n → w (pc j) ≡ 0) → total w n pc ≡ 0
unfolding total
total-zero w zero pc h = refl
total-zero w (suc n) pc h = ground (arith, total-zero w n pc (λ j lt. h j (omega arith)), h n)

start-Inv : (n : ℕ) → Inv n start
unfolding cst_init
start-Inv n = record {
  upgrade = ap pos (sym (total-zero pending n start.pc (λ j lt. refl)));
  mode = unowned (ap pos (sym (total-zero shares n start.pc (λ j lt. refl)))) refl (λ j. refl);
}

-- In every state that threads, which pair their calls, reach from an initialised lock, `upgrade`
-- counts the threads that have upgraded or are upgrading, and either nobody owns the lock and
-- `count` counts the shared holders, or one thread owns it, is `td`, and nobody shares it.
pub Reach-Inv : (n : ℕ) (s : System) → Reach n s → Inv n s
Reach-Inv n _ begin = start-Inv n
Reach-Inv n _ (later {s} r (turn i lt m)) =
    let inv = Reach-Inv n s r in
    record {
      upgrade = Move-upgrade n s.cst s.pc i lt inv.mode refl inv.upgrade m;
      mode = Move-Mode n s.cst s.pc i lt inv.mode refl m;
    }

returns : {A : Type 0} (m : Checked A) → m ≢ panic → (a : A) × (m ≡ ok a)
returns (ok a) ne = (a, refl)
returns panic ne = absurd (ne refl)

takes :
    (m : Checked Pass)
    → m ≢ panic
    → ((c : Cst) → m ≢ ok (sleeps c))
    → (c : Cst) × (m ≡ ok (locked c))
takes (ok (locked c)) ne awake = (c, refl)
takes (ok (sleeps c)) ne awake = absurd (awake c refl)
takes panic ne awake = absurd (ne refl)

quiet-weighs :
    (w : Pc → ℕ) (p : Pc)
    → w idle ≡ 0
    → ((state : ℕ) → w (waiting state) ≡ 0)
    → (p ≡ idle) ⊎ ((state : ℕ) × (p ≡ waiting state))
    → w p ≡ 0
quiet-weighs w p z h (inl e) = ap w e ∙ z
quiet-weighs w p z h (inr (state, e)) = ap w e ∙ h state

module _ (n : ℕ) (s : System) (reach : Reach n s) (i : ℕ) where
  Mode-excludes :
      Mode n s.cst s.pc
      → owns (s.pc i) ≡ true
      → (j : ℕ) → j < n
      → (owns (s.pc j) ≡ true → j ≡ i) × (s.pc j ≢ shared)
  Mode-excludes (unowned count td nobody) h j lt = absurd (ground (arith, nobody i))
  Mode-excludes (owned o count td here empty only) h j lt =
      ((λ g. only j g ∙ sym (only i h)), (λ e. ground (arith, total-ge shares n s.pc j lt)))

  -- In a reachable state, while a thread owns the lock no other thread owns it and no thread
  -- shares it.
  pub lock-Excludes :
      owns (s.pc i) ≡ true → (j : ℕ) → j < n → (owns (s.pc j) ≡ true → j ≡ i) × (s.pc j ≢ shared)
  lock-Excludes h = Mode-excludes (Reach-Inv n s reach).mode h

  Mode-unlocks :
      Mode n s.cst s.pc
      → i < n
      → (owns (s.pc i) ≡ true) ⊎ (s.pc i ≡ shared)
      → (r : Released) × (thread_unlock s.cst i ≡ ok r)
  unfolding thread_unlock unlock_exclusive is_thread unlock_shared
  Mode-unlocks (unowned count td nobody) lt (inl h) = absurd (ground (arith, nobody i))
  Mode-unlocks (unowned count td nobody) lt (inr e) =
      returns (thread_unlock s.cst i) (λ p. ground (arith, total-ge shares n s.pc i lt))
  Mode-unlocks (owned o count td here empty only) lt (inl h) =
      returns (thread_unlock s.cst i) (λ p. ground (arith, only i))
  Mode-unlocks (owned o count td here empty only) lt (inr e) =
      absurd (ground (arith, total-ge shares n s.pc i lt))

  -- In a reachable state, `ccms_thread_unlock` by a thread that holds the lock, owned or shared,
  -- returns: none of its assertions fails.
  pub thread_unlock-Returns :
      i < n
      → (owns (s.pc i) ≡ true) ⊎ (s.pc i ≡ shared)
      → (r : Released) × (thread_unlock s.cst i ≡ ok r)
  thread_unlock-Returns lt h = Mode-unlocks (Reach-Inv n s reach).mode lt h

  Mode-free :
      Inv n s
      → ((j : ℕ) → (s.pc j ≡ idle) ⊎ ((w : ℕ) × (s.pc j ≡ waiting w)))
      → ((s.cst.count ≡ pos 0) × (s.cst.td ≡ none)) × (s.cst.upgrade ≡ pos 0)
  Mode-free inv quiet =
      (unheld inv.mode, inv.upgrade ∙ ap pos (weightless pending refl (λ w. refl)))
    where
      weightless :
          (w : Pc → ℕ) → w idle ≡ 0 → ((state : ℕ) → w (waiting state) ≡ 0) → total w n s.pc ≡ 0
      weightless w z h = total-zero w n s.pc (λ j lt. quiet-weighs w (s.pc j) z h (quiet j))

      unheld : Mode n s.cst s.pc → (s.cst.count ≡ pos 0) × (s.cst.td ≡ none)
      unheld (unowned count td nobody) = (count ∙ ap pos (weightless shares refl (λ w. refl)), td)
      unheld (owned o count td here empty only) = absurd (ground (arith, quiet o))

  -- In a reachable state in which every thread is idle or waits for the lock, `ccms_thread_lock`
  -- takes the lock without a wait, shared or exclusive.
  pub thread_lock-Succeeds :
      ((j : ℕ) → (s.pc j ≡ idle) ⊎ ((w : ℕ) × (s.pc j ≡ waiting w)))
      → (state : ℕ) → (state ≡ state_shared) ⊎ (state ≡ state_exclusive)
      → (c : Cst) × (thread_lock s.cst i state ≡ ok (locked c))
  unfolding thread_lock lock_owned lock_pass is_null
  thread_lock-Succeeds quiet state which =
      let free = Mode-free (Reach-Inv n s reach) quiet in
      takes (thread_lock s.cst i state) (λ p. ground arith) (λ c p. ground arith)

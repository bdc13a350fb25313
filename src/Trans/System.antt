-- ===== src/Trans/System.antt =====
-- Threads that start and end transactions in any order.
use windows_hammer2_dfly.Common.{
  ℕ, ◌+◌, ◌≡◌, Bool, false, List, [], ◌∷◌, if◌then◌else◌, length, ltb, ok,
}
use windows_hammer2_dfly.Trans.{
  TransFlags, Trans, entered, asleep, trans_init, trans_setflags, trans_clearflags, trans_done,
}

-- The word, the active transactions (true for a flush), and the threads asleep in
-- `hammer2_trans_init`.
pub record System : Type 0 where
  pub trans : Trans
  pub active : List Bool
  pub sleepers : ℕ

abbrev pub no_flags : TransFlags
no_flags = record {
  isflush = false;
  bufcache = false;
  sideq = false;
  waiting = false;
  rescan = false;
}

abbrev pub idle : System
idle = record {
  trans = record { flags = no_flags; spare = false; count = 0 };
  active = [];
  sleepers = 0;
}

-- The list without one transaction of a kind, which is `Ends` there.
pub data Ends (kind : Bool) : List Bool → List Bool → Type 0 where
  first : {ks : List Bool} → Ends kind (kind ∷ ks) ks
  later : {k : Bool} {ks ls : List Bool} → Ends kind ks ls → Ends kind (k ∷ ks) (k ∷ ls)

-- A wakeup lets all sleepers try again.
abbrev pub asleep_after : Bool → ℕ → ℕ
asleep_after wakes n = if wakes then 0 else n

-- A thread starts a transaction or falls asleep, ends one with the flush flag that it was started
-- with, or changes other flags.
pub data Step (s : System) : System → Type 0 where
  start :
      (f : TransFlags) {t : Trans}
      → trans_init s.trans f ≡ entered t
      → Step s (record s { trans = t; active = f.isflush ∷ s.active })
  sleep :
      (f : TransFlags) {t : Trans}
      → trans_init s.trans f ≡ asleep t
      → Step s (record s { trans = t; sleepers = s.sleepers + 1 })
  end :
      (f : TransFlags) {t : Trans} {wakes : Bool} {others : List Bool}
      → Ends f.isflush s.active others
      → trans_done s.trans f ≡ ok (t, wakes)
      → Step s (record { trans = t; active = others; sleepers = asleep_after wakes s.sleepers })
  change :
      (f : TransFlags) → f.isflush ≡ false → Step s (record s { trans = trans_setflags s.trans f })
  clear :
      (f : TransFlags)
      → f.isflush ≡ false
      → Step s (record s {
        trans = (trans_clearflags s.trans f).0;
        sleepers = asleep_after (trans_clearflags s.trans f).1 s.sleepers;
      })

pub data Reached : System → Type 0 where
  at_start : Reached idle
  after : {s s' : System} → Reached s → Step s s' → Reached s'

-- The most transactions that were active at once on the way to a state.
abbrev pub larger : ℕ → ℕ → ℕ
larger m n = if ltb m n then n else m

unfoldable pub peak : {s : System} → Reached s → ℕ
peak at_start = 0
peak (after {s' = now} r step) = larger (peak r) (length now.active)

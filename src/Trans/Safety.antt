-- ===== src/Trans/Safety.antt =====
-- At most one flush transaction is active, and nobody sleeps without one.
use windows_hammer2_dfly.Common.{
  ℕ, suc, ◌+◌, ◌-◌, ◌%◌, ◌^◌, ◌≤◌, ◌<◌, ◌≡◌, ◌↔◌, refl, ◌∙◌, ap, Bool, true, false, not, ◌==◌, List,
  [], ◌∷◌, if◌then◌else◌, length, ok, arith,
}
use windows_hammer2_dfly.Trans.{
  TransFlags, Trans, entered, asleep, counted_in, trans_init, trans_setflags, trans_clearflags,
  done_flags, trans_done,
}
use windows_hammer2_dfly.Trans.Word.{counted_in-below}
use windows_hammer2_dfly.Trans.System.{
  larger, peak, System, Ends, first, later, Step, start, sleep, end, change, clear, Reached,
  at_start, after, asleep_after,
}

-- How many of the active transactions are flushes.
abbrev pub flushes : List Bool → ℕ
flushes [] = 0
flushes (k ∷ ks) = (if k then 1 else 0) + flushes ks

pub record IsSound (s : System) : Type 0 where
  pub counted : s.trans.count ≡ length s.active
  pub exclusive : flushes s.active ≡ (if s.trans.flags.isflush then 1 else 0)
  pub awaited : 0 < s.sleepers → (s.trans.flags.waiting ≡ true) × (s.trans.flags.isflush ≡ true)

Ends-length : (kind : Bool) (ks ls : List Bool) → Ends kind ks ls → length ks ≡ suc (length ls)
Ends-length kind [] ls e = elim e [ ]
Ends-length kind (k ∷ ks) ls first = refl
Ends-length kind (k ∷ ks) (k' ∷ ls) (later e) = ap suc (Ends-length kind ks ls e)

Ends-flushes :
    (kind : Bool) (ks ls : List Bool)
    → Ends kind ks ls
    → flushes ks ≡ (if kind then 1 else 0) + flushes ls
Ends-flushes kind [] ls e = elim e [ ]
Ends-flushes kind (k ∷ ks) ls first = refl
Ends-flushes kind (k ∷ ks) (k' ∷ ls) (later e) = omega (arith, Ends-flushes kind ks ls e)

still_asleep : (wakes : Bool) (n : ℕ) → 0 < asleep_after wakes n → (wakes ≡ false) × (0 < n)
still_asleep true n lt = absurd (omega arith)
still_asleep false n lt = (refl, lt)

module _ (s : System) (h : IsSound s) where
  start-IsSound :
      (f : TransFlags) (t : Trans)
      → trans_init s.trans f ≡ entered t
      → length s.active + 1 < 2 ^ 24
      → IsSound (record s { trans = t; active = f.isflush ∷ s.active })
  unfolding trans_init
  start-IsSound f t e few =
      let in_count = counted_in-below s.trans f (omega (arith, h.counted)) in
      record {
        counted = ground (arith, h.counted);
        exclusive = ground (arith, h.exclusive);
        awaited = λ some_asleep. let w = h.awaited some_asleep in (ground arith, ground arith);
      }

  sleep-IsSound :
      (f : TransFlags) (t : Trans)
      → trans_init s.trans f ≡ asleep t
      → IsSound (record s { trans = t; sleepers = s.sleepers + 1 })
  unfolding trans_init counted_in
  sleep-IsSound f t e = record {
    counted = ground (arith, h.counted);
    exclusive = ground (arith, h.exclusive);
    awaited = λ some_asleep. (ground arith, ground arith);
  }

  end-IsSound :
      (f : TransFlags) (t : Trans) (wakes : Bool) (others : List Bool)
      → Ends f.isflush s.active others
      → trans_done s.trans f ≡ ok (t, wakes)
      → IsSound (record { trans = t; active = others; sleepers = asleep_after wakes s.sleepers })
  unfolding trans_done done_flags
  end-IsSound f t wakes others gone e = record {
    counted = ground (arith, h.counted, Ends-length f.isflush s.active others gone);
    exclusive = ground (arith, h.exclusive, Ends-flushes f.isflush s.active others gone);
    awaited = λ some_asleep.
        let parts : (wakes ≡ false) × (0 < s.sleepers) =
          still_asleep wakes s.sleepers some_asleep in
        let w = h.awaited parts.1 in
        (ground (arith, parts.0, w.0, w.1), ground (arith, parts.0, w.0, w.1));
  }

  change-IsSound :
      (f : TransFlags) → f.isflush ≡ false → IsSound (record s { trans = trans_setflags s.trans f })
  unfolding trans_setflags
  change-IsSound f e = record {
    counted = h.counted;
    exclusive = ground (arith, h.exclusive);
    awaited =
        λ some_asleep. let w = h.awaited some_asleep in (ground (arith, w.0), ground (arith, w.1));
  }

  clear-IsSound :
      (f : TransFlags)
      → f.isflush ≡ false
      → IsSound (record s {
        trans = (trans_clearflags s.trans f).0;
        sleepers = asleep_after (trans_clearflags s.trans f).1 s.sleepers;
      })
  unfolding trans_clearflags
  clear-IsSound f e = record {
    counted = h.counted;
    exclusive = ground (arith, h.exclusive);
    awaited = λ some_asleep.
        let parts = still_asleep _ s.sleepers some_asleep in
        let w = h.awaited parts.1 in
        (ground (arith, parts.0, w.0, w.1), ground (arith, parts.0, w.0, w.1));
  }

Step-IsSound : (s s' : System) → IsSound s → Step s s' → length s'.active < 2 ^ 24 → IsSound s'
Step-IsSound s s' h (start f {t} e) few = start-IsSound s h f t e (omega arith)
Step-IsSound s s' h (sleep f {t} e) few = sleep-IsSound s h f t e
Step-IsSound s s' h (end f {t} {wakes} {others} gone e) few =
    end-IsSound s h f t wakes others gone e
Step-IsSound s s' h (change f e) few = change-IsSound s h f e
Step-IsSound s s' h (clear f e) few = clear-IsSound s h f e

larger-lt : (m n k : ℕ) → larger m n < k → (m < k) × (n < k)
larger-lt m n k lt = (ground arith, ground arith)

pub Reached-IsSound : (s : System) (r : Reached s) → peak r < 2 ^ 24 → IsSound s
unfolding peak
Reached-IsSound s at_start few = record {
  counted = refl;
  exclusive = refl;
  awaited = λ lt. absurd (omega arith);
}
Reached-IsSound s (after {s = before} r step) few =
    let (few_before, few_now) = larger-lt (peak r) (length s.active) (2 ^ 24) few in
    Step-IsSound before s (Reached-IsSound before r few_before) step few_now

peak-le : (s : System) (r : Reached s) → length s.active ≤ peak r
unfolding peak
peak-le s at_start = omega arith
peak-le s (after r step) = ground arith

-- However threads start, end and wait for transactions, as long as fewer than 2^24 of them have been
-- active at any time: at most one flush transaction is active, and HAMMER2_TRANS_ISFLUSH is set
-- exactly while one is.
pub Reached-exclusive :
    (s : System) (r : Reached s)
    → peak r < 2 ^ 24
    → (flushes s.active ≤ 1) × ((flushes s.active ≡ 1) ↔ (s.trans.flags.isflush ≡ true))
Reached-exclusive s r few =
    let h = Reached-IsSound s r few in
    one_flush (flushes s.active) s.trans.flags.isflush h.exclusive
  where
    one_flush : (n : ℕ) (b : Bool) → n ≡ (if b then 1 else 0) → (n ≤ 1) × ((n ≡ 1) ↔ (b ≡ true))
    one_flush n b e = ground arith

flushes-le : (ks : List Bool) → flushes ks ≤ length ks
flushes-le [] = omega arith
flushes-le (k ∷ ks) = ground (arith, flushes-le ks)

free_entry :
    (t : Trans) (g : TransFlags)
    → t.flags.isflush ≡ false
    → trans_init t g ≡ entered (counted_in t g)
unfolding trans_init
free_entry t g free = ground arith

flush_done :
    (t : Trans) (f : TransFlags)
    → not (t.count % 2 ^ 24 == 0) ≡ true
    → f.isflush ≡ true
    → t.flags.waiting ≡ true
    → trans_done t f ≡ ok (record t { flags = done_flags t f; count = t.count - 1 }, true)
unfolding trans_done done_flags
flush_done t f some_active flush waiting = rw (some_active, flush, waiting) refl

flush_cleared : (t : Trans) (f : TransFlags) → f.isflush ≡ true → (done_flags t f).isflush ≡ false
unfolding done_flags
flush_cleared t f flush = ground arith

-- Nobody waits in vain: while a thread sleeps in `hammer2_trans_init`, a flush transaction is
-- active, and the end of that transaction, whatever flags it clears beside its own, wakes the
-- sleepers and leaves the way free for another flush transaction; and its assertion holds, as long
-- as fewer than 2^24 transactions have been active at any time.
pub Reached-wakes :
    (s : System) (r : Reached s)
    → 0 < s.sleepers
    → peak r < 2 ^ 24
    → (f : TransFlags) → f.isflush ≡ true
    → (flushes s.active ≡ 1)
      × ((t : Trans) × (trans_done s.trans f ≡ ok (t, true))
          × ((g : TransFlags) → trans_init t g ≡ entered (counted_in t g)))
Reached-wakes s r some_asleep few f flush =
    let h = Reached-IsSound s r few in
    let few_now = peak-le s r in
    let w = h.awaited some_asleep in
    let one : flushes s.active ≡ 1 = h.exclusive ∙ rw (w.1) refl in
    let some_active : not (s.trans.count % 2 ^ 24 == 0) ≡ true =
      ground (arith, h.counted, flushes-le s.active, one) in
    (
      one,
      (
        record (s.trans) { flags = done_flags s.trans f; count = s.trans.count - 1 },
        flush_done s.trans f some_active flush w.0,
        λ g. free_entry _ g (flush_cleared s.trans f flush),
      ),
    )

-- ===== src/Freemap/Alloc/Ends.antt =====
-- The `while (error == EAGAIN)` loop of `hammer2_freemap_alloc` ends: each call that asks for another
-- round has moved the iterator on.
use windows_hammer2_dfly.Common.{
  ℕ, zero, suc, ◌+◌, ◌-◌, ◌*◌, ◌/◌, ◌^◌, ◌≤◌, ◌<◌, ◌≡◌, ◌≢◌, refl, ◌⊎◌, inl, inr, Bool, false, not,
  Option, some, ◌==◌, leb, if◌then◌else◌, Bool-cases, Checked, ok, panic, ◌>>=◌, ◌&&◌, ◌||◌, assert,
  arith,
}
use windows_hammer2_dfly.Subr.Radix.{getradix}
use windows_hammer2_dfly.Freemap.Reserve.{freemap_reserve}
use windows_hammer2_dfly.Freemap.Types.{Blockref, Dev, Fiterate, Status, done, eio, enospc, eagain}
use windows_hammer2_dfly.Freemap.Alloc.{
  first_iter, keep_hints, alloc_data, alloc_radix, freemap_alloc, settled, Tried, freemap_iterate,
  exhausted, placed, search_leaf, try_alloc, alloc_loop,
}

-- How often the iterator may still wrap to the start of the device.
abbrev wraps_left : Fiterate → ℕ
wraps_left i = (if leb 1 i.loops then 1 else 2) + (if i.relaxed then 0 else 1)

-- The rounds that the loop may still take.
abbrev pub rounds_left : ℕ → Fiterate → ℕ
rounds_left total i = wraps_left i * (total / 2 ^ 30 + 1) + (total / 2 ^ 30 + 1 - i.bnext / 2 ^ 30)

pub record IsMoved (total : ℕ) (i j : Fiterate) : Type 0 where
  pub fewer : rounds_left total j < rounds_left total i
  pub within : j.bnext ≤ total

iterate-IsMoved :
    (total : ℕ) (i : Fiterate)
    → total < 2 ^ 63
    → i.bnext ≤ total
    → (freemap_iterate total i).1 ≡ eagain
    → IsMoved total i (freemap_iterate total i).0
unfolding freemap_iterate
iterate-IsMoved total i small within again = record { fewer = ground arith; within = ground arith }

-- A call of `try_alloc` that asks for another round has kept the device's size and moved on.
try_alloc-iterate :
    (create : ℕ → Bool) (dev : Dev) (bref : Blockref) (radix : ℕ) (i : Fiterate) (t : Tried)
    → try_alloc create dev bref radix i ≡ ok t
    → t.status ≡ eagain
    → (t.iter ≡ (freemap_iterate dev.total_size i).0)
      × ((freemap_iterate dev.total_size i).1 ≡ eagain)
      × (t.dev.total_size ≡ dev.total_size)
unfolding try_alloc search_leaf exhausted placed
try_alloc-iterate create dev bref radix i t h again = ground arith

eagain-cases : (s : Status) → (s ≡ eagain) ⊎ (s ≢ eagain)
eagain-cases done = inr (λ h. cc)
eagain-cases eio = inr (λ h. cc)
eagain-cases enospc = inr (λ h. cc)
eagain-cases eagain = inl refl

-- The loop returns, and not with a request for another round.
abbrev pub Ends : ℕ → (ℕ → Bool) → ℕ → Dev → Blockref → Fiterate → Type 0
Ends fuel create radix dev bref i =
    (r : Checked Tried) × (alloc_loop fuel create dev bref radix i ≡ some r)
    × ((t : Tried) → r ≡ ok t → t.status ≢ eagain)

module _ (fuel : ℕ) (create : ℕ → Bool) (radix : ℕ) (dev : Dev) (bref : Blockref)
    (i : Fiterate) where
  settles :
      (t : Tried)
      → try_alloc create dev bref radix i ≡ ok t
      → t.status ≢ eagain
      → Ends (suc fuel) create radix dev bref i
  unfolding alloc_loop
  settles t e ne = (ok t, ground arith, λ t' same again. ne (cc))

  panics : try_alloc create dev bref radix i ≡ panic → Ends (suc fuel) create radix dev bref i
  unfolding alloc_loop
  panics e = (panic, rw (e, alloc_loop), λ t h. cc)

  goes_on :
      (t : Tried)
      → try_alloc create dev bref radix i ≡ ok t
      → t.status ≡ eagain
      → Ends fuel create radix t.dev t.bref t.iter
      → Ends (suc fuel) create radix dev bref i
  unfolding alloc_loop
  goes_on t e again (r, returned, last) = (r, ground arith, last)

-- The loop with more fuel than rounds left ends before it runs out, with a result or in a failed
-- assertion, and does not return
-- HAMMER2_ERROR_EAGAIN, on a device below 2^63 bytes and from a start within the device.
pub alloc_loop-Ends :
    (fuel : ℕ) (create : ℕ → Bool) (radix : ℕ) (dev : Dev) (bref : Blockref) (i : Fiterate)
    → dev.total_size < 2 ^ 63
    → i.bnext ≤ dev.total_size
    → rounds_left dev.total_size i < fuel
    → Ends fuel create radix dev bref i
alloc_loop-Ends zero create radix dev bref i small within enough = absurd (omega arith)
alloc_loop-Ends (suc fuel) create radix dev bref i small within enough =
    step (alloc_loop-Ends fuel create radix) (try_alloc create dev bref radix i) refl
  where
    step :
        ((dev' : Dev) (bref' : Blockref) (i' : Fiterate)
          → dev'.total_size < 2 ^ 63
          → i'.bnext ≤ dev'.total_size
          → rounds_left dev'.total_size i' < fuel
          → Ends fuel create radix dev' bref' i')
        → (r : Checked Tried) → try_alloc create dev bref radix i ≡ r
        → Ends (suc fuel) create radix dev bref i
    step ih panic e = panics fuel create radix dev bref i e
    step ih (ok t) e = elim (eagain-cases t.status) [
      | inr ne ↦ settles fuel create radix dev bref i t e ne
      | inl again ↦
          let (moved, asked, same) = try_alloc-iterate create dev bref radix i t e again in
          let m = iterate-IsMoved dev.total_size i small within asked in
          goes_on fuel create radix dev bref i t e again (
            ih t.dev t.bref t.iter (rw same small) (rw (same, moved) (m.within))
              (rw (same, moved) (let few = m.fewer in omega arith)))
    ]

first_iter-within :
    (dev : Dev) (bref : Blockref)
    → ((first_iter dev bref).bnext ≤ dev.total_size)
      × (rounds_left dev.total_size (first_iter dev bref) ≤ 4 * (dev.total_size / 2 ^ 30 + 1))
unfolding first_iter
first_iter-within dev bref = (ground arith, ground arith)

-- A result that does not ask for another round.
abbrev pub Settles : Option (Checked Tried) → Type 0
Settles o = (r : Checked Tried) × (o ≡ some r) × ((t : Tried) → r ≡ ok t → t.status ≢ eagain)

hints-Settles :
    (r : Checked Tried)
    → ((t : Tried) → r ≡ ok t → t.status ≢ eagain)
    → (t : Tried) → (r >>= λ u. ok (keep_hints u)) ≡ ok t
    → t.status ≢ eagain
unfolding keep_hints
hints-Settles panic last t h again = cc
hints-Settles (ok u) last t h again = last u refl (ground arith)

reserved-Settles :
    (dev : Dev) (r : Checked Blockref) (t : Tried)
    → (r >>= λ reserved. ok (settled dev reserved)) ≡ ok t
    → t.status ≢ eagain
reserved-Settles dev panic t h again = cc
reserved-Settles dev (ok bref) t h again = ground arith

module _ (fuel : ℕ) (create : ℕ → Bool) (dev : Dev) (bref : Blockref) (bytes : ℕ)
    (small : dev.total_size < 2 ^ 63) (enough : 4 * (dev.total_size / 2 ^ 30 + 2) ≤ fuel) where
  alloc_data-Settles : (radix : ℕ) → Settles (alloc_data fuel create dev bref bytes radix)
  unfolding alloc_data
  alloc_data-Settles radix = elim (Bool-cases (leb 1024 bytes && leb bytes 65536)) [
    | inr out ↦ (panic, rw out, λ t h. cc)
    | inl fits ↦
        let (within, bound) = first_iter-within dev bref in
        let (r, e, last) =
          alloc_loop-Ends fuel create radix dev bref (first_iter dev bref) small within
            (omega arith) in
        (_, rw (fits, e), hints-Settles r last)
  ]

  alloc_radix-Settles : (radix : ℕ) → Settles (alloc_radix fuel create dev bref bytes radix)
  unfolding alloc_radix
  alloc_radix-Settles radix = elim (Bool-cases (not (2 ^ radix == bytes))) [
    | inl odd ↦ (panic, rw odd, λ t h. cc)
    | inr even ↦ elim (Bool-cases (bref.type == 5 || bref.type == 6)) [
      | inl reserved ↦ (_, rw (even, reserved), reserved-Settles dev (freemap_reserve bref radix))
      | inr other ↦ rw (even, other) (alloc_data-Settles radix)
    ]
  ]

  alloc-Settles : Settles (freemap_alloc fuel create dev bref bytes)
  unfolding freemap_alloc
  alloc-Settles = elim (Bool-cases (bytes == 0)) [
    | inl empty ↦
        (ok (settled dev (record bref { data_off = 0 })), rw empty, λ t h again. ground arith)
    | inr more ↦ go (assert dev.spmp >>= λ _. getradix bytes) refl more
  ]
    where
      go :
          (r : Checked ℕ)
          → (assert dev.spmp >>= λ _. getradix bytes) ≡ r
          → (bytes == 0) ≡ false
          → Settles (freemap_alloc fuel create dev bref bytes)
      go panic e more = (panic, rw (more, e, freemap_alloc), λ t h. cc)
      go (ok radix) e more =
          let (r, found, last) = alloc_radix-Settles radix in (r, ground arith, last)

-- An allocation of any size on a device below 2^63 bytes leaves its retry loop, with a result or in a
-- failed assertion, in at most 4 * (total_size / 1GB + 2) rounds, and never with the result
-- HAMMER2_ERROR_EAGAIN.
pub freemap_alloc-Settles :
    (fuel : ℕ) (create : ℕ → Bool) (dev : Dev) (bref : Blockref) (bytes : ℕ)
    → dev.total_size < 2 ^ 63
    → 4 * (dev.total_size / 2 ^ 30 + 2) ≤ fuel
    → Settles (freemap_alloc fuel create dev bref bytes)
freemap_alloc-Settles fuel create dev bref bytes small enough =
    alloc-Settles fuel create dev bref bytes small enough

-- ===== src/Chain/Find/Counted.antt =====
-- `hammer2_chain_countbrefs` sets up what the search relies on.
use windows_hammer2_dfly.Common.{
  ℕ, zero, suc, ◌+◌, ◌≤◌, ◌<◌, ◌≡◌, refl, ◌∙◌, ap, inl, inr, true, false, List, some, if◌then◌else◌,
  length, Bool-cases, ℕ_discrete, arith,
}
use windows_hammer2_dfly.Common.Words.{u32}
use windows_hammer2_dfly.Chain.Types.{Bref, is_empty, entry, Parent}
use windows_hammer2_dfly.Chain.Find.{used_end, count_entries, countbrefs}
use windows_hammer2_dfly.Chain.Find.Ordered.{IsOrdered}
use windows_hammer2_dfly.Chain.Find.Nearest.{IsBlockArray}

-- How many entries are in use among the first `n`.
abbrev pub in_use_below : List Bref → ℕ → ℕ
in_use_below base zero = 0
in_use_below base (suc n) =
    let fewer = in_use_below base n in if is_empty (entry base n) then fewer else suc fewer

pub used_end-le : (base : List Bref) (n : ℕ) → used_end base n ≤ n
unfolding used_end
used_end-le base zero = omega arith
used_end-le base (suc n) = ground (arith, used_end-le base n)

pub used_end-trailing :
    (base : List Bref) (n t : ℕ) → used_end base n ≤ t → t < n → is_empty (entry base t) ≡ true
unfolding used_end
used_end-trailing base zero t le lt = absurd (omega arith)
used_end-trailing base (suc n) t le lt = elim (Bool-cases (is_empty (entry base n))) [
  | inl free ↦ elim (ℕ_discrete t n) [
    | yes e ↦ rw e free
    | no ne ↦ used_end-trailing base n t (rw free at le) (omega arith)
  ]
  | inr in_use ↦ absurd (omega (arith, let h : suc n ≤ t = rw in_use at le in h))
]

used_end-counts :
    (base : List Bref) (n : ℕ) → in_use_below base (used_end base n) ≡ in_use_below base n
unfolding used_end
used_end-counts base zero = refl
used_end-counts base (suc n) = elim (Bool-cases (is_empty (entry base n))) [
  | inl free ↦ rw free (used_end-counts base n)
  | inr in_use ↦ rw in_use (rw in_use refl)
]

count_entries-in_use :
    (base : List Bref) (n c : ℕ) → u32 (count_entries base n c) ≡ u32 (c + in_use_below base n)
unfolding count_entries
count_entries-in_use base zero c = ap u32 (let e : c ≡ c + 0 = omega arith in e)
count_entries-in_use base (suc n) c = elim (Bool-cases (is_empty (entry base n))) [
  | inl free ↦ rw free (count_entries-in_use base n c)
  | inr in_use ↦ rw in_use (count_entries-in_use base n (u32 (c + 1)) ∙ omega arith)
]

-- The first count of a block array whose entries in use are ordered without an overlap makes it one
-- that the search accepts: all entries from `live_zero` on are empty, and HAMMER2_CHAIN_COUNTEDBREFS
-- is set; `live_count` grows by the number of the entries in use, modulo 2^32.
pub countbrefs-IsBlockArray :
    (p : Parent) (base : List Bref) (count : ℕ)
    → p.counted ≡ false
    → length base ≡ count
    → IsOrdered base
    → IsBlockArray (countbrefs p (some base) count) base count
      × (u32 (countbrefs p (some base) count).live_count
          ≡ u32 (p.live_count + in_use_below base count))
unfolding countbrefs
countbrefs-IsBlockArray p base count fresh size o = rw fresh (
  record {
    counted = refl;
    size = size;
    limit = used_end-le base count;
    trailing = used_end-trailing base count;
    ordered = o;
  },
  count_entries-in_use base (used_end base count) p.live_count
      ∙ ap (λ n. u32 (p.live_count + n)) (used_end-counts base count),
)

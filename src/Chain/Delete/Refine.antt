-- ===== src/Chain/Delete/Refine.antt =====
-- `hammer2_base_delete` removes from the list of the entries in use, and undoes an insertion.
use windows_hammer2_dfly.Common.{
  ℕ, zero, suc, ◌+◌, ◌^◌, ◌≤◌, ◌<◌, ◌≡◌, refl, sym, ◌∙◌, ap, false≢true, true, false, not, ◌||◌,
  List, [], ◌∷◌, set, get_or-set_self, get_or-set_ne, length, length-set, ltb, leb, if◌then◌else◌,
  ◌==◌, ℕ_discrete, dec_lt, ok, arith,
}
use native.Mathlib.Nat.{one-le-pow}
use windows_hammer2_dfly.Chain.Types.{Bref, blank, is_empty, last_key, entry, Parent}
use windows_hammer2_dfly.Chain.Find.{used_end}
use windows_hammer2_dfly.Chain.Find.Ordered.{
  last_key-IsFitting, Above, IsOrdered, unused, used, entry-IsFitting, passed_entries,
}
use windows_hammer2_dfly.Chain.Find.Nearest.{
  nearest, nearest-IsNearest, IsNearest-unique, IsBlockArray, base_find-IsSearch,
}
use windows_hammer2_dfly.Chain.Find.Counted.{used_end-le, used_end-trailing}
use windows_hammer2_dfly.Chain.Account.{account_delete}
use windows_hammer2_dfly.Chain.Insert.{Flags}
use windows_hammer2_dfly.Chain.Insert.Sorted.{live}
use windows_hammer2_dfly.Chain.Delete.{Deleted, lowered_limit, delete_at, mismatch, base_delete}

-- Removal by key.
abbrev pub remove_key : ℕ → List Bref → List Bref
remove_key k [] = []
remove_key k (x ∷ xs) = let rest = remove_key k xs in if x.key == k then xs else x ∷ rest

Above-clear : (k i : ℕ) (es : List Bref) → Above k es → Above k (set es i blank)
Above-clear k i es a t lt h = elim (ℕ_discrete i t) [
  | yes e ↦ absurd (false≢true (sym h ∙ cleared e))
  | no ne ↦
      let same = get_or-set_ne es i t blank blank ne in
      rw same (a t (omega (arith, length-set es i blank)) (rw same at h))
]
  where
    cleared : i ≡ t → is_empty (entry (set es i blank) t) ≡ true
    cleared e =
        rw (← e) (rw (get_or-set_self es i blank blank (omega (arith, length-set es i blank))) refl)

clear-IsOrdered : (i : ℕ) (es : List Bref) → IsOrdered es → IsOrdered (set es i blank)
clear-IsOrdered i [] o = o
clear-IsOrdered zero (x ∷ es) (unused h o) = unused refl o
clear-IsOrdered zero (x ∷ es) (used h f a o) = unused refl o
clear-IsOrdered (suc i) (x ∷ es) (unused h o) = unused h (clear-IsOrdered i es o)
clear-IsOrdered (suc i) (x ∷ es) (used h f a o) =
    used h f (Above-clear (last_key x) i es a) (clear-IsOrdered i es o)

live-clear :
    (i : ℕ) (es : List Bref)
    → IsOrdered es
    → i < length es
    → is_empty (entry es i) ≡ false
    → live (set es i blank) ≡ remove_key (entry es i).key (live es)
live-clear i [] o lt h = absurd (omega arith)
live-clear zero (x ∷ es) (unused e o) lt h = absurd (false≢true (sym h ∙ e))
live-clear zero (x ∷ es) (used e f a o) lt h =
    let t : (x.key == x.key) ≡ true = ground arith in rw (e, t) refl
live-clear (suc i) (x ∷ es) (unused e o) lt h = rw e (live-clear i es o (omega arith) h)
live-clear (suc i) (x ∷ es) (used e f a o) lt h =
    let t : (x.key == (entry es i).key) ≡ false =
      apart (a i (omega arith) h) (last_key-IsFitting x f) in
    rw (e, t) (ap (λ l. x ∷ l) (live-clear i es o (omega arith) h))
  where
    apart :
        last_key x < (entry es i).key
        → last_key x + 1 ≡ x.key + 2 ^ x.keybits
        → (x.key == (entry es i).key) ≡ false
    apart gap last = ground (arith, one-le-pow x.keybits 2)

module _ (p : Parent) (base : List Bref) (count i : ℕ) (b : IsBlockArray p base count)
    (lt : i < count) (in_use : is_empty (entry base i) ≡ false) where
  here_nearest : i ≡ nearest (entry base i).key base
  here_nearest =
      IsNearest-unique _ base i _
        (record {
          inside = omega (arith, b.size);
          before = λ j below.
              passed_entries base b.ordered j i (entry base i).key below (omega (arith, b.size))
                in_use (omega arith);
          at = λ size. rw in_use (
              enclosed
                (last_key-IsFitting (entry base i) (entry-IsFitting base b.ordered i size in_use)));
        })
        (nearest-IsNearest _ base)
    where
      enclosed :
          last_key (entry base i) + 1 ≡ (entry base i).key + 2 ^ (entry base i).keybits
          → (ltb (entry base i).key (entry base i).key
              || leb (entry base i).key (last_key (entry base i)))
            ≡ true
      enclosed last = ground (arith, one-le-pow (entry base i).keybits 2)

  below_limit : i < p.live_zero
  below_limit = elim (dec_lt i p.live_zero) [
    | yes below ↦ below
    | no over ↦ absurd (false≢true (sym in_use ∙ b.trailing i (omega arith) lt))
  ]

  abbrev cleared : List Bref
  cleared = set base i blank

  limit_le : lowered_limit cleared p.live_zero i ≤ p.live_zero
  unfolding lowered_limit
  limit_le = ground (arith, used_end-le cleared i)

  cleared_at : is_empty (entry cleared i) ≡ true
  cleared_at = rw (get_or-set_self base i blank blank (omega (arith, b.size))) refl

  trailing_after :
      (t : ℕ)
      → lowered_limit cleared p.live_zero i ≤ t
      → t < count
      → is_empty (entry cleared t) ≡ true
  unfolding lowered_limit
  trailing_after t le size = elim (ℕ_discrete i t) [
    | yes e ↦ rw (← e) cleared_at
    | no ne ↦ elim (dec_lt t p.live_zero) [
      | yes lower ↦
          let top : (p.live_zero ≡ i + 1) × (used_end cleared i ≤ t) =
            (ground arith, ground arith) in
          used_end-trailing cleared i t top.1 (omega (arith, top.0))
      | no higher ↦ rw (get_or-set_ne base i t blank blank ne) (b.trailing t (omega arith) size)
    ]
  ]

  matches :
      (flags : Flags) (elm : Bref)
      → elm.key ≡ (entry base i).key
      → elm.keybits ≡ (entry base i).keybits
      → not (mismatch base count i flags elm) ≡ true
  unfolding mismatch
  matches flags elm key bits = rw (in_use, key, bits) (ground arith)

  -- The parent, with the index that the search has left in its cache.
  delete_at-IsBlockArray :
      (cached : ℕ) (flags : Flags)
      → IsBlockArray
          (delete_at (record p { cache_index = cached }) base flags i).parent
          cleared
          count
  unfolding delete_at
  delete_at-IsBlockArray cached flags = record {
    counted = b.counted;
    size = length-set base i blank ∙ b.size;
    limit = omega (arith, limit_le, b.limit);
    trailing = trailing_after;
    ordered = clear-IsOrdered i base b.ordered;
  }

  pub base_delete-at :
      (flags : Flags) (elm : Bref)
      → elm.key ≡ (entry base i).key
      → elm.keybits ≡ (entry base i).keybits
      → (cached : ℕ) × (base_delete p base count flags elm
          ≡ ok (delete_at (record p { cache_index = cached }) base flags i))
  unfolding base_delete
  base_delete-at flags elm key bits =
      let (f, run, index, next) = base_find-IsSearch p base count 0 elm.key b in
      let same : f.index ≡ i = index ∙ rw key (sym here_nearest) in
      (f.cache_index, rw (run, same, matches flags elm key bits) refl)

-- The deletion of an element from a block array whose entries in use are ordered without an
-- overlap, with only empty ones from `live_zero` on, where an entry in use has the element's key and
-- its number of key bits, returns: the element is found. The result is such a block array again;
-- its list of entries in use is the old one without that entry; `*obref` is that entry; and the
-- statistics are those of one entry less.
pub base_delete-live :
    (p : Parent) (base : List Bref) (count : ℕ) (flags : Flags) (elm : Bref)
    → IsBlockArray p base count
    → (i : ℕ) → i < count
    → is_empty (entry base i) ≡ false
    → elm.key ≡ (entry base i).key
    → elm.keybits ≡ (entry base i).keybits
    → (r : Deleted) × (base_delete p base count flags elm ≡ ok r)
      × IsBlockArray r.parent r.base count
      × (live r.base ≡ remove_key elm.key (live base))
      × (r.obref ≡ entry base i)
      × (r.parent.stats
          ≡ (account_delete
              (entry base i)
              (record { stats = p.stats; hint = flags.hint_leaf_count })).stats)
unfolding delete_at
base_delete-live p base count flags elm b i lt in_use key bits =
    let (cached, run) = base_delete-at p base count i b lt in_use flags elm key bits in
    (
      delete_at (record p { cache_index = cached }) base flags i,
      run,
      delete_at-IsBlockArray p base count i b lt in_use cached flags,
      rw key (live-clear i base b.ordered (omega (arith, b.size)) in_use),
      refl,
      refl,
    )

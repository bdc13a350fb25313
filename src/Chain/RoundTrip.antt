-- ===== src/Chain/RoundTrip.antt =====
-- An insertion followed by the deletion of the same entry.
use windows_hammer2_dfly.Common.{
  ℕ, ◌+◌, ◌^◌, ◌<◌, ◌≡◌, refl, ◌∙◌, ap, inl, inr, true, false, List, [], ◌∷◌, Option, ltb, ◌==◌,
  Bool-cases, ok, arith,
}
use windows_hammer2_dfly.Chain.Types.{Bref, is_empty, entry, Parent}
use windows_hammer2_dfly.Chain.Find.Ordered.{IsFitting}
use windows_hammer2_dfly.Chain.Find.Nearest.{IsBlockArray}
use windows_hammer2_dfly.Chain.Account.{leaf_max, account_delete-account_insert}
use windows_hammer2_dfly.Chain.Insert.{Inserted, Flags, mapped, base_insert}
use windows_hammer2_dfly.Chain.Insert.Sorted.{live, insert_by_key}
use windows_hammer2_dfly.Chain.Insert.Slot.{IsDisjoint}
use windows_hammer2_dfly.Chain.Insert.Refine.{base_insert-IsInserted}
use windows_hammer2_dfly.Chain.Delete.{Deleted, base_delete}
use windows_hammer2_dfly.Chain.Delete.Refine.{remove_key, base_delete-live}

remove_key-insert_by_key : (e : Bref) (l : List Bref) → remove_key e.key (insert_by_key e l) ≡ l
remove_key-insert_by_key e [] = let t : (e.key == e.key) ≡ true = ground arith in rw t refl
remove_key-insert_by_key e (x ∷ l) = elim (Bool-cases (ltb x.key e.key)) [
  | inl lower ↦
      let t : (x.key == e.key) ≡ false = ground arith in
      rw (lower, t) (ap (λ t. x ∷ t) (remove_key-insert_by_key e l))
  | inr not_lower ↦ let t : (e.key == e.key) ≡ true = ground arith in rw (not_lower, t) refl
]

-- The insertion of an entry in use, whose keys fit in 64 bits and are those of no other entry, into
-- a block array that has an empty entry, whose entries in use are ordered without an overlap, with
-- only empty ones from `live_zero` on, and then the deletion of that entry both return, and leave
-- the list of the entries in use as it was; and the statistics too, if their counts are 64-bit words
-- and the count of leaves does not reach its maximum.
pub base_delete-base_insert :
    (p : Parent) (base : List Bref) (count : ℕ) (chain : Option Flags) (flags : Flags) (e : Bref)
    → IsBlockArray p base count
    → is_empty e ≡ false
    → IsFitting e
    → IsDisjoint e base
    → (e0 : ℕ) → e0 < count
    → is_empty (entry base e0) ≡ true
    → p.stats.data_count < 2 ^ 64
    → p.stats.inode_count < 2 ^ 64
    → p.stats.leaf_count + 1 + e.leaf_count < leaf_max
    → (r : Inserted) × (base_insert p base count chain e ≡ ok (r, mapped chain))
      × (d : Deleted) × (base_delete r.parent r.base count flags e ≡ ok d)
      × (live d.base ≡ live base)
      × (d.parent.stats ≡ p.stats)
base_delete-base_insert p base count chain flags e b in_use fits d e0 size free dc ic leaves =
    let (cached, r, run, h) =
      base_insert-IsInserted p base count chain e b in_use fits d e0 size free in
    let (r', run', array, entries, obref, stats) =
      base_delete-live r.parent r.base count flags e h.array h.index h.within (rw (h.there) in_use)
        (rw (h.there) refl) (rw (h.there) refl) in
    (
      r,
      run,
      r',
      run',
      entries ∙ rw (h.entries) (remove_key-insert_by_key e (live base)),
      stats
          ∙ rw (h.there, h.stats)
              (ap (λ t. t.stats)
                (account_delete-account_insert e p.stats flags.hint_leaf_count dc ic leaves)),
    )

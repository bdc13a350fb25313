-- ===== src/Tests/ChainRuns.antt =====
-- Runs of the block arrays of hammer2_chain.c.
use windows_hammer2_dfly.Common.{
  ℕ, zero, suc, ◌+◌, ◌≤◌, ◌<◌, ◌≡◌, ◌⊎◌, inl, inr, refl, sym, false≢true, true, false, List, [],
  ◌∷◌, some, ◌==◌, if◌then◌else◌, ok, arith,
}
use windows_hammer2_dfly.Chain.Types.{
  Bref, blank, is_empty, next_key, last_key, entry, Stats, Parent,
}
use windows_hammer2_dfly.Chain.Find.{Lookup, nearer_key, base_find, countbrefs}
use windows_hammer2_dfly.Chain.Find.Counted.{in_use_below, countbrefs-IsBlockArray}
use windows_hammer2_dfly.Common.Words.{u32}
use windows_hammer2_dfly.Chain.Find.Ordered.{IsFitting, Above, IsOrdered, no_entry, unused, used}
use windows_hammer2_dfly.Chain.Find.Nearest.{nearest, IsBlockArray, base_find-IsSearch}
use windows_hammer2_dfly.Chain.Account.{account_insert, account_delete}
use windows_hammer2_dfly.Chain.Insert.{Inserted, Flags, mapped, base_insert}
use windows_hammer2_dfly.Chain.Insert.Sorted.{live, insert_by_key}
use windows_hammer2_dfly.Chain.Insert.Slot.{IsDisjoint}
use windows_hammer2_dfly.Chain.Insert.Refine.{base_insert-live}
use windows_hammer2_dfly.Chain.Delete.{Deleted, base_delete}
use windows_hammer2_dfly.Chain.Delete.Refine.{remove_key, base_delete-live}
use windows_hammer2_dfly.Chain.Combined.{Combined, combined_find}
use windows_hammer2_dfly.Chain.Combined.Children.{IsTree, no_child, child}
use windows_hammer2_dfly.Chain.Combined.Nearer.{IsChoice, IsCoherent, combined_find-IsChoice}
use windows_hammer2_dfly.Chain.RoundTrip.{base_delete-base_insert}

-- A data block of 1KB at a key that is a multiple of 1KB.
abbrev block_at : ℕ → Bref
block_at key = record {
  type = 3;
  keybits = 10;
  leaf_count = 0;
  key = key;
  data_off = 8388618;
  data_count = 0;
  inode_count = 0;
}

abbrev two_blocks : List Bref
two_blocks = block_at 0 ∷ blank ∷ block_at 4096 ∷ blank ∷ []

abbrev counts : Stats
counts = record { data_count = 2048; inode_count = 0; leaf_count = 2 }

abbrev parent : Parent
parent = record { counted = true; cache_index = 2; live_zero = 3; live_count = 2; stats = counts }

abbrev flags : Flags
flags = record { blkmapped = false; blkmapupd = false; hint_leaf_count = false }

two_blocks-trailing : (i : ℕ) → 3 ≤ i → i < 4 → is_empty (entry two_blocks i) ≡ true
two_blocks-trailing zero le lt = absurd (omega arith)
two_blocks-trailing (suc zero) le lt = refl
two_blocks-trailing (suc (suc zero)) le lt = absurd (omega arith)
two_blocks-trailing (suc (suc (suc i))) le lt =
    elim i as (λ n. n < 1 → is_empty (entry (blank ∷ []) n) ≡ true) [
      | zero ↦ λ _. refl
      | suc n ↦ λ h. absurd (omega arith)
    ]
      (omega arith)

Above-cons :
    (k : ℕ) (e : Bref) (es : List Bref)
    → (is_empty e ≡ false → k < e.key)
    → Above k es
    → Above k (e ∷ es)
Above-cons k e es first others zero lt h = first h
Above-cons k e es first others (suc i) lt h = others i (omega arith) h

Above-nothing : (k : ℕ) → Above k []
Above-nothing k i lt h = absurd (omega arith)

blank-Above : (k : ℕ) → Above k (blank ∷ [])
blank-Above k = Above-cons k blank [] (λ h. absurd (false≢true (sym h))) (Above-nothing k)

block_at-IsFitting : (key : ℕ) → key ≤ 8192 → IsFitting (block_at key)
block_at-IsFitting key le = record { bits = omega arith; top = omega arith }

two_blocks-IsOrdered : IsOrdered two_blocks
two_blocks-IsOrdered =
    used refl (block_at-IsFitting 0 (omega arith))
      (Above-cons 1023 blank (block_at 4096 ∷ blank ∷ []) (λ h. absurd (false≢true (sym h)))
        (Above-cons 1023 (block_at 4096) (blank ∷ []) (λ h. omega arith) (blank-Above 1023)))
      (unused refl (
        used refl (block_at-IsFitting 4096 (omega arith)) (blank-Above 5119)
          (unused refl no_entry)))

two_blocks-IsBlockArray : IsBlockArray parent two_blocks 4
two_blocks-IsBlockArray = record {
  counted = refl;
  size = refl;
  limit = omega arith;
  trailing = two_blocks-trailing;
  ordered = two_blocks-IsOrdered;
}

IsDisjoint-cons :
    (e x : Bref) (es : List Bref)
    → (is_empty x ≡ false → (last_key x < e.key) ⊎ (last_key e < x.key))
    → IsDisjoint e es
    → IsDisjoint e (x ∷ es)
IsDisjoint-cons e x es first others zero lt h = first h
IsDisjoint-cons e x es first others (suc i) lt h = others i (omega arith) h

new_block-IsDisjoint : IsDisjoint (block_at 2048) two_blocks
new_block-IsDisjoint =
    IsDisjoint-cons (block_at 2048) (block_at 0) (blank ∷ block_at 4096 ∷ blank ∷ [])
      (λ h. inl (omega arith))
      (IsDisjoint-cons (block_at 2048) blank (block_at 4096 ∷ blank ∷ [])
        (λ h. absurd (false≢true (sym h)))
        (IsDisjoint-cons (block_at 2048) (block_at 4096) (blank ∷ []) (λ h. inr (omega arith))
          (IsDisjoint-cons (block_at 2048) blank [] (λ h. absurd (false≢true (sym h)))
            (λ i lt. absurd (omega arith)))))

base_find-IsSearch_example :
    (f : Lookup) × (base_find parent (some two_blocks) 4 0 2048 ≡ ok f)
    × (f.index ≡ nearest 2048 two_blocks)
    × (f.key_next
        ≡ (if f.index == 4 then 0 else nearer_key (next_key (entry two_blocks f.index)) 0))
base_find-IsSearch_example = base_find-IsSearch parent two_blocks 4 0 2048 two_blocks-IsBlockArray

base_insert-live_example :
    (r : Inserted) × (base_insert parent two_blocks 4 (some flags) (block_at 2048)
      ≡ ok (r, mapped (some flags)))
    × IsBlockArray r.parent r.base 4
    × (live r.base ≡ insert_by_key (block_at 2048) (live two_blocks))
    × (r.parent.stats ≡ account_insert (block_at 2048) counts)
base_insert-live_example =
    base_insert-live parent two_blocks 4 (some flags) (block_at 2048) two_blocks-IsBlockArray refl
      (block_at-IsFitting 2048 (omega arith)) new_block-IsDisjoint 1 (omega arith) refl

base_delete-live_example :
    (r : Deleted) × (base_delete parent two_blocks 4 flags (block_at 4096) ≡ ok r)
    × IsBlockArray r.parent r.base 4
    × (live r.base ≡ remove_key 4096 (live two_blocks))
    × (r.obref ≡ block_at 4096)
    × (r.parent.stats
        ≡ (account_delete (block_at 4096) (record { stats = counts; hint = false })).stats)
base_delete-live_example =
    base_delete-live parent two_blocks 4 flags (block_at 4096) two_blocks-IsBlockArray 2
      (omega arith) refl refl refl

base_delete-base_insert_example :
    (r : Inserted) × (base_insert parent two_blocks 4 (some flags) (block_at 2048)
      ≡ ok (r, mapped (some flags)))
    × (d : Deleted) × (base_delete r.parent r.base 4 flags (block_at 2048) ≡ ok d)
    × (live d.base ≡ live two_blocks)
    × (d.parent.stats ≡ counts)
base_delete-base_insert_example =
    base_delete-base_insert parent two_blocks 4 (some flags) flags (block_at 2048)
      two_blocks-IsBlockArray refl (block_at-IsFitting 2048 (omega arith)) new_block-IsDisjoint 1
      (omega arith) refl (omega arith) (omega arith) (omega arith)

countbrefs-IsBlockArray_example :
    IsBlockArray (countbrefs (record parent { counted = false }) (some two_blocks) 4) two_blocks 4
    × (u32 (countbrefs (record parent { counted = false }) (some two_blocks) 4).live_count
        ≡ u32 (2 + in_use_below two_blocks 4))
countbrefs-IsBlockArray_example =
    countbrefs-IsBlockArray (record parent { counted = false }) two_blocks 4 refl refl
      two_blocks-IsOrdered

-- The second of the blocks is in memory.
children-IsTree : IsTree (block_at 4096 ∷ [])
children-IsTree =
    child (block_at-IsFitting 4096 (omega arith)) (λ j lt. absurd (omega arith)) no_child

children-IsCoherent : IsCoherent two_blocks (block_at 4096 ∷ [])
children-IsCoherent zero zero lt lt' h low high = absurd (omega arith)
children-IsCoherent (suc zero) zero lt lt' h low high = absurd (false≢true (sym h))
children-IsCoherent (suc (suc zero)) zero lt lt' h low high = refl
children-IsCoherent (suc (suc (suc zero))) zero lt lt' h low high = absurd (false≢true (sym h))
children-IsCoherent (suc (suc (suc (suc i)))) zero lt lt' h low high = absurd (omega arith)
children-IsCoherent i (suc j) lt lt' h low high = absurd (omega arith)

combined_find-IsChoice_example :
    (r : Combined) × (combined_find parent (some two_blocks) 4 1024 8192 (block_at 4096 ∷ [])
      ≡ ok r)
    × IsChoice two_blocks (block_at 4096 ∷ []) 1024 8192 r.choice
combined_find-IsChoice_example =
    combined_find-IsChoice parent two_blocks 4 1024 8192 (block_at 4096 ∷ [])
      two_blocks-IsBlockArray children-IsTree children-IsCoherent

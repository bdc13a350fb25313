-- ===== src/Freemap/Alloc/Places.antt =====
-- What the scan of a leaf finds, and what it means when it finds nothing.
use windows_hammer2_dfly.Common.{
  ℕ, zero, suc, ◌+◌, ◌-◌, ◌*◌, ◌≤◌, ◌<◌, ◌≡◌, ◌≢◌, ap, ◌∙◌, ◌⊎◌, inl, inr, Bool, true, ◌&&◌, Option,
  none, some, get_or, ltb, leb, Checked, ok, Checked-cases, Bool-cases, dec_lt, ℕ_discrete, arith,
}
use windows_hammer2_dfly.Common.Words.{u64}
use windows_hammer2_dfly.Disk.{freemap_count, level0_size}
use windows_hammer2_dfly.Freemap.Bmap.{Bmap, Alloc, bmap_alloc}
use windows_hammer2_dfly.Freemap.Types.{Blockref, Leaf}
use windows_hammer2_dfly.Freemap.Leaf.{zero_bmap}
use windows_hammer2_dfly.Freemap.Alloc.{class_of, worth_trying, try_entry, scan_leaf}

-- The entries that a scan from `count` on has still to try.
abbrev Untried : ℕ → ℕ → ℕ → Type 0
Untried start count n = (start + count ≤ n) ⊎ (n + count ≤ start)

Untried-zero : (start n : ℕ) → Untried start 0 n
Untried-zero start n = ground arith

module _ (free : ℕ) (leaf : Leaf) (bref : Blockref) (radix : ℕ) (relaxed : Bool) (key : ℕ) where
  -- The entry, the allocation asked of it, and whether the scan asks.
  abbrev pub entry : ℕ → Bmap
  entry n = get_or leaf.bmdata n zero_bmap

  abbrev pub asked : ℕ → Checked (Option Alloc)
  asked n = bmap_alloc free (entry n) (class_of bref) bref.key radix (u64 (key + n * level0_size))

  abbrev pub is_worth : ℕ → Bool
  is_worth n = worth_trying (entry n) (class_of bref) radix relaxed

  -- The allocation came from entry `n`.
  pub record IsPlaced (n : ℕ) (a : Alloc) : Type 0 where
    pub in_leaf : n < 256
    pub worth : is_worth n ≡ true
    pub served : asked n ≡ ok (some a)

  try_entry-IsPlaced :
      (n : ℕ) (a : Alloc)
      → try_entry free leaf bref radix relaxed key n ≡ ok (some a)
      → IsPlaced n a
  unfolding try_entry
  try_entry-IsPlaced n a h = record {
    in_leaf = ground arith;
    worth = ground arith;
    served = ground arith;
  }

  try_entry-none :
      (n : ℕ)
      → try_entry free leaf bref radix relaxed key n ≡ ok none
      → n < 256
      → is_worth n ≡ true
      → asked n ≡ ok none
  unfolding try_entry
  try_entry-none n h lt worth = ground arith

  abbrev try_at : ℕ → Checked (Option Alloc)
  try_at n = try_entry free leaf bref radix relaxed key n

  scan_leaf-IsPlaced_from :
      (start left count n : ℕ) (a : Alloc)
      → scan_leaf free leaf bref radix relaxed key start left count ≡ ok (some (n, a))
      → IsPlaced n a
  unfolding scan_leaf
  scan_leaf-IsPlaced_from start zero count n a h = absurd (ground arith)
  scan_leaf-IsPlaced_from start (suc left) count n a h =
      elim (Checked-cases (try_at (start + count))) [
        | inl stops ↦ absurd (ground arith)
        | inr (some b, eb) ↦ try_entry-IsPlaced n a (ground arith)
        | inr (none, eb) ↦ elim (dec_lt start count) [
          | yes below ↦ scan_leaf-IsPlaced_from start left (count + 1) n a (ground arith)
          | no within ↦ elim (Checked-cases (try_at (start - count))) [
            | inl stops ↦ absurd (ground arith)
            | inr (some b, ec) ↦ try_entry-IsPlaced n a (ground arith)
            | inr (none, ec) ↦ scan_leaf-IsPlaced_from start left (count + 1) n a (ground arith)
          ]
        ]
      ]

  scan_leaf-none_step :
      (start left count : ℕ)
      → scan_leaf free leaf bref radix relaxed key start (suc left) count ≡ ok none
      → (256 ≤ start + count) × (start < count)
        ⊎ ((try_at (start + count) ≡ ok none)
            × (count ≤ start → try_at (start - count) ≡ ok none)
            × (scan_leaf free leaf bref radix relaxed key start left (count + 1) ≡ ok none))
  unfolding scan_leaf
  scan_leaf-none_step start left count h =
      elim (Bool-cases (leb freemap_count (start + count) && ltb start count)) [
        | inl ended ↦ inl (ground arith)
        | inr going ↦ elim (Checked-cases (try_at (start + count))) [
          | inl stops ↦ absurd (ground arith)
          | inr (some b, eb) ↦ absurd (ground arith)
          | inr (none, eb) ↦ elim (dec_lt start count) [
            | yes below ↦ inr (eb, (λ le. absurd (omega arith)), ground arith)
            | no within ↦ elim (Checked-cases (try_at (start - count))) [
              | inl stops ↦ absurd (ground arith)
              | inr (some b, ec) ↦ absurd (ground arith)
              | inr (none, ec) ↦ inr (eb, (λ le. ec), ground arith)
            ]
          ]
        ]
      ]

  scan_leaf-none_from :
      (start left count n : ℕ)
      → start < 256
      → 256 ≤ count + left
      → scan_leaf free leaf bref radix relaxed key start left count ≡ ok none
      → n < 256
      → Untried start count n
      → is_worth n ≡ true
      → asked n ≡ ok none
  scan_leaf-none_from start zero count n begun all h lt untried worth = absurd (omega arith)
  scan_leaf-none_from start (suc left) count n begun all h lt untried worth =
      elim (scan_leaf-none_step start left count h) [
        | inl (above, below) ↦ absurd (omega arith)
        | inr (forward, backward, later) ↦ elim (ℕ_discrete n (start + count)) [
          | yes e ↦ try_entry-none n (ap try_at e ∙ forward) lt worth
          | no not_forward ↦ elim (ℕ_discrete (n + count) start) [
            | yes e ↦ try_entry-none n (ap try_at (back e) ∙ backward (omega arith)) lt worth
            | no not_backward ↦
                scan_leaf-none_from start left (count + 1) n begun (omega arith) later lt
                  (further not_forward not_backward) worth
          ]
        ]
      ]
    where
      back : n + count ≡ start → n ≡ start - count
      back e = omega arith

      further : n ≢ start + count → n + count ≢ start → Untried start (count + 1) n
      further f b = ground (arith, untried)

-- When the scan of a leaf, from any of its 256 entries on, finds storage, the allocation is that
-- of an entry of the leaf that has space and whose class fits, or any class in a relaxed search;
-- when it finds none, each of the 256 entries that have space and a class that fits has refused.
pub scan_leaf-Finds :
    (free : ℕ) (leaf : Leaf) (bref : Blockref) (radix : ℕ) (relaxed : Bool) (key start : ℕ)
    → start < 256
    → ((n : ℕ) (a : Alloc)
        → scan_leaf free leaf bref radix relaxed key start freemap_count 0 ≡ ok (some (n, a))
        → IsPlaced free leaf bref radix relaxed key n a)
      × (scan_leaf free leaf bref radix relaxed key start freemap_count 0 ≡ ok none
          → (n : ℕ) → n < 256
          → is_worth free leaf bref radix relaxed key n ≡ true
          → asked free leaf bref radix relaxed key n ≡ ok none)
scan_leaf-Finds free leaf bref radix relaxed key start begun = (
  (λ n a h. scan_leaf-IsPlaced_from free leaf bref radix relaxed key start 256 0 n a h),
  (λ h n lt worth.
      scan_leaf-none_from free leaf bref radix relaxed key start 256 0 n begun (omega arith) h lt
        (Untried-zero start n) worth),
)

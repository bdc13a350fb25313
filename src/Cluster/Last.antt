-- ===== src/Cluster/Last.antt =====
-- The first loop of `hammer2_cluster_check`: the last item with a focal type is the focus.
use windows_hammer2_dfly.Common.{
  ℕ, zero, suc, ◌+◌, ◌<◌, ◌≡◌, subst, Bool, true, false, ◌||◌, Option, none, List, [], ◌∷◌, ◌==◌,
  length, get_or, Bool-cases, Checked, ok, panic, inl, inr, arith,
}
use windows_hammer2_dfly.Cluster.{
  Item, Cluster, pfstype_none, pfstype_master, pfstype_suproot, focus_item, focus_items,
}

abbrev pub null_item : Item
null_item = record { chain = none; error = 0 }

-- A type whose chain becomes the focus, and one that the check does not refuse.
abbrev pub is_focal : ℕ → Bool
is_focal type = type == pfstype_master || type == pfstype_suproot

abbrev pub is_known : ℕ → Bool
is_known type = is_focal type || type == pfstype_none

-- The items whose types stand in `types` from `i` on: none is focal, or the one at `j` is the last.
pub record NoneFocal (types : List ℕ) (i n : ℕ) : Type 0 where
  pub known : (k : ℕ) → k < n → is_known (get_or types (i + k) 0) ≡ true
  pub others : (k : ℕ) → k < n → is_focal (get_or types (i + k) 0) ≡ false

pub record LastFocal (types : List ℕ) (i n j : ℕ) : Type 0 where
  pub known : (k : ℕ) → k < n → is_known (get_or types (i + k) 0) ≡ true
  pub inside : j < n
  pub focal : is_focal (get_or types (i + j) 0) ≡ true
  pub others : (k : ℕ) → j < k → k < n → is_focal (get_or types (i + k) 0) ≡ false

abbrev focused_on : Item → Cluster → Cluster
focused_on item c = record c { focus = item.chain; error = item.error }

pub data Looped (types : List ℕ) (i : ℕ) (items : List Item) (c : Cluster)
    : Checked Cluster → Type 0 where
  refused :
      (j : ℕ)
      → j < length items
      → is_known (get_or types (i + j) 0) ≡ false
      → Looped types i items c panic
  unmoved : NoneFocal types i (length items) → Looped types i items c (ok c)
  moved :
      (j : ℕ)
      → LastFocal types i (length items) j
      → Looped types i items c (ok (focused_on (get_or items j null_item) c))

module _ (types : List ℕ) (i n : ℕ) where
  -- The fact of the first type and those of the others.
  from_first :
      (P : ℕ → Type 0)
      → P (get_or types i 0)
      → ((k : ℕ) → k < n → P (get_or types (i + 1 + k) 0))
      → (k : ℕ) → k < suc n
      → P (get_or types (i + k) 0)
  from_first P here there zero lt = subst (λ m. P (get_or types m 0)) (omega arith) here
  from_first P here there (suc k) lt =
      subst (λ m. P (get_or types m 0)) (omega arith) (there k (omega arith))

  shift : (j : ℕ) (P : ℕ → Type 0) → P (get_or types (i + 1 + j) 0) → P (get_or types (i + suc j) 0)
  shift j P p = subst (λ m. P (get_or types m 0)) (omega arith) p

  start : (P : ℕ → Type 0) → P (get_or types i 0) → P (get_or types (i + 0) 0)
  start P p = let e : i ≡ i + 0 = omega arith in subst (λ m. P (get_or types m 0)) e p

  LastFocal-first :
      is_focal (get_or types i 0) ≡ true → NoneFocal types (i + 1) n → LastFocal types i (suc n) 0
  LastFocal-first focal rest = record {
    known = from_first (λ t. is_known t ≡ true) (ground arith) rest.known;
    inside = omega arith;
    focal = subst (λ m. is_focal (get_or types m 0) ≡ true) (omega arith) focal;
    others = λ k above lt. later k above lt;
  }
    where
      later : (k : ℕ) → 0 < k → k < suc n → is_focal (get_or types (i + k) 0) ≡ false
      later zero above lt = absurd (omega arith)
      later (suc k) above lt = shift k (λ t. is_focal t ≡ false) (rest.others k (omega arith))

  LastFocal-later :
      (j : ℕ)
      → is_known (get_or types i 0) ≡ true
      → LastFocal types (i + 1) n j
      → LastFocal types i (suc n) (suc j)
  LastFocal-later j here rest = record {
    known = from_first (λ t. is_known t ≡ true) here rest.known;
    inside = omega (arith, rest.inside);
    focal = shift j (λ t. is_focal t ≡ true) rest.focal;
    others = λ k above lt. later k above lt;
  }
    where
      later : (k : ℕ) → suc j < k → k < suc n → is_focal (get_or types (i + k) 0) ≡ false
      later zero above lt = absurd (omega arith)
      later (suc k) above lt =
          shift k (λ t. is_focal t ≡ false) (rest.others k (omega arith) (omega arith))

pub focus_items-Looped :
    (types : List ℕ) (i : ℕ) (items : List Item) (c : Cluster)
    → Looped types i items c (focus_items types i items c)
unfolding focus_items focus_item
focus_items-Looped types i [] c =
    unmoved (record { known = λ k lt. absurd (omega arith); others = λ k lt. absurd (omega arith) })
focus_items-Looped types i (item ∷ items) c = elim (Bool-cases (is_focal (get_or types i 0))) [
  | inl focal ↦
      rw focal (after_focal focal (focus_items-Looped types (i + 1) items (focused_on item c)))
  | inr other ↦ elim (Bool-cases (get_or types i 0 == pfstype_none)) [
    | inl idle ↦
        rw (other, idle) (after_other other idle (focus_items-Looped types (i + 1) items c))
    | inr unknown ↦
        let bad : is_known (get_or types i 0) ≡ false = ground arith in
        rw (other, unknown)
          (refused 0 (omega arith) (start types i (length items) (λ t. is_known t ≡ false) bad))
  ]
]
  where
    after_focal :
        {m : Checked Cluster}
        → is_focal (get_or types i 0) ≡ true
        → Looped types (i + 1) items (focused_on item c) m
        → Looped types i (item ∷ items) c m
    after_focal focal (refused j lt bad) =
        refused (suc j) (omega arith) (shift types i (length items) j (λ t. is_known t ≡ false) bad)
    after_focal focal (unmoved rest) = moved 0 (LastFocal-first types i (length items) focal rest)
    after_focal focal (moved j rest) =
        moved (suc j) (LastFocal-later types i (length items) j (ground arith) rest)

    after_other :
        {m : Checked Cluster}
        → is_focal (get_or types i 0) ≡ false
        → (get_or types i 0 == pfstype_none) ≡ true
        → Looped types (i + 1) items c m
        → Looped types i (item ∷ items) c m
    after_other other idle (refused j lt bad) =
        refused (suc j) (omega arith) (shift types i (length items) j (λ t. is_known t ≡ false) bad)
    after_other other idle (unmoved rest) = unmoved (record {
      known = from_first types i (length items) (λ t. is_known t ≡ true) (ground arith) rest.known;
      others = from_first types i (length items) (λ t. is_focal t ≡ false) other rest.others;
    })
    after_other other idle (moved j rest) =
        moved (suc j) (LastFocal-later types i (length items) j (ground arith) rest)

-- The focus and the error that the items of a cluster give it, if all their types are known: those of
-- the last item whose type is MASTER or SUPROOT, or none.
pub data IsFocus (types : List ℕ) (items : List Item) : Option ℕ → ℕ → Type 0 where
  unfocused : NoneFocal types 0 (length items) → IsFocus types items none 0
  focused :
      (j : ℕ)
      → LastFocal types 0 (length items) j
      → IsFocus types items (get_or items j null_item).chain (get_or items j null_item).error

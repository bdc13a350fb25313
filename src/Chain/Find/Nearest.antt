-- ===== src/Chain/Find/Nearest.antt =====
-- The search of a block array against a linear search from the left.
use windows_hammer2_dfly.Common.{
  ℕ, zero, suc, ◌+◌, ◌-◌, ◌≤◌, ◌<◌, ◌≡◌, refl, sym, ◌∙◌, false≢true, ◌⊎◌, inl, inr, true, false,
  List, [], ◌∷◌, some, length, ◌==◌, leb, ltb, lt→ltb, leb→le, ◌||◌, if◌then◌else◌, Bool-cases,
  ℕ_discrete, dec_lt, ok, arith,
}
use windows_hammer2_dfly.Chain.Types.{Bref, is_empty, next_key, entry, Parent}
use windows_hammer2_dfly.Chain.Find.{
  search_back, reaches, Stop, stopped, beyond, search_forward, Lookup, nearer_key, end_search,
  start_index, search, base_find,
}
use windows_hammer2_dfly.Chain.Find.Ordered.{IsOrdered, passed_entries}

-- The first entry in use that encloses a key or lies after it; the length if there is none.
abbrev pub nearest : ℕ → List Bref → ℕ
nearest key [] = 0
nearest key (e ∷ es) = if reaches key e then 0 else suc (nearest key es)

-- No entry below an index reaches the key, and the one at it does.
pub record IsNearest (key : ℕ) (es : List Bref) (i : ℕ) : Type 0 where
  pub inside : i ≤ length es
  pub before : (j : ℕ) → j < i → reaches key (entry es j) ≡ false
  pub at : i < length es → reaches key (entry es i) ≡ true

pub nearest-IsNearest : (key : ℕ) (es : List Bref) → IsNearest key es (nearest key es)
nearest-IsNearest key [] = record {
  inside = omega arith;
  before = λ j lt. absurd (omega arith);
  at = λ lt. absurd (omega arith);
}
nearest-IsNearest key (e ∷ es) = elim (Bool-cases (reaches key e)) [
  | inl yes' ↦
      rw yes'
        (record { inside = omega arith; before = λ j lt. absurd (omega arith); at = λ lt. yes' })
  | inr no' ↦
      let n = nearest-IsNearest key es in
      rw no' (record {
        inside = omega (arith, n.inside);
        before = earlier n no';
        at = λ lt. n.at (omega arith);
      })
]
  where
    earlier :
        IsNearest key es (nearest key es)
        → reaches key e ≡ false
        → (j : ℕ) → j < suc (nearest key es)
        → reaches key (entry (e ∷ es) j) ≡ false
    earlier n no' zero lt = no'
    earlier n no' (suc j) lt = n.before j (omega arith)

pub IsNearest-unique :
    (key : ℕ) (es : List Bref) (i j : ℕ) → IsNearest key es i → IsNearest key es j → i ≡ j
IsNearest-unique key es i j a b = elim (dec_lt i j) [
  | yes p ↦ absurd (false≢true (sym (b.before i p) ∙ a.at (omega (arith, b.inside))))
  | no np ↦ elim (dec_lt j i) [
    | yes p ↦ absurd (false≢true (sym (a.before j p) ∙ b.at (omega (arith, a.inside))))
    | no np' ↦ omega arith
  ]
]

-- A block array whose trailing entries from `live_zero` on are empty.
pub record IsBlockArray (p : Parent) (base : List Bref) (count : ℕ) : Type 0 where
  pub counted : p.counted ≡ true
  pub size : length base ≡ count
  pub limit : p.live_zero ≤ count
  pub trailing : (i : ℕ) → p.live_zero ≤ i → i < count → is_empty (entry base i) ≡ true
  pub ordered : IsOrdered base

module _ (key : ℕ) (base : List Bref) where
  -- Where the backward search stops.
  back-le : (i : ℕ) → search_back base key i ≤ i
  unfolding search_back
  back-le zero = omega arith
  back-le (suc i) = ground (arith, back-le i)

  back-at :
      (i : ℕ)
      → (search_back base key i ≡ 0)
        ⊎ ((is_empty (entry base (search_back base key i)) ≡ false)
            × ((entry base (search_back base key i)).key ≤ key))
  unfolding search_back
  back-at zero = inl refl
  back-at (suc i) =
      elim (Bool-cases (is_empty (entry base (suc i)) || ltb key (entry base (suc i)).key)) [
        | inl go ↦ rw go (back-at i)
        | inr stop ↦ rw stop (inr (stop_at (suc i) stop))
      ]
    where
      stop_at :
          (n : ℕ)
          → (is_empty (entry base n) || ltb key (entry base n).key) ≡ false
          → (is_empty (entry base n) ≡ false) × ((entry base n).key ≤ key)
      stop_at n h = (ground arith, ground arith)

  back-before :
      IsOrdered base
      → (i : ℕ) → i < length base
      → (j : ℕ) → j < search_back base key i
      → reaches key (entry base j) ≡ false
  back-before o i size j lt = elim (back-at i) [
    | inl e ↦ absurd (omega arith)
    | inr h ↦
        passed_entries base o j (search_back base key i) key lt (omega (arith, back-le i)) h.0 h.1
  ]

-- How the forward search ends, told of the array.
pub data IsEnd (p : Parent) (base : List Bref) (count key : ℕ) : Stop → Type 0 where
  hit :
      {i : ℕ}
      → i < count
      → i < p.live_zero
      → IsNearest key base i
      → IsEnd p base count key (stopped i)
  miss : {i : ℕ} → i ≡ count → IsNearest key base count → IsEnd p base count key (stopped i)
  past : IsNearest key base count → IsEnd p base count key beyond

module _ (p : Parent) (base : List Bref) (count key : ℕ) (b : IsBlockArray p base count) where
  Passed : ℕ → Type 0
  Passed i = (j : ℕ) → j < i → reaches key (entry base j) ≡ false

  none_left : Passed count → IsNearest key base count
  unfolding Passed
  none_left passed = record {
    inside = omega (arith, b.size);
    before = passed;
    at = λ lt. absurd (omega (arith, b.size));
  }

  empty_passed : (i : ℕ) → p.live_zero ≤ i → i < count → reaches key (entry base i) ≡ false
  empty_passed i over lt = rw (b.trailing i over lt) refl

  hit_live : (i : ℕ) → i < count → reaches key (entry base i) ≡ true → i < p.live_zero
  hit_live i lt here = elim (dec_lt i p.live_zero) [
    | yes below ↦ below
    | no over ↦ absurd (false≢true (sym (empty_passed i (omega arith) lt) ∙ here))
  ]

  pass_next : (i : ℕ) → Passed i → reaches key (entry base i) ≡ false → Passed (i + 1)
  unfolding Passed
  pass_next i before further j lt = elim (ℕ_discrete j i) [
    | yes e ↦ rw e further
    | no ne ↦ before j (omega arith)
  ]

  pass_rest : (i : ℕ) → Passed i → p.live_zero ≤ i → Passed count
  unfolding Passed
  pass_rest i before over j lt = elim (dec_lt j i) [
    | yes below ↦ before j below
    | no above ↦ empty_passed j (omega arith) lt
  ]

  forward-IsEnd :
      (left i : ℕ)
      → i + left ≡ count
      → Passed i
      → IsEnd p base count key (search_forward left base p.live_zero key i)
  unfolding search_forward Passed
  forward-IsEnd zero i sum before = miss (omega arith) (none_left (λ j lt. before j (omega arith)))
  forward-IsEnd (suc left) i sum before = elim (Bool-cases (reaches key (entry base i))) [
    | inl here ↦ rw here (
        hit (omega arith) (hit_live i (omega arith) here)
          (record { inside = omega (arith, b.size); before = before; at = λ _. here }))
    | inr further ↦ elim (Bool-cases (leb p.live_zero i)) [
      | inl over ↦
          rw (further, over) (past (none_left (pass_rest i before (leb→le p.live_zero i over))))
      | inr more ↦
          rw (further, more) (forward-IsEnd left (i + 1) (omega arith) (pass_next i before further))
    ]
  ]

  -- What the caller sees of a search.
  pub record IsSearch (key_next : ℕ) (f : Lookup) : Type 0 where
    pub index : f.index ≡ nearest key base
    pub next : f.key_next ≡ (
        if f.index == count then key_next else nearer_key (next_key (entry base f.index)) key_next)

  is_nearest : (i : ℕ) → IsNearest key base i → i ≡ nearest key base
  is_nearest i n = IsNearest-unique key base i (nearest key base) n (nearest-IsNearest key base)

  end_search-IsSearch :
      (start key_next : ℕ) (s : Stop)
      → IsEnd p base count key s
      → IsSearch key_next (end_search base count p.live_zero start key_next s)
  unfolding end_search
  end_search-IsSearch start key_next beyond (past n) = record {
    index = is_nearest count n;
    next = ground arith;
  }
  end_search-IsSearch start key_next (stopped i) (miss e n) =
      rw (let t : (i == count) ≡ true = ground arith in t)
        (record { index = is_nearest count n; next = ground arith })
  end_search-IsSearch start key_next (stopped i) (hit lt live n) =
      rw
        (
          let t : (i == count) ≡ false = ground arith in t,
          let t : leb p.live_zero i ≡ false = ground arith in t,
        )
        (record { index = is_nearest i n; next = ground arith })

  search-IsSearch :
      (key_next : ℕ) → start_index p < count → IsSearch key_next (search p base count key_next key)
  unfolding search
  search-IsSearch key_next start =
      let i = search_back base key (start_index p) in
      let le : i ≤ start_index p = back-le key base (start_index p) in
      end_search-IsSearch i key_next _ (
        forward-IsEnd (count - i) i (omega (arith, le)) (
          unfold Passed in
          back-before key base b.ordered (start_index p) (omega (arith, b.size, start))))

  base_find-parts :
      (key_next : ℕ)
      → (f : Lookup) × (base_find p (some base) count key_next key ≡ ok f) × IsSearch key_next f
  unfolding base_find
  base_find-parts key_next = elim (ℕ_discrete count 0) [
    | yes none_at_all ↦ (
      record { index = count; cache_index = p.cache_index; key_next = key_next },
      rw (let t : (count == 0) ≡ true = ground arith in t, b.counted) refl,
      record {
        index = is_nearest count (none_left (unfold Passed in λ j lt. absurd (omega arith)));
        next = rw (let t : (count == count) ≡ true = ground arith in t) refl;
      },
    )
    | no some_entries ↦
        let start : start_index p < count = ground (arith, b.limit) in
        (
          search p base count key_next key,
          rw (let t : (count == 0) ≡ false = ground arith in t, b.counted, lt→ltb _ _ start) refl,
          search-IsSearch key_next start,
        )
  ]

-- The search of a block array whose entries in use are ordered without an overlap, and whose
-- entries from `live_zero` on are empty, returns: no assertion fails. Whatever `cache_index` is, the
-- index is the one that a search from the left finds, of the first entry that encloses the key or
-- lies after it, or `count` if there is none; and `*key_nextp` is lowered to the key after that
-- entry, or kept if there is no entry.
pub base_find-IsSearch :
    (p : Parent) (base : List Bref) (count key_next key : ℕ) (b : IsBlockArray p base count)
    → (f : Lookup) × (base_find p (some base) count key_next key ≡ ok f)
      × (f.index ≡ nearest key base)
      × (f.key_next ≡ (
          if f.index == count
          then key_next
          else nearer_key (next_key (entry base f.index)) key_next))
base_find-IsSearch p base count key_next key b =
    let (f, e, s) = base_find-parts p base count key b key_next in (f, e, s.index, s.next)

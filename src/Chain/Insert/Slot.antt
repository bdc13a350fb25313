-- ===== src/Chain/Insert/Slot.antt =====
-- The search for an empty slot, and the place of the new entry in the array.
use windows_hammer2_dfly.Common.{
  ℕ, zero, suc, ◌+◌, ◌-◌, ◌^◌, ◌≤◌, ◌<◌, ◌≡◌, refl, sym, ◌∙◌, false≢true, ◌⊎◌, inl, inr, true,
  false, ◌&&◌, ◌||◌, List, length, ltb, leb, Bool-cases, ℕ_discrete, dec_lt, arith,
}
use native.Mathlib.Nat.{one-le-pow}
use windows_hammer2_dfly.Chain.Types.{Bref, is_empty, last_key, entry}
use windows_hammer2_dfly.Chain.Find.{reaches}
use windows_hammer2_dfly.Chain.Find.Ordered.{
  IsFitting, last_key-IsFitting, IsOrdered, entry-IsFitting, later_entries,
}
use windows_hammer2_dfly.Chain.Find.Nearest.{IsNearest}
use windows_hammer2_dfly.Chain.Insert.{Room, before, after, find_room}
use windows_hammer2_dfly.Chain.Insert.Splice.{
  without, entry-without_below, entry-without_above, length-without,
}
use windows_hammer2_dfly.Chain.Insert.Sorted.{IsPlace}

-- An empty slot on one of the two sides.
pub data IsRoom (base : List Bref) (count i : ℕ) : Room → Type 0 where
  is_before : {j : ℕ} → j < i → is_empty (entry base j) ≡ true → IsRoom base count i (before j)
  is_after :
      {k : ℕ} → i < k → k < count → is_empty (entry base k) ≡ true → IsRoom base count i (after k)

module _ (base : List Bref) (count i e0 : ℕ) (le : i ≤ count) (size : e0 < count)
    (free : is_empty (entry base e0) ≡ true) where
  abbrev Far : ℕ → Type 0
  Far t = (e0 + t ≤ i) ⊎ (i + t ≤ e0)

  turn_taken : (t : ℕ) → 1 ≤ t → Far t → (leb t i || ltb (i + t - 1) count) ≡ true
  turn_taken t one far = ground arith

  further :
      (t : ℕ)
      → Far t
      → (leb t i && is_empty (entry base (i - t))) ≡ false
      → (ltb (i + t) count && is_empty (entry base (i + t))) ≡ false
      → Far (t + 1)
  further t (inl lower) no_before no_after = elim (ℕ_discrete (i - t) e0) [
    | yes e ↦
        absurd (
          false≢true
            (sym no_before ∙ rw (e, free, let h : leb t i ≡ true = ground arith in h) refl))
    | no ne ↦ inl (omega arith)
  ]
  further t (inr upper) no_before no_after = elim (ℕ_discrete (i + t) e0) [
    | yes e ↦ absurd (
        false≢true
          (sym no_after ∙ rw (e, free, let h : ltb e0 count ≡ true = ground arith in h) refl))
    | no ne ↦ inr (omega arith)
  ]

  pub find_room-IsRoom :
      (left t : ℕ)
      → 1 ≤ t
      → count < left + t
      → Far t
      → IsRoom base count i (find_room left base count i t)
  unfolding find_room
  find_room-IsRoom zero t one enough far =
      absurd (elim far [ inl h ↦ omega arith | inr h ↦ omega arith ])
  find_room-IsRoom (suc left) t one enough far =
      rw (turn_taken t one far) (elim (Bool-cases (leb t i && is_empty (entry base (i - t)))) [
        | inl found ↦
            let parts : (t ≤ i) × (is_empty (entry base (i - t)) ≡ true) =
              (ground arith, ground arith) in
            rw found (is_before (omega (arith, parts.0)) parts.1)
        | inr no_before ↦ elim (Bool-cases (ltb (i + t) count && is_empty (entry base (i + t)))) [
          | inl found ↦
              let parts : (i + t < count) × (is_empty (entry base (i + t)) ≡ true) =
                (ground arith, ground arith) in
              rw (no_before, found) (is_after (omega arith) parts.0 parts.1)
          | inr no_after ↦
              rw (no_before, no_after)
                (find_room-IsRoom left (t + 1) (omega arith) (omega arith)
                  (further t far no_before no_after))
        ]
      ])

-- No entry in use shares a key with the new one.
abbrev pub IsDisjoint : Bref → List Bref → Type 0
IsDisjoint e es =
    (i : ℕ)
    → i < length es
    → is_empty (entry es i) ≡ false
    → (last_key (entry es i) < e.key) ⊎ (last_key e < (entry es i).key)

not_reached : (key : ℕ) (e : Bref) → reaches key e ≡ false → is_empty e ≡ false → last_key e < key
not_reached key e h in_use = ground arith

reached : (key : ℕ) (e : Bref) → IsFitting e → reaches key e ≡ true → key ≤ last_key e
reached key e f h = go (last_key-IsFitting e f)
  where
    go : last_key e + 1 ≡ e.key + 2 ^ e.keybits → key ≤ last_key e
    go last = ground (arith, one-le-pow e.keybits 2)

module _ (e : Bref) (base : List Bref) (i : ℕ) (n : IsNearest e.key base i) (o : IsOrdered base)
    (d : IsDisjoint e base) where
  lower : (t : ℕ) → t < i → is_empty (entry base t) ≡ false → last_key (entry base t) < e.key
  lower t lt in_use = not_reached e.key (entry base t) (n.before t lt) in_use

  pub upper :
      (t : ℕ)
      → i ≤ t
      → t < length base
      → is_empty (entry base t) ≡ false
      → last_key e < (entry base t).key
  upper t le lt in_use = elim (d t lt in_use) [
    | inl low ↦
        absurd
          (omega (arith, reached e.key (entry base t) (entry-IsFitting base o t lt in_use) hit))
    | inr high ↦ high
  ]
    where
      hit : reaches e.key (entry base t) ≡ true
      hit = elim (ℕ_discrete t i) [
        | yes same ↦ rw same (n.at (omega arith))
        | no ne ↦ later_entries base o i t e.key (omega arith) lt (n.at (omega arith)) in_use
      ]

  pub before-IsPlace :
      (j m : ℕ) → m + 1 ≡ i → j ≤ m → m < length base → IsPlace e m (without j base)
  before-IsPlace j m here le size = record {
    within = omega (arith, shorter);
    below = λ t lt in_use. elim (dec_lt t j) [
      | yes left ↦
          let same = entry-without_below j t base left in
          rw same (lower t (omega arith) (rw same at in_use))
      | no right ↦
          let same = entry-without_above j t base (omega arith) in
          rw same (lower (suc t) (omega arith) (rw same at in_use))
    ];
    above = λ t ge lt in_use.
        let same = entry-without_above j t base (omega arith) in
        rw same (upper (suc t) (omega arith) (omega (arith, shorter)) (rw same at in_use));
  }
    where
      shorter : suc (length (without j base)) ≡ length base
      shorter = length-without j base (omega arith)

  pub after-IsPlace : (k : ℕ) → i < k → k < length base → IsPlace e i (without k base)
  after-IsPlace k gt size = record {
    within = omega (arith, shorter);
    below = λ t lt in_use.
        let same = entry-without_below k t base (omega arith) in
        rw same (lower t lt (rw same at in_use));
    above = λ t ge lt in_use. elim (dec_lt t k) [
      | yes left ↦
          let same = entry-without_below k t base left in
          rw same (upper t ge (omega arith) (rw same at in_use))
      | no right ↦
          let same = entry-without_above k t base (omega arith) in
          rw same (upper (suc t) (omega arith) (omega (arith, shorter)) (rw same at in_use))
    ];
  }
    where
      shorter : suc (length (without k base)) ≡ length base
      shorter = length-without k base size

  -- Where the array ends in empty entries from `j` on and no entry reaches the key.
  pub end-IsPlace :
      (j : ℕ)
      → i ≡ length base
      → j < length base
      → ((t : ℕ) → j ≤ t → t < length base → is_empty (entry base t) ≡ true)
      → IsPlace e j (without j base)
  end-IsPlace j at_end size trailing = record {
    within = omega (arith, shorter);
    below = λ t lt in_use.
        let same = entry-without_below j t base lt in
        rw same (lower t (omega arith) (rw same at in_use));
    above = λ t ge lt in_use.
        let same = entry-without_above j t base ge in
        absurd (
          false≢true
            (sym (rw same at in_use) ∙ trailing (suc t) (omega arith) (omega (arith, shorter))));
  }
    where
      shorter : suc (length (without j base)) ≡ length base
      shorter = length-without j base size

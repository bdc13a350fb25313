-- ===== src/Chain/Combined/Children.antt =====
-- The search of the chains in memory finds the first child that meets the range.
use windows_hammer2_dfly.Common.{
  ℕ, zero, suc, ◌≤◌, ◌<◌, ◌≡◌, refl, sym, ◌∙◌, false≢true, inl, inr, true, false, ◌&&◌, List, [],
  ◌∷◌, Option, none, some, some-injective, subst, ltb, leb, ◌==◌, if◌then◌else◌, length, Bool-cases,
  ok, arith,
}
use native.Mathlib.Nat.{one-le-pow}
use windows_hammer2_dfly.Chain.Types.{Bref, last_key, entry}
use windows_hammer2_dfly.Chain.Find.Ordered.{IsFitting, last_key-IsFitting}
use windows_hammer2_dfly.Chain.Combined.{
  FindInfo, in_range, past_child, lowered, nearer_child, find_callback, scan_children, chain_find,
}

-- The children in the order of their keys, without an overlap.
pub data IsTree : List Bref → Type 0 where
  no_child : IsTree []
  child :
      {c : Bref} {cs : List Bref}
      → IsFitting c
      → ((j : ℕ) → j < length cs → last_key c < (entry cs j).key)
      → IsTree cs
      → IsTree (c ∷ cs)

abbrev pub first_in : ℕ → ℕ → List Bref → Option Bref
first_in key_beg key_end [] = none
first_in key_beg key_end (c ∷ cs) =
    let rest = first_in key_beg key_end cs in if in_range key_beg key_end c then some c else rest

pub key-le : (c : Bref) → IsFitting c → c.key ≤ last_key c
key-le c f = omega (arith, last_key-IsFitting c f, one-le-pow c.keybits 2)

module _ (key_beg key_end : ℕ) where
  -- A child after the best one changes only `key_next`.
  callback_kept :
      (b c : Bref) (kn : ℕ)
      → key_beg < c.key
      → b.key < c.key
      → (info : FindInfo) × (find_callback key_beg c (record { best = some b; key_next = kn })
          ≡ ok info)
        × (info.best ≡ some b)
  unfolding find_callback nearer_child past_child
  callback_kept b c kn after_beg after_best =
      let both : (leb b.key key_beg && leb c.key key_beg) ≡ false = ground arith in
      let lower : ltb c.key b.key ≡ false = ground arith in
      let same : (c.key == b.key) ≡ false = ground arith in
      (
        past_child c (record { best = some b; key_next = lowered c.key kn }),
        rw (both, lower, same) refl,
        refl,
      )

  scan_kept :
      (b : Bref) (cs : List Bref) (info : FindInfo)
      → info.best ≡ some b
      → IsFitting b
      → key_beg ≤ last_key b
      → ((j : ℕ) → j < length cs → last_key b < (entry cs j).key)
      → (info' : FindInfo) × (scan_children key_beg key_end cs info ≡ ok info')
        × (info'.best ≡ some b)
  unfolding scan_children
  scan_kept b [] info e f reach above = (info, refl, e)
  scan_kept b (c ∷ cs) info e f reach above = elim (Bool-cases (in_range key_beg key_end c)) [
    | inr out ↦ rw out (scan_kept b cs info e f reach (λ j lt. above (suc j) (omega arith)))
    | inl meets ↦
        let gap : last_key b < c.key = above 0 (omega arith) in
        let (next, run, kept) =
          callback_kept b c info.key_next (omega arith) (omega (arith, key-le b f)) in
        let (info', run', kept') =
          scan_kept b cs next kept f reach (λ j lt. above (suc j) (omega arith)) in
        (info', rw (meets, rw (← e) at run) run', kept')
  ]

  -- The range test, told of the keys.
  pub in_range-keys :
      (c : Bref) → in_range key_beg key_end c ≡ true → (key_beg ≤ last_key c) × (c.key ≤ key_end)
  in_range-keys c h = (ground arith, ground arith)

  scan_children-first :
      (cs : List Bref) (kn : ℕ)
      → IsTree cs
      → (info : FindInfo) × (scan_children key_beg key_end cs
            (record { best = none; key_next = kn })
          ≡ ok info)
        × (info.best ≡ first_in key_beg key_end cs)
  unfolding scan_children find_callback
  scan_children-first [] kn no_child = (_, refl, refl)
  scan_children-first (c ∷ cs) kn (child f above t) =
      elim (Bool-cases (in_range key_beg key_end c)) [
        | inr out ↦ rw out (scan_children-first cs kn t)
        | inl meets ↦ rw meets (
            scan_kept c cs (past_child c (record { best = some c; key_next = kn }))
              (unfold past_child in refl) f (in_range-keys c meets).0 above)
      ]

  pub chain_find-first :
      (cs : List Bref) (kn : ℕ)
      → IsTree cs
      → (info : FindInfo) × (chain_find cs kn key_beg key_end ≡ ok info)
        × (info.best ≡ first_in key_beg key_end cs)
  unfolding chain_find
  chain_find-first cs kn t = scan_children-first cs kn t

  -- The first child in the range has the least key of those in it.
  pub record IsLeast (cs : List Bref) (c : Bref) : Type 0 where
    pub index : ℕ
    pub within : index < length cs
    pub there : entry cs index ≡ c
    pub meets : in_range key_beg key_end c ≡ true
    pub fits : IsFitting c
    pub least :
        (j : ℕ)
        → j < length cs
        → in_range key_beg key_end (entry cs j) ≡ true
        → c.key ≤ (entry cs j).key

  IsLeast-later :
      (x c : Bref) (cs : List Bref)
      → in_range key_beg key_end x ≡ false
      → IsLeast cs c
      → IsLeast (x ∷ cs) c
  IsLeast-later x c cs out l = record {
    index = suc l.index;
    within = omega (arith, l.within);
    there = l.there;
    meets = l.meets;
    fits = l.fits;
    least = pass;
  }
    where
      pass :
          (j : ℕ)
          → j < length (x ∷ cs)
          → in_range key_beg key_end (entry (x ∷ cs) j) ≡ true
          → c.key ≤ (entry (x ∷ cs) j).key
      pass zero lt h = absurd (false≢true (sym out ∙ h))
      pass (suc j) lt h = l.least j (omega arith) h

  pub first_in-IsLeast :
      (cs : List Bref) (c : Bref) → IsTree cs → first_in key_beg key_end cs ≡ some c → IsLeast cs c
  first_in-IsLeast [] c t e = cc
  first_in-IsLeast (x ∷ cs) c (child f above t) e = elim (Bool-cases (in_range key_beg key_end x)) [
    | inr out ↦ IsLeast-later x c cs out (first_in-IsLeast cs c t (rw out at e))
    | inl meets ↦ subst (IsLeast (x ∷ cs)) (some-injective _ _ (rw meets at e)) (record {
      index = 0;
      within = omega arith;
      there = refl;
      meets = meets;
      fits = f;
      least = first_least;
    })
  ]
    where
      first_least :
          (j : ℕ)
          → j < length (x ∷ cs)
          → in_range key_beg key_end (entry (x ∷ cs) j) ≡ true
          → x.key ≤ (entry (x ∷ cs) j).key
      first_least zero lt h = omega arith
      first_least (suc j) lt h = omega (arith, key-le x f, above j (omega arith))

  pub first_in-none :
      (cs : List Bref)
      → first_in key_beg key_end cs ≡ none
      → (j : ℕ) → j < length cs
      → in_range key_beg key_end (entry cs j) ≡ false
  first_in-none [] e j lt = absurd (omega arith)
  first_in-none (x ∷ cs) e j lt = elim (Bool-cases (in_range key_beg key_end x)) [
    | inl meets ↦ absurd (no_some (rw meets at e))
    | inr out ↦
        elim j as (λ i. i < length (x ∷ cs) → in_range key_beg key_end (entry (x ∷ cs) i) ≡ false) [
          | zero ↦ λ _. out
          | suc i ↦ λ h. first_in-none cs (rw out at e) i (omega arith)
        ]
          lt
  ]
    where
      no_some : some x ≡ none → ⊥
      no_some h = cc

-- ===== src/Bulkfree/Turn.antt =====
-- One turn of the merge: the pair it is about, the other pairs, and the free space.
use Prim.Native.Nat.{min}
use native.Mathlib.Nat.{zero-add}
use windows_hammer2_dfly.Common.{
  ℕ, ◌+◌, ◌-◌, ◌*◌, ◌/◌, ◌%◌, ◌^◌, ◌<◌, bit_and, bit_or, ◌≡◌, ◌≢◌, refl, sym, ◌∙◌, ap, inl, inr,
  ◌==◌, if◌then◌else◌, dec_lt, Bool-cases, true, arith,
}
use windows_hammer2_dfly.Common.Words.{u64, ◌<<<◌}
use windows_hammer2_dfly.Common.Pairs.Masks.{
  pair, span, four_pow, pair-or-span_in, pair-or-span_below, pair-or-span_above,
}
use windows_hammer2_dfly.Common.Pairs.Holes.{
  hole, pair-and-hole_ne, pair-and-hole_self, hole-complement,
}
use windows_hammer2_dfly.Freemap.Bmap.Scan.{shifted_mask}
use windows_hammer2_dfly.Bulkfree.Sync.{
  not64, Merging, stage_free, count_used, stage_used, sync_pair,
}

-- The table of the transitions: memory 00 takes live 11 to 10 and live 10 to 00; memory 11 takes
-- any live state to 11.
abbrev pub merge : ℕ → ℕ → ℕ
merge l m =
    if m == 0 then (if l == 2 then 0 else if l == 3 then 2 else l) else if m == 3 then 3 else l

-- The masks as the code shifts them.
not64-hole : (k x c : ℕ) → k < 32 → c < 4 → x + c ≡ 3 → not64 (u64 (x <<< (k * 2))) ≡ hole 32 k c
not64-hole k x c lt small sum =
    let whole : hole 32 k c + x * 4 ^ k ≡ 2 ^ 64 - 1 =
      rw (let e : 3 - c ≡ x = omega arith in e) at (hole-complement 32 k c small lt) in
    let power : x <<< (k * 2) ≡ x * 4 ^ k = ap (λ (t : ℕ). x * t) (omega (arith, four_pow k)) in
    rw power (omega arith)

pub used_mask : (k : ℕ) → k < 32 → u64 (3 <<< (k * 2)) ≡ span 1 k
used_mask k lt = shifted_mask 1 0 k (omega arith) ∙ ap (span 1) (zero-add k)

-- The word after the turn for pair `k`.
pub record IsTurn (l m k : ℕ) (w v : ℕ) : Type 0 where
  pub here : pair v k ≡ merge l m
  pub there : (j : ℕ) → j < 32 → j ≢ k → pair v j ≡ pair w j

module _ (k w : ℕ) (lt : k < 32) where
  cut-IsTurn :
      (l x c : ℕ)
      → pair w k ≡ l
      → c < 4
      → x + c ≡ 3
      → min (l / 2) (c / 2) * 2 + min (l % 2) (c % 2) ≡ merge l 0
      → IsTurn l 0 k w (bit_and w (not64 (u64 (x <<< (k * 2)))))
  cut-IsTurn l x c live small sum table = rw (not64-hole k x c lt small sum) (record {
    here = pair-and-hole_self 32 k c w small lt ∙ rw live table;
    there = λ j below ne. pair-and-hole_ne 32 k c w j small below ne;
  })

  used-IsTurn : (l : ℕ) → IsTurn l 3 k w (bit_or w (u64 (3 <<< (k * 2))))
  used-IsTurn l = rw (used_mask k lt) (record {
    here = pair-or-span_in 1 k w k (omega arith) (omega arith);
    there = λ j below ne. elim (dec_lt j k) [
      | yes p ↦ pair-or-span_below 1 k w j p
      | no np ↦ pair-or-span_above 1 k w j (omega arith)
    ];
  })

  kept-IsTurn : (l m : ℕ) → pair w k ≡ l → merge l m ≡ l → IsTurn l m k w w
  kept-IsTurn l m live table = record { here = live ∙ sym table; there = λ j below ne. refl }

count_used-word : (l : ℕ) (s : Merging) → (count_used l s).word ≡ s.word
unfolding count_used
count_used-word l s = ground arith

equal : (a b : ℕ) → (a == b) ≡ true → a ≡ b
equal a b h = ground arith

pub sync_pair-IsTurn :
    (k l m off : ℕ) (s : Merging)
    → k < 32
    → pair s.word k ≡ l
    → IsTurn l m k s.word (sync_pair l m (k * 2) off s).word
unfolding sync_pair stage_free stage_used
sync_pair-IsTurn k l m off s lt live = elim (Bool-cases (m == 0)) [
  | inl free ↦ rw (equal m 0 free) (elim (Bool-cases (l == 2)) [
    | inl two ↦
        rw (equal l 2 two)
          (cut-IsTurn k s.word lt 2 2 1 (rw (equal l 2 two) at live) (omega arith) refl refl)
    | inr not_two ↦ elim (Bool-cases (l == 3)) [
      | inl three ↦
          rw (equal l 3 three)
            (cut-IsTurn k s.word lt 3 1 2 (rw (equal l 3 three) at live) (omega arith) refl refl)
      | inr not_three ↦
          rw (not_two, not_three) (kept-IsTurn k s.word lt l 0 live (rw (not_two, not_three) refl))
    ]
  ])
  | inr other ↦ elim (Bool-cases (m == 3)) [
    | inl used ↦ rw (equal m 3 used) (used-IsTurn k s.word lt l)
    | inr neither ↦
        rw (other, neither) (kept-IsTurn k s.word lt l m live (rw (other, neither) refl))
  ]
]

-- ===== src/Freemap/Bmap/Fit.antt =====
-- The allocation sizes 1KB to 64KB: how many blocks and bits of an element each takes.
use windows_hammer2_dfly.Common.{ℕ, ◌+◌, ◌*◌, ◌/◌, ◌%◌, ◌^◌, ◌≤◌, ◌<◌, ◌≡◌, refl, arith, ℕ_discrete}
use windows_hammer2_dfly.Common.Pairs.Masks.{ones}
use native.Mathlib.Nat.{pow-le-pow_right}
use windows_hammer2_dfly.Freemap.Bmap.{bmradix_of, low_mask}

pub record Fit (radix : ℕ) : Type 0 where
  pub blocks : ℕ
  pub rounds : ℕ
  pub bits : bmradix_of radix ≡ blocks * 2
  pub low : low_mask (bmradix_of radix) ≡ ones blocks
  pub count : 64 / bmradix_of radix ≡ rounds
  pub whole : blocks * rounds ≡ 32
  pub some_blocks : 1 ≤ blocks
  pub few : blocks ≤ 4
  pub size : 2 ^ radix ≤ blocks * 16384
  pub exact : 14 ≤ radix → 2 ^ radix ≡ blocks * 16384
  pub aligned : (key : ℕ) → 14 ≤ radix → key % 2 ^ radix ≡ 0 → key % 2 ^ 19 / 16384 + blocks ≤ 32
  pub split :
      (p : ℕ)
      → p % blocks ≡ 0
      → (blocks * (p % 32 / blocks) ≡ p % 32) × (p % 32 / blocks < rounds) × (p % 32 + blocks ≤ 32)
  pub small : radix < 14 → (blocks ≡ 1) × (2 ^ radix < 16384)

-- Up to 16KB an allocation takes one block.
one_block : (radix : ℕ) → radix ≤ 14 → bmradix_of radix ≡ 2
unfolding bmradix_of
one_block radix le = ground arith

small_fit : (radix : ℕ) → radix ≤ 14 → Fit radix
small_fit radix le = record {
  blocks = 1;
  rounds = 32;
  bits = bits;
  low = rw bits (unfold low_mask in refl);
  count = rw bits;
  whole = refl;
  some_blocks = omega arith;
  few = omega arith;
  size = pow-le-pow_right {n = 2} (omega arith) le;
  exact = λ h. rw (let e : radix ≡ 14 = omega arith in e);
  aligned = λ key _ e. omega arith;
  split = λ p e. omega arith;
  small = λ h. (
    refl,
    omega (arith, pow-le-pow_right {n = 2} (omega arith) {i = radix} {j = 13} (omega arith)),
  );
}
  where
    bits : bmradix_of radix ≡ 2
    bits = one_block radix le

pub fit : (radix : ℕ) → radix ≤ 16 → Fit radix
unfolding bmradix_of low_mask
fit radix hi = elim (ℕ_discrete radix 16) [
  | yes e ↦ rw e (record {
    blocks = 4;
    rounds = 8;
    bits = refl;
    low = refl;
    count = refl;
    whole = refl;
    some_blocks = omega arith;
    few = omega arith;
    size = omega arith;
    exact = λ _. refl;
    aligned = λ key _ e. omega arith;
    split = λ p e. omega arith;
    small = λ h. absurd (omega arith);
  })
  | no ne16 ↦ elim (ℕ_discrete radix 15) [
    | yes e ↦ rw e (record {
      blocks = 2;
      rounds = 16;
      bits = refl;
      low = refl;
      count = refl;
      whole = refl;
      some_blocks = omega arith;
      few = omega arith;
      size = omega arith;
      exact = λ _. refl;
      aligned = λ key _ e. omega arith;
      split = λ p e. omega arith;
      small = λ h. absurd (omega arith);
    })
    | no ne15 ↦ small_fit radix (omega arith)
  ]
]

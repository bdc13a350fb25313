-- ===== src/Common/Pairs.antt =====
-- A word as a row of two-bit entries: `&` and `|` with a mask, one entry at a time.
pub mod Masks
pub mod Holes
use Prim.Native.Nat.{min, max, digits, bitwise, bit_and-bitwise, bit_or-bitwise}
use Prim.Native.Nat.{ℕ, zero, suc, ◌+◌, ◌*◌, ◌/◌, ◌%◌, ◌≤◌, bit_and, bit_or}
use mathlib.Core.Path.{◌≡◌, refl, ◌∙◌}
use native.Mathlib.Omega.{arith}
use native.Mathlib.Decide.{ℕ_discrete}

-- The fuel of the library's digit recursion does not matter while it covers the first word.
module _ (z : ℕ → ℕ) (f : ℕ → ℕ → ℕ) where
  more_fuel : (n a b : ℕ) → a ≤ n → digits z f (suc n) a b ≡ digits z f n a b
  more_fuel n zero b h = elim n as (λ k. digits z f (suc k) 0 b ≡ digits z f k 0 b) [
    | zero ↦ refl
    | suc k ↦ refl
  ]
  more_fuel zero (suc a) b h = absurd (omega arith)
  more_fuel (suc n) (suc a) b h = rw (more_fuel n (suc a / 2) (b / 2) (omega arith))

  exact_fuel : (n a b : ℕ) → a ≤ n → digits z f n a b ≡ bitwise z f a b
  exact_fuel zero zero b h = refl
  exact_fuel zero (suc a) b h = absurd (omega arith)
  exact_fuel (suc n) a b h = elim (ℕ_discrete a (suc n)) [
    | yes e ↦ rw e
    | no ne ↦ more_fuel n a b (omega arith) ∙ exact_fuel n a b (omega arith)
  ]

  lowest :
      (a b : ℕ)
      → bitwise z f (suc a) b ≡ bitwise z f (suc a / 2) (b / 2) * 2 + f (suc a % 2) (b % 2)
  lowest a b = rw (← exact_fuel a (suc a / 2) (b / 2) (omega arith))

pub and_half : (a b : ℕ) → bit_and a b ≡ bit_and (a / 2) (b / 2) * 2 + min (a % 2) (b % 2)
and_half zero b = simp bit_and-bitwise (omega arith)
and_half (suc a) b = simp bit_and-bitwise (lowest (λ y. 0) min a b)

pub or_half : (a b : ℕ) → bit_or a b ≡ bit_or (a / 2) (b / 2) * 2 + max (a % 2) (b % 2)
or_half zero b = simp bit_or-bitwise (omega arith)
or_half (suc a) b = simp bit_or-bitwise (lowest (λ y. y) max a b)

quarter : (a : ℕ) → a / 2 / 2 ≡ a / 4
quarter a = omega arith

-- One entry at a time.
pub and_quarter :
    (a b : ℕ)
    → bit_and a b
      ≡ bit_and (a / 4) (b / 4) * 4 + min (a / 2 % 2) (b / 2 % 2) * 2 + min (a % 2) (b % 2)
and_quarter a b = and_half a b ∙ rw (and_half (a / 2) (b / 2), quarter a, quarter b) (omega arith)

or_quarter :
    (a b : ℕ)
    → bit_or a b
      ≡ bit_or (a / 4) (b / 4) * 4 + max (a / 2 % 2) (b / 2 % 2) * 2 + max (a % 2) (b % 2)
or_quarter a b = or_half a b ∙ rw (or_half (a / 2) (b / 2), quarter a, quarter b) (omega arith)

-- A mask that leaves the lowest entry out, or covers it.
pub and_skip : (w m : ℕ) → bit_and w (m * 4) ≡ bit_and (w / 4) m * 4
and_skip w m = and_quarter w (m * 4) ∙ rw (quotient) (omega arith)
  where
    quotient : m * 4 / 4 ≡ m
    quotient = omega arith

pub and_take : (w m : ℕ) → bit_and w (m * 4 + 3) ≡ bit_and (w / 4) m * 4 + w % 4
and_take w m = and_quarter w (m * 4 + 3) ∙ rw (quotient) (omega arith)
  where
    quotient : (m * 4 + 3) / 4 ≡ m
    quotient = omega arith

pub or_skip : (w m : ℕ) → bit_or w (m * 4) ≡ bit_or (w / 4) m * 4 + w % 4
or_skip w m = or_quarter w (m * 4) ∙ rw (quotient) (omega arith)
  where
    quotient : m * 4 / 4 ≡ m
    quotient = omega arith

pub or_take : (w m : ℕ) → bit_or w (m * 4 + 3) ≡ bit_or (w / 4) m * 4 + 3
or_take w m = or_quarter w (m * 4 + 3) ∙ rw (quotient) (omega arith)
  where
    quotient : (m * 4 + 3) / 4 ≡ m
    quotient = omega arith

and-zero_below : (n w : ℕ) → w ≤ n → bit_and w 0 ≡ 0
and-zero_below n zero h = simp bit_and-bitwise
and-zero_below zero (suc w) h = absurd (omega arith)
and-zero_below (suc n) (suc w) h =
    omega (arith, and_skip (suc w) 0, and-zero_below n (suc w / 4) (omega arith))

or-zero_below : (n w : ℕ) → w ≤ n → bit_or w 0 ≡ w
or-zero_below n zero h = simp bit_or-bitwise
or-zero_below zero (suc w) h = absurd (omega arith)
or-zero_below (suc n) (suc w) h =
    omega (arith, or_skip (suc w) 0, or-zero_below n (suc w / 4) (omega arith))

pub and-zero : (w : ℕ) → bit_and w 0 ≡ 0
and-zero w = and-zero_below w w (omega arith)

pub or-zero : (w : ℕ) → bit_or w 0 ≡ w
or-zero w = or-zero_below w w (omega arith)

-- ===== src/Common/Bits.antt =====
-- The bits of a word: `&`, `|`, `& ~`, and the masks of low bits.
use Prim.Native.Nat.{ℕ, zero, suc, ◌-◌, ◌/◌, ◌%◌, ◌^◌, ◌≤◌, ◌<◌, min, max, bit_and, bit_or}
use mathlib.Core.Path.{◌≡◌, refl, ap, ◌∙◌}
use native.Mathlib.Omega.{arith}
use native.Mathlib.Nat.{pow-suc, one-le-pow}
use windows_hammer2_dfly.Common.Pairs.{and_half, or_half}

-- The bit at index `k`.
abbrev pub bit : ℕ → ℕ → ℕ
bit w zero = w % 2
bit w (suc k) = bit (w / 2) k

-- a & ~b
abbrev pub without : ℕ → ℕ → ℕ
without a b = a - bit_and a b

zero-and_below : (n b : ℕ) → b ≤ n → bit_and 0 b ≡ 0
zero-and_below n zero h = refl
zero-and_below zero (suc b) h = absurd (omega arith)
zero-and_below (suc n) (suc b) h =
    omega (arith, and_half 0 (suc b), zero-and_below n (suc b / 2) (omega arith))

and-le_below : (n a b : ℕ) → a ≤ n → bit_and a b ≤ a
and-le_below n zero b h = omega (arith, zero-and_below b b (omega arith))
and-le_below zero (suc a) b h = absurd (omega arith)
and-le_below (suc n) (suc a) b h =
    omega (arith, and_half (suc a) b, and-le_below n (suc a / 2) (b / 2) (omega arith))

pub bit-and : (a b k : ℕ) → bit (bit_and a b) k ≡ min (bit a k) (bit b k)
bit-and a b zero = omega (arith, and_half a b)
bit-and a b (suc k) =
    let half : bit_and a b / 2 ≡ bit_and (a / 2) (b / 2) = omega (arith, and_half a b) in
    ap (λ (w : ℕ). bit w k) half ∙ bit-and (a / 2) (b / 2) k

pub bit-or : (a b k : ℕ) → bit (bit_or a b) k ≡ max (bit a k) (bit b k)
bit-or a b zero = omega (arith, or_half a b)
bit-or a b (suc k) =
    let half : bit_or a b / 2 ≡ bit_or (a / 2) (b / 2) = omega (arith, or_half a b) in
    ap (λ (w : ℕ). bit w k) half ∙ bit-or (a / 2) (b / 2) k

pub bit-without : (a b k : ℕ) → bit (without a b) k ≡ bit a k - min (bit a k) (bit b k)
bit-without a b zero =
    omega (arith, and_half a b, and-le_below (a / 2) (a / 2) (b / 2) (omega arith))
bit-without a b (suc k) =
    let half : without a b / 2 ≡ without (a / 2) (b / 2) =
      omega (arith, and_half a b, and-le_below (a / 2) (a / 2) (b / 2) (omega arith)) in
    ap (λ (w : ℕ). bit w k) half ∙ bit-without (a / 2) (b / 2) k

pub bit-lt : (w k : ℕ) → bit w k < 2
bit-lt w zero = omega arith
bit-lt w (suc k) = bit-lt (w / 2) k

-- The mask of the low `n` bits.
pub bit-ones_in : (n k : ℕ) → k < n → bit (2 ^ n - 1) k ≡ 1
bit-ones_in zero k h = absurd (omega arith)
bit-ones_in (suc n) zero h = omega (arith, pow-suc 2 n, one-le-pow n 2)
bit-ones_in (suc n) (suc k) h =
    let half : (2 ^ suc n - 1) / 2 ≡ 2 ^ n - 1 = omega (arith, pow-suc 2 n, one-le-pow n 2) in
    ap (λ (w : ℕ). bit w k) half ∙ bit-ones_in n k (omega arith)

bit-zero : (k : ℕ) → bit 0 k ≡ 0
bit-zero zero = refl
bit-zero (suc k) = bit-zero k

pub bit-ones_above : (n k : ℕ) → n ≤ k → bit (2 ^ n - 1) k ≡ 0
bit-ones_above zero k h = bit-zero k
bit-ones_above (suc n) zero h = absurd (omega arith)
bit-ones_above (suc n) (suc k) h =
    let half : (2 ^ suc n - 1) / 2 ≡ 2 ^ n - 1 = omega (arith, pow-suc 2 n, one-le-pow n 2) in
    ap (λ (w : ℕ). bit w k) half ∙ bit-ones_above n k (omega arith)

-- A word that has no bit in a mask.
pub and-eq-zero :
    (a b n : ℕ) → a < 2 ^ n → ((k : ℕ) → k < n → min (bit a k) (bit b k) ≡ 0) → bit_and a b ≡ 0
and-eq-zero a b zero lt h = omega (arith, and-le_below a a b (omega arith))
and-eq-zero a b (suc n) lt h = omega (
  arith,
  and_half a b,
  h 0 (omega arith),
  and-eq-zero (a / 2) (b / 2) n (omega (arith, pow-suc 2 n)) (λ k less. h (suc k) (omega arith)),
)

-- ===== src/Common/Pairs/Holes.antt =====
-- Masks with one entry cut out: the change of one entry of a word.
use Prim.Native.Nat.{ℕ, zero, suc, ◌+◌, ◌-◌, ◌*◌, ◌/◌, ◌%◌, ◌^◌, ◌<◌, bit_and, min}
use mathlib.Core.Path.{◌≡◌, refl, ap, ◌∙◌}
use mathlib.Core.Logic.{◌≢◌}
use native.Mathlib.Omega.{arith}
use native.Mathlib.Nat.{pow-suc, one-le-pow}
use windows_hammer2_dfly.Common.Tests.{if◌then◌else◌, ◌==◌}
use windows_hammer2_dfly.Common.Pairs.{and_quarter, and_take}
use windows_hammer2_dfly.Common.Pairs.Masks.{pair, ones, ones-pow, clear_count}

-- `n` entries of ones, but `c` at entry `k`.
abbrev pub hole : ℕ → ℕ → ℕ → ℕ
hole zero k c = 0
hole (suc n) zero c = ones n * 4 + c
hole (suc n) (suc k) c = hole n k c * 4 + 3

pair-and-ones : (n w j : ℕ) → j < n → pair (bit_and w (ones n)) j ≡ pair w j
pair-and-ones zero w j lt = absurd (omega arith)
pair-and-ones (suc n) w zero lt = omega (arith, and_take w (ones n))
pair-and-ones (suc n) w (suc j) lt =
    rw
      (let e : bit_and w (ones n * 4 + 3) / 4 ≡ bit_and (w / 4) (ones n) =
          omega (arith, and_take w (ones n)) in
        e)
      (pair-and-ones n (w / 4) j (omega arith))

and-low :
    (w m c : ℕ)
    → c < 4
    → bit_and w (m * 4 + c)
      ≡ bit_and (w / 4) m * 4 + min (w / 2 % 2) (c / 2) * 2 + min (w % 2) (c % 2)
and-low w m c lt = and_quarter w (m * 4 + c) ∙ rw (quotient, middle, low) refl
  where
    quotient : (m * 4 + c) / 4 ≡ m
    quotient = omega arith

    middle : (m * 4 + c) / 2 % 2 ≡ c / 2
    middle = omega arith

    low : (m * 4 + c) % 2 ≡ c % 2
    low = omega arith

pub pair-and-hole_ne :
    (n k c w j : ℕ) → c < 4 → j < n → j ≢ k → pair (bit_and w (hole n k c)) j ≡ pair w j
pair-and-hole_ne zero k c w j small lt ne = absurd (omega arith)
pair-and-hole_ne (suc n) zero c w zero small lt ne = absurd (ne refl)
pair-and-hole_ne (suc n) zero c w (suc j) small lt ne =
    rw
      (let e : bit_and w (ones n * 4 + c) / 4 ≡ bit_and (w / 4) (ones n) =
          omega (arith, and-low w (ones n) c small) in
        e)
      (pair-and-ones n (w / 4) j (omega arith))
pair-and-hole_ne (suc n) (suc k) c w zero small lt ne = omega (arith, and_take w (hole n k c))
pair-and-hole_ne (suc n) (suc k) c w (suc j) small lt ne =
    rw
      (let e : bit_and w (hole n k c * 4 + 3) / 4 ≡ bit_and (w / 4) (hole n k c) =
          omega (arith, and_take w (hole n k c)) in
        e)
      (pair-and-hole_ne n k c (w / 4) j small (omega arith) (λ e. ne (ap suc e)))

-- Cutting the low bit of 3, or the high bit of 2.
pub pair-and-hole_self :
    (n k c w : ℕ)
    → c < 4
    → k < n
    → pair (bit_and w (hole n k c)) k ≡ min (pair w k / 2) (c / 2) * 2 + min (pair w k % 2) (c % 2)
pair-and-hole_self zero k c w small lt = absurd (omega arith)
pair-and-hole_self (suc n) zero c w small lt = omega (arith, and-low w (ones n) c small)
pair-and-hole_self (suc n) (suc k) c w small lt =
    rw
      (let e : bit_and w (hole n k c * 4 + 3) / 4 ≡ bit_and (w / 4) (hole n k c) =
          omega (arith, and_take w (hole n k c)) in
        e)
      (pair-and-hole_self n k c (w / 4) small (omega arith))

-- A mask with a hole is the complement of one entry.
pub hole-complement : (n k c : ℕ) → c < 4 → k < n → hole n k c + (3 - c) * 4 ^ k ≡ 4 ^ n - 1
hole-complement zero k c small lt = absurd (omega arith)
hole-complement (suc n) zero c small lt = omega (arith, ones-pow n, pow-suc 4 n, one-le-pow n 4)
hole-complement (suc n) (suc k) c small lt = omega (
  arith,
  hole-complement n k c small (omega arith),
  pow-suc 4 n,
  one-le-pow n 4,
  ap (λ (t : ℕ). (3 - c) * t) (pow-suc 4 k),
)

clear_count-same :
    (n w v : ℕ) → ((j : ℕ) → j < n → pair v j ≡ pair w j) → clear_count n v ≡ clear_count n w
unfolding clear_count
clear_count-same zero w v same = refl
clear_count-same (suc n) w v same =
    ground (arith, clear_count-same n (w / 4) (v / 4) (λ j lt. same (suc j) (omega arith)), same 0)

-- A word that differs from another at one entry has the same zero entries elsewhere.
pub clear_count-change :
    (n k w v : ℕ)
    → k < n
    → ((j : ℕ) → j < n → j ≢ k → pair v j ≡ pair w j)
    → clear_count n v + (if pair w k == 0 then 1 else 0)
      ≡ clear_count n w + (if pair v k == 0 then 1 else 0)
unfolding clear_count
clear_count-change zero k w v lt same = absurd (omega arith)
clear_count-change (suc n) zero w v lt same = omega (
  arith,
  clear_count-same n (w / 4) (v / 4)
      (λ j below. same (suc j) (omega arith) (λ e. absurd (omega arith))),
)
clear_count-change (suc n) (suc k) w v lt same = ground (
  arith,
  clear_count-change n k (w / 4) (v / 4) (omega arith)
      (λ j below ne. same (suc j) (omega arith) (λ e. ne (omega arith))),
  same 0,
)

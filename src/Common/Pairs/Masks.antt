-- ===== src/Common/Pairs/Masks.antt =====
-- Masks of `m` entries from entry `b` on, and how many entries of a word are zero.
use Prim.Native.Nat.{ℕ, zero, suc, ◌+◌, ◌-◌, ◌*◌, ◌/◌, ◌%◌, ◌^◌, ◌≤◌, ◌<◌, bit_and, bit_or}
use mathlib.Core.Path.{◌≡◌, refl, ap}
use mathlib.Core.Logic.{◌≢◌}
use native.Mathlib.Omega.{arith}
use native.Mathlib.Nat.{pow-zero, pow-suc, one-le-pow, add-zero, add-suc, mul_assoc}
use windows_hammer2_dfly.Common.Tests.{if◌then◌else◌, ◌==◌}
use windows_hammer2_dfly.Common.Pairs.{and_skip, and_take, or_skip, or_take, and-zero, or-zero}

-- The entry at index `k`.
abbrev pub pair : ℕ → ℕ → ℕ
pair w zero = w % 4
pair w (suc k) = pair (w / 4) k

-- `m` entries of ones at the bottom; the same, `b` entries up.
abbrev pub ones : ℕ → ℕ
ones zero = 0
ones (suc m) = ones m * 4 + 3

abbrev pub span : ℕ → ℕ → ℕ
span m zero = ones m
span m (suc b) = span m b * 4

-- How many of the first `n` entries are zero.
unfoldable pub clear_count : ℕ → ℕ → ℕ
clear_count zero w = 0
clear_count (suc n) w = (if w % 4 == 0 then 1 else 0) + clear_count n (w / 4)

pub ones-pow : (m : ℕ) → ones m ≡ 4 ^ m - 1
ones-pow zero = refl
ones-pow (suc m) = omega (arith, ones-pow m, pow-suc 4 m, one-le-pow m 4)

pub span-pow : (m b : ℕ) → span m b ≡ (4 ^ m - 1) * 4 ^ b
span-pow m zero = omega (arith, ones-pow m)
span-pow m (suc b) = omega (arith, span-pow m b, ap (λ (t : ℕ). (4 ^ m - 1) * t) (pow-suc 4 b))

twice : (b : ℕ) → suc b * 2 ≡ suc (suc (b * 2))
twice b = omega arith

pub four_pow : (b : ℕ) → 4 ^ b ≡ 2 ^ (b * 2)
four_pow zero = refl
four_pow (suc b) = omega (
  arith,
  pow-suc 4 b,
  four_pow b,
  pow-suc 2 (suc (b * 2)),
  pow-suc 2 (b * 2),
  ap (λ (t : ℕ). 2 ^ t) (twice b),
)

pow-add : (n a b : ℕ) → n ^ (a + b) ≡ n ^ a * n ^ b
pow-add n a zero = rw (add-zero, pow-zero n) (omega arith)
pow-add n a (suc b) =
    rw (add-suc, pow-suc n (a + b), pow-suc n b, pow-add n a b) (mul_assoc (n ^ a) (n ^ b) n)

pub span-shift : (m b c : ℕ) → span m b * 2 ^ (c * 2) ≡ span m (b + c)
span-shift m b c =
    rw (span-pow m b, span-pow m (b + c), ← four_pow c, pow-add 4 b c)
      (mul_assoc (4 ^ m - 1) (4 ^ b) (4 ^ c))

pub ones-lt : (n m : ℕ) → m ≤ n → ones m < 4 ^ n
ones-lt n zero le = one-le-pow n 4 (omega arith)
ones-lt zero (suc m) le = absurd (omega arith)
ones-lt (suc n) (suc m) le = omega (arith, ones-lt n m (omega arith), pow-suc 4 n)

pub span-lt : (n m b : ℕ) → b + m ≤ n → span m b < 4 ^ n
span-lt n m zero le = ones-lt n m (omega arith)
span-lt zero m (suc b) le = absurd (omega arith)
span-lt (suc n) m (suc b) le = omega (arith, span-lt n m b (omega arith), pow-suc 4 n)

pair-ones : (m k : ℕ) → k < m → pair (ones m) k ≡ 3
pair-ones zero k lt = absurd (omega arith)
pair-ones (suc m) zero lt = omega arith
pair-ones (suc m) (suc k) lt =
    rw (let e : (ones m * 4 + 3) / 4 ≡ ones m = omega arith in e) (pair-ones m k (omega arith))

pub pair-span : (m b k : ℕ) → b ≤ k → k < b + m → pair (span m b) k ≡ 3
pair-span m zero k le lt = pair-ones m k (omega arith)
pair-span m (suc b) zero le lt = absurd (omega arith)
pair-span m (suc b) (suc k) le lt =
    rw (let e : span m b * 4 / 4 ≡ span m b = omega arith in e)
      (pair-span m b k (omega arith) (omega arith))

-- The test of a mask against a word: all entries under it are zero.
pub and-ones_clear : (m w : ℕ) → bit_and w (ones m) ≡ 0 → (k : ℕ) → k < m → pair w k ≡ 0
and-ones_clear zero w h k lt = absurd (omega arith)
and-ones_clear (suc m) w h zero lt = omega (arith, and_take w (ones m))
and-ones_clear (suc m) w h (suc k) lt =
    and-ones_clear m (w / 4) (omega (arith, and_take w (ones m))) k (omega arith)

pub and-span_clear :
    (m b w : ℕ) → bit_and w (span m b) ≡ 0 → (k : ℕ) → b ≤ k → k < b + m → pair w k ≡ 0
and-span_clear m zero w h k le lt = and-ones_clear m w h k (omega arith)
and-span_clear m (suc b) w h zero le lt = absurd (omega arith)
and-span_clear m (suc b) w h (suc k) le lt =
    and-span_clear m b (w / 4) (omega (arith, and_skip w (span m b))) k (omega arith) (omega arith)

pub and-ones_zero : (m w : ℕ) → ((k : ℕ) → k < m → pair w k ≡ 0) → bit_and w (ones m) ≡ 0
and-ones_zero zero w h = and-zero w
and-ones_zero (suc m) w h = omega (
  arith,
  and_take w (ones m),
  h 0 (omega arith),
  and-ones_zero m (w / 4) (λ k lt. h (suc k) (omega arith)),
)

pub and-span_zero :
    (m b w : ℕ) → ((k : ℕ) → b ≤ k → k < b + m → pair w k ≡ 0) → bit_and w (span m b) ≡ 0
and-span_zero m zero w h = and-ones_zero m w (λ k lt. h k (omega arith) (omega arith))
and-span_zero m (suc b) w h = omega (
  arith,
  and_skip w (span m b),
  and-span_zero m b (w / 4) (λ k le lt. h (suc k) (omega arith) (omega arith)),
)

-- Setting the entries under a mask makes them 3 and keeps the others.
or-ones_tail : (m w : ℕ) → bit_or w (ones (suc m)) / 4 ≡ bit_or (w / 4) (ones m)
or-ones_tail m w = omega (arith, or_take w (ones m))

or-span_tail : (m b w : ℕ) → bit_or w (span m (suc b)) / 4 ≡ bit_or (w / 4) (span m b)
or-span_tail m b w = omega (arith, or_skip w (span m b))

pair-or-ones_in : (m w k : ℕ) → k < m → pair (bit_or w (ones m)) k ≡ 3
pair-or-ones_in zero w k lt = absurd (omega arith)
pair-or-ones_in (suc m) w zero lt = omega (arith, or_take w (ones m))
pair-or-ones_in (suc m) w (suc k) lt =
    rw (or-ones_tail m w) (pair-or-ones_in m (w / 4) k (omega arith))

pair-or-ones_out : (m w k : ℕ) → m ≤ k → pair (bit_or w (ones m)) k ≡ pair w k
pair-or-ones_out zero w k le = rw (or-zero w)
pair-or-ones_out (suc m) w zero le = absurd (omega arith)
pair-or-ones_out (suc m) w (suc k) le =
    rw (or-ones_tail m w) (pair-or-ones_out m (w / 4) k (omega arith))

pub pair-or-span_in : (m b w k : ℕ) → b ≤ k → k < b + m → pair (bit_or w (span m b)) k ≡ 3
pair-or-span_in m zero w k le lt = pair-or-ones_in m w k (omega arith)
pair-or-span_in m (suc b) w zero le lt = absurd (omega arith)
pair-or-span_in m (suc b) w (suc k) le lt =
    rw (or-span_tail m b w) (pair-or-span_in m b (w / 4) k (omega arith) (omega arith))

pub pair-or-span_below : (m b w k : ℕ) → k < b → pair (bit_or w (span m b)) k ≡ pair w k
pair-or-span_below m zero w k lt = absurd (omega arith)
pair-or-span_below m (suc b) w zero lt = omega (arith, or_skip w (span m b))
pair-or-span_below m (suc b) w (suc k) lt =
    rw (or-span_tail m b w) (pair-or-span_below m b (w / 4) k (omega arith))

pub pair-or-span_above : (m b w k : ℕ) → b + m ≤ k → pair (bit_or w (span m b)) k ≡ pair w k
pair-or-span_above m zero w k le = pair-or-ones_out m w k (omega arith)
pair-or-span_above m (suc b) w zero le = absurd (omega arith)
pair-or-span_above m (suc b) w (suc k) le =
    rw (or-span_tail m b w) (pair-or-span_above m b (w / 4) k (omega arith))

-- Setting `m` zero entries takes `m` off the count.
clear_count-ones :
    (n m w : ℕ)
    → m ≤ n
    → bit_and w (ones m) ≡ 0
    → clear_count n (bit_or w (ones m)) + m ≡ clear_count n w
unfolding clear_count
clear_count-ones n zero w le h = rw (or-zero w) (omega arith)
clear_count-ones zero (suc m) w le h = absurd (omega arith)
clear_count-ones (suc n) (suc m) w le h =
    let rest = clear_count-ones n m (w / 4) (omega arith) (omega (arith, and_take w (ones m))) in
    rw (or-ones_tail m w) (grind (arith, rest, and_take w (ones m), or_take w (ones m)))

pub clear_count-span :
    (n m b w : ℕ)
    → b + m ≤ n
    → bit_and w (span m b) ≡ 0
    → clear_count n (bit_or w (span m b)) + m ≡ clear_count n w
unfolding clear_count
clear_count-span n m zero w le h = clear_count-ones n m w (omega arith) h
clear_count-span zero m (suc b) w le h = absurd (omega arith)
clear_count-span (suc n) m (suc b) w le h =
    let rest =
      clear_count-span n m b (w / 4) (omega arith) (omega (arith, and_skip w (span m b))) in
    rw (or-span_tail m b w) (grind (arith, rest, or_skip w (span m b)))

-- Setting an entry that is not zero keeps the count.
pub clear_count-used :
    (n b w : ℕ) → pair w b ≢ 0 → clear_count n (bit_or w (span 1 b)) ≡ clear_count n w
unfolding clear_count
clear_count-used zero b w h = refl
clear_count-used (suc n) zero w h =
    rw (or-ones_tail 0 w, or-zero (w / 4)) (grind (arith, or_take w (ones 0), h))
clear_count-used (suc n) (suc b) w h =
    let rest = clear_count-used n b (w / 4) h in
    rw (or-span_tail 1 b w) (grind (arith, rest, or_skip w (span 1 b)))

pub clear_count-le : (n w : ℕ) → clear_count n w ≤ n
unfolding clear_count
clear_count-le zero w = omega arith
clear_count-le (suc n) w = grind (arith, clear_count-le n (w / 4))

-- Setting entries that are set already changes nothing.
or-ones_absorb : (m w : ℕ) → bit_and w (ones m) ≡ ones m → bit_or w (ones m) ≡ w
or-ones_absorb zero w h = or-zero w
or-ones_absorb (suc m) w h =
    let rest = or-ones_absorb m (w / 4) (omega (arith, and_take w (ones m))) in
    omega (arith, rest, or_take w (ones m), and_take w (ones m))

pub or-span_absorb : (m b w : ℕ) → bit_and w (span m b) ≡ span m b → bit_or w (span m b) ≡ w
or-span_absorb m zero w h = or-ones_absorb m w h
or-span_absorb m (suc b) w h =
    let rest = or-span_absorb m b (w / 4) (omega (arith, and_skip w (span m b))) in
    omega (arith, rest, or_skip w (span m b))

-- ===== src/Subr/RadixSize.antt =====
-- The radix that `hammer2_getradix` finds.
use windows_hammer2_dfly.Common.{
  ℕ, zero, suc, ◌+◌, ◌-◌, ◌^◌, ◌≤◌, ◌<◌, ◌≡◌, ap, ℕ_discrete, ◌⊎◌, inl, inr, dec_lt, ok, arith,
}
use windows_hammer2_dfly.Disk.{pbuf_size, lbuf_size, alloc_min}
use windows_hammer2_dfly.Subr.Radix.{first_radix, radix_loop, getradix}

-- The smallest power of two that holds the bytes; no bytes have radix 0.
pub record IsRadix (bytes r : ℕ) : Type 0 where
  pub holds : bytes ≤ 2 ^ r
  pub least : r ≡ 0 ⊎ ((k : ℕ) × (r ≡ suc k) × (2 ^ k < bytes))

radix_loop-IsRadix :
    (left bytes r : ℕ)
    → left + r ≡ 64
    → bytes ≤ 2 ^ 63
    → 0 < left
    → r ≡ 0 ⊎ ((k : ℕ) × (r ≡ suc k) × (2 ^ k < bytes))
    → (q : ℕ) × (radix_loop left bytes r ≡ ok q) × IsRadix bytes q
unfolding radix_loop
radix_loop-IsRadix zero bytes r end fits some_left h = absurd (omega arith)
radix_loop-IsRadix (suc left) bytes r end fits some_left h = elim (dec_lt (2 ^ r) bytes) [
  | no reached ↦ (r, ground arith, record { holds = omega arith; least = h })
  | yes short ↦ elim (dec_lt 0 left) [
    | yes more ↦
        on
          (radix_loop-IsRadix left bytes (r + 1) (omega arith) fits more
            (inr (r, omega arith, short)))
          short
    | no last ↦ absurd (omega (arith, ap (λ k. 2 ^ k) (at_end last)))
  ]
]
  where
    at_end : ¬ (0 < left) → r ≡ 63
    at_end last = omega arith

    on :
        (q : ℕ) × (radix_loop left bytes (r + 1) ≡ ok q) × IsRadix bytes q
        → 2 ^ r < bytes
        → (q : ℕ) × (radix_loop (suc left) bytes r ≡ ok q) × IsRadix bytes q
    on (q, e, is) short = (q, ground arith, is)

first_radix-least :
    (bytes : ℕ) → first_radix bytes ≡ 0 ⊎ ((k : ℕ) × (first_radix bytes ≡ suc k) × (2 ^ k < bytes))
unfolding first_radix
first_radix-least bytes = elim (ℕ_discrete bytes pbuf_size) [
  | yes whole ↦ inr (15, ground arith, omega arith)
  | no partial ↦ elim (dec_lt bytes lbuf_size) [
    | no large ↦ inr (13, ground arith, omega arith)
    | yes not_large ↦ elim (dec_lt bytes alloc_min) [
      | no medium ↦ inr (9, ground arith, omega arith)
      | yes small ↦ inl (ground arith)
    ]
  ]
]

first_radix-lt : (bytes : ℕ) → first_radix bytes < 64
unfolding first_radix
first_radix-lt bytes = ground arith

-- For up to 2 ^ 63 bytes `hammer2_getradix` ends, without a shift by 64, with the smallest radix
-- whose power of two holds the bytes; for no bytes that is 0.
pub getradix-IsRadix :
    (bytes : ℕ) → bytes ≤ 2 ^ 63 → (r : ℕ) × (getradix bytes ≡ ok r) × IsRadix bytes r
unfolding getradix
getradix-IsRadix bytes fits =
    radix_loop-IsRadix (64 - first_radix bytes) bytes (first_radix bytes)
      (omega (arith, first_radix-lt bytes)) fits (omega (arith, first_radix-lt bytes))
      (first_radix-least bytes)

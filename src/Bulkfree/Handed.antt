-- ===== src/Bulkfree/Handed.antt =====
-- The storage that `hammer2_bmap_alloc` hands out is one that the callback of bulkfree records whole.
use windows_hammer2_dfly.Common.{
  ℕ, ◌+◌, ◌*◌, ◌%◌, ◌^◌, ◌≤◌, ◌≡◌, sym, subst, dec_lt, length, some, ok, arith,
}
use native.Mathlib.Nat.{one-le-pow}
use windows_hammer2_dfly.Common.Words.{high_bits, low_bits}
use windows_hammer2_dfly.Freemap.Bmap.{Bmap, Alloc, bmap_alloc}
use windows_hammer2_dfly.Freemap.Bmap.Fit.{fit}
use windows_hammer2_dfly.Freemap.Bmap.Marks.{bmap_alloc-IsMarked}
use windows_hammer2_dfly.Bulkfree.Found.{blocks_of}
use windows_hammer2_dfly.Bulkfree.Scanned.{IsReference}

-- An allocation of up to 64KB in the 4MB at `basep`, at a multiple of 64 bytes, with its radix in the
-- low bits as the freemap stores it.
bmap_alloc-IsReference :
    (radix free : ℕ) (b : Bmap) (class key basep : ℕ) (a : Alloc)
    → radix ≤ 16
    → 1 ≤ radix
    → length b.bitmapq ≡ 8
    → basep % 2 ^ 22 ≡ 0
    → basep + 2 ^ 22 ≤ 2 ^ 64
    → bmap_alloc free b class key radix basep ≡ ok (some a)
    → a.base % 64 ≡ 0
    → IsReference (a.base + radix)
bmap_alloc-IsReference radix free b class key basep a le ge words aligned room h whole =
    let f = fit radix le in
    let m = bmap_alloc-IsMarked radix free b class key basep a le words h in
    let low : low_bits (a.base + radix) 6 ≡ radix = omega arith in
    let high : high_bits (a.base + radix) 6 ≡ a.base = omega arith in
    let some_size : 1 ≤ 2 ^ radix = one-le-pow radix 2 (omega arith) in
    let base : a.base ≡ basep + m.offset = omega (arith, m.base, m.room, m.in_range, some_size) in
    let within : a.base % 2 ^ 22 + 2 ^ radix ≤ 2 ^ 22 =
      omega (arith, base, m.room, m.in_range, some_size) in
    let few : a.base % 16384 + 2 ^ radix ≤ blocks_of (2 ^ radix) * 16384 = elim (dec_lt radix 14) [
      | yes small ↦ omega (arith, base, m.covers, m.room, (f.small small).0, some_size)
      | no big ↦ omega (arith, base, m.covers, m.room, f.exact (omega arith), some_size)
    ] in
    record {
      sized = omega arith;
      packed =
          subst
            (λ (n : ℕ). high_bits (a.base + radix) 6 % 16384 + 2 ^ n ≤ blocks_of (2 ^ n) * 16384)
            (sym low)
            (subst (λ (x : ℕ). x % 16384 + 2 ^ radix ≤ blocks_of (2 ^ radix) * 16384) (sym high)
              few);
      whole =
          subst (λ (n : ℕ). high_bits (a.base + radix) 6 % 2 ^ 22 + 2 ^ n ≤ 2 ^ 22) (sym low)
            (subst (λ (x : ℕ). x % 2 ^ 22 + 2 ^ radix ≤ 2 ^ 22) (sym high) within);
    }

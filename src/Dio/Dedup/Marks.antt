-- ===== src/Dio/Dedup/Marks.antt =====
-- The bits that `hammer2_io_dedup_set` sets and `hammer2_io_dedup_delete` clears.
use windows_hammer2_dfly.Common.{
  ℕ, ◌+◌, ◌-◌, ◌*◌, ◌/◌, ◌%◌, ◌^◌, ◌≤◌, ◌<◌, ◌≡◌, refl, Bool, true, false, ◌&&◌, bit_and, bit_or,
  ltb, lt→ltb, ◌==◌, ==_iff, if◌then◌else◌, if_true, if_false, Bool-cases, ok, dec_lt, ℕ_discrete,
  inl, inr, arith,
}
use windows_hammer2_dfly.Common.Bits.{
  bit, without, bit-or, bit-without, bit-lt, bit-ones_in, bit-ones_above, and-eq-zero,
}
use windows_hammer2_dfly.Common.Words.{u32, sub64, high_bits}
use windows_hammer2_dfly.Disk.{pbuf_size, off_radix_bits}
use windows_hammer2_dfly.Dio.Types.{Dio}
use windows_hammer2_dfly.Dio.Dedup.{
  dedup_frag, ones_below, top_mask, dedup_mask, mark_dedup, clear_dedup, check_dedup,
}

-- Bytes of a buffer, from 1KB of it on.
pub record IsWithin (d : Dio) (data_off bytes : ℕ) : Type 0 where
  pub small : d.pbase + pbuf_size ≤ 2 ^ 64
  pub from : d.pbase ≤ high_bits data_off off_radix_bits
  pub to : high_bits data_off off_radix_bits + bytes ≤ d.pbase + pbuf_size
  pub some_bytes : 1 ≤ bytes
  pub whole : (high_bits data_off off_radix_bits - d.pbase) % dedup_frag ≡ 0
  pub off_small : data_off < 2 ^ 64

-- The 1KB fragment `k` of the buffer has one of the bytes.
abbrev pub touches : Dio → ℕ → ℕ → ℕ → Bool
touches d data_off bytes k =
    ltb (d.pbase + k * dedup_frag) (high_bits data_off off_radix_bits + bytes)
    && ltb (high_bits data_off off_radix_bits) (d.pbase + k * dedup_frag + dedup_frag)

module _ (d : Dio) (data_off bytes : ℕ) (w : IsWithin d data_off bytes) where
  bbeg : ℕ
  bbeg = (high_bits data_off off_radix_bits - d.pbase) / 1024

  bits : ℕ
  bits = (bytes + 1023) / 1024

  top_mask-ones : (n : ℕ) → n ≤ 64 → top_mask n ≡ ok (2 ^ n - 1)
  unfolding top_mask ones_below
  top_mask-ones n le = elim (ℕ_discrete n 64) [
    | yes e ↦ rw e refl
    | no ne ↦ let a : (n == 64) ≡ false = ground arith in rw (a, lt→ltb n 64 (omega arith)) refl
  ]

  dedup_mask_lem : dedup_mask d data_off bytes ≡ ok (without (2 ^ (bbeg + bits) - 1) (2 ^ bbeg - 1))
  unfolding dedup_mask ones_below bbeg bits
  dedup_mask_lem =
      let start : u32 (sub64 (high_bits data_off off_radix_bits) d.pbase)
          ≡ high_bits data_off off_radix_bits - d.pbase =
        omega (arith, w.small, w.from, w.to, w.some_bytes, w.off_small) in
      let size : u32 (bytes + 1023) ≡ bytes + 1023 = omega (arith, w.from, w.to) in
      let fits : (high_bits data_off off_radix_bits - d.pbase) / 1024 + (bytes + 1023) / 1024 ≤ 64 =
        omega (arith, w.from, w.to, w.whole) in
      let low : (high_bits data_off off_radix_bits - d.pbase) / 1024 < 64 =
        omega (arith, w.from, w.to, w.some_bytes) in
      let int : high_bits data_off off_radix_bits - d.pbase < 2 ^ 31 =
        omega (arith, w.to, w.some_bytes) in
      rw (start, size, lt→ltb _ _ int, top_mask-ones _ fits, lt→ltb _ _ low) refl

  mask_bit :
      (k : ℕ)
      → bit (without (2 ^ (bbeg + bits) - 1) (2 ^ bbeg - 1)) k
        ≡ (if touches d data_off bytes k then 1 else 0)
  unfolding bbeg bits
  mask_bit k =
      let from = w.from in
      let whole = w.whole in
      let split = bit-without (2 ^ (bbeg + bits) - 1) (2 ^ bbeg - 1) k in
      elim (dec_lt k bbeg) [
        | yes low ↦
            let off : touches d data_off bytes k ≡ false = ground arith in
            omega (
              arith,
              split,
              bit-ones_in bbeg k low,
              bit-ones_in (bbeg + bits) k (omega arith),
              if_false {A = ℕ} (touches d data_off bytes k) 1 0 off,
            )
        | no high ↦ elim (dec_lt k (bbeg + bits)) [
          | yes inside ↦
              let on : touches d data_off bytes k ≡ true = ground arith in
              omega (
                arith,
                split,
                bit-ones_above bbeg k (omega arith),
                bit-ones_in (bbeg + bits) k inside,
                if_true {A = ℕ} (touches d data_off bytes k) 1 0 on,
              )
          | no above ↦
              let off : touches d data_off bytes k ≡ false = ground arith in
              omega (
                arith,
                split,
                bit-ones_above (bbeg + bits) k (omega arith),
                if_false {A = ℕ} (touches d data_off bytes k) 1 0 off,
              )
        ]
      ]

  abbrev the_mask : ℕ
  the_mask = without (2 ^ (bbeg + bits) - 1) (2 ^ bbeg - 1)

  -- A bit that is set, and one that is cleared, by the mask.
  or_mask_bit :
      (a k : ℕ) → bit (bit_or a the_mask) k ≡ (if touches d data_off bytes k then 1 else bit a k)
  or_mask_bit a k =
      let some_bit = bit-lt a k in
      elim (Bool-cases (touches d data_off bytes k)) [
        | inl t ↦ omega (
          arith,
          bit-or a the_mask k,
          mask_bit k,
          if_true {A = ℕ} (touches d data_off bytes k) 1 0 t,
          if_true {A = ℕ} (touches d data_off bytes k) 1 (bit a k) t,
        )
        | inr f ↦ omega (
          arith,
          bit-or a the_mask k,
          mask_bit k,
          if_false {A = ℕ} (touches d data_off bytes k) 1 0 f,
          if_false {A = ℕ} (touches d data_off bytes k) 1 (bit a k) f,
        )
      ]

  without_mask_bit :
      (a k : ℕ) → bit (without a the_mask) k ≡ (if touches d data_off bytes k then 0 else bit a k)
  without_mask_bit a k =
      let some_bit = bit-lt a k in
      elim (Bool-cases (touches d data_off bytes k)) [
        | inl t ↦ omega (
          arith,
          bit-without a the_mask k,
          mask_bit k,
          if_true {A = ℕ} (touches d data_off bytes k) 1 0 t,
          if_true {A = ℕ} (touches d data_off bytes k) 0 (bit a k) t,
        )
        | inr f ↦ omega (
          arith,
          bit-without a the_mask k,
          mask_bit k,
          if_false {A = ℕ} (touches d data_off bytes k) 1 0 f,
          if_false {A = ℕ} (touches d data_off bytes k) 0 (bit a k) f,
        )
      ]

  clear_and_mask :
      (a : ℕ)
      → a < 2 ^ 64
      → ((k : ℕ) → touches d data_off bytes k ≡ true → bit a k ≡ 0)
      → bit_and a the_mask ≡ 0
  clear_and_mask a lt clear = and-eq-zero a the_mask 64 lt (λ k less.
      elim (Bool-cases (touches d data_off bytes k)) [
        | inl t ↦ omega (arith, clear k t)
        | inr f ↦ omega (arith, mask_bit k, if_false {A = ℕ} (touches d data_off bytes k) 1 0 f)
      ])

-- For bytes of a buffer from a whole KB of it on: the fragments of 1KB that have one of the bytes are
-- marked as allocated and not valid by `hammer2_io_dedup_set`, and as neither by
-- `hammer2_io_dedup_delete`, and the marks of the other fragments stay. The check of
-- `hammer2_io_dedup_assert` holds if none of these fragments is marked as allocated.
pub dedup-marks :
    (d : Dio) (data_off bytes : ℕ)
    → IsWithin d data_off bytes
    → d.dedup_alloc < 2 ^ 64
    → ((e : Dio) × (mark_dedup d data_off bytes ≡ ok e)
        × ((k : ℕ)
            → (bit e.dedup_alloc k
                ≡ (if touches d data_off bytes k then 1 else bit d.dedup_alloc k))
              × (bit e.dedup_valid k
                  ≡ (if touches d data_off bytes k then 0 else bit d.dedup_valid k))))
      × ((e : Dio) × (clear_dedup d data_off bytes ≡ ok e)
          × ((k : ℕ)
              → (bit e.dedup_alloc k
                  ≡ (if touches d data_off bytes k then 0 else bit d.dedup_alloc k))
                × (bit e.dedup_valid k
                    ≡ (if touches d data_off bytes k then 0 else bit d.dedup_valid k))))
      × (((k : ℕ) → touches d data_off bytes k ≡ true → bit d.dedup_alloc k ≡ 0)
          → check_dedup d data_off bytes ≡ ok d)
unfolding mark_dedup clear_dedup check_dedup
dedup-marks d data_off bytes w small =
    let mask = the_mask d data_off bytes w in
    (
      (
        record d {
          dedup_valid = without d.dedup_valid mask;
          dedup_alloc = bit_or d.dedup_alloc mask;
        },
        rw (dedup_mask_lem d data_off bytes w) refl,
        λ k. (
          or_mask_bit d data_off bytes w d.dedup_alloc k,
          without_mask_bit d data_off bytes w d.dedup_valid k,
        ),
      ),
      (
        record d {
          dedup_valid = without d.dedup_valid mask;
          dedup_alloc = without d.dedup_alloc mask;
        },
        rw (dedup_mask_lem d data_off bytes w) refl,
        λ k. (
          without_mask_bit d data_off bytes w d.dedup_alloc k,
          without_mask_bit d data_off bytes w d.dedup_valid k,
        ),
      ),
      λ clear.
          let none_set : (bit_and d.dedup_alloc mask == 0) ≡ true =
            (==_iff _ 0).1 (clear_and_mask d data_off bytes w d.dedup_alloc small clear) in
          rw (dedup_mask_lem d data_off bytes w, none_set) refl,
    )

-- ===== src/Subr/Sizes.antt =====
-- hammer2_subr.c: the logical and the physical block that holds a file offset.
use windows_hammer2_dfly.Common.{
  ℕ, zero, suc, ◌+◌, ◌-◌, ◌*◌, ◌/◌, ◌^◌, ◌≤◌, ◌<◌, ◌≡◌, ◌⊎◌, ◌&&◌, leb, if◌then◌else◌, arith,
  dec_lt, inl, inr, subst, refl,
}
use windows_hammer2_dfly.Common.Words.{u64, high_bits}
use windows_hammer2_dfly.Disk.{pbuf_radix, pbuf_size, alloc_min}

-- `*lbasep` and `*leofp` of `hammer2_calc_logical` for a file of `size` bytes, and its result.
pub record Logical : Type 0 where
  pub lbase : ℕ
  pub leof : ℕ
  pub lblksize : ℕ

unfoldable pub calc_logical : ℕ → ℕ → Logical
calc_logical size uoff = record {
  lbase = high_bits uoff pbuf_radix;
  leof = high_bits (u64 (size + (pbuf_size - 1))) pbuf_radix;
  lblksize = pbuf_size;
}

-- `while (pblksize >= eofbytes && pblksize >= HAMMER2_ALLOC_MIN) pblksize >>= 1;`, at most `left`
-- times.
unfoldable pub halve : ℕ → ℕ → ℕ → ℕ
halve zero eofbytes pblksize = pblksize
halve (suc left) eofbytes pblksize =
    let rest = halve left eofbytes (pblksize / 2) in
    if leb eofbytes pblksize && leb alloc_min pblksize then rest else pblksize

-- The loop ends: a size of 2 ^ 16 is below HAMMER2_ALLOC_MIN after seven turns.
unfoldable pub calc_physical : ℕ → ℕ → ℕ
calc_physical size lbase =
    let rest = halve 7 (size - lbase) pbuf_size in
    if leb (u64 (lbase + pbuf_size)) size then pbuf_size else if leb size lbase then 0 else rest * 2

-- `2 ^ k` is a block size that holds `bytes`, and no smaller one from HAMMER2_ALLOC_MIN on does.
pub record IsBlockFor (bytes size k : ℕ) : Type 0 where
  pub is_power : size ≡ 2 ^ k
  pub at_least : 10 ≤ k
  pub at_most : k ≤ 16
  pub covers : bytes ≤ 2 ^ k
  pub is_least : k ≡ 10 ⊎ (2 ^ (k - 1) < bytes)

halve-IsBlockFor :
    (bytes : ℕ) → bytes ≤ pbuf_size → (k : ℕ) × IsBlockFor bytes (halve 7 bytes pbuf_size * 2) k
unfolding halve
halve-IsBlockFor bytes h = elim (dec_lt 1024 bytes) [
  | no within ↦ (
    10,
    record {
      is_power = ground arith;
      at_least = omega arith;
      at_most = omega arith;
      covers = omega arith;
      is_least = inl refl;
    },
  )
  | yes above_1024 ↦ elim (dec_lt 2048 bytes) [
    | no within ↦ (
      11,
      record {
        is_power = ground arith;
        at_least = omega arith;
        at_most = omega arith;
        covers = omega arith;
        is_least = inr (omega arith);
      },
    )
    | yes above_2048 ↦ elim (dec_lt 4096 bytes) [
      | no within ↦ (
        12,
        record {
          is_power = ground arith;
          at_least = omega arith;
          at_most = omega arith;
          covers = omega arith;
          is_least = inr (omega arith);
        },
      )
      | yes above_4096 ↦ elim (dec_lt 8192 bytes) [
        | no within ↦ (
          13,
          record {
            is_power = ground arith;
            at_least = omega arith;
            at_most = omega arith;
            covers = omega arith;
            is_least = inr (omega arith);
          },
        )
        | yes above_8192 ↦ elim (dec_lt 16384 bytes) [
          | no within ↦ (
            14,
            record {
              is_power = ground arith;
              at_least = omega arith;
              at_most = omega arith;
              covers = omega arith;
              is_least = inr (omega arith);
            },
          )
          | yes above_16384 ↦ elim (dec_lt 32768 bytes) [
            | no within ↦ (
              15,
              record {
                is_power = ground arith;
                at_least = omega arith;
                at_most = omega arith;
                covers = omega arith;
                is_least = inr (omega arith);
              },
            )
            | yes above_32768 ↦ (
              16,
              record {
                is_power = ground arith;
                at_least = omega arith;
                at_most = omega arith;
                covers = omega arith;
                is_least = inr (omega arith);
              },
            )
          ]
        ]
      ]
    ]
  ]
]

-- For a block base whose block ends below 2 ^ 64, the physical size is 0 from the end of the file on
-- and HAMMER2_PBUFSIZE for a block that lies in the file; for the block that holds the end of the
-- file it is the smallest power of two from HAMMER2_ALLOC_MIN to HAMMER2_PBUFSIZE that covers the bytes
-- the file has of the block.
pub calc_physical-Covers :
    (size lbase : ℕ)
    → lbase + pbuf_size < 2 ^ 64
    → (size ≤ lbase → calc_physical size lbase ≡ 0)
      × (lbase + pbuf_size ≤ size → calc_physical size lbase ≡ pbuf_size)
      × (lbase < size
          → size < lbase + pbuf_size
          → (k : ℕ) × IsBlockFor (size - lbase) (calc_physical size lbase) k)
unfolding calc_physical
calc_physical-Covers size lbase small = (
  (λ past. ground arith),
  (λ inside. ground arith),
  λ begun cut.
      subst (λ p. (k : ℕ) × IsBlockFor (size - lbase) p k) (ground arith)
        (halve-IsBlockFor (size - lbase) (omega arith)),
)

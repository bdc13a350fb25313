-- ===== src/Bulkfree/Found.antt =====
-- What the callback records: the blocks of a reference, and no others.
use windows_hammer2_dfly.Common.{
  ℕ, zero, suc, ◌+◌, ◌-◌, ◌*◌, ◌/◌, ◌%◌, ◌^◌, ◌≤◌, ◌<◌, bit_and, bit_or, ◌≡◌, ◌≢◌, refl, sym, ◌∙◌,
  ◌⊎◌, inl, inr, Bool, true, false, ◌&&◌, ◌==◌, ltb, leb, if◌then◌else◌, length, length-set, get_or,
  set, get_or-set_self, get_or-set_ne, subst, Bool-cases, ℕ_discrete, dec_lt, ok, arith,
}
use windows_hammer2_dfly.Common.Pairs.Masks.{
  pair, span, pair-or-span_in, pair-or-span_below, pair-or-span_above, and-span_zero,
}
use windows_hammer2_dfly.Freemap.Bmap.{Bmap}
use windows_hammer2_dfly.Freemap.Bmap.Marks.{state}
use windows_hammer2_dfly.Bulkfree.Turn.{used_mask}
use windows_hammer2_dfly.Bulkfree.Record.{record_block, record_blocks}

-- A bitmap in memory knows only free (0) and found (3).
pub record IsCollected (b : Bmap) : Type 0 where
  pub words : length b.bitmapq ≡ 8
  pub known : (n : ℕ) → n < 256 → (state b n ≡ 0) ⊎ (state b n ≡ 3)

-- `count` blocks from `first` on are found in `b'`, and the others are as in `b`.
pub record IsFound (first count : ℕ) (b b' : Bmap) : Type 0 where
  pub words : length b'.bitmapq ≡ 8
  pub states :
      (n : ℕ)
      → n < 256
      → state b' n ≡ (if leb first n && ltb n (first + count) then 3 else state b n)

pair-or_one : (w k j : ℕ) → pair (bit_or w (span 1 k)) j ≡ (if j == k then 3 else pair w j)
pair-or_one w k j = elim (ℕ_discrete j k) [
  | yes e ↦ rw e (pair-or-span_in 1 k w k (omega arith) (omega arith) ∙ ground arith)
  | no ne ↦ elim (dec_lt j k) [
    | yes p ↦ pair-or-span_below 1 k w j p ∙ ground arith
    | no np ↦ pair-or-span_above 1 k w j (omega arith) ∙ ground arith
  ]
]

pair_and_one : (w k : ℕ) → (bit_and w (span 1 k) == 0) ≡ false → pair w k ≢ 0
pair_and_one w k used free =
    let clear =
      and-span_zero 1 k w
        (λ j le lt. subst (λ i. pair w i ≡ 0) (let e : k ≡ j = omega arith in e) free) in
    ground arith

module _ (off : ℕ) (b : Bmap) (c : IsCollected b) (inside : off < 2 ^ 22) where
  i : ℕ
  i = off / 2 ^ 19

  k : ℕ
  k = off % 2 ^ 19 / 2 ^ 14

  word-set :
      (n : ℕ)
      → n < 256
      → pair
          (get_or (set b.bitmapq i (bit_or (get_or b.bitmapq i 0) (span 1 k))) (n / 32) 0)
          (n % 32)
        ≡ (if leb (off / 16384) n && ltb n (off / 16384 + 1) then 3 else state b n)
  unfolding i k
  word-set n lt = elim (ℕ_discrete (n / 32) i) [
    | yes here ↦
        rw
          (
            here,
            get_or-set_self b.bitmapq i (bit_or (get_or b.bitmapq i 0) (span 1 k)) 0
                (omega (arith, c.words)),
          )
          (pair-or_one (get_or b.bitmapq i 0) k (n % 32) ∙ ground arith)
    | no ne ↦
        rw
          (get_or-set_ne b.bitmapq i (n / 32) (bit_or (get_or b.bitmapq i 0) (span 1 k)) 0
            (λ e. ne (sym e)))
          (ground arith)
  ]

  record_block-IsFound : (bytes : ℕ) → IsFound (off / 16384) 1 b (record_block bytes off b)
  unfolding i k record_block
  record_block-IsFound bytes = elim (Bool-cases (bit_and (get_or b.bitmapq i 0) (span 1 k) == 0)) [
    | inl clear ↦
        rw (used_mask k (omega arith), clear)
          (record { words = length-set b.bitmapq _ _ ∙ c.words; states = word-set })
    | inr used ↦
        rw (used_mask k (omega arith), used)
          (record { words = c.words; states = λ n lt. already used n lt })
  ]
    where
      found :
          (bit_and (get_or b.bitmapq i 0) (span 1 k) == 0) ≡ false
          → (n : ℕ) → n < 256
          → n ≡ off / 16384
          → state b n ≡ 3
      found used n lt e = elim (c.known n lt) [
        | inl free ↦ absurd (
            pair_and_one (get_or b.bitmapq i 0) k used (
              rw
                (
                  let h : n / 32 ≡ off / 2 ^ 19 = omega arith in h,
                  let h : n % 32 ≡ off % 2 ^ 19 / 2 ^ 14 = omega arith in h,
                )
                at free))
        | inr three ↦ three
      ]

      already :
          (bit_and (get_or b.bitmapq i 0) (span 1 k) == 0) ≡ false
          → (n : ℕ) → n < 256
          → state b n ≡ (if leb (off / 16384) n && ltb n (off / 16384 + 1) then 3 else state b n)
      already used n lt = elim (ℕ_discrete n (off / 16384)) [
        | yes e ↦ let three = found used n lt e in ground arith
        | no ne ↦ ground arith
      ]

pub IsFound-IsCollected :
    (first count : ℕ) (b b' : Bmap) → IsCollected b → IsFound first count b b' → IsCollected b'
IsFound-IsCollected first count b b' c f = record {
  words = f.words;
  known = λ n lt. rw (f.states n lt) (either (leb first n && ltb n (first + count)) (c.known n lt));
}
  where
    either :
        {x : ℕ}
        → (t : Bool) → (x ≡ 0) ⊎ (x ≡ 3)
        → ((if t then 3 else x) ≡ 0) ⊎ ((if t then 3 else x) ≡ 3)
    either true h = inr refl
    either false h = h

-- The turns of `n` bytes.
abbrev pub blocks_of : ℕ → ℕ
blocks_of bytes = (bytes + 16383) / 16384

-- One block, and then the others.
IsFound-cons :
    (first count : ℕ) (b mid b' : Bmap)
    → IsFound first 1 b mid
    → IsFound (first + 1) count mid b'
    → IsFound first (suc count) b b'
IsFound-cons first count b mid b' f g = record {
  words = g.words;
  states = λ n lt. g.states n lt ∙ rw (f.states n lt) (ground arith);
}

-- The loop ends within its turns.
pub record_blocks-IsFound :
    (left bytes off : ℕ) (b : Bmap)
    → IsCollected b
    → bytes ≤ left * 16384
    → (0 < bytes → off + bytes ≤ 2 ^ 22)
    → (b' : Bmap) × (record_blocks left bytes off b ≡ ok b')
      × IsFound (off / 16384) (blocks_of bytes) b b'
unfolding record_blocks
record_blocks-IsFound zero bytes off b c enough inside =
    (b, ground arith, record { words = c.words; states = λ n lt. ground arith })
record_blocks-IsFound (suc left) bytes off b c enough inside = elim (ℕ_discrete bytes 0) [
  | yes e ↦ (b, ground arith, record { words = c.words; states = λ n lt. ground arith })
  | no ne ↦
      let f = record_block-IsFound off b c (omega (arith, inside (omega arith))) bytes in
      let (b', returned, g) =
        record_blocks-IsFound left (bytes - 16384) (off + 16384) (record_block bytes off b)
          (IsFound-IsCollected (off / 16384) 1 b _ c f) (omega arith)
          (λ more. omega (arith, inside (omega arith))) in
      (b', ground (arith, returned), joined f g ne)
]
  where
    joined :
        {mid b' : Bmap}
        → IsFound (off / 16384) 1 b mid
        → IsFound ((off + 16384) / 16384) (blocks_of (bytes - 16384)) mid b'
        → ¬ (bytes ≡ 0)
        → IsFound (off / 16384) (blocks_of bytes) b b'
    joined {mid} {b'} f g ne =
        rw (let e : blocks_of bytes ≡ suc (blocks_of (bytes - 16384)) = omega arith in e) (
          IsFound-cons (off / 16384) (blocks_of (bytes - 16384)) b mid b' f
            (rw (let e : (off + 16384) / 16384 ≡ off / 16384 + 1 = omega arith in e) at g))

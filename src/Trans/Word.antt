-- ===== src/Trans/Word.antt =====
-- The word of a pmp's transactions: its bits, and an addition below the carry.
use windows_hammer2_dfly.Common.{
  ℕ, ◌+◌, ◌*◌, ◌/◌, ◌%◌, ◌^◌, ◌≤◌, ◌<◌, ◌≡◌, Bool, true, false, if◌then◌else◌, arith,
}
use windows_hammer2_dfly.Common.Words.{u32}
use windows_hammer2_dfly.Trans.{
  TransFlags, Trans, with_flags, bit_value, word_of, has_bit, of_word, counted_in,
}

-- The value of a bit.
digit : Bool → ℕ
digit b = if b then 1 else 0

digit-le : (b : Bool) → digit b ≤ 1
unfolding digit
digit-le b = ground arith

bit_value-digit : (b : Bool) (n : ℕ) → bit_value b n ≡ digit b * n
unfolding digit
bit_value-digit true n = omega arith
bit_value-digit false n = omega arith

has_bit-digit : (w n : ℕ) (b : Bool) → w / n % 2 ≡ digit b → has_bit w n ≡ b
unfolding digit
has_bit-digit w n true e = ground arith
has_bit-digit w n false e = ground arith

-- The word and its digits.
module _ (t : Trans) (small : t.count + 1 < 2 ^ 26) where
  word : ℕ
  word = u32 (word_of t + 1)

  word-digits :
      word
      ≡ digit t.flags.isflush * 2 ^ 31
        + digit t.flags.bufcache * 2 ^ 30
        + digit t.flags.sideq * 2 ^ 29
        + digit t.spare * 2 ^ 28
        + digit t.flags.waiting * 2 ^ 27
        + digit t.flags.rescan * 2 ^ 26
        + (t.count + 1)
  unfolding word word_of
  word-digits = omega (
    arith,
    small,
    bit_value-digit t.flags.isflush (2 ^ 31),
    bit_value-digit t.flags.bufcache (2 ^ 30),
    bit_value-digit t.flags.sideq (2 ^ 29),
    bit_value-digit t.spare (2 ^ 28),
    bit_value-digit t.flags.waiting (2 ^ 27),
    bit_value-digit t.flags.rescan (2 ^ 26),
    digit-le t.flags.isflush,
    digit-le t.flags.bufcache,
    digit-le t.flags.sideq,
    digit-le t.spare,
    digit-le t.flags.waiting,
    digit-le t.flags.rescan,
  )

  bits :
      (word / 2 ^ 31 % 2 ≡ digit t.flags.isflush)
      × (word / 2 ^ 30 % 2 ≡ digit t.flags.bufcache)
      × (word / 2 ^ 29 % 2 ≡ digit t.flags.sideq)
      × (word / 2 ^ 28 % 2 ≡ digit t.spare)
      × (word / 2 ^ 27 % 2 ≡ digit t.flags.waiting)
      × (word / 2 ^ 26 % 2 ≡ digit t.flags.rescan)
      × (word % 2 ^ 26 ≡ t.count + 1)
  bits =
      let e = word-digits in
      let l5 = digit-le t.flags.isflush in
      let l4 = digit-le t.flags.bufcache in
      let l3 = digit-le t.flags.sideq in
      let l2 = digit-le t.spare in
      let l1 = digit-le t.flags.waiting in
      let l0 = digit-le t.flags.rescan in
      (omega arith, omega arith, omega arith, omega arith, omega arith, omega arith, omega arith)

  of_word-next : of_word word ≡ record t { count = t.count + 1 }
  unfolding of_word
  of_word-next =
      let (b31, b30, b29, b28, b27, b26, low) = bits in
      λ i. record {
        flags = record {
          isflush = has_bit-digit word (2 ^ 31) t.flags.isflush b31 i;
          bufcache = has_bit-digit word (2 ^ 30) t.flags.bufcache b30 i;
          sideq = has_bit-digit word (2 ^ 29) t.flags.sideq b29 i;
          waiting = has_bit-digit word (2 ^ 27) t.flags.waiting b27 i;
          rescan = has_bit-digit word (2 ^ 26) t.flags.rescan b26 i;
        };
        spare = has_bit-digit word (2 ^ 28) t.spare b28 i;
        count = low i;
      }

-- Below the carry, the count is one more and the flags are those of the word and the transaction.
pub counted_in-below :
    (t : Trans) (f : TransFlags)
    → t.count + 1 < 2 ^ 26
    → counted_in t f ≡ record t { flags = with_flags t.flags f; count = t.count + 1 }
unfolding counted_in word
counted_in-below t f small = of_word-next (record t { flags = with_flags t.flags f }) small

-- ===== src/Trans.antt =====
-- The transactions of hammer2_flush.c: `hammer2_trans_init`, `_done`, `_setflags`, `_clearflags`,
-- `_sub` and `_newinum`.
pub mod System
pub mod Word
pub mod Safety
use windows_hammer2_dfly.Common.{
  ℕ, ◌+◌, ◌-◌, ◌/◌, ◌%◌, ◌^◌, Bool, true, false, not, ◌&&◌, ◌||◌, ◌==◌, if◌then◌else◌, Checked, ok,
  ◌>>=◌, ◌>>◌, assert,
}
use windows_hammer2_dfly.Common.Words.{u32, u64}

-- HAMMER2_TRANS_ISFLUSH, _BUFCACHE, _SIDEQ, _WAITING and _RESCAN.
pub record TransFlags : Type 0 where
  pub isflush : Bool
  pub bufcache : Bool
  pub sideq : Bool
  pub waiting : Bool
  pub rescan : Bool

-- `pmp->trans.flags`: the flags, and the bits below them, which count the transactions.
-- HAMMER2_TRANS_MASK has the low 24 bits; bits 24 and 25 take their carry, and bit 28 that of WAITING.
pub record Trans : Type 0 where
  pub flags : TransFlags
  pub spare : Bool
  pub count : ℕ

-- a | b and a & ~b
abbrev pub with_flags : TransFlags → TransFlags → TransFlags
with_flags a b = record {
  isflush = a.isflush || b.isflush;
  bufcache = a.bufcache || b.bufcache;
  sideq = a.sideq || b.sideq;
  waiting = a.waiting || b.waiting;
  rescan = a.rescan || b.rescan;
}

abbrev pub without_flags : TransFlags → TransFlags → TransFlags
without_flags a b = record {
  isflush = a.isflush && not b.isflush;
  bufcache = a.bufcache && not b.bufcache;
  sideq = a.sideq && not b.sideq;
  waiting = a.waiting && not b.waiting;
  rescan = a.rescan && not b.rescan;
}

-- One pass of the loop of `hammer2_trans_init`: in, or asleep until a wakeup.
pub data Entry : Type 0 where
  entered : Trans → Entry
  asleep : Trans → Entry

-- The word, from the highest bit on, and what a word says.
abbrev pub bit_value : Bool → ℕ → ℕ
bit_value b n = if b then n else 0

unfoldable pub word_of : Trans → ℕ
word_of t =
    bit_value t.flags.isflush (2 ^ 31)
    + bit_value t.flags.bufcache (2 ^ 30)
    + bit_value t.flags.sideq (2 ^ 29)
    + bit_value t.spare (2 ^ 28)
    + bit_value t.flags.waiting (2 ^ 27)
    + bit_value t.flags.rescan (2 ^ 26)
    + t.count

abbrev pub has_bit : ℕ → ℕ → Bool
has_bit w n = w / n % 2 == 1

unfoldable pub of_word : ℕ → Trans
of_word w = record {
  flags = record {
    isflush = has_bit w (2 ^ 31);
    bufcache = has_bit w (2 ^ 30);
    sideq = has_bit w (2 ^ 29);
    waiting = has_bit w (2 ^ 27);
    rescan = has_bit w (2 ^ 26);
  };
  spare = has_bit w (2 ^ 28);
  count = w % 2 ^ 26;
}

-- (oflags | flags) + 1, with the carry of the addition.
unfoldable pub counted_in : Trans → TransFlags → Trans
counted_in t f = of_word (u32 (word_of (record t { flags = with_flags t.flags f }) + 1))

unfoldable pub trans_init : Trans → TransFlags → Entry
trans_init t f =
    if f.isflush
    then (if t.flags.isflush
        then asleep (record t { flags = record (t.flags) { waiting = true } })
        else entered (counted_in t f))
    else if f.bufcache
    then entered (counted_in t f)
    else entered (counted_in t f)

unfoldable pub trans_setflags : Trans → TransFlags → Trans
trans_setflags t f = record t { flags = with_flags t.flags f }

-- The word, and whether the waiters are woken: (oflags ^ nflags) & HAMMER2_TRANS_WAITING.
abbrev pub woken : TransFlags → TransFlags → Bool
woken before after = if before.waiting then not after.waiting else after.waiting

unfoldable pub trans_clearflags : Trans → TransFlags → Trans × Bool
trans_clearflags t f =
    let after = without_flags t.flags f in (record t { flags = after }, woken t.flags after)

-- Both ends of waiting: the flush transaction is done, or one other transaction is left beside it.
unfoldable pub done_flags : Trans → TransFlags → TransFlags
done_flags t f =
    let cleared = without_flags t.flags f in
    if f.isflush || (t.flags.isflush && t.count % 2 ^ 24 == 2)
    then record cleared { waiting = false }
    else cleared

unfoldable pub trans_done : Trans → TransFlags → Checked (Trans × Bool)
trans_done t f = do
  assert (not (t.count % 2 ^ 24 == 0))
  ok (record t { flags = done_flags t f; count = t.count - 1 }, woken t.flags (done_flags t f))

-- atomic_fetchadd_64 of `pmp->modify_tid` and of `pmp->inode_tid`: the id and the next one.
unfoldable pub trans_sub : ℕ → ℕ × ℕ
trans_sub modify_tid = (modify_tid, u64 (modify_tid + 1))

unfoldable pub trans_newinum : ℕ → ℕ × ℕ
trans_newinum inode_tid = (inode_tid, u64 (inode_tid + 1))

-- ===== src/Dio/Types.antt =====
-- The state of hammer2_io.c: `struct hammer2_io`, the hash of the buffers of a device, and
-- `hammer2_io_hash_lookup`, `hammer2_io_hash_enter` and `hammer2_io_alloc`.
use windows_hammer2_dfly.Common.{
  ℕ, suc, ◌+◌, ◌-◌, ◌/◌, ◌%◌, ◌^◌, Bool, true, false, not, ◌&&◌, Option, none, some, List, [], ◌∷◌,
  ltb, ◌==◌, if◌then◌else◌, Checked, ok, ◌>>=◌, ◌>>◌, assert,
}
use windows_hammer2_dfly.Common.Int.{ℤ, dec}
use windows_hammer2_dfly.Common.Words.{u32, sub64, low_bits, high_bits}
use windows_hammer2_dfly.Disk.{pbuf_radix, level1_radix, off_radix_bits}
use windows_hammer2_dfly.Ondisk.Types.{Devvp, Volume}
use windows_hammer2_dfly.Ondisk.Volumes.{get_volume}

-- `refs` is the count in HAMMER2_DIO_MASK; the three flags above it are fields of their own. The
-- size is always HAMMER2_PBUFSIZE, `bh` always NULL, and `error` the number behind the minus sign.
-- `data` is the private buffer, as the byte at each of its offsets.
pub record Dio : Type 0 where
  pub refs : ℕ
  pub good : Bool
  pub dirty : Bool
  pub flush : Bool
  pub content : Option (ℕ → ℕ)
  pub bdev : ℕ
  pub dbase : ℕ
  pub pbase : ℕ
  pub btype : ℕ
  pub act : ℕ
  pub ticks : ℕ
  pub error : ℕ
  pub dedup_valid : ℕ
  pub dedup_alloc : ℕ

-- What hammer2_io.c uses of `struct hammer2_dev`; `media` is the byte at an offset of a device, as
-- the host's block cache has it, and `locked` how many times this thread holds `iohash_lock`.
pub record IoDev : Type 0 where
  pub iohash : ℕ → List Dio
  pub iofree_count : ℤ
  pub io_iterator : ℕ
  pub locked : ℕ
  pub nvolumes : ℕ
  pub volumes : List Volume
  pub media : ℕ → ℕ → ℕ

-- HAMMER2_IOHASH_SIZE
abbrev pub iohash_size : ℕ
iohash_size = 32768

-- pbase of an offset with its radix: `lbase & pmask`
abbrev pub pbase_of : ℕ → ℕ
pbase_of data_off = high_bits data_off pbuf_radix

-- `hammer2_io_hashv`: the sum of int wraps.
unfoldable pub hashv : ℕ → ℕ
hashv pbase = u32 (u32 pbase + u32 (pbase / 2 ^ 16)) % iohash_size

-- A chain of the hash: the first buffer of a base, the write through a pointer to it, and the
-- chain with a new one at its end.
unfoldable pub find_dio : ℕ → List Dio → Option Dio
find_dio pbase [] = none
find_dio pbase (d ∷ ds) = if d.pbase == pbase then some d else find_dio pbase ds

unfoldable pub write_dio : Dio → List Dio → List Dio
write_dio e [] = []
write_dio e (d ∷ ds) = if d.pbase == e.pbase then e ∷ ds else d ∷ write_dio e ds

unfoldable pub append_dio : Dio → List Dio → List Dio
append_dio e [] = e ∷ []
append_dio e (d ∷ ds) = d ∷ append_dio e ds

abbrev pub with_chain : ℕ → List Dio → (ℕ → List Dio) → ℕ → List Dio
with_chain h ds iohash i = if i == h then ds else iohash i

-- A buffer in the hash is the target of a pointer; its base names it.
unfoldable pub lookup : ℕ → IoDev → Option Dio
lookup pbase s = find_dio pbase (s.iohash (hashv pbase))

unfoldable pub store : Dio → IoDev → IoDev
store d s = record s {
  iohash = with_chain (hashv d.pbase) (write_dio d (s.iohash (hashv d.pbase))) s.iohash;
}

-- hammer2_mtx_ex and hammer2_mtx_unlock on `iohash_lock`: a CRITICAL_SECTION is recursive, so that a
-- thread that holds it enters it once more.
abbrev pub lock_hash : IoDev → IoDev
lock_hash s = record s { locked = s.locked + 1 }

unfoldable pub unlock_hash : IoDev → IoDev
unlock_hash s = record s { locked = s.locked - 1 }

-- `refs++`, after which a free buffer is none of the free ones.
unfoldable pub add_reference : Dio → IoDev → Dio × IoDev
add_reference d s =
    let e = record d { refs = d.refs + 1 } in
    (e, store e (if d.refs == 0 then record s { iofree_count = dec s.iofree_count } else s))

unfoldable pub hash_lookup : ℕ → IoDev → Option Dio × IoDev
hash_lookup pbase s = elim (lookup pbase s) [
  | none ↦ (none, s)
  | some d ↦ let (e, t) = add_reference d s in (some e, t)
]

unfoldable pub hash_enter : Dio → IoDev → Option Dio × IoDev
hash_enter d s = elim (lookup d.pbase s) [
  | none ↦ (
    none,
    record s {
      iohash = with_chain (hashv d.pbase) (append_dio d (s.iohash (hashv d.pbase))) s.iohash;
    },
  )
  | some x ↦ let (e, t) = add_reference x s in (some e, t)
]

-- The device that a volume is on; 0 for none.
abbrev pub bdev_number : Option Devvp → ℕ
bdev_number none = 0
bdev_number (some e) = elim e.bdev [ none ↦ 0 | some bdev ↦ suc bdev ]

unfoldable pub new_dio : Volume → ℕ → ℕ → Dio
new_dio v pbase btype = record {
  refs = 1;
  good = false;
  dirty = false;
  flush = false;
  content = none;
  bdev = bdev_number v.dev;
  dbase = v.offset;
  pbase = pbase;
  btype = btype;
  act = 5;
  ticks = 0;
  error = 0;
  dedup_valid = 0;
  dedup_alloc = 0;
}

-- The activity of a buffer that is used.
unfoldable pub touch : ℕ → Dio → Dio
touch now d = record d { ticks = now; act = if ltb d.act 10 then d.act + 1 else d.act }

-- lsize, or a shift of an int by its width or more
unfoldable pub lsize_of : ℕ → Checked ℕ
lsize_of data_off =
    let radix = low_bits data_off off_radix_bits in
    if radix == 0 then ok 0 else assert (ltb radix 31) >> ok (2 ^ radix)

-- Touched, asserted to have references, and written.
unfoldable pub finish_alloc : ℕ → Dio → IoDev → Checked (Option Dio × IoDev)
finish_alloc now d s = let e = touch now d in assert (not (e.refs == 0)) >> ok (some e, store e s)

-- The new buffer, or the one that stands in its place.
abbrev pub after_enter : ℕ → Dio → Option Dio × IoDev → Checked (Option Dio × IoDev)
after_enter now d (none, t) = finish_alloc now d t
after_enter now d (some x, t) = finish_alloc now x t

unfoldable pub create_dio : ℕ → IoDev → ℕ → ℕ → Checked (Option Dio × IoDev)
create_dio now s pbase btype = get_volume s.nvolumes s.volumes pbase >>= λ v.
    assert (low_bits v.offset level1_radix == 0)
    >> (let d = new_dio v pbase btype in after_enter now d (hash_enter d s))

abbrev pub after_lookup : ℕ → ℕ → ℕ → Bool → Option Dio × IoDev → Checked (Option Dio × IoDev)
after_lookup now pbase btype createit (some d, t) = finish_alloc now d t
after_lookup now pbase btype true (none, t) = create_dio now t pbase btype
after_lookup now pbase btype false (none, t) = ok (none, t)

-- `hammer2_io_alloc` at the time `now`.
unfoldable pub io_alloc : ℕ → IoDev → ℕ → ℕ → Bool → Checked (Option Dio × IoDev)
io_alloc now s data_off btype createit = do
  assert (not (s.locked == 0))
  lsize ← lsize_of data_off
  let lbase = high_bits data_off off_radix_bits
  let pbase = pbase_of lbase
  assert (not (pbase == 0) && pbase_of (sub64 (lbase + lsize) 1) == pbase)
  after_lookup now pbase btype createit (hash_lookup pbase s)

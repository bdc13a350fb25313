-- ===== src/Dio/Dedup.antt =====
-- The deduplication masks of a buffer: `hammer2_dedup_mask`, `hammer2_io_dedup_set`, `_delete` and
-- `_assert`.
pub mod Marks
use windows_hammer2_dfly.Common.{
  ℕ, ◌+◌, ◌-◌, ◌/◌, ◌^◌, Bool, true, false, not, ◌||◌, bit_and, bit_or, Option, none, some, ltb,
  ◌==◌, if◌then◌else◌, Checked, ok, panic, ◌>>=◌, ◌>>◌, assert,
}
use windows_hammer2_dfly.Common.Bits.{without}
use windows_hammer2_dfly.Common.Words.{u32, u64, sub64, high_bits}
use windows_hammer2_dfly.Disk.{pbuf_size, off_radix_bits}
use windows_hammer2_dfly.Dio.Types.{Dio, IoDev, lsize_of, lock_hash, unlock_hash, io_alloc, store}
use windows_hammer2_dfly.Dio.Pages.{Host}
use windows_hammer2_dfly.Dio.Put.{putblk}

-- HAMMER2_DEDUP_FRAG and HAMMER2_DEDUP_FRAGRADIX: a bit stands for 1KB of the buffer.
abbrev pub dedup_frag : ℕ
dedup_frag = 1024

abbrev pub dedup_fragradix : ℕ
dedup_fragradix = 10

-- The mask of the bits below `n`; a shift by the width or more is undefined.
unfoldable pub ones_below : ℕ → Checked ℕ
ones_below n = assert (ltb n 64) >> ok (2 ^ n - 1)

unfoldable pub top_mask : ℕ → Checked ℕ
top_mask end = if end == 64 then ok (2 ^ 64 - 1) else ones_below end

-- `hammer2_dedup_mask`. The shift to the right of a negative int is taken for undefined.
unfoldable pub dedup_mask : Dio → ℕ → ℕ → Checked ℕ
dedup_mask d data_off bytes = do
  let start = u32 (sub64 (high_bits data_off off_radix_bits) d.pbase)
  assert (ltb start (2 ^ 31))
  let bbeg = start / 2 ^ dedup_fragradix
  let bits = u32 (bytes + (dedup_frag - 1)) / 2 ^ dedup_fragradix
  mask ← top_mask (bbeg + bits)
  low ← ones_below bbeg
  ok (without mask low)

unfoldable pub mark_dedup : Dio → ℕ → ℕ → Checked Dio
mark_dedup d data_off bytes = dedup_mask d data_off bytes >>= λ mask.
    ok (record d {
      dedup_valid = without d.dedup_valid mask;
      dedup_alloc = bit_or d.dedup_alloc mask;
    })

unfoldable pub clear_dedup : Dio → ℕ → ℕ → Checked Dio
clear_dedup d data_off bytes = dedup_mask d data_off bytes >>= λ mask. ok (record d {
  dedup_alloc = without d.dedup_alloc mask;
  dedup_valid = without d.dedup_valid mask;
})

unfoldable pub check_dedup : Dio → ℕ → ℕ → Checked Dio
check_dedup d data_off bytes =
    dedup_mask d data_off bytes >>= λ mask. assert (bit_and d.dedup_alloc mask == 0) >> ok d

-- HAMMER2_BREF_TYPE_DATA
abbrev pub bref_type_data : ℕ
bref_type_data = 3

-- The buffer that was found, changed, and its reference dropped.
abbrev pub put_changed : Host → ℕ → ℕ → (Dio → Checked Dio) → Option Dio × IoDev → Checked IoDev
put_changed h now limit change (none, s) = ok (unlock_hash s)
put_changed h now limit change (some d, s) =
    change d >>= λ e. putblk h now limit (store e (unlock_hash s)) e.pbase

abbrev pub is_none : Option Dio × IoDev → Bool
is_none (none, s) = true
is_none (some d, s) = false

-- `hammer2_io_dedup_set` of a blockref's offset and type.
unfoldable pub io_dedup_set : Host → ℕ → ℕ → IoDev → ℕ → ℕ → Checked IoDev
io_dedup_set h now limit s data_off btype = do
  found ← io_alloc now (lock_hash s) data_off btype true
  assert (not (is_none found))
  lsize ← lsize_of data_off
  put_changed h now limit (λ d. mark_dedup d data_off lsize) found

-- The bytes lie in the buffer, or hpanic.
unfoldable pub delete_in : ℕ → ℕ → Dio → Checked Dio
delete_in data_off bytes d =
    assert (
      not (
        ltb data_off d.pbase
        || ltb (u64 (d.pbase + pbuf_size)) (u64 (high_bits data_off off_radix_bits + bytes))))
    >> clear_dedup d data_off bytes

unfoldable pub io_dedup_delete : Host → ℕ → ℕ → IoDev → ℕ → ℕ → ℕ → Checked IoDev
io_dedup_delete h now limit s btype data_off bytes =
    if high_bits data_off off_radix_bits == 0
    then ok s
    else if not (btype == bref_type_data)
    then ok s
    else (io_alloc now (lock_hash s) data_off btype false >>= λ found.
        put_changed h now limit (delete_in data_off bytes) found)

unfoldable pub io_dedup_assert : Host → ℕ → ℕ → IoDev → ℕ → ℕ → Checked IoDev
io_dedup_assert h now limit s data_off bytes = do
  found ← io_alloc now (lock_hash s) data_off bref_type_data false
  put_changed h now limit (λ d. check_dedup d data_off bytes) found

-- ===== src/Dio/Get.antt =====
-- `hammer2_io_getblk` and the calls of it.
use windows_hammer2_dfly.Common.{
  ℕ, ◌^◌, Bool, true, false, ◌&&◌, Option, none, some, ltb, ◌==◌, Checked, ok, panic, ◌>>=◌, ◌>>◌,
  assert,
}
use windows_hammer2_dfly.Common.Words.{low_bits}
use windows_hammer2_dfly.Disk.{off_radix_bits}
use windows_hammer2_dfly.Dio.Types.{Dio, IoDev, lock_hash, unlock_hash, io_alloc, store}
use windows_hammer2_dfly.Dio.Pages.{Host}
use windows_hammer2_dfly.Dio.Buffer.{Op, read, new, newnz, readq, fill}

-- A quick read creates no buffer, and goes on as a read.
abbrev pub op_creates : Op → Bool
op_creates readq = false
op_creates read = true
op_creates new = true
op_creates newnz = true

abbrev pub effective : Op → Op
effective readq = read
effective read = read
effective new = new
effective newnz = newnz

-- The return without a buffer of a quick read does not unlock `iohash_lock`.
unfoldable pub missed : Op → IoDev → Checked (Option Dio × IoDev)
missed readq s = ok (none, s)
missed read s = panic
missed new s = panic
missed newnz s = panic

unfoldable pub fill_found : Host → IoDev → Dio → ℕ → ℕ → Op → Checked (Option Dio × IoDev)
fill_found h s d lbase lsize op =
    fill h s.media d lbase lsize (effective op) >>= λ e. ok (some e, store e s)

abbrev pub with_found : Host → ℕ → ℕ → Op → Option Dio × IoDev → Checked (Option Dio × IoDev)
with_found h lbase lsize op (none, u) = missed op u
with_found h lbase lsize op (some d, u) = fill_found h (unlock_hash u) d lbase lsize op

unfoldable pub getblk : Host → ℕ → IoDev → ℕ → ℕ → ℕ → Op → Checked (Option Dio × IoDev)
getblk h now s btype lbase lsize op = do
  assert (ltb (low_bits lbase off_radix_bits) 31 && 2 ^ low_bits lbase off_radix_bits == lsize)
  found ← io_alloc now (lock_hash s) lbase btype (op_creates op)
  with_found h lbase lsize op found

-- `hammer2_io_new`, `_newnz` and `_bread`: the error, with the buffer.
unfoldable pub result_of : Option Dio × IoDev → Checked (ℕ × Option Dio × IoDev)
result_of (none, s) = panic
result_of (some d, s) = ok (d.error, some d, s)

unfoldable pub io_new : Host → ℕ → IoDev → ℕ → ℕ → ℕ → Checked (ℕ × Option Dio × IoDev)
io_new h now s btype lbase lsize = getblk h now s btype lbase lsize new >>= result_of

unfoldable pub io_newnz : Host → ℕ → IoDev → ℕ → ℕ → ℕ → Checked (ℕ × Option Dio × IoDev)
io_newnz h now s btype lbase lsize = getblk h now s btype lbase lsize newnz >>= result_of

unfoldable pub io_bread : Host → ℕ → IoDev → ℕ → ℕ → ℕ → Checked (ℕ × Option Dio × IoDev)
io_bread h now s btype lbase lsize = getblk h now s btype lbase lsize read >>= result_of

unfoldable pub io_getquick : Host → ℕ → IoDev → ℕ → ℕ → Checked (Option Dio × IoDev)
io_getquick h now s lbase lsize = getblk h now s 0 lbase lsize readq

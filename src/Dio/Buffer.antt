-- ===== src/Dio/Buffer.antt =====
-- The content of a buffer: `hammer2_io_data`, `hammer2_bread`, and the part of
-- `hammer2_io_getblk` that fills the buffer.
use windows_hammer2_dfly.Common.{
  ℕ, ◌+◌, Bool, true, false, not, ◌&&◌, Option, none, some, ltb, leb, ◌==◌, if◌then◌else◌, Checked,
  ok, ◌>>=◌, ◌>>◌, assert,
}
use windows_hammer2_dfly.Common.Words.{u32, sub64, high_bits}
use windows_hammer2_dfly.Disk.{pbuf_size, off_radix_bits}
use windows_hammer2_dfly.Ondisk.Types.{enomem}
use windows_hammer2_dfly.Dio.Types.{Dio}
use windows_hammer2_dfly.Dio.Pages.{Host, dev_bread}

-- HAMMER2_DOP_READ, _NEW, _NEWNZ and _READQ
pub data Op : Type 0 where
  read : Op
  new : Op
  newnz : Op
  readq : Op

-- EIO of the host
abbrev pub eio : ℕ
eio = 5

abbrev pub no_content : Option (ℕ → ℕ) → Bool
no_content none = true
no_content (some buf) = false

-- `hammer2_io_data`: the offset in the buffer. `off` is an int: above 2 ^ 31 it is negative.
unfoldable pub io_data : Dio → ℕ → Checked ℕ
io_data d lbase = do
  assert (not (no_content d.content))
  let off = u32 (sub64 (high_bits (sub64 lbase d.dbase) off_radix_bits) (sub64 d.pbase d.dbase))
  assert (ltb off pbuf_size)
  ok off

-- bzero of `lsize` bytes from an offset on
abbrev pub zeroed : ℕ → ℕ → (ℕ → ℕ) → ℕ → ℕ
zeroed off lsize buf x = if leb off x && ltb x (off + lsize) then 0 else buf x

abbrev pub zero_content : ℕ → ℕ → Option (ℕ → ℕ) → Option (ℕ → ℕ)
zero_content off lsize none = none
zero_content off lsize (some buf) = some (zeroed off lsize buf)

-- The operation on a buffer that has its content.
unfoldable pub renew : Dio → ℕ → ℕ → Op → Checked Dio
renew d lbase lsize new = io_data d lbase >>= λ off.
    ok (record d { content = zero_content off lsize d.content; dirty = true })
renew d lbase lsize newnz = ok (record d { dirty = true })
renew d lbase lsize read = ok d
renew d lbase lsize readq = ok d

-- `hammer2_bread`: the buffer and the error.
unfoldable pub read_content : Host → (ℕ → ℕ → ℕ) → Dio → (ℕ → ℕ) → Dio × ℕ
read_content h media d buf =
    let (all, buf') = dev_bread h media d.bdev (sub64 d.pbase d.dbase) buf pbuf_size in
    (record d { content = some buf' }, if all then 0 else eio)

abbrev pub dio_bread_into : Host → (ℕ → ℕ → ℕ) → Dio → Option (ℕ → ℕ) → Dio × ℕ
dio_bread_into h media d (some buf) = read_content h media d buf
dio_bread_into h media d none = if h.memory then read_content h media d h.fresh else (d, enomem)

unfoldable pub dio_bread : Host → (ℕ → ℕ → ℕ) → Dio → Dio × ℕ
dio_bread h media d = dio_bread_into h media d d.content

-- A fresh allocation of the whole buffer.
unfoldable pub fresh_content : Host → Dio → (ℕ → ℕ) → Dio × ℕ
fresh_content h d buf =
    if h.memory then (record d { content = some buf; dirty = true }, 0) else (d, enomem)

unfoldable pub load_whole : Host → (ℕ → ℕ → ℕ) → Dio → Op → Dio × ℕ
load_whole h media d new = fresh_content h d (zeroed 0 pbuf_size h.fresh)
load_whole h media d newnz = fresh_content h d h.fresh
load_whole h media d read = dio_bread h media d
load_whole h media d readq = dio_bread h media d

unfoldable pub load_part : Dio × ℕ → ℕ → ℕ → Op → Checked (Dio × ℕ)
load_part (d, error) lbase lsize op =
    if not (no_content d.content) && error == 0
    then (renew d lbase lsize op >>= λ e. ok (e, error))
    else ok (d, error)

unfoldable pub load : Host → (ℕ → ℕ → ℕ) → Dio → ℕ → ℕ → Op → Checked (Dio × ℕ)
load h media d lbase lsize op =
    if d.pbase == high_bits lbase off_radix_bits && lsize == pbuf_size
    then ok (load_whole h media d op)
    else load_part (dio_bread h media d) lbase lsize op

-- `dio->error`, and HAMMER2_DIO_GOOD if there is none.
abbrev pub loaded : Dio × ℕ → Dio
loaded (d, error) = record d { error = error; good = if error == 0 then true else d.good }

unfoldable pub fill : Host → (ℕ → ℕ → ℕ) → Dio → ℕ → ℕ → Op → Checked Dio
fill h media d lbase lsize op =
    if d.good
    then renew d lbase lsize op
    else assert (no_content d.content) >> (load h media d lbase lsize op >>= λ r. ok (loaded r))

-- ===== src/Subr/Radix.antt =====
-- `hammer2_getradix`: from a size in bytes to the radix that holds it.
use windows_hammer2_dfly.Common.{
  ℕ, zero, suc, ◌+◌, ◌-◌, ◌^◌, ltb, leb, ◌==◌, if◌then◌else◌, Checked, ok, panic,
}
use windows_hammer2_dfly.Disk.{pbuf_size, pbuf_radix, lbuf_size, lbuf_radix, alloc_min, radix_min}

-- The radix from which the iteration starts.
unfoldable pub first_radix : ℕ → ℕ
first_radix bytes =
    if bytes == pbuf_size
    then pbuf_radix
    else if leb lbuf_size bytes
    then lbuf_radix
    else if leb alloc_min bytes
    then radix_min
    else 0

-- `while ((1 << radix) < bytes) ++radix;` with the shifts left. A shift by 64 is undefined in C;
-- `panic` stands for it.
unfoldable pub radix_loop : ℕ → ℕ → ℕ → Checked ℕ
radix_loop zero bytes radix = panic
radix_loop (suc left) bytes radix =
    let rest = radix_loop left bytes (radix + 1) in if ltb (2 ^ radix) bytes then rest else ok radix

unfoldable pub getradix : ℕ → Checked ℕ
getradix bytes = radix_loop (64 - first_radix bytes) bytes (first_radix bytes)

-- ===== src/Tests/SubrRuns.antt =====
-- Runs of hammer2_subr.c.
use windows_hammer2_dfly.Common.{
  ℕ, ◌+◌, ◌-◌, ◌/◌, ◌^◌, ◌≤◌, ◌<◌, ◌≡◌, ◌↔◌, List, [], ◌∷◌, length, ok, arith,
}
use windows_hammer2_dfly.Disk.{pbuf_size}
use windows_hammer2_dfly.Subr.Time.{time_to_timespec, timespec_to_time, time_roundtrip}
use windows_hammer2_dfly.Subr.Sizes.{calc_physical, IsBlockFor, calc_physical-Covers}
use windows_hammer2_dfly.Subr.Radix.{getradix}
use windows_hammer2_dfly.Subr.RadixSize.{IsRadix, getradix-IsRadix}

getradix-IsRadix_example : (r : ℕ) × (getradix 20000 ≡ ok r) × IsRadix 20000 r
getradix-IsRadix_example = getradix-IsRadix 20000 (omega arith)

calc_physical-Covers_example :
    (70000 ≤ 65536 → calc_physical 70000 65536 ≡ 0)
    × (65536 + pbuf_size ≤ 70000 → calc_physical 70000 65536 ≡ pbuf_size)
    × (65536 < 70000
        → 70000 < 65536 + pbuf_size
        → (k : ℕ) × IsBlockFor (70000 - 65536) (calc_physical 70000 65536) k)
calc_physical-Covers_example = calc_physical-Covers 70000 65536 (omega arith)

time_roundtrip_example :
    (timespec_to_time 32 (time_to_timespec 32 1700000000123456) ≡ 1700000000123456)
    ↔ (1700000000123456 / 1000000 < 2 ^ 32)
time_roundtrip_example = time_roundtrip 32 1700000000123456 (omega arith) (omega arith)

-- A stand-in for the checksum.
abbrev byte_count : List ℕ → ℕ
byte_count aname = length aname

-- a.txt
abbrev file_name : List ℕ
file_name = 97 ∷ 46 ∷ 116 ∷ 120 ∷ 116 ∷ []

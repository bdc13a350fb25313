-- ===== src/Dio/Effects.antt =====
-- The bytes that an operation of `hammer2_io_getblk` leaves and those that it sets to zero.
use windows_hammer2_dfly.Common.{ℕ, ◌+◌, ◌≤◌, ◌<◌, ◌≡◌, refl, ◌⊎◌}
use windows_hammer2_dfly.Dio.Types.{Dio}
use windows_hammer2_dfly.Dio.Buffer.{Op, read, new, newnz, readq}

-- The bytes of the volumes that an operation on `lsize` bytes from `lb` on leaves, and those that
-- it sets to zero.
abbrev pub Spares : Op → ℕ → ℕ → ℕ → Type 0
Spares read lb lsize x = Unit {0}
Spares readq lb lsize x = Unit {0}
Spares new lb lsize x = (x < lb) ⊎ (lb + lsize ≤ x)
Spares newnz lb lsize x = (x < lb) ⊎ (lb + lsize ≤ x)

abbrev pub Zeroes : Op → ℕ → ℕ → ℕ → Type 0
Zeroes new lb lsize x = (lb ≤ x) × (x < lb + lsize)
Zeroes newnz lb lsize x = ⊥
Zeroes read lb lsize x = ⊥
Zeroes readq lb lsize x = ⊥

-- One buffer at one place.
pub record IsSame (d e : Dio) : Type 0 where
  pub refs : e.refs ≡ d.refs
  pub bdev : e.bdev ≡ d.bdev
  pub dbase : e.dbase ≡ d.dbase
  pub pbase : e.pbase ≡ d.pbase

pub IsSame-refl : (d : Dio) → IsSame d d
IsSame-refl d = record { refs = refl; bdev = refl; dbase = refl; pbase = refl }

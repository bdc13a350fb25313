-- ===== src/Freemap/Reserve/Rotate.antt =====
-- The rotation of a freemap block through its eight places.
use windows_hammer2_dfly.Common.{ℕ, ◌+◌, ◌*◌, ◌/◌, ◌%◌, ◌^◌, ◌<◌, ◌≡◌, bit_or, ok, arith}
use windows_hammer2_dfly.Common.Pairs.{or_take, or-zero}
use windows_hammer2_dfly.Disk.{pbuf_size, zone_freemap_00, zone_freemap_inc, fm_base}
use windows_hammer2_dfly.Disk.BrefType.{freemap_node, freemap_leaf}
use windows_hammer2_dfly.Freemap.Types.{Blockref}
use windows_hammer2_dfly.Freemap.Reserve.{next_index, level_off, switch_off, freemap_reserve}

-- The levels of the freemap, with the radix of the storage a block stands for, its slot in a place,
-- and its type.
pub data Level : Type 0 where
  level1 : Level
  level2 : Level
  level3 : Level
  level4 : Level
  level5 : Level

abbrev pub radix_of : Level → ℕ
radix_of level1 = 30
radix_of level2 = 38
radix_of level3 = 46
radix_of level4 = 54
radix_of level5 = 62

abbrev pub slot_of : Level → ℕ
slot_of level1 = 0
slot_of level2 = 1
slot_of level3 = 2
slot_of level4 = 3
slot_of level5 = 4

abbrev pub type_of : Level → ℕ
type_of level1 = freemap_leaf
type_of _ = freemap_node

-- The `i`-th place of a block: in the reserved segment at the base of what it stands for.
abbrev pub place : Level → ℕ → ℕ → ℕ
place l key i =
    fm_base key (radix_of l) + (i * zone_freemap_inc + zone_freemap_00 + slot_of l) * pbuf_size

or_radix : (off : ℕ) → bit_or off 15 ≡ off / 16 * 16 + 15
or_radix off = omega (arith, or_take off 3, or_take (off / 4) 0, or-zero (off / 4 / 4))

next_index-place :
    (l : Level) (key i : ℕ) → i < 8 → next_index (bit_or (place l key i) 15) ≡ ok ((i + 1) % 8)
unfolding next_index
next_index-place level1 key i lt = rw (or_radix (place level1 key i)) (ground arith)
next_index-place level2 key i lt = rw (or_radix (place level2 key i)) (ground arith)
next_index-place level3 key i lt = rw (or_radix (place level3 key i)) (ground arith)
next_index-place level4 key i lt = rw (or_radix (place level4 key i)) (ground arith)
next_index-place level5 key i lt = rw (or_radix (place level5 key i)) (ground arith)

switch_off-place :
    (l : Level) (bref : Blockref) (i : ℕ)
    → bref.keybits ≡ radix_of l
    → bref.type ≡ type_of l
    → bref.key < 2 ^ 64
    → i < 8
    → switch_off bref (2 ^ 15) i ≡ ok (place l bref.key i)
unfolding switch_off level_off
switch_off-place level1 bref i bits type fits lt = ground arith
switch_off-place level2 bref i bits type fits lt = ground arith
switch_off-place level3 bref i bits type fits lt = ground arith
switch_off-place level4 bref i bits type fits lt = ground arith
switch_off-place level5 bref i bits type fits lt = ground arith

-- A freemap block of 32KB of one of the five levels, with the type of its level and a key of 64
-- bits, that stands at the `i`-th of its eight places is moved to the next one, round from the
-- last to the first; a block with no place yet gets the first.
pub freemap_reserve-Rotates :
    (l : Level) (bref : Blockref) (i : ℕ)
    → bref.keybits ≡ radix_of l
    → bref.type ≡ type_of l
    → bref.key < 2 ^ 64
    → i < 8
    → (bref.data_off ≡ bit_or (place l bref.key i) 15
        → freemap_reserve bref 15
          ≡ ok (record bref { data_off = bit_or (place l bref.key ((i + 1) % 8)) 15 }))
      × (bref.data_off ≡ 0
          → freemap_reserve bref 15
            ≡ ok (record bref { data_off = bit_or (place l bref.key 0) 15 }))
unfolding freemap_reserve next_index
freemap_reserve-Rotates l bref i bits type fits lt = (
  (λ at. ground (
    arith,
    next_index-place l bref.key i lt,
    switch_off-place l bref ((i + 1) % 8) bits type fits (omega arith),
  )),
  (λ new. ground (arith, switch_off-place l bref 0 bits type fits (omega arith))),
)

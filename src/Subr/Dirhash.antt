-- ===== src/Subr/Dirhash.antt =====
-- `hammer2_dirhash`: the directory key of a file name. Names are lists of bytes; `icrc32` is
-- `hammer2_icrc32` of a range of the name.
use Prim.Native.Nat.{bit_xor}
use windows_hammer2_dfly.Common.{
  ℕ, ◌+◌, ◌%◌, ◌^◌, ◌≤◌, ◌<◌, ◌≡◌, Bool, ◌||◌, List, [], ◌∷◌, ◌++◌, ◌==◌, if◌then◌else◌, arith,
}
use windows_hammer2_dfly.Common.Words.{u32, ◌<<<◌, high_bits}

-- '.', '-', '_' and '~'
unfoldable pub is_separator : ℕ → Bool
is_separator c = c == 46 || c == 45 || c == 95 || c == 126

-- `if (i != j) crcx += hammer2_icrc32(aname + j, i - j);` for the field from j to i.
unfoldable pub add_field : (List ℕ → ℕ) → ℕ → List ℕ → ℕ
add_field icrc32 crcx [] = crcx
add_field icrc32 crcx (c ∷ cs) = u32 (crcx + icrc32 (c ∷ cs))

-- The loop over the name, with the field that is open, and the field after the loop.
unfoldable pub add_fields : (List ℕ → ℕ) → ℕ → List ℕ → List ℕ → ℕ
add_fields icrc32 crcx field [] = add_field icrc32 crcx field
add_fields icrc32 crcx field (c ∷ cs) =
    let closed = add_fields icrc32 (add_field icrc32 crcx field) [] cs in
    let longer = add_fields icrc32 crcx (field ++ (c ∷ [])) cs in
    if is_separator c then closed else longer

-- crcx | 0x80000000U
unfoldable pub with_bit_31 : ℕ → ℕ
with_bit_31 crcx = crcx % 2 ^ 31 + 2 ^ 31

-- (crcx ^ (crcx << 16)) & 0xFFFF0000U
unfoldable pub fold_crc : ℕ → ℕ
fold_crc crcx = high_bits (u32 (bit_xor crcx (u32 (crcx <<< 16)))) 16

-- The three parts of the key have no bit in common, so that `|=` adds them.
unfoldable pub dirhash : (List ℕ → ℕ) → List ℕ → ℕ
dirhash icrc32 aname =
    (with_bit_31 (add_fields icrc32 0 [] aname) <<< 32) + fold_crc (icrc32 aname) + 2 ^ 15

-- A directory key has bit 63 and fits 64 bits, and without that bit it is above the cookies 0 to 0x7FFF
-- that are kept for artificial entries: bit 15 is set, and the 15 bits below it are clear.
dirhash-Key :
    (icrc32 : List ℕ → ℕ) (aname : List ℕ)
    → (2 ^ 63 ≤ dirhash icrc32 aname)
      × (dirhash icrc32 aname < 2 ^ 64)
      × (dirhash icrc32 aname % 2 ^ 16 ≡ 2 ^ 15)
unfolding dirhash with_bit_31 fold_crc
dirhash-Key icrc32 aname = (omega arith, omega arith, omega arith)

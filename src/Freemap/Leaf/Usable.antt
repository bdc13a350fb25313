-- ===== src/Freemap/Leaf/Usable.antt =====
-- A new leaf: exactly the 4MB entries that are usable storage are free, and the space adds up.
use windows_hammer2_dfly.Common.{
  ℕ, zero, suc, ◌+◌, ◌-◌, ◌*◌, ◌%◌, ◌^◌, ◌≤◌, ◌<◌, ◌≡◌, ◌∙◌, inl, inr, ◌↔◌, false, List, [], ◌∷◌,
  ◌||◌, leb, ltb, if◌then◌else◌, Bool-cases, get_or, arith,
}
use windows_hammer2_dfly.Freemap.Bmap.{Bmap}
use windows_hammer2_dfly.Freemap.Leaf.{
  lokey_of, hikey_of, zero_bmap, free_bmap, full_bmap, init_bmdata, init_avail, freemap_init,
}

-- The 4MB at `at` lie behind the static allocation, outside the reserved 4MB of each 1GB, and
-- inside the device.
pub record IsUsable (allocator_beg total_size at : ℕ) : Type 0 where
  pub behind : allocator_beg ≤ at
  pub outside : 2 ^ 22 ≤ at % 2 ^ 30
  pub inside : at + 2 ^ 22 ≤ total_size

init_bmdata-at :
    (left key lokey hikey n : ℕ)
    → key + left * 2 ^ 22 < 2 ^ 64
    → n < left
    → get_or (init_bmdata left key lokey hikey) n zero_bmap ≡ (
        if ltb (key + n * 2 ^ 22) lokey || leb hikey (key + n * 2 ^ 22)
        then full_bmap
        else free_bmap)
unfolding init_bmdata
init_bmdata-at zero key lokey hikey n small lt = absurd (omega arith)
init_bmdata-at (suc left) key lokey hikey zero small lt =
    rw (let e : key + 0 * 2 ^ 22 ≡ key = omega arith in e)
init_bmdata-at (suc left) key lokey hikey (suc n) small lt =
    rw (let e : key + suc n * 2 ^ 22 ≡ (key + 2 ^ 22) % 2 ^ 64 + n * 2 ^ 22 = omega arith in e)
      (init_bmdata-at left ((key + 2 ^ 22) % 2 ^ 64) lokey hikey n (omega arith) (omega arith))

-- Between the two keys lies exactly the usable storage of the leaf.
range-IsUsable :
    (allocator_beg total key n : ℕ)
    → allocator_beg < 2 ^ 62
    → total < 2 ^ 62
    → key < 2 ^ 62
    → key % 2 ^ 30 ≡ 0
    → n < 256
    → ((ltb (key + n * 2 ^ 22) (lokey_of allocator_beg key)
          || leb (hikey_of total key) (key + n * 2 ^ 22))
        ≡ false)
      ↔ IsUsable allocator_beg total (key + n * 2 ^ 22)
unfolding lokey_of hikey_of
range-IsUsable allocator_beg total key n small_beg small small_key whole lt = (
  λ h. record { behind = ground arith; outside = ground arith; inside = ground arith },
  λ h. ground arith,
)

-- The space of a row of bitmaps.
abbrev pub avail_sum : List Bmap → ℕ
avail_sum [] = 0
avail_sum (b ∷ bs) = b.avail + avail_sum bs

init_avail-sum :
    (left key lokey hikey avail : ℕ)
    → left * 2 ^ 22 ≤ avail
    → avail < 2 ^ 64
    → init_avail left key lokey hikey avail + left * 2 ^ 22
      ≡ avail + avail_sum (init_bmdata left key lokey hikey)
unfolding init_avail init_bmdata
init_avail-sum zero key lokey hikey avail le lt = omega arith
init_avail-sum (suc left) key lokey hikey avail le lt =
    elim (Bool-cases (ltb key lokey || leb hikey key)) [
      | inl full ↦ rw full (
          omega (
            arith,
            init_avail-sum left ((key + 2 ^ 22) % 2 ^ 64) lokey hikey
                ((avail % 2 ^ 64 + 2 ^ 64 - 2 ^ 22 % 2 ^ 64) % 2 ^ 64) (omega arith) (omega arith),
          ))
      | inr free ↦ rw free (
          omega (
            arith,
            init_avail-sum left ((key + 2 ^ 22) % 2 ^ 64) lokey hikey avail (omega arith) lt,
          ))
    ]

-- In a new leaf, for a multiple of 1GB below 2^62, of a device below 2^62 bytes an entry is free,
-- with 4MB available, if its storage lies behind the static allocation, outside the first 4MB of
-- its 1GB and inside the device, and is marked allocated as a whole otherwise; and the `avail` of
-- the leaf is the sum over its entries.
pub freemap_init-IsUsable :
    (allocator_beg total key : ℕ)
    → allocator_beg < 2 ^ 62
    → total < 2 ^ 62
    → key < 2 ^ 62
    → key % 2 ^ 30 ≡ 0
    → ((n : ℕ)
        → n < 256
        → (IsUsable allocator_beg total (key + n * 2 ^ 22)
            → get_or ((freemap_init allocator_beg total key).bmdata) n zero_bmap ≡ free_bmap)
          × (¬ IsUsable allocator_beg total (key + n * 2 ^ 22)
              → get_or ((freemap_init allocator_beg total key).bmdata) n zero_bmap ≡ full_bmap))
      × ((freemap_init allocator_beg total key).avail
          ≡ avail_sum ((freemap_init allocator_beg total key).bmdata))
unfolding freemap_init
freemap_init-IsUsable allocator_beg total key small_beg small small_key whole = (
  λ n lt.
      let entry =
        init_bmdata-at 256 key (lokey_of allocator_beg key) (hikey_of total key) n (omega arith)
          lt in
      let usable = range-IsUsable allocator_beg total key n small_beg small small_key whole lt in
      (
        λ yes_usable. entry ∙ rw (usable.1 yes_usable),
        λ not_usable.
            elim (Bool-cases (
              ltb (key + n * 2 ^ 22) (lokey_of allocator_beg key)
              || leb (hikey_of total key) (key + n * 2 ^ 22))) [
                | inl full ↦ entry ∙ rw full
                | inr free ↦ absurd (not_usable (usable.0 free))
              ],
      ),
  omega (
    arith,
    init_avail-sum 256 key (lokey_of allocator_beg key) (hikey_of total key) (2 ^ 30) (omega arith)
        (omega arith),
  ),
)

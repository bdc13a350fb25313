-- ===== src/Chain/Account.antt =====
-- The statistics that a parent keeps of its block array, as insertion and deletion change them.
use windows_hammer2_dfly.Common.{
  ℕ, ◌+◌, ◌-◌, ◌^◌, ◌<◌, ◌≡◌, Bool, true, ltb, ◌==◌, if◌then◌else◌, arith,
}
use windows_hammer2_dfly.Common.Words.{u64, sub64, ◌<<<◌, low_bits}
use windows_hammer2_dfly.Disk.{off_radix_bits}
use windows_hammer2_dfly.Disk.{
  BrefType.inode as inode_type, BrefType.indirect as indirect_type, BrefType.content as data_type,
  BrefType.dirent as dirent_type,
}
use windows_hammer2_dfly.Chain.Types.{Bref, Stats}

-- HAMMER2_BLOCKREF_LEAF_MAX
abbrev pub leaf_max : ℕ
leaf_max = 65535

-- The storage of an entry; a radix of 0 is no storage.
unfoldable pub entry_bytes : Bref → ℕ
entry_bytes e =
    if low_bits e.data_off off_radix_bits == 0
    then 0
    else u64 (1 <<< low_bits e.data_off off_radix_bits)

unfoldable pub one_leaf_more : Stats → Stats
one_leaf_more s = if s.leaf_count == leaf_max then s else record s { leaf_count = s.leaf_count + 1 }

unfoldable pub leaves_more : ℕ → Stats → Stats
leaves_more n s = record s {
  leaf_count = if ltb (s.leaf_count + n) leaf_max then s.leaf_count + n else leaf_max;
}

unfoldable pub totals_more : Bref → Stats → Stats
totals_more e s = record s {
  data_count = u64 (s.data_count + e.data_count);
  inode_count = u64 (s.inode_count + e.inode_count);
}

-- The update for `elm` in `hammer2_base_insert`.
unfoldable pub account_insert : Bref → Stats → Stats
account_insert e before =
    let s : Stats = record before { data_count = u64 (before.data_count + entry_bytes e) } in
    if e.type == inode_type
    then totals_more e (one_leaf_more (record s { inode_count = u64 (s.inode_count + 1) }))
    else if e.type == data_type
    then leaves_more e.leaf_count (one_leaf_more s)
    else if e.type == indirect_type
    then leaves_more e.leaf_count (totals_more e s)
    else if e.type == dirent_type
    then one_leaf_more s
    else s

-- The statistics, and whether HAMMER2_CHAIN_HINT_LEAF_COUNT is set: a saturated count is kept.
pub record Hinted : Type 0 where
  pub stats : Stats
  pub hint : Bool

unfoldable pub one_leaf_less : Hinted → Hinted
one_leaf_less h =
    if h.stats.leaf_count == leaf_max
    then record h { hint = true }
    else record h { stats = record (h.stats) { leaf_count = h.stats.leaf_count - 1 } }

unfoldable pub leaves_less : ℕ → Hinted → Hinted
leaves_less n h =
    if h.stats.leaf_count == leaf_max
    then record h { hint = true }
    else record h { stats = record (h.stats) { leaf_count = h.stats.leaf_count - n } }

unfoldable pub totals_less : Bref → Hinted → Hinted
totals_less e h = record h {
  stats = record (h.stats) {
    data_count = sub64 h.stats.data_count e.data_count;
    inode_count = sub64 h.stats.inode_count e.inode_count;
  };
}

-- The update for `scan` in `hammer2_base_delete`. A count of leaves stops at 0.
unfoldable pub account_delete : Bref → Hinted → Hinted
account_delete e before =
    let h : Hinted = record before {
      stats = record (before.stats) { data_count = sub64 before.stats.data_count (entry_bytes e) };
    } in
    if e.type == inode_type
    then totals_less e (
        one_leaf_less
          (record h { stats = record (h.stats) { inode_count = sub64 h.stats.inode_count 1 } }))
    else if e.type == data_type
    then leaves_less e.leaf_count (one_leaf_less h)
    else if e.type == indirect_type
    then leaves_less e.leaf_count (totals_less e h)
    else if e.type == dirent_type
    then one_leaf_less h
    else h

module _ (e : Bref) (s : Stats) (hint : Bool) (dc : s.data_count < 2 ^ 64)
    (ic : s.inode_count < 2 ^ 64) (leaves : s.leaf_count + 1 + e.leaf_count < leaf_max) where
  back : Hinted
  back = account_delete e (record { stats = account_insert e s; hint = hint })

  word_back : (x n : ℕ) → x < 2 ^ 64 → sub64 (u64 (x + n)) n ≡ x
  word_back x n lt = omega arith

  two_words_back : (x n m : ℕ) → x < 2 ^ 64 → sub64 (sub64 (u64 (u64 (x + n) + m)) n) m ≡ x
  two_words_back x n m lt = omega arith

  data_count_back : back.stats.data_count ≡ s.data_count
  unfolding back account_delete account_insert one_leaf_more leaves_more totals_more one_leaf_less
      leaves_less totals_less
  data_count_back = ground (
    arith,
    two_words_back s.data_count (entry_bytes e) e.data_count dc,
    word_back s.data_count (entry_bytes e) dc,
  )

  inode_count_back : back.stats.inode_count ≡ s.inode_count
  unfolding back account_delete account_insert one_leaf_more leaves_more totals_more one_leaf_less
      leaves_less totals_less
  inode_count_back = ground (
    arith,
    two_words_back s.inode_count 1 e.inode_count ic,
    word_back s.inode_count e.inode_count ic,
  )

  leaf_count_back : back.stats.leaf_count ≡ s.leaf_count
  unfolding back account_delete account_insert one_leaf_more leaves_more totals_more one_leaf_less
      leaves_less totals_less
  leaf_count_back = ground arith

  hint_back : back.hint ≡ hint
  unfolding back account_delete account_insert one_leaf_more leaves_more totals_more one_leaf_less
      leaves_less totals_less
  hint_back = ground arith

same_hinted :
    (h k : Hinted)
    → h.stats.data_count ≡ k.stats.data_count
    → h.stats.inode_count ≡ k.stats.inode_count
    → h.stats.leaf_count ≡ k.stats.leaf_count
    → h.hint ≡ k.hint
    → h ≡ k
same_hinted h k d n l b = λ i. record {
  stats = record { data_count = d i; inode_count = n i; leaf_count = l i };
  hint = b i;
}

-- The deletion of an entry undoes the statistics of its insertion, for counts that are 64-bit
-- words, as long as the count of leaves stays below its maximum of 65535; the hint flag is kept.
pub account_delete-account_insert :
    (e : Bref) (s : Stats) (hint : Bool)
    → s.data_count < 2 ^ 64
    → s.inode_count < 2 ^ 64
    → s.leaf_count + 1 + e.leaf_count < leaf_max
    → account_delete e (record { stats = account_insert e s; hint = hint })
      ≡ record { stats = s; hint = hint }
unfolding back
account_delete-account_insert e s hint dc ic leaves =
    same_hinted _ _ (data_count_back e s hint dc ic leaves) (inode_count_back e s hint dc ic leaves)
      (leaf_count_back e s hint dc ic leaves) (hint_back e s hint dc ic leaves)

-- ===== src/Bulkfree/Sync.antt =====
-- `h2_bulkfree_sync_adjust`: the merge of a collected bitmap into the live one.
use windows_hammer2_dfly.Common.{
  ℕ, zero, suc, ◌+◌, ◌-◌, ◌/◌, ◌%◌, ◌^◌, bit_and, bit_or, Bool, true, false, ◌&&◌, List, [], ◌∷◌,
  ltb, ◌==◌, if◌then◌else◌, get_or,
}
use windows_hammer2_dfly.Common.Words.{u32, u64, sub32, sub64, ◌<<<◌, high_bits}
use windows_hammer2_dfly.Disk.{
  freemap_block_size, freemap_block_radix, level0_size, seg_size, bmap_index_radix,
}
use windows_hammer2_dfly.Freemap.Bmap.{Bmap, is_neg32}
use windows_hammer2_dfly.Bulkfree.Types.{dedup_assert, dedup_delete, Info}

-- a < b of two int32_t, by their bit patterns
abbrev pub signed_lt : ℕ → ℕ → Bool
signed_lt a b =
    if is_neg32 a
    then (if is_neg32 b then ltb a b else true)
    else (if is_neg32 b then false else ltb a b)

-- ~x of a 64-bit word
abbrev pub not64 : ℕ → ℕ
not64 x = 2 ^ 64 - 1 - x

-- The element that is merged, `live->avail`, and the counters.
pub record Merging : Type 0 where
  pub word : ℕ
  pub avail : ℕ
  pub info : Info

-- In memory 00: live 10 becomes 00, and 11 becomes 10.
unfoldable pub stage_free : ℕ → ℕ → ℕ → Merging → Merging
stage_free l scount tmp_off s =
    if l == 2
    then record {
      word = bit_and s.word (not64 (u64 (2 <<< scount)));
      avail =
          if ltb level0_size (u32 (s.avail + freemap_block_size))
          then level0_size
          else u32 (s.avail + freemap_block_size);
      info = record (s.info) {
        adj_free = u64 (s.info.adj_free + freemap_block_size);
        count_10_00 = s.info.count_10_00 + 1;
        requests = dedup_assert (bit_or tmp_off freemap_block_radix) ∷ s.info.requests;
      };
    }
    else if l == 3
    then record s {
      word = bit_and s.word (not64 (u64 (1 <<< scount)));
      info = record (s.info) {
        count_11_10 = s.info.count_11_10 + 1;
        requests = dedup_delete (bit_or tmp_off freemap_block_radix) ∷ s.info.requests;
      };
    }
    else s

-- In memory 11, up to the change of the element.
unfoldable pub count_used : ℕ → Merging → Merging
count_used l s =
    if l == 0
    then record s {
      avail =
          if is_neg32 (sub32 s.avail freemap_block_size)
          then 0
          else sub32 s.avail freemap_block_size;
      info = record (s.info) {
        count_00_11 = s.info.count_00_11 + 1;
        adj_free = sub64 s.info.adj_free freemap_block_size;
      };
    }
    else if l == 1
    then record s { info = record (s.info) { count_01_11 = s.info.count_01_11 + 1 } }
    else if l == 2
    then record s { info = record (s.info) { count_10_11 = s.info.count_10_11 + 1 } }
    else s

-- In memory 11: live 11.
unfoldable pub stage_used : ℕ → ℕ → Merging → Merging
stage_used l scount s = record (count_used l s) { word = bit_or s.word (u64 (3 <<< scount)) }

-- One turn of the inner loop, for the live pair `l` and the collected pair `m`.
unfoldable pub sync_pair : ℕ → ℕ → ℕ → ℕ → Merging → Merging
sync_pair l m scount tmp_off s =
    if m == 0 then stage_free l scount tmp_off s else if m == 3 then stage_used l scount s else s

-- The inner loop, with the turns left.
unfoldable pub sync_pairs : ℕ → ℕ → ℕ → ℕ → ℕ → Merging → Merging
sync_pairs zero lmask mmask scount tmp_off s = s
sync_pairs (suc left) lmask mmask scount tmp_off s =
    sync_pairs left (lmask / 4) (mmask / 4) (scount + 2) (tmp_off + freemap_block_size)
      (sync_pair (lmask % 4) (mmask % 4) scount tmp_off s)

-- One element: nothing if the two agree.
unfoldable pub sync_word : ℕ → ℕ → ℕ → ℕ → Info → Merging
sync_word lmask mmask tmp_off avail info =
    let same : Merging = record { word = lmask; avail = avail; info = info } in
    if lmask == mmask then same else sync_pairs 32 lmask mmask 0 tmp_off same

-- The bitmap after the outer loop: its elements, `avail` and the counters.
pub record Merged : Type 0 where
  pub words : List ℕ
  pub avail : ℕ
  pub info : Info

abbrev pub prepend : ℕ → Merged → Merged
prepend w m = record m { words = w ∷ m.words }

unfoldable pub sync_words : List ℕ → List ℕ → ℕ → ℕ → Info → Merged
sync_words [] mem tmp_off avail info = record { words = []; avail = avail; info = info }
sync_words (l ∷ ls) [] tmp_off avail info = record { words = l ∷ ls; avail = avail; info = info }
sync_words (l ∷ ls) (m ∷ ms) tmp_off avail info =
    let s = sync_word l m tmp_off avail info in
    prepend s.word (sync_words ls ms (tmp_off + 2 ^ bmap_index_radix) s.avail s.info)

abbrev pub all_zero : List ℕ → Bool
all_zero [] = true
all_zero (w ∷ ws) = w == 0 && all_zero ws

-- The linear iterator of a bitmap that is partially full.
unfoldable pub adjusted_linear : ℕ → ℕ → ℕ
adjusted_linear live mem =
    if signed_lt live mem && (live / 2 ^ freemap_block_radix == mem / 2 ^ freemap_block_radix)
    then mem
    else high_bits (u32 (mem + (freemap_block_size - 1))) freemap_block_radix

-- The end: a bitmap that has become empty is reset, and the iterator of one that has room in its
-- last element is adjusted.
unfoldable pub finish_sync : Bmap → Bmap → Merged → Bmap × Info
finish_sync live mem m =
    if all_zero m.words
    then (
      record { linear = 0; class = 0; avail = level0_size; bitmapq = m.words },
      record (m.info) { count_l0cleans = m.info.count_l0cleans + 1 },
    )
    else if get_or m.words 7 0 == 0
    then (
      record {
        linear = adjusted_linear live.linear mem.linear;
        class = live.class;
        avail = m.avail;
        bitmapq = m.words;
      },
      record (m.info) { count_linadjusts = m.info.count_linadjusts + 1 },
    )
    else (
      record { linear = seg_size; class = live.class; avail = m.avail; bitmapq = m.words },
      m.info,
    )

unfoldable pub sync_adjust : ℕ → Bmap → Bmap → Info → Bmap × Info
sync_adjust data_off live mem info =
    finish_sync live mem (sync_words live.bitmapq mem.bitmapq data_off live.avail info)

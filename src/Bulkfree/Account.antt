-- ===== src/Bulkfree/Account.antt =====
-- The accounting of the merge: `avail` follows the bitmap, and `adj_free` follows `avail`.
use windows_hammer2_dfly.Common.{
  ℕ, suc, ◌+◌, ◌*◌, ◌%◌, ◌^◌, ◌≤◌, ◌<◌, ◌≡◌, refl, inl, inr, List, [], ◌∷◌, ◌==◌, if◌then◌else◌,
  length, Bool-cases, ap, true, get_or, ◌∙◌, arith,
}
use windows_hammer2_dfly.Common.Pairs.Masks.{pair, clear_count, clear_count-le}
use windows_hammer2_dfly.Common.Pairs.Holes.{clear_count-change}
use windows_hammer2_dfly.Freemap.Bmap.{Bmap}
use windows_hammer2_dfly.Freemap.Bmap.Space.{clear_total, clear_total-le, IsCounted}
use windows_hammer2_dfly.Bulkfree.Types.{Info}
use windows_hammer2_dfly.Bulkfree.Sync.{
  Merging, stage_free, count_used, stage_used, sync_pair, sync_word, Merged, sync_words, all_zero,
  finish_sync, sync_adjust,
}
use windows_hammer2_dfly.Bulkfree.Loop.{sync_pairs-keeps}
use windows_hammer2_dfly.Disk.{bmap_index_radix}
use windows_hammer2_dfly.Bulkfree.Turn.{merge, IsTurn, sync_pair-IsTurn}

-- `free` blocks are free outside the element.
pub record IsBalanced (free : ℕ) (start_adj start_avail : ℕ) (s : Merging) : Type 0 where
  pub avail : s.avail ≡ (free + clear_count 32 s.word) * 16384
  pub adj : (s.info.adj_free + start_avail) % 2 ^ 64 ≡ (start_adj + s.avail) % 2 ^ 64

counts :
    (k l m : ℕ) (w v : ℕ)
    → k < 32
    → pair w k ≡ l
    → IsTurn l m k w v
    → clear_count 32 v + (if l == 0 then 1 else 0)
      ≡ clear_count 32 w + (if merge l m == 0 then 1 else 0)
counts k l m w v lt live turn =
    let change = clear_count-change 32 k w v lt turn.there in rw (live, turn.here) at change

module _ (free adj0 avail0 : ℕ) (room : free + 32 ≤ 256) where
  turn_avail :
      (k l m off v c : ℕ) (s : Merging)
      → s.avail ≡ (free + c) * 16384
      → c ≤ 32
      → v ≤ 32
      → v + (if l == 0 then 1 else 0) ≡ c + (if merge l m == 0 then 1 else 0)
      → (sync_pair l m (k * 2) off s).avail ≡ (free + v) * 16384
  unfolding sync_pair stage_free stage_used count_used
  turn_avail k l m off v c s h small small' count = ground arith

  turn_adj :
      (k l m off v c : ℕ) (s : Merging)
      → s.avail ≡ (free + c) * 16384
      → c ≤ 32
      → v ≤ 32
      → v + (if l == 0 then 1 else 0) ≡ c + (if merge l m == 0 then 1 else 0)
      → (s.info.adj_free + avail0) % 2 ^ 64 ≡ (adj0 + s.avail) % 2 ^ 64
      → ((sync_pair l m (k * 2) off s).info.adj_free + avail0) % 2 ^ 64
        ≡ (adj0 + (free + v) * 16384) % 2 ^ 64
  unfolding sync_pair stage_free stage_used count_used
  turn_adj k l m off v c s h small small' count adj = ground arith

  pub sync_pair-IsBalanced :
      (k l m off : ℕ) (s : Merging)
      → k < 32
      → pair s.word k ≡ l
      → IsBalanced free adj0 avail0 s
      → IsBalanced free adj0 avail0 (sync_pair l m (k * 2) off s)
  sync_pair-IsBalanced k l m off s lt live h = record {
    avail = avail;
    adj = rw avail (
        turn_adj k l m off _ _ s h.avail (clear_count-le 32 s.word) (clear_count-le 32 _) count
          h.adj);
  }
    where
      count :
          clear_count 32 (sync_pair l m (k * 2) off s).word + (if l == 0 then 1 else 0)
          ≡ clear_count 32 s.word + (if merge l m == 0 then 1 else 0)
      count = counts k l m s.word _ lt live (sync_pair-IsTurn k l m off s lt live)

      avail :
          (sync_pair l m (k * 2) off s).avail
          ≡ (free + clear_count 32 (sync_pair l m (k * 2) off s).word) * 16384
      avail =
          turn_avail k l m off _ _ s h.avail (clear_count-le 32 s.word) (clear_count-le 32 _) count

-- One element, for the free blocks outside of it.
sync_word-IsBalanced :
    (free l m off avail : ℕ) (info : Info)
    → free + 32 ≤ 256
    → avail ≡ (free + clear_count 32 l) * 16384
    → IsBalanced free info.adj_free avail (sync_word l m off avail info)
unfolding sync_word
sync_word-IsBalanced free l m off avail info room h = elim (Bool-cases (l == m)) [
  | inl same ↦ rw same start
  | inr differ ↦ rw differ (
      sync_pairs-keeps (IsBalanced free info.adj_free avail)
        (sync_pair-IsBalanced free info.adj_free avail room) 32 0 l m off _ (omega arith)
        (λ j lt. ap (pair l) (let e : 0 + j ≡ j = omega arith in e)) start)
]
  where
    start : IsBalanced free info.adj_free avail (record { word = l; avail = avail; info = info })
    start = record { avail = h; adj = refl }

pub length-sync_words :
    (ls ms : List ℕ) (off avail : ℕ) (info : Info)
    → length (sync_words ls ms off avail info).words ≡ length ls
unfolding sync_words
length-sync_words [] ms off avail info = refl
length-sync_words (l ∷ ls) [] off avail info = refl
length-sync_words (l ∷ ls) (m ∷ ms) off avail info =
    let s = sync_word l m off avail info in
    ap suc (length-sync_words ls ms (off + 2 ^ bmap_index_radix) s.avail s.info)

pub record IsSettled (free : ℕ) (start_adj start_avail : ℕ) (m : Merged) : Type 0 where
  pub avail : m.avail ≡ (free + clear_total m.words) * 16384
  pub adj : (m.info.adj_free + start_avail) % 2 ^ 64 ≡ (start_adj + m.avail) % 2 ^ 64

pub sync_words-IsSettled :
    (ls ms : List ℕ) (free off avail : ℕ) (info : Info)
    → free + length ls * 32 ≤ 256
    → avail ≡ (free + clear_total ls) * 16384
    → IsSettled free info.adj_free avail (sync_words ls ms off avail info)
unfolding sync_words
sync_words-IsSettled [] ms free off avail info room h = record { avail = h; adj = refl }
sync_words-IsSettled (l ∷ ls) [] free off avail info room h = record { avail = h; adj = refl }
sync_words-IsSettled (l ∷ ls) (m ∷ ms) free off avail info room h =
    let first =
      sync_word-IsBalanced (free + clear_total ls) l m off avail info
        (omega (arith, clear_total-le ls)) (omega arith) in
    let s = sync_word l m off avail info in
    let rest =
      sync_words-IsSettled ls ms (free + clear_count 32 s.word) (off + 2 ^ bmap_index_radix) s.avail
        s.info (omega (arith, clear_count-le 32 s.word)) (omega (arith, first.avail)) in
    record { avail = omega (arith, rest.avail); adj = omega (arith, rest.adj, first.adj) }

cleared : (ws : List ℕ) → all_zero ws ≡ true → clear_total ws ≡ length ws * 32
unfolding clear_count
cleared [] h = refl
cleared (w ∷ ws) h =
    let parts : (w ≡ 0) × (all_zero ws ≡ true) = ground arith in
    rw (parts.0) (omega (arith, cleared ws parts.1))

finish_sync-IsCounted :
    (live mem : Bmap) (m : Merged)
    → length m.words ≡ 8
    → m.avail ≡ clear_total m.words * 16384
    → IsCounted (finish_sync live mem m).0
      × ((finish_sync live mem m).0.avail ≡ m.avail)
      × ((finish_sync live mem m).1.adj_free ≡ m.info.adj_free)
unfolding finish_sync
finish_sync-IsCounted live mem m size h = elim (Bool-cases (all_zero m.words)) [
  | inl empty ↦ rw empty (
    record { words = size; avail = omega (arith, cleared m.words empty) },
    omega (arith, cleared m.words empty),
    refl,
  )
  | inr some_used ↦ elim (Bool-cases (get_or m.words 7 0 == 0)) [
    | inl partial ↦ rw (some_used, partial) (record { words = size; avail = h }, refl, refl)
    | inr full ↦ rw (some_used, full) (record { words = size; avail = h }, refl, refl)
  ]
]

-- The merge of a bitmap whose `avail` is the storage of its free blocks has such an `avail` again,
-- whatever the collected bitmap says, and it adds to `adj_free` what it adds to `avail`, modulo
-- 2^64.
pub sync_adjust-IsCounted :
    (data_off : ℕ) (live mem : Bmap) (info : Info)
    → IsCounted live
    → length mem.bitmapq ≡ 8
    → IsCounted (sync_adjust data_off live mem info).0
      × (((sync_adjust data_off live mem info).1.adj_free + live.avail) % 2 ^ 64
          ≡ (info.adj_free + (sync_adjust data_off live mem info).0.avail) % 2 ^ 64)
unfolding sync_adjust
sync_adjust-IsCounted data_off live mem info counted words =
    let m = sync_words live.bitmapq mem.bitmapq data_off live.avail info in
    let settled =
      sync_words-IsSettled live.bitmapq mem.bitmapq 0 data_off live.avail info
        (omega (arith, counted.words)) (omega (arith, counted.avail)) in
    let size : length m.words ≡ 8 =
      length-sync_words _ _ data_off live.avail info ∙ counted.words in
    let (ends, same, adj) = finish_sync-IsCounted live mem m size (omega (arith, settled.avail)) in
    (ends, rw (same, adj) settled.adj)

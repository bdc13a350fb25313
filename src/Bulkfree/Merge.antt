-- ===== src/Bulkfree/Merge.antt =====
-- What the merge does to each block: the table of the transitions.
use windows_hammer2_dfly.Common.{
  ℕ, zero, suc, ◌+◌, ◌/◌, ◌%◌, ◌^◌, ◌<◌, ◌≡◌, ◌↔◌, refl, sym, ◌∙◌, ap, inl, inr, List, [], ◌∷◌,
  ◌==◌, true, length, get_or, Bool-cases, arith,
}
use windows_hammer2_dfly.Common.Pairs.Masks.{pair}
use windows_hammer2_dfly.Disk.{bmap_index_radix}
use windows_hammer2_dfly.Freemap.Bmap.{Bmap}
use windows_hammer2_dfly.Freemap.Bmap.Marks.{state}
use windows_hammer2_dfly.Bulkfree.Types.{Info}
use windows_hammer2_dfly.Bulkfree.Sync.{
  sync_word, Merged, sync_words, all_zero, finish_sync, sync_adjust,
}
use windows_hammer2_dfly.Bulkfree.Turn.{merge}
use windows_hammer2_dfly.Bulkfree.Loop.{sync_pairs-IsLoop}
use windows_hammer2_dfly.Bulkfree.Account.{length-sync_words}

merge_self : (x : ℕ) → merge x x ≡ x
merge_self x = ground arith

equal : (a b : ℕ) → (a == b) ≡ true → a ≡ b
equal a b h = ground arith

pair-sync_word :
    (l m off avail : ℕ) (info : Info) (j : ℕ)
    → j < 32
    → pair (sync_word l m off avail info).word j ≡ merge (pair l j) (pair m j)
unfolding sync_word
pair-sync_word l m off avail info j lt = elim (Bool-cases (l == m)) [
  | inl same ↦ rw same (rw (← equal l m same) (sym (merge_self (pair l j))))
  | inr differ ↦ rw differ (
      ap (pair _) (let e : j ≡ 0 + j = omega arith in e)
      ∙ (sync_pairs-IsLoop 32 0 l m off _ (omega arith)
            (λ i below. ap (pair l) (let e : 0 + i ≡ i = omega arith in e))).merged
          j lt)
]

word-sync_words :
    (ls ms : List ℕ) (off avail : ℕ) (info : Info)
    → length ms ≡ length ls
    → (i : ℕ) → i < length ls
    → (j : ℕ) → j < 32
    → pair (get_or (sync_words ls ms off avail info).words i 0) j
      ≡ merge (pair (get_or ls i 0) j) (pair (get_or ms i 0) j)
unfolding sync_words
word-sync_words [] ms off avail info same i lt j small = absurd (omega arith)
word-sync_words (l ∷ ls) [] off avail info same i lt j small = absurd (omega arith)
word-sync_words (l ∷ ls) (m ∷ ms) off avail info same zero lt j small =
    pair-sync_word l m off avail info j small
word-sync_words (l ∷ ls) (m ∷ ms) off avail info same (suc i) lt j small =
    let s = sync_word l m off avail info in
    word-sync_words ls ms (off + 2 ^ bmap_index_radix) s.avail s.info (omega arith) i (omega arith)
      j small

finish_sync-words : (live mem : Bmap) (m : Merged) → (finish_sync live mem m).0.bitmapq ≡ m.words
unfolding finish_sync
finish_sync-words live mem m = elim (Bool-cases (all_zero m.words)) [
  | inl empty ↦ rw empty refl
  | inr some_used ↦ elim (Bool-cases (get_or m.words 7 0 == 0)) [
    | inl partial ↦ rw (some_used, partial) refl
    | inr full ↦ rw (some_used, full) refl
  ]
]

-- The merge of two bitmaps of 8 elements takes each of the 256 blocks through the table of the
-- transitions: a block that the scan found (3) is 3; a block that it did not find (0) goes from
-- allocated (3) to staged (2), and from staged to free (0); and every other state stays.
pub sync_adjust-merge :
    (data_off : ℕ) (live mem : Bmap) (info : Info)
    → length live.bitmapq ≡ 8
    → length mem.bitmapq ≡ 8
    → (n : ℕ) → n < 256
    → state (sync_adjust data_off live mem info).0 n ≡ merge (state live n) (state mem n)
unfolding sync_adjust
sync_adjust-merge data_off live mem info words words' n lt =
    rw (finish_sync-words live mem (sync_words live.bitmapq mem.bitmapq data_off live.avail info)) (
      word-sync_words live.bitmapq mem.bitmapq data_off live.avail info (words' ∙ sym words)
        (n / 32) (omega (arith, words)) (n % 32) (omega arith))

sync_adjust-length :
    (data_off : ℕ) (live mem : Bmap) (info : Info)
    → length (sync_adjust data_off live mem info).0.bitmapq ≡ length live.bitmapq
unfolding sync_adjust
sync_adjust-length data_off live mem info =
    rw (finish_sync-words live mem (sync_words live.bitmapq mem.bitmapq data_off live.avail info))
      (length-sync_words live.bitmapq mem.bitmapq data_off live.avail info)

twice_free : (a b : ℕ) → (merge (merge 3 a) b ≡ 0) ↔ ((a ≡ 0) × (b ≡ 0))
twice_free a b = ground arith

-- Two merges one after the other, of bitmaps of 8 elements: a block that was allocated (3) is free
-- afterwards exactly if neither of the two scans found it.
pub sync_adjust-twice :
    (data_off data_off' : ℕ) (live mem mem' : Bmap) (info info' : Info)
    → length live.bitmapq ≡ 8
    → length mem.bitmapq ≡ 8
    → length mem'.bitmapq ≡ 8
    → (n : ℕ) → n < 256
    → state live n ≡ 3
    → (state (sync_adjust data_off' (sync_adjust data_off live mem info).0 mem' info').0 n ≡ 0)
      ↔ ((state mem n ≡ 0) × (state mem' n ≡ 0))
sync_adjust-twice data_off data_off' live mem mem' info info' words words1 words2 n lt used =
    let first = sync_adjust-merge data_off live mem info words words1 n lt in
    let between = sync_adjust-length data_off live mem info ∙ words in
    let second =
      sync_adjust-merge data_off' (sync_adjust data_off live mem info).0 mem' info' between words2 n
        lt in
    rw (second, first, used) (twice_free (state mem n) (state mem' n))

-- ===== src/Chain/Find.antt =====
-- `hammer2_chain_countbrefs` and `hammer2_base_find`.
pub mod Ordered
pub mod Nearest
pub mod Counted
use windows_hammer2_dfly.Common.{
  ℕ, zero, suc, ◌+◌, ◌-◌, ◌*◌, ◌^◌, Bool, true, false, not, ◌&&◌, ◌||◌, List, [], ◌∷◌, Option, none,
  some, ltb, leb, ◌==◌, if◌then◌else◌, get_or, length, Checked, ok, ◌>>◌, assert,
}
use windows_hammer2_dfly.Common.Words.{u32}
use windows_hammer2_dfly.Chain.Types.{Bref, is_empty, next_key, last_key, entry, Parent}

-- `while (--count >= 0)` down to the last entry in use; the index after it.
unfoldable pub used_end : List Bref → ℕ → ℕ
used_end base zero = 0
used_end base (suc count) =
    let earlier = used_end base count in if is_empty (entry base count) then earlier else suc count

-- One more for each entry in use below an index; `live_count` is an unsigned int.
unfoldable pub count_entries : List Bref → ℕ → ℕ → ℕ
count_entries base zero live_count = live_count
count_entries base (suc n) live_count =
    count_entries base n (if is_empty (entry base n) then live_count else u32 (live_count + 1))

unfoldable pub countbrefs : Parent → Option (List Bref) → ℕ → Parent
countbrefs p none count = if p.counted then p else record p { live_zero = 0; counted = true }
countbrefs p (some base) count = if p.counted then p else record p {
  live_zero = used_end base count;
  live_count = count_entries base (used_end base count) p.live_count;
  counted = true;
}

-- Search backwards.
unfoldable pub search_back : List Bref → ℕ → ℕ → ℕ
search_back base key zero = 0
search_back base key (suc i) =
    let earlier = search_back base key i in
    if is_empty (entry base (suc i)) || ltb key (entry base (suc i)).key then earlier else suc i

-- The entry encloses the key or lies after it.
abbrev pub reaches : ℕ → Bref → Bool
reaches key e = not (is_empty e) && (ltb key e.key || leb key (last_key e))

-- How the forward loop ends: at an index, which is `count` if no test has stopped it, or by the
-- `return (count)` in it.
pub data Stop : Type 0 where
  stopped : ℕ → Stop
  beyond : Stop

-- Search forwards, with the entries left.
unfoldable pub search_forward : ℕ → List Bref → ℕ → ℕ → ℕ → Stop
search_forward zero base limit key i = stopped i
search_forward (suc left) base limit key i =
    let later = search_forward left base limit key (i + 1) in
    if reaches key (entry base i) then stopped i else if leb limit i then beyond else later

-- The index, `parent->cache_index` and `*key_nextp`.
pub record Lookup : Type 0 where
  pub index : ℕ
  pub cache_index : ℕ
  pub key_next : ℕ

unfoldable pub nearer_key : ℕ → ℕ → ℕ
nearer_key scan_end key_next =
    if not (scan_end == 0) && (ltb scan_end key_next || key_next == 0) then scan_end else key_next

unfoldable pub end_search : List Bref → ℕ → ℕ → ℕ → ℕ → Stop → Lookup
end_search base count limit start key_next beyond = record {
  index = count;
  cache_index = start;
  key_next = key_next;
}
end_search base count limit start key_next (stopped i) =
    if i == count
    then record { index = count; cache_index = start; key_next = key_next }
    else if leb limit i
    then record { index = count; cache_index = i; key_next = key_next }
    else record {
      index = i;
      cache_index = i;
      key_next = nearer_key (next_key (entry base i)) key_next;
    }

-- Where the search starts: `cache_index`, brought below `live_zero`.
abbrev pub start_index : Parent → ℕ
start_index p = if leb p.live_zero p.cache_index then p.live_zero - 1 else p.cache_index

unfoldable pub search : Parent → List Bref → ℕ → ℕ → ℕ → Lookup
search p base count key_next key =
    let i = search_back base key (start_index p) in
    end_search base count p.live_zero i key_next (search_forward (count - i) base p.live_zero key i)

-- `none` is the NULL of a parent whose block array has no storage yet.
unfoldable pub base_find : Parent → Option (List Bref) → ℕ → ℕ → ℕ → Checked Lookup
base_find p none count key_next key =
    assert p.counted
    >> ok (record { index = count; cache_index = p.cache_index; key_next = key_next })
base_find p (some base) count key_next key =
    if count == 0
    then assert p.counted
      >> ok (record { index = count; cache_index = p.cache_index; key_next = key_next })
    else assert p.counted
      >> (assert (ltb (start_index p) count) >> ok (search p base count key_next key))

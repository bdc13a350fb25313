-- ===== src/Tests/BulkfreeRuns.antt =====
-- Runs of hammer2_bulkfree.c.
use windows_hammer2_dfly.Common.{
  ℕ, zero, suc, ◌+◌, ◌*◌, ◌%◌, ◌^◌, ◌<◌, ◌≡◌, ◌↔◌, refl, true, false, false≢true, List, [], ◌∷◌,
  get_or, ok, arith,
}
use windows_hammer2_dfly.Common.Pairs.Masks.{clear_count}
use windows_hammer2_dfly.Freemap.Bmap.{Bmap}
use windows_hammer2_dfly.Freemap.Bmap.Marks.{state}
use windows_hammer2_dfly.Freemap.Bmap.Space.{IsCounted}
use windows_hammer2_dfly.Bulkfree.Types.{Info}
use windows_hammer2_dfly.Bulkfree.Sync.{sync_adjust}
use windows_hammer2_dfly.Bulkfree.Turn.{merge}
use windows_hammer2_dfly.Bulkfree.Account.{sync_adjust-IsCounted}
use windows_hammer2_dfly.Bulkfree.Merge.{sync_adjust-merge, sync_adjust-twice}
use windows_hammer2_dfly.Bulkfree.Record.{Range, Gather, init_bmap}
use windows_hammer2_dfly.Bulkfree.Found.{IsCollected}
use windows_hammer2_dfly.Bulkfree.Scanned.{IsGathering}
use windows_hammer2_dfly.Bulkfree.Init.{init_bmap-IsCollected}
use windows_hammer2_dfly.Bulkfree.Safety.{
  Visit, visits, AllQuiet, done, more, IsScanned, visits-IsScanned, visits-sync_adjust,
}

-- Block 0 is allocated and block 1 staged.
abbrev live_bmap : Bmap
live_bmap = record {
  linear = 32768;
  class = 784;
  avail = 254 * 16384;
  bitmapq = 11 ∷ 0 ∷ 0 ∷ 0 ∷ 0 ∷ 0 ∷ 0 ∷ 0 ∷ [];
}

abbrev empty_bmap : Bmap
empty_bmap = record {
  linear = 0;
  class = 0;
  avail = 4194304;
  bitmapq = 0 ∷ 0 ∷ 0 ∷ 0 ∷ 0 ∷ 0 ∷ 0 ∷ 0 ∷ [];
}

abbrev start_info : Info
start_info = record {
  adj_free = 0;
  count_10_00 = 0;
  count_11_10 = 0;
  count_00_11 = 0;
  count_01_11 = 0;
  count_10_11 = 0;
  count_l0cleans = 0;
  count_linadjusts = 0;
  requests = [];
}

live_bmap-IsCounted : IsCounted live_bmap
unfolding clear_count
live_bmap-IsCounted = record { words = refl; avail = refl }

sync_adjust-merge_example :
    state (sync_adjust 0 live_bmap empty_bmap start_info).0 1
    ≡ merge (state live_bmap 1) (state empty_bmap 1)
sync_adjust-merge_example =
    sync_adjust-merge 0 live_bmap empty_bmap start_info refl refl 1 (omega arith)

sync_adjust-IsCounted_example :
    IsCounted (sync_adjust 0 live_bmap empty_bmap start_info).0
    × (((sync_adjust 0 live_bmap empty_bmap start_info).1.adj_free + 254 * 16384) % 2 ^ 64
        ≡ (0 + (sync_adjust 0 live_bmap empty_bmap start_info).0.avail) % 2 ^ 64)
sync_adjust-IsCounted_example =
    sync_adjust-IsCounted 0 live_bmap empty_bmap start_info live_bmap-IsCounted refl

sync_adjust-twice_example :
    (state
        (sync_adjust 0 (sync_adjust 0 live_bmap empty_bmap start_info).0 empty_bmap start_info).0
        0
      ≡ 0)
    ↔ ((state empty_bmap 0 ≡ 0) × (state empty_bmap 0 ≡ 0))
sync_adjust-twice_example =
    sync_adjust-twice 0 0 live_bmap empty_bmap empty_bmap start_info start_info refl refl refl 0
      (omega arith) refl

-- 4MB after the reserved area of a zone.
abbrev range : Range
range = record {
  sbase = 2 ^ 30 + 2 ^ 22;
  sstop = 2 ^ 30 + 2 ^ 23;
  allocator_beg = 2 ^ 24;
  total_size = 2 ^ 31;
}

abbrev gather : Gather
gather = record {
  signaled = false;
  bulkfree_calls = 0;
  bulkfree_ticks = 0;
  bmaps = init_bmap true ∷ [];
}

range-IsGathering : IsGathering range (init_bmap true ∷ [])
range-IsGathering = record { aligned = refl; covered = refl; bounded = omega arith; each = each }
  where
    each : (i : ℕ) → i < 1 → IsCollected (get_or (init_bmap true ∷ []) i (init_bmap true))
    each zero lt = init_bmap-IsCollected true
    each (suc i) lt = absurd (omega arith)

-- 64KB of data at the fourth block of the range.
abbrev visit : Visit
visit = record {
  call = record { signal = 0; ticks = 0; tps = 5000 };
  type = 3;
  data_off = 2 ^ 30 + 2 ^ 22 + 65536 + 16;
}

-- 2KB behind a fragment of 1KB of the sixth block, and a reference without storage.
abbrev fragment : Visit
fragment = record visit { data_off = 2 ^ 30 + 2 ^ 22 + 98304 + 1024 + 11 }

abbrev empty : Visit
empty = record visit { data_off = 0 }

abbrev scan : List Visit
scan = fragment ∷ empty ∷ visit ∷ []

scan-AllQuiet : AllQuiet range scan
scan-AllQuiet =
    more
      (record {
        signal = refl;
        reference =
            λ here. record { sized = omega arith; packed = omega arith; whole = omega arith };
      })
      (more (record { signal = refl; reference = λ here. absurd (false≢true here) })
        (more
          (record {
            signal = refl;
            reference =
                λ here. record { sized = omega arith; packed = omega arith; whole = omega arith };
          })
          done))

visits-IsScanned_example :
    (g' : Gather) × (visits range scan gather ≡ ok g') × IsScanned range scan gather.bmaps g'.bmaps
visits-IsScanned_example = visits-IsScanned range scan gather range-IsGathering scan-AllQuiet

visited : (g' : Gather) × (visits range scan gather ≡ ok g')
visited =
    let (g', e, s) = visits-IsScanned range scan gather range-IsGathering scan-AllQuiet in (g', e)

visits-sync_adjust_example :
    state (sync_adjust 0 live_bmap (get_or visited.0.bmaps 0 (init_bmap true)) start_info).0 6 ≡ 3
visits-sync_adjust_example =
    visits-sync_adjust range scan gather visited.0 range-IsGathering scan-AllQuiet visited.1 0
      live_bmap start_info refl 6 (omega arith) refl

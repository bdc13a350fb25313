-- ===== src/Tests/FreemapRuns.antt =====
-- Runs of hammer2_freemap.c: a new 4MB bitmap, a full one, and a small device.
use windows_hammer2_dfly.Common.{
  ℕ, ◌+◌, ◌-◌, ◌*◌, ◌%◌, ◌^◌, ◌≤◌, ◌<◌, ◌≡◌, ◌≢◌, refl, bit_or, Bool, true, false, none, some, ◌∷◌,
  get_or, set, replicate, ok, arith,
}
use windows_hammer2_dfly.Freemap.Bmap.{
  bmradix_of, low_mask, use_linear, scan_element, scan_word, scan_elements, slot_at, scan_slot,
  keyed_slot, find_slot, covering_mask, newnz_of, bgsize_of, Alloc, commit_slot, bmap_alloc,
}
use windows_hammer2_dfly.Freemap.Bmap.Fit.{fit}
use windows_hammer2_dfly.Freemap.Bmap.Marks.{state, IsMarked, bmap_alloc-IsMarked}
use windows_hammer2_dfly.Freemap.Bmap.Space.{IsCounted, bmap_alloc-IsCounted}
use windows_hammer2_dfly.Freemap.Bmap.Total.{Returns, bmap_alloc-Returns, bmap_alloc-none}
use windows_hammer2_dfly.Common.Pairs.Masks.{clear_count}
use windows_hammer2_dfly.Freemap.Types.{Blockref, Leaf, Dev, Fiterate}
use windows_hammer2_dfly.Freemap.Leaf.{zero_bmap, free_bmap, full_bmap, freemap_init}
use windows_hammer2_dfly.Freemap.Leaf.Usable.{IsUsable, avail_sum, freemap_init-IsUsable}
use windows_hammer2_dfly.Freemap.Reserve.{freemap_reserve}
use windows_hammer2_dfly.Freemap.Reserve.Rotate.{level1, place, freemap_reserve-Rotates}
use windows_hammer2_dfly.Disk.{freemap_count}
use windows_hammer2_dfly.Freemap.Alloc.Places.{IsPlaced, asked, is_worth, scan_leaf-Finds}
use windows_hammer2_dfly.Freemap.Alloc.{scan_leaf, freemap_alloc}
use windows_hammer2_dfly.Freemap.Alloc.Ends.{Settles, freemap_alloc-Settles}
use windows_hammer2_dfly.Freemap.Adjust.{
  Marking, mark_block, mark_blocks, bmap_index, element_index, start_bit, marked_bmap, adjust_leaf,
}
use windows_hammer2_dfly.Freemap.Adjust.Recover.{
  bmap_of, coded_block, true_block, adjust_leaf-marks, adjust_leaf-misses,
}

-- 16KB of data for key 0 from a new bitmap at 4MB.
abbrev served : Alloc
served = record {
  bmap = record { linear = 0; class = 784; avail = 4177920; bitmapq = 3 ∷ replicate 7 0 };
  base = 4194304;
  free = 2 ^ 30 - 16384;
  newnz = some 4194320;
}

served-runs : bmap_alloc (2 ^ 30) free_bmap 784 0 14 4194304 ≡ ok (some served)
unfolding bmap_alloc find_slot use_linear keyed_slot scan_slot scan_elements scan_word scan_element
    low_mask bmradix_of slot_at commit_slot newnz_of covering_mask bgsize_of
served-runs = refl

full-runs : bmap_alloc (2 ^ 30) full_bmap 784 0 14 4194304 ≡ ok none
unfolding bmap_alloc find_slot use_linear keyed_slot scan_slot scan_elements scan_word scan_element
    low_mask bmradix_of slot_at
full-runs = refl

radix_14 : 14 ≤ 16
radix_14 = omega arith

bmap_alloc-IsMarked_example : IsMarked (fit 14 radix_14) free_bmap 4194304 served
bmap_alloc-IsMarked_example =
    bmap_alloc-IsMarked 14 (2 ^ 30) free_bmap 784 0 4194304 served radix_14 refl served-runs

free-IsCounted : IsCounted free_bmap
unfolding clear_count
free-IsCounted = record { words = refl; avail = refl }

bmap_alloc-IsCounted_example :
    IsCounted served.bmap
    × (served.free + 4194304 ≡ 2 ^ 30 + served.bmap.avail)
    × (served.bmap.avail ≤ served.free)
bmap_alloc-IsCounted_example =
    bmap_alloc-IsCounted 14 (2 ^ 30) free_bmap 784 0 4194304 served radix_14 free-IsCounted
      (omega arith) (omega arith) served-runs

bmap_alloc-Returns_example : Returns (bmap_alloc (2 ^ 30) free_bmap 784 16384 14 4194304)
bmap_alloc-Returns_example =
    bmap_alloc-Returns 14 (2 ^ 30) free_bmap 784 16384 4194304 radix_14 refl (record {
      linear_small = omega arith;
      linear_whole = refl;
      key_whole = λ large is_data. refl;
    })

bmap_alloc-none_example :
    (use_linear full_bmap (2 ^ 14) ≡ false)
    × ((p : ℕ)
        → p < 256
        → p % (fit 14 radix_14).blocks ≡ 0
        → ¬ ((n : ℕ) → p ≤ n → n < p + (fit 14 radix_14).blocks → state full_bmap n ≡ 0))
bmap_alloc-none_example =
    bmap_alloc-none 14 (2 ^ 30) full_bmap 784 0 4194304 radix_14 refl full-runs

-- A device of 2GB without leaves, and a block of data.
abbrev device : Dev
device = record {
  spmp = true;
  total_size = 2 ^ 31;
  allocator_beg = 2 ^ 22;
  allocator_free = 2 ^ 31 - 2 ^ 23;
  freemap_relaxed = false;
  heur_freemap = replicate 32 0;
  leaves = λ key. none;
}

abbrev data_bref : Blockref
data_bref = record { type = 3; keybits = 14; key = 0; data_off = 0 }

abbrev creates : ℕ → Bool
creates key = true

freemap_alloc-Settles_example : Settles (freemap_alloc 17 creates device data_bref 16384)
freemap_alloc-Settles_example =
    freemap_alloc-Settles 17 creates device data_bref 16384 (omega arith) (omega arith)

abbrev first_round : Fiterate
first_round = record { bpref = 0; bnext = 0; loops = 0; relaxed = false }

freemap_init-IsUsable_example :
    ((n : ℕ)
      → n < 256
      → (IsUsable (2 ^ 22) (2 ^ 31) (2 ^ 30 + n * 2 ^ 22)
          → get_or ((freemap_init (2 ^ 22) (2 ^ 31) (2 ^ 30)).bmdata) n zero_bmap ≡ free_bmap)
        × (¬ IsUsable (2 ^ 22) (2 ^ 31) (2 ^ 30 + n * 2 ^ 22)
            → get_or ((freemap_init (2 ^ 22) (2 ^ 31) (2 ^ 30)).bmdata) n zero_bmap ≡ full_bmap))
    × ((freemap_init (2 ^ 22) (2 ^ 31) (2 ^ 30)).avail
        ≡ avail_sum ((freemap_init (2 ^ 22) (2 ^ 31) (2 ^ 30)).bmdata))
freemap_init-IsUsable_example =
    freemap_init-IsUsable (2 ^ 22) (2 ^ 31) (2 ^ 30) (omega arith) (omega arith) (omega arith) refl

-- The leaf of the second GB, at the last of its places.
abbrev leaf_bref : Blockref
leaf_bref = record {
  type = 6;
  keybits = 30;
  key = 2 ^ 30;
  data_off = bit_or (place level1 (2 ^ 30) 7) 15;
}

freemap_reserve-Rotates_example :
    (leaf_bref.data_off ≡ bit_or (place level1 (2 ^ 30) 7) 15
      → freemap_reserve leaf_bref 15
        ≡ ok (record leaf_bref { data_off = bit_or (place level1 (2 ^ 30) ((7 + 1) % 8)) 15 }))
    × (leaf_bref.data_off ≡ 0
        → freemap_reserve leaf_bref 15
          ≡ ok (record leaf_bref { data_off = bit_or (place level1 (2 ^ 30) 0) 15 }))
freemap_reserve-Rotates_example =
    freemap_reserve-Rotates level1 leaf_bref 7 refl refl (omega arith) (omega arith)

-- A recovery of the 16KB block 20 of a leaf whose bitmaps are new.
abbrev new_leaf : Leaf
new_leaf = record {
  bmdata = replicate 256 free_bmap;
  bigmask = 2 ^ 32 - 1;
  avail = 2 ^ 30;
  error = false;
}

abbrev recovered : Leaf × Marking
recovered = (
  record {
    bmdata =
        set (replicate 256 free_bmap) 0
          (record { linear = 0; class = 784; avail = 4177920; bitmapq = 768 ∷ replicate 7 0 });
    bigmask = 2 ^ 32 - 1;
    avail = 2 ^ 30;
    error = false;
  },
  record { word = 768; avail = 4177920; class = 784; bgsize = 16384; modified = true },
)

recovered-runs : adjust_leaf new_leaf 784 327680 14 ≡ ok recovered
unfolding adjust_leaf mark_blocks mark_block bmap_index element_index start_bit marked_bmap
recovered-runs = refl

adjust_leaf-marks_example :
    (state (bmap_of recovered.0 327680) (coded_block 327680) ≡ 3)
    × ((n : ℕ)
        → n ≢ coded_block 327680
        → state (bmap_of recovered.0 327680) n ≡ state (bmap_of new_leaf 327680) n)
unfolding bmap_index
adjust_leaf-marks_example =
    adjust_leaf-marks new_leaf 784 327680 14 recovered (omega arith) refl refl recovered-runs

adjust_leaf-misses_example : state (bmap_of recovered.0 327680) (true_block 327680) ≡ 0
unfolding bmap_index
adjust_leaf-misses_example =
    adjust_leaf-misses new_leaf 784 327680 14 recovered (omega arith) refl refl (omega arith) refl
      recovered-runs

scan_leaf-Finds_example :
    ((n : ℕ) (a : Alloc)
      → scan_leaf (2 ^ 30) new_leaf data_bref 14 false 0 9 freemap_count 0 ≡ ok (some (n, a))
      → IsPlaced (2 ^ 30) new_leaf data_bref 14 false 0 n a)
    × (scan_leaf (2 ^ 30) new_leaf data_bref 14 false 0 9 freemap_count 0 ≡ ok none
        → (n : ℕ) → n < 256
        → is_worth (2 ^ 30) new_leaf data_bref 14 false 0 n ≡ true
        → asked (2 ^ 30) new_leaf data_bref 14 false 0 n ≡ ok none)
scan_leaf-Finds_example = scan_leaf-Finds (2 ^ 30) new_leaf data_bref 14 false 0 9 (omega arith)

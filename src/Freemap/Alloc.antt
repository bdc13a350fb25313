-- ===== src/Freemap/Alloc.antt =====
-- `hammer2_freemap_alloc`, `hammer2_freemap_try_alloc` and `hammer2_freemap_iterate`.
pub mod Ends
pub mod Places
use windows_hammer2_dfly.Common.{
  ℕ, zero, suc, ◌+◌, ◌-◌, ◌*◌, ◌/◌, ◌%◌, ◌^◌, ◌<◌, bit_or, Bool, true, false, not, ◌&&◌, ◌||◌, List,
  Option, none, some, ltb, leb, ◌==◌, if◌then◌else◌, get_or, set, Checked, ok, panic, ◌>>=◌, ◌>>◌,
  assert,
}
use windows_hammer2_dfly.Common.Words.{u16, u64, ◌<<<◌, low_bits, high_bits}
use windows_hammer2_dfly.Disk.{
  alloc_min, alloc_max, zone_radix, zone_seg, level1_radix, level1_size, level0_radix, level0_size,
  freemap_count, freemap_block_radix, pbuf_radix, lbuf_radix, fm_base,
}
use windows_hammer2_dfly.Disk.BrefType.{content, freemap_node, freemap_leaf}
use windows_hammer2_dfly.Subr.Radix.{getradix}
use windows_hammer2_dfly.Freemap.Bmap.{Bmap, Alloc, bmap_alloc}
use windows_hammer2_dfly.Freemap.Types.{
  Blockref, Leaf, Leaves, Dev, Fiterate, Status, done, eio, enospc, eagain,
}
use windows_hammer2_dfly.Freemap.Reserve.{freemap_reserve}
use windows_hammer2_dfly.Freemap.Leaf.{zero_bmap, freemap_init}

unfoldable pub freemap_iterate : ℕ → Fiterate → Fiterate × Status
freemap_iterate total_size iter =
    let bnext = u64 (high_bits iter.bnext level1_radix + level1_size) in
    if leb total_size bnext
    then (if leb 2 (iter.loops + 1)
        then (if iter.relaxed
            then (record iter { bnext = 0; loops = iter.loops + 1 }, enospc)
            else (record iter { bnext = 0; loops = iter.loops + 1; relaxed = true }, eagain))
        else (record iter { bnext = 0; loops = iter.loops + 1 }, eagain))
    else (record iter { bnext = bnext }, eagain)

-- (type << 8) | HAMMER2_PBUFRADIX
unfoldable pub class_of : Blockref → ℕ
class_of bref = u16 (bit_or (bref.type <<< 8) pbuf_radix)

-- Entry `n` of a leaf is worth a try: it has space, and its class fits or the search is relaxed.
unfoldable pub worth_trying : Bmap → ℕ → ℕ → Bool → Bool
worth_trying bmap class radix relaxed =
    (not (bmap.avail == 0)
      || (ltb radix freemap_block_radix && not (low_bits bmap.linear freemap_block_radix == 0)))
    && (bmap.class == 0 || bmap.class == class || relaxed)

-- One of the two tries of a round, forwards or backwards; `n` may be out of range.
unfoldable pub try_entry : ℕ → Leaf → Blockref → ℕ → Bool → ℕ → ℕ → Checked (Option Alloc)
try_entry free leaf bref radix relaxed key n =
    let bmap = get_or leaf.bmdata n zero_bmap in
    if ltb n freemap_count && worth_trying bmap (class_of bref) radix relaxed
    then bmap_alloc free bmap (class_of bref) bref.key radix (u64 (key + n * level0_size))
    else ok none

-- The loop over `count`, with the rounds left: the entry that served, and the allocation.
unfoldable pub scan_leaf :
    ℕ → Leaf → Blockref → ℕ → Bool → ℕ → ℕ → ℕ → ℕ → Checked (Option (ℕ × Alloc))
scan_leaf free leaf bref radix relaxed key start zero count = ok none
scan_leaf free leaf bref radix relaxed key start (suc left) count =
    let rest = scan_leaf free leaf bref radix relaxed key start left (count + 1) in
    let backward : Checked (Option (ℕ × Alloc)) =
      (if leb count start
        then try_entry free leaf bref radix relaxed key (start - count)
        else ok none)
      >>= λ found. elim found [ some a ↦ ok (some (start - count, a)) | none ↦ rest ] in
    let both : Checked (Option (ℕ × Alloc)) =
      try_entry free leaf bref radix relaxed key (start + count) >>= λ found. elim found [
        | some a ↦ ok (some (start + count, a))
        | none ↦ backward
      ] in
    if leb freemap_count (start + count) && ltb start count then ok none else both

-- `hammer2_chain_lookup`, and `hammer2_chain_create` with the initialisation of the new leaf. That
-- the creation succeeds at a key is asserted.
unfoldable pub lookup_leaf : (ℕ → Bool) → Dev → ℕ → Checked (Leaf × Bool)
lookup_leaf create dev key = elim (dev.leaves key) [
  | some leaf ↦ ok (leaf, false)
  | none ↦ assert (create key) >>= λ _. ok (freemap_init dev.allocator_beg dev.total_size key, true)
]

abbrev pub put_leaf : Dev → ℕ → Leaf → Dev
put_leaf dev key leaf = record dev { leaves = λ k. if k == key then some leaf else dev.leaves k }

-- The bit of `bigmask` for a radix, and `bigmask` without it.
abbrev pub has_radix : ℕ → ℕ → Bool
has_radix bigmask radix = bigmask / 2 ^ radix % 2 == 1

abbrev pub without_radix : ℕ → ℕ → ℕ
without_radix bigmask radix = bigmask - bigmask / 2 ^ radix % 2 * 2 ^ radix

-- What one call leaves behind. `dedup` says that `hammer2_io_dedup_set` is called.
pub record Tried : Type 0 where
  pub status : Status
  pub dev : Dev
  pub bref : Blockref
  pub iter : Fiterate
  pub dedup : Bool

-- The end of a try without space.
unfoldable pub exhausted : Dev → Blockref → Fiterate → Tried
exhausted dev bref iter =
    let next = freemap_iterate dev.total_size iter in
    record { status = next.1; dev = dev; bref = bref; iter = next.0; dedup = false }

-- The end of a try that found storage: the assertions, and the new data offset.
unfoldable pub placed : Dev → Blockref → ℕ → Fiterate → ℕ → Checked Tried
placed dev bref radix iter key = do
  assert (leb dev.allocator_beg key && leb (key + 2 ^ radix) dev.total_size)
  assert (leb zone_seg (low_bits key zone_radix))
  ok (record {
    status = done;
    dev = dev;
    bref = record bref { data_off = bit_or key radix };
    iter = iter;
    dedup = bref.type == content;
  })

-- The scan of a leaf that was found or made.
unfoldable pub search_leaf : Dev → Blockref → ℕ → Fiterate → ℕ → Leaf → Checked Tried
search_leaf dev bref radix iter key leaf =
    let start = (iter.bnext - key) / 2 ^ level0_radix in
    do
      assert (ltb start freemap_count)
      found ← scan_leaf dev.allocator_free leaf bref radix iter.relaxed key start freemap_count 0
      elim found [
        | some hit ↦
            placed
              (put_leaf (record dev { allocator_free = hit.1.free }) key
                (record leaf { bmdata = set leaf.bmdata hit.0 hit.1.bmap }))
              bref radix iter hit.1.base
        | none ↦
            let spent =
              if start == 0 && iter.relaxed
              then record leaf { bigmask = without_radix leaf.bigmask radix }
              else leaf in
            ok (exhausted (put_leaf dev key spent) bref iter)
      ]

unfoldable pub try_alloc : (ℕ → Bool) → Dev → Blockref → ℕ → Fiterate → Checked Tried
try_alloc create dev bref radix iter =
    let key = fm_base iter.bnext level1_radix in
    do
      found ← lookup_leaf create dev key
      (if found.1
          then search_leaf dev bref radix iter key found.0
          else if found.0.error
          then ok (record { status = eio; dev = dev; bref = bref; iter = iter; dedup = false })
          else if not (has_radix found.0.bigmask radix)
          then ok (exhausted dev bref iter)
          else search_leaf dev bref radix iter key found.0)

-- `while (error == EAGAIN)`; `none` is fuel that ran out.
unfoldable pub alloc_loop : ℕ → (ℕ → Bool) → Dev → Blockref → ℕ → Fiterate → Option (Checked Tried)
alloc_loop zero create dev bref radix iter = none
alloc_loop (suc fuel) create dev bref radix iter = elim (try_alloc create dev bref radix iter) [
  | panic ↦ some panic
  | ok t ↦ elim t.status [
    | eagain ↦ alloc_loop fuel create t.dev t.bref radix t.iter
    | _ ↦ some (ok t)
  ]
]

-- HAMMER2_FREEMAP_HEUR_NRADIX is 4, and 8 types share the table.
unfoldable pub heur_index : Blockref → ℕ
heur_index bref = (pbuf_radix - lbuf_radix + bref.type * 4) % 32

unfoldable pub first_iter : Dev → Blockref → Fiterate
first_iter dev bref =
    let heur = get_or dev.heur_freemap (heur_index bref) 0 in
    let bpref = if ltb dev.total_size heur then dev.total_size - 1 else heur in
    record { bpref = bpref; bnext = bpref; loops = 0; relaxed = dev.freemap_relaxed }

-- After the loop the hints are stored in the device.
unfoldable pub keep_hints : Tried → Tried
keep_hints t = record t {
  dev = record (t.dev) {
    freemap_relaxed = t.dev.freemap_relaxed || t.iter.relaxed;
    heur_freemap = set t.dev.heur_freemap (heur_index t.bref) t.iter.bnext;
  };
}

unfoldable pub alloc_data : ℕ → (ℕ → Bool) → Dev → Blockref → ℕ → ℕ → Option (Checked Tried)
alloc_data fuel create dev bref bytes radix =
    if leb alloc_min bytes && leb bytes alloc_max
    then elim (alloc_loop fuel create dev bref radix (first_iter dev bref)) [
      | none ↦ none
      | some r ↦ some (r >>= λ t. ok (keep_hints t))
    ]
    else some panic

-- A result that leaves the device alone.
abbrev pub settled : Dev → Blockref → Tried
settled dev bref = record {
  status = done;
  dev = dev;
  bref = bref;
  iter = record { bpref = 0; bnext = 0; loops = 0; relaxed = false };
  dedup = false;
}

-- With the radix known: freemap blocks come from the reserved area, others from the freemap.
unfoldable pub alloc_radix : ℕ → (ℕ → Bool) → Dev → Blockref → ℕ → ℕ → Option (Checked Tried)
alloc_radix fuel create dev bref bytes radix =
    if not (2 ^ radix == bytes)
    then some panic
    else if bref.type == freemap_node || bref.type == freemap_leaf
    then some (freemap_reserve bref radix >>= λ reserved. ok (settled dev reserved))
    else alloc_data fuel create dev bref bytes radix

unfoldable pub freemap_alloc : ℕ → (ℕ → Bool) → Dev → Blockref → ℕ → Option (Checked Tried)
freemap_alloc fuel create dev bref bytes =
    if bytes == 0
    then some (ok (settled dev (record bref { data_off = 0 })))
    else elim (assert dev.spmp >>= λ _. getradix bytes) [
      | panic ↦ some panic
      | ok radix ↦ alloc_radix fuel create dev bref bytes radix
    ]

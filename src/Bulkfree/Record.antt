-- ===== src/Bulkfree/Record.antt =====
-- `cbinfo_bmap_init` and `h2_bulkfree_callback`: the bitmaps in memory, one for each 4MB of the
-- range that is collected, and the record of a block reference in them.
use windows_hammer2_dfly.Common.{
  ℕ, zero, suc, ◌+◌, ◌-◌, ◌*◌, ◌/◌, ◌^◌, bit_and, bit_or, Bool, true, not, ◌&&◌, ◌||◌, List, [],
  ◌∷◌, replicate, ltb, leb, ◌==◌, if◌then◌else◌, get_or, set, Checked, ok, panic, ◌>>=◌, ◌>>◌,
  assert,
}
use windows_hammer2_dfly.Common.Words.{u16, u32, u64, sub32, ◌<<<◌, low_bits, high_bits}
use windows_hammer2_dfly.Disk.{
  seg_size, seg_radix, zone_seg, level0_size, level0_radix, level1_radix, freemap_block_radix,
  freemap_block_size, bmap_index_radix, bmap_elements, pbuf_radix, off_radix_bits, fm_base,
  fm_zone_base,
}
use windows_hammer2_dfly.Disk.{BrefType.content as data_type, BrefType.dirent as dirent_type}
use windows_hammer2_dfly.Freemap.Bmap.{Bmap}
use windows_hammer2_dfly.Bulkfree.Sync.{signed_lt}

-- The bounds of the range, and of the storage that the freemap covers.
pub record Range : Type 0 where
  pub sbase : ℕ
  pub sstop : ℕ
  pub allocator_beg : ℕ
  pub total_size : ℕ

-- Free and at the start, or unusable.
unfoldable pub init_bmap : Bool → Bmap
init_bmap usable =
    if usable
    then record { linear = 0; class = 0; avail = level0_size; bitmapq = replicate bmap_elements 0 }
    else record {
      linear = seg_size;
      class = 0;
      avail = 0;
      bitmapq = replicate bmap_elements (2 ^ 64 - 1);
    }

-- `lokey`, which the loop raises for the bitmap at `key`.
unfoldable pub raised_lokey : ℕ → ℕ → ℕ
raised_lokey key lokey =
    let base = if ltb lokey (fm_base key level1_radix) then fm_base key level1_radix else lokey in
    if ltb base (u64 (fm_zone_base key + zone_seg)) then u64 (fm_zone_base key + zone_seg) else base

-- The loop of `cbinfo_bmap_init`, for the bitmaps that are left.
unfoldable pub init_bmaps : ℕ → ℕ → ℕ → ℕ → List Bmap
init_bmaps zero key lokey hikey = []
init_bmaps (suc left) key lokey hikey =
    let low = raised_lokey key lokey in
    init_bmap (not (ltb key low || leb hikey key))
    ∷ init_bmaps left (u64 (key + level0_size)) low hikey

unfoldable pub bmap_init : Range → ℕ → List Bmap
bmap_init r count =
    init_bmaps count r.sbase (high_bits (u64 (r.allocator_beg + (2 ^ seg_radix - 1))) seg_radix)
      (high_bits r.total_size seg_radix)

-- The change of `linear` for a record of `bytes` at `off`.
unfoldable pub linear_for : ℕ → ℕ → ℕ → ℕ
linear_for linear off bytes =
    let end = u32 (off + bytes) in
    if not (low_bits bytes freemap_block_radix == 0)
    then (if signed_lt linear end then end else linear)
    else if not (signed_lt linear (u32 off)) && signed_lt linear end
    then end
    else linear

-- One turn of the loop over the blocks.
unfoldable pub record_block : ℕ → ℕ → Bmap → Bmap
record_block bytes off b =
    let bindex = off / 2 ^ bmap_index_radix in
    let bmask = u64 (3 <<< (low_bits off bmap_index_radix / 2 ^ freemap_block_radix * 2)) in
    if bit_and (get_or b.bitmapq bindex 0) bmask == 0
    then record b {
      avail = sub32 b.avail (if ltb bytes freemap_block_size then freemap_block_size else bytes);
      bitmapq = set b.bitmapq bindex (bit_or (get_or b.bitmapq bindex 0) bmask);
    }
    else b

-- `while (bytes > 0)`, with the turns left; `panic` stands for a loop that has not ended by then.
unfoldable pub record_blocks : ℕ → ℕ → ℕ → Bmap → Checked Bmap
record_blocks zero bytes off b = if bytes == 0 then ok b else panic
record_blocks (suc left) bytes off b =
    let rest =
      record_blocks left (bytes - freemap_block_size) (off + freemap_block_size)
        (record_block bytes off b) in
    if bytes == 0 then ok b else rest

-- The bitmap that covers the data, for `off` in its 4MB. The class is `bref->type << 8 | 16`.
unfoldable pub record_in : ℕ → ℕ → ℕ → Bmap → Checked Bmap
record_in type off bytes b =
    let within = if ltb level0_size (off + bytes) then level0_size - off else bytes in
    let classed : Bmap =
      if b.class == 0
      then record b { class = u16 (bit_or (type <<< 8) pbuf_radix); avail = level0_size }
      else b in
    record_blocks 256 within off (record classed { linear = linear_for classed.linear off within })

-- From the range test on; `data_off` is the reference's, with the radix in its low bits.
unfoldable pub record_data : Range → ℕ → ℕ → List Bmap → Checked (List Bmap)
record_data r type data_off bmaps =
    let off = high_bits data_off off_radix_bits in
    let radix = low_bits data_off off_radix_bits in
    let size = u64 (1 <<< radix) in
    let bytes = if ltb r.sstop (u64 (off + size)) then r.sstop - off else size in
    let index = (off - r.sbase) / 2 ^ level0_radix in
    if ltb off r.sbase || leb r.sstop off
    then ok bmaps
    else if ltb off r.allocator_beg
    then ok bmaps
    else if leb r.total_size off
    then ok bmaps
    else do
      assert (not (radix == 0))
      b ←
          record_in type (low_bits (off - r.sbase) level0_radix) bytes
            (get_or bmaps index (init_bmap true))
      ok (set bmaps index b)

-- The counters of the throttle, and the bitmaps.
pub record Gather : Type 0 where
  pub signaled : Bool
  pub bulkfree_calls : ℕ
  pub bulkfree_ticks : ℕ
  pub bmaps : List Bmap

-- What the environment says in a call: a pending signal, `getticks` after a wait, and the tunable
-- `hammer2_bulkfree_tps`.
pub record Call : Type 0 where
  pub signal : ℕ
  pub ticks : ℕ
  pub tps : ℕ

-- The limit on the references per second; the wait itself changes none of the fields.
unfoldable pub throttle : Call → ℕ → Gather → Gather
throttle c type g =
    if not (type == data_type) && not (type == dirent_type)
    then (if ltb c.tps (g.bulkfree_calls + 1)
        then record g { bulkfree_calls = 0; bulkfree_ticks = c.ticks }
        else record g { bulkfree_calls = g.bulkfree_calls + 1 })
    else g

-- The results of the callback: 0 and HAMMER2_ERROR_ABORTED.
pub data Outcome : Type 0 where
  proceed : Outcome
  aborted : Outcome

unfoldable pub callback : Range → Call → ℕ → ℕ → Gather → Checked (Outcome × Gather)
callback r c type data_off g =
    let g' = throttle c type g in
    if not (c.signal == 0) && not g.signaled
    then ok (aborted, record g { signaled = true })
    else (record_data r type data_off g'.bmaps >>= λ bmaps.
        ok (proceed, record g' { bmaps = bmaps }))

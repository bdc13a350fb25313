-- ===== src/Dio/Put.antt =====
-- `hammer2_io_putblk`, the calls of it, and the cleanup of the hash.
use windows_hammer2_dfly.Common.{
  ℕ, zero, suc, ◌+◌, ◌-◌, ◌/◌, ◌%◌, Bool, true, false, ◌&&◌, ◌||◌, not, Option, none, some, List,
  [], ◌∷◌, length, ltb, ◌==◌, if◌then◌else◌, Checked, ok, panic, ◌>>=◌, ◌>>◌, assert,
}
use windows_hammer2_dfly.Common.Int.{ℤ, pos, negsuc, inc, dec}
use windows_hammer2_dfly.Common.Words.{u32, sub64}
use windows_hammer2_dfly.Disk.{pbuf_size}
use windows_hammer2_dfly.Dio.Types.{
  Dio, IoDev, iohash_size, with_chain, lookup, store, lock_hash, unlock_hash,
}
use windows_hammer2_dfly.Dio.Pages.{Host, dev_bwrite}

-- The activity after `act - (getticks() - dio->ticks) / hz - 1`, but 0 below it.
abbrev pub cooled : Host → ℕ → Dio → ℕ
cooled h now d = d.act - ((now - d.ticks) / h.hz + 1)

-- The inner loop of `hammer2_io_hash_cleanup`: the buffers that stay, and the number of the others.
-- Those without references cool down, and the ones that are cold go.
unfoldable pub clean_chain : Host → ℕ → List Dio → List Dio × ℕ
clean_chain h now [] = ([], 0)
clean_chain h now (d ∷ ds) =
    let (kept, n) = clean_chain h now ds in
    if not (d.refs == 0)
    then (d ∷ kept, n)
    else if not (cooled h now d == 0)
    then (record d { act = cooled h now d } ∷ kept, n)
    else (kept, suc n)

abbrev pub dec_by : ℕ → ℤ → ℤ
dec_by zero z = z
dec_by (suc n) z = dec_by n (dec z)

-- One turn of the outer loop.
unfoldable pub clean_turn : Host → ℕ → ℕ → IoDev → IoDev × ℕ
clean_turn h now i s =
    let (kept, n) = clean_chain h now (s.iohash i) in
    (
      record s {
        iohash = with_chain i kept s.iohash;
        iofree_count = dec_by n s.iofree_count;
        io_iterator = u32 (s.io_iterator + 1);
      },
      n,
    )

-- The outer loop, with the turns left; what is below 0 in `count` ends it as 0 does.
unfoldable pub clean_turns : ℕ → Host → ℕ → ℕ → ℕ → IoDev → IoDev
clean_turns zero h now i count s = s
clean_turns (suc maxscan) h now i count s =
    let rest =
      clean_turns maxscan h now s.io_iterator (count - (clean_turn h now (i % iohash_size) s).1)
        (clean_turn h now (i % iohash_size) s).0 in
    if count == 0 then s else rest

-- `iofree_count - dio_limit + 32`, or 0 below it.
abbrev pub excess : ℤ → ℕ → ℕ
excess (pos n) dio_limit = n + 32 - dio_limit
excess (negsuc n) dio_limit = 32 - (dio_limit + suc n)

unfoldable pub hash_cleanup : Host → ℕ → IoDev → ℕ → IoDev
hash_cleanup h now s dio_limit =
    if excess s.iofree_count dio_limit == 0
    then s
    else clean_turns iohash_size h now s.io_iterator (excess s.iofree_count dio_limit)
        (record s { io_iterator = u32 (s.io_iterator + 1) })

-- `hammer2_io_hash_cleanup_all`, with the chains left: no buffer may have references.
unfoldable pub all_free : List Dio → Bool
all_free [] = true
all_free (d ∷ ds) = d.refs == 0 && all_free ds

unfoldable pub cleanup_chains : ℕ → ℕ → IoDev → Checked IoDev
cleanup_chains zero i s = ok s
cleanup_chains (suc left) i s =
    assert (all_free (s.iohash i))
    >> cleanup_chains left (i + 1) (record s {
      iohash = with_chain i [] s.iohash;
      iofree_count = dec_by (length (s.iohash i)) s.iofree_count;
    })

unfoldable pub hash_cleanup_all : IoDev → Checked IoDev
hash_cleanup_all s = assert (not (s.locked == 0)) >> cleanup_chains iohash_size 0 s

-- `hammer2_dio_limit` within its bounds.
unfoldable pub dio_limit_of : ℕ → ℕ
dio_limit_of n = if ltb n 256 then 256 else if ltb 1048576 n then 1048576 else n

abbrev pub above_limit : ℤ → ℕ → Bool
above_limit (pos n) dio_limit = ltb dio_limit n
above_limit (negsuc n) dio_limit = false

-- The bytes of a dirty buffer are written; an error of that is dropped.
abbrev pub write_content : Host → (ℕ → ℕ → ℕ) → Dio → Option (ℕ → ℕ) → ℕ → ℕ → ℕ
write_content h media d none = media
write_content h media d (some buf) =
    if d.good && d.dirty
    then (dev_bwrite h media d.bdev (sub64 d.pbase d.dbase) buf pbuf_size).1
    else media

unfoldable pub write_out : Host → (ℕ → ℕ → ℕ) → Dio → ℕ → ℕ → ℕ
write_out h media d = write_content h media d d.content

abbrev pub freed : Dio → Dio
freed d = record d { refs = 0; good = false; dirty = false; content = none }

-- The 1->0 transition up to the unlocking of the buffer, and what follows it.
unfoldable pub last_drop : Host → IoDev → Dio → IoDev
last_drop h s d =
    let t = store (freed d) s in
    record t { media = write_out h s.media d; iofree_count = inc s.iofree_count }

unfoldable pub trim : Host → ℕ → ℕ → IoDev → IoDev
trim h now limit s =
    let t = lock_hash s in
    unlock_hash (
      if above_limit t.iofree_count (dio_limit_of limit)
      then hash_cleanup h now t (dio_limit_of limit)
      else t)

-- What a pointer to the buffer at a base is dereferenced for; the base of no buffer is no pointer.
unfoldable pub put_found : Host → ℕ → ℕ → IoDev → Option Dio → Checked IoDev
put_found h now limit s none = panic
put_found h now limit s (some d) =
    if d.refs == 0
    then ok s
    else if d.refs == 1
    then ok (trim h now limit (last_drop h s d))
    else ok (store (record d { refs = d.refs - 1 }) s)

-- `hammer2_io_putblk` of the buffer at a base, at the time `now`; `limit` is `hammer2_dio_limit`.
unfoldable pub putblk : Host → ℕ → ℕ → IoDev → ℕ → Checked IoDev
putblk h now limit s pbase = put_found h now limit s (lookup pbase s)

-- `hammer2_io_setdirty`, and the flags that `_bawrite` and `_bwrite` set.
unfoldable pub flag_found : Bool → IoDev → Option Dio → Checked IoDev
flag_found flush s none = panic
flag_found flush s (some d) = ok (store (record d { dirty = true; flush = d.flush || flush }) s)

unfoldable pub set_flags : Bool → IoDev → ℕ → Checked IoDev
set_flags flush s pbase = flag_found flush s (lookup pbase s)

unfoldable pub setdirty : IoDev → ℕ → Checked IoDev
setdirty s pbase = set_flags false s pbase

unfoldable pub bdwrite : Host → ℕ → ℕ → IoDev → ℕ → Checked IoDev
bdwrite h now limit s pbase = set_flags false s pbase >>= λ t. putblk h now limit t pbase

unfoldable pub bawrite : Host → ℕ → ℕ → IoDev → ℕ → Checked IoDev
bawrite h now limit s pbase = set_flags true s pbase >>= λ t. putblk h now limit t pbase

unfoldable pub bwrite : Host → ℕ → ℕ → IoDev → ℕ → Checked (ℕ × IoDev)
bwrite h now limit s pbase =
    set_flags true s pbase >>= λ t. putblk h now limit t pbase >>= λ u. ok (0, u)

-- ===== src/Tests/DioRuns.antt =====
-- Runs of hammer2_io.c.
use windows_hammer2_dfly.Common.{
  Option, ℕ, ◌+◌, ◌%◌, ◌^◌, ◌≡◌, ◌≢◌, refl, sym, ap, ◌∙◌, true, false, none, some, [], ◌∷◌,
  if◌then◌else◌, Bool-cases, Checked, ok, panic, ◌>>=◌, ok-injective, inl, inr, arith,
}
use windows_hammer2_dfly.Common.Bits.{bit}
use windows_hammer2_dfly.Common.Int.{pos}
use windows_hammer2_dfly.Common.Words.{high_bits}
use windows_hammer2_dfly.Disk.{off_radix_bits}
use windows_hammer2_dfly.Ondisk.Types.{Volume}
use windows_hammer2_dfly.Ondisk.Volumes.{holds, volume_at, is_null_dev, get_volume}
use windows_hammer2_dfly.Dio.Types.{
  Dio, IoDev, with_chain, append_dio, hashv, find_dio, lookup, io_alloc, lsize_of, hash_lookup,
  create_dio, hash_enter, finish_alloc, touch, new_dio, add_reference, store, unlock_hash,
  write_dio,
}
use windows_hammer2_dfly.Dio.Pages.{Host, dev_bread, dev_bwrite, read_pages, write_pages}
use windows_hammer2_dfly.Dio.Buffer.{
  read, new, fill, dio_bread, fresh_content, io_data, load, load_part, load_whole, read_content,
  renew,
}
use windows_hammer2_dfly.Dio.Get.{fill_found, getblk, io_getquick}
use windows_hammer2_dfly.Dio.Put.{putblk, last_drop, put_found, trim, write_out, dio_limit_of}
use windows_hammer2_dfly.Dio.Table.{append-Replaced, Replaced}
use windows_hammer2_dfly.Dio.View.{IsPlaced, IsCoherent, Replaced-IsCoherent}
use windows_hammer2_dfly.Dio.Found.{Available, IsRequest, creatable}
use windows_hammer2_dfly.Dio.Stored.{GetsBlock}
use windows_hammer2_dfly.Dio.Coherent.{NotStale, getblk-GetsBlock}
use windows_hammer2_dfly.Dio.Written.{Puts, putblk-Puts}
use windows_hammer2_dfly.Dio.Leak.{io_getquick-none}
use windows_hammer2_dfly.Dio.Dedup.{mark_dedup, clear_dedup, check_dedup}
use windows_hammer2_dfly.Dio.Dedup.Marks.{touches, dedup-marks}

abbrev good_host : Host
good_host = record {
  readable = λ b page. true;
  writable = λ b page. true;
  memory = true;
  fresh = λ x. 255;
  hz = 100;
}

abbrev one_volume : Volume
one_volume = record {
  dev = some (record { bdev = some 0; opened = true });
  offset = 0;
  size = 2 ^ 30;
  id = some 0;
}

-- A device whose bytes are those of their offsets, without buffers.
abbrev no_buffers : IoDev
no_buffers = record {
  iohash = λ i. [];
  iofree_count = pos 0;
  io_iterator = 0;
  locked = 0;
  nvolumes = 1;
  volumes = one_volume ∷ [];
  media = λ b y. y % 256;
}

no_buffers-lookup : (p : ℕ) → lookup p no_buffers ≡ none
unfolding lookup find_dio
no_buffers-lookup p = refl

none-ne-some : (d : Dio) → none ≢ some d
none-ne-some d h = cc

no_buffers-IsCoherent : IsCoherent no_buffers
no_buffers-IsCoherent = record {
  distinct = λ i. tt;
  sound = λ p d h. absurd (none-ne-some d (sym (no_buffers-lookup p) ∙ h));
}

-- 1KB at 1MB: the radix is 10.
abbrev request : ℕ
request = 1048586

request-IsRequest : IsRequest request 1024
request-IsRequest = record {
  small = omega arith;
  some_radix = omega arith;
  most_radix = omega arith;
  size = refl;
  some_size = omega arith;
  not_first = omega arith;
  inside = omega arith;
}

request-volume : get_volume 1 (one_volume ∷ []) 1048576 ≡ ok one_volume
unfolding get_volume volume_at holds is_null_dev
request-volume = refl

getblk-GetsBlock_example :
    (d : Dio) × (t : IoDev) × (getblk good_host 0 no_buffers 3 request 1024 new ≡ ok (some d, t))
    × GetsBlock good_host no_buffers request 1024 new d t
getblk-GetsBlock_example =
    getblk-GetsBlock good_host 0 no_buffers 3 request 1024 new no_buffers-IsCoherent
      request-IsRequest (creatable one_volume refl (no_buffers-lookup 1048576) request-volume refl)
      (λ old h. absurd (none-ne-some old (sym (no_buffers-lookup 1048576) ∙ h)))

available : Available no_buffers 1048576 true
available = creatable one_volume refl (no_buffers-lookup 1048576) request-volume refl

none-NotStale : NotStale no_buffers 1048576
none-NotStale old h = absurd (none-ne-some old (sym (no_buffers-lookup 1048576) ∙ h))

io_getquick-none_example :
    (t : IoDev) × (io_getquick good_host 0 no_buffers request 1024 ≡ ok (none, t))
    × (t ≡ record no_buffers { locked = 1 })
    × ((d : Dio) × (u : IoDev) × (getblk good_host 0 t 3 request 1024 read ≡ ok (some d, u))
        × (u.locked ≡ 1))
io_getquick-none_example =
    io_getquick-none good_host 0 no_buffers request 1024 no_buffers-IsCoherent request-IsRequest
      (no_buffers-lookup 1048576) good_host 0 3 request 1024 read request-IsRequest available
      none-NotStale

-- A buffer at 1MB with one reference and new content.
abbrev dirty_dio : Dio
dirty_dio = record {
  refs = 1;
  good = true;
  dirty = true;
  flush = false;
  content = some (λ o. 7);
  bdev = 1;
  dbase = 0;
  pbase = 1048576;
  btype = 3;
  act = 6;
  ticks = 0;
  error = 0;
  dedup_valid = 1;
  dedup_alloc = 2;
}

-- The state with one buffer.
abbrev with_buffer : Dio → IoDev
with_buffer d = record no_buffers {
  iohash = with_chain (hashv d.pbase) (append_dio d []) (λ i. []);
}

dirty-Replaced : Replaced no_buffers 1048576 dirty_dio (with_buffer dirty_dio)
dirty-Replaced = append-Replaced dirty_dio no_buffers (no_buffers-lookup 1048576) (λ i. tt)

true-ne-false : true ≢ false
true-ne-false h = cc

-- Any buffer at 1MB of the volume is in place.
dio-IsPlaced :
    (d : Dio) → d.bdev ≡ 1 → d.dbase ≡ 0 → d.pbase ≡ 1048576 → IsPlaced no_buffers 1048576 d
dio-IsPlaced d bdev dbase pbase = record {
  volume = one_volume;
  served = request-volume;
  bdev = bdev;
  dbase = dbase;
  whole = refl;
  above = omega arith;
  pbase = pbase;
  aligned = refl;
  small = omega arith;
}

dirty-IsCoherent : IsCoherent (with_buffer dirty_dio)
dirty-IsCoherent =
    Replaced-IsCoherent no_buffers (with_buffer dirty_dio) 1048576 dirty_dio dirty-Replaced
      no_buffers-IsCoherent
      (record {
        placed = dio-IsPlaced dirty_dio refl refl refl;
        filled = record {
          present = λ good. ((λ o. 7), refl);
          clean = λ good clean. absurd (true-ne-false clean);
        };
        free = λ none_held. absurd (omega arith);
      })

fails-ne-ok : (v : Volume) → panic ≢ ok v
fails-ne-ok v h = cc

one_volume-only : (p : ℕ) (v : Volume) → get_volume 1 (one_volume ∷ []) p ≡ ok v → v.offset ≡ 0
unfolding get_volume volume_at is_null_dev
one_volume-only p v h = elim (Bool-cases (holds one_volume (high_bits p off_radix_bits))) [
  | inl t ↦
      ap (λ (w : Volume). w.offset)
        (sym (ok-injective one_volume v (rw (t, get_volume, volume_at) at h)))
  | inr f ↦ absurd (fails-ne-ok v (rw (f, get_volume, volume_at) at h))
]

putblk-Puts_example :
    (t : IoDev) × (putblk good_host 0 0 (with_buffer dirty_dio) 1048576 ≡ ok t)
    × Puts (with_buffer dirty_dio) 1048576 dirty_dio t
putblk-Puts_example =
    putblk-Puts good_host 0 0 (with_buffer dirty_dio) 1048576 dirty_dio dirty-IsCoherent
      (λ p q v w hv hw same. one_volume-only p v hv ∙ sym (one_volume-only q w hw))
      dirty-Replaced.here (omega arith) (λ page. refl)

-- No page of a device can be read; what a first read returns then.
abbrev bad_host : Host
bad_host = record good_host { readable = λ b page. false }

abbrev found_dio : Checked (Option Dio × IoDev) → Dio
found_dio panic = dirty_dio
found_dio (ok (none, t)) = dirty_dio
found_dio (ok (some d, t)) = d

abbrev state_after : Checked (Option Dio × IoDev) → IoDev
state_after panic = no_buffers
state_after (ok (found, t)) = t

abbrev first_read : Checked (Option Dio × IoDev)
first_read = getblk bad_host 0 no_buffers 3 request 1024 read

-- 3KB from 2KB of the buffer on.
abbrev three_kb : ℕ
three_kb = 1048576 + 2048

dedup-marks_example :
    ((e : Dio) × (mark_dedup dirty_dio three_kb 3072 ≡ ok e)
      × ((k : ℕ)
          → (bit e.dedup_alloc k ≡ (if touches dirty_dio three_kb 3072 k then 1 else bit 2 k))
            × (bit e.dedup_valid k ≡ (if touches dirty_dio three_kb 3072 k then 0 else bit 1 k))))
    × ((e : Dio) × (clear_dedup dirty_dio three_kb 3072 ≡ ok e)
        × ((k : ℕ)
            → (bit e.dedup_alloc k ≡ (if touches dirty_dio three_kb 3072 k then 0 else bit 2 k))
              × (bit e.dedup_valid k ≡ (if touches dirty_dio three_kb 3072 k then 0 else bit 1 k))))
    × (((k : ℕ) → touches dirty_dio three_kb 3072 k ≡ true → bit 2 k ≡ 0)
        → check_dedup dirty_dio three_kb 3072 ≡ ok dirty_dio)
dedup-marks_example =
    dedup-marks dirty_dio three_kb 3072
      (record {
        small = omega arith;
        from = omega arith;
        to = omega arith;
        some_bytes = omega arith;
        whole = omega arith;
        off_small = omega arith;
      })
      (omega arith)

-- A new block of zeros is written with the last reference, and the bytes beside it stay.
abbrev after_new : Checked ℕ
after_new = getblk good_host 0 no_buffers 3 request 1024 new >>= λ found.
    putblk good_host 0 0 found.1 1048576 >>= λ t.
    ok (t.media 1 1048577 + t.media 1 1049599 + t.media 1 1049601)

new_then_put : after_new ≡ ok 1
unfolding getblk putblk io_alloc lsize_of hash_lookup lookup find_dio create_dio get_volume
    volume_at holds is_null_dev hash_enter finish_alloc touch new_dio fill_found fill dio_bread
    fresh_content io_data load load_part load_whole read_content renew dev_bread dev_bwrite
    read_pages write_pages last_drop put_found trim write_out dio_limit_of add_reference append_dio
    hashv store unlock_hash write_dio
new_then_put = refl

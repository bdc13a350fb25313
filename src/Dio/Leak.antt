-- ===== src/Dio/Leak.antt =====
-- What two calls of `hammer2_io_getblk` leave behind: `iohash_lock` after a quick read that finds no
-- buffer, and memory in a buffer whose read has failed.
use windows_hammer2_dfly.Common.{◌+◌, ℕ, ◌≡◌, refl, sym, ◌∙◌, none, some, ok}
use windows_hammer2_dfly.Dio.Types.{Dio, IoDev, lookup, lock_hash}
use windows_hammer2_dfly.Dio.Pages.{Host}
use windows_hammer2_dfly.Dio.Buffer.{Op, readq}
use windows_hammer2_dfly.Dio.Get.{op_creates, missed, getblk, io_getquick}
use windows_hammer2_dfly.Dio.View.{IsCoherent}
use windows_hammer2_dfly.Dio.Found.{base_of, IsRequest, Available, io_alloc-missed}
use windows_hammer2_dfly.Dio.Coherent.{
  NotStale, lookup-held, lock_hash-IsCoherent, lock_hash-held, Available-held, getblk-found,
  getblk-GetsBlock,
}

-- In a coherent state, a quick read of bytes within one buffer that is not cached returns none, and
-- changes nothing but that the thread holds `iohash_lock` once more than before. A call of
-- `hammer2_io_getblk` after it, for bytes within a buffer that is cached or may be created and is not
-- left with bytes of a read that failed, returns a buffer and does not free the lock.
pub io_getquick-none :
    (h : Host) (now : ℕ) (s : IoDev) (lbase lsize : ℕ)
    → IsCoherent s
    → IsRequest lbase lsize
    → lookup (base_of lbase) s ≡ none
    → (h' : Host) (now' btype : ℕ) (lbase' lsize' : ℕ) (op : Op) → IsRequest lbase' lsize'
    → Available s (base_of lbase') (op_creates op)
    → NotStale s (base_of lbase')
    → (t : IoDev) × (io_getquick h now s lbase lsize ≡ ok (none, t))
      × (t ≡ record s { locked = s.locked + 1 })
      × ((d : Dio) × (u : IoDev) × (getblk h' now' t btype lbase' lsize' op ≡ ok (some d, u))
          × (u.locked ≡ s.locked + 1))
unfolding io_getquick
io_getquick-none h now s lbase lsize coherent q absent h' now' btype lbase' lsize' op q' available
      fresh =
    let (d, u, run, g) =
      getblk-GetsBlock h' now' (lock_hash s) btype lbase' lsize' op
        (lock_hash-IsCoherent s coherent) q'
        (Available-held s (base_of lbase') (op_creates op) available)
        (λ old there. fresh old (sym (lookup-held s (base_of lbase')) ∙ there)) in
    (
      lock_hash s,
      getblk-found h now s 0 lbase lsize readq coherent q (none, lock_hash s)
            (io_alloc-missed lbase lsize q now 0 (lock_hash s) coherent.distinct (lock_hash-held s)
              (lookup-held s (base_of lbase) ∙ absent))
          ∙ (unfold missed in refl),
      refl,
      (d, u, run, g.unlocked),
    )

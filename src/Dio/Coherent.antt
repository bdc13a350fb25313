-- ===== src/Dio/Coherent.antt =====
-- `hammer2_io_getblk` keeps what the buffers show of the volumes, but for the bytes that it is told
-- to give a new content.
use windows_hammer2_dfly.Common.{
  ℕ, ◌+◌, ◌^◌, ◌≤◌, ◌≡◌, refl, sym, ap, ◌∙◌, Bool, true, false, not, ◌&&◌, false≢true, Option, none,
  some, ltb, lt→ltb, ◌==◌, ==_iff, Checked, ok, ◌>>=◌, inl, inr, arith,
}
use windows_hammer2_dfly.Common.Words.{low_bits}
use windows_hammer2_dfly.Disk.{level1_radix, off_radix_bits}
use windows_hammer2_dfly.Dio.Types.{
  Dio, IoDev, pbase_of, lookup, store, new_dio, touch, lock_hash, unlock_hash, io_alloc,
}
use windows_hammer2_dfly.Dio.Pages.{Host}
use windows_hammer2_dfly.Dio.Buffer.{Op, no_content, fill}
use windows_hammer2_dfly.Dio.Get.{op_creates, effective, fill_found, with_found, getblk}
use windows_hammer2_dfly.Dio.Table.{Replaced}
use windows_hammer2_dfly.Dio.Found.{
  Origin, reused, created, cached, creatable, base_of, IsRequest, Available, io_alloc-found,
}
use windows_hammer2_dfly.Dio.Filled.{fill-Fills}
use windows_hammer2_dfly.Dio.View.{references, IsSound-same, view, IsSound, IsCoherent}
use windows_hammer2_dfly.Dio.Origins.{Origin-IsSound, Origin-view, Origin-refs}
use windows_hammer2_dfly.Dio.Stored.{GetsBlock, with_lock-IsCoherent, stored-GetsBlock}

-- No buffer of the base has bytes from a read that failed.
abbrev pub NotStale : IoDev → ℕ → Type 0
NotStale s p = (old : Dio) → lookup p s ≡ some old → old.good ≡ false → old.content ≡ none

-- `iohash_lock` is taken for `hammer2_io_alloc` only.
unlocked-Replaced :
    (s t : IoDev) (p : ℕ) (d : Dio) → Replaced (lock_hash s) p d t → Replaced s p d (unlock_hash t)
unfolding lookup unlock_hash
unlocked-Replaced s t p d r = record {
  here = r.here;
  elsewhere = r.elsewhere;
  media = r.media;
  nvolumes = r.nvolumes;
  volumes = r.volumes;
  distinct = r.distinct;
}

-- The state with the lock has the same buffers and shows the same.
module _ (s : IoDev) where
  pub lookup-held : (p : ℕ) → lookup p (lock_hash s) ≡ lookup p s
  unfolding lookup
  lookup-held p = refl

  pub view-held : (x : ℕ) → view (lock_hash s) x ≡ view s x
  unfolding view lookup
  view-held x = refl

  pub lock_hash-IsCoherent : IsCoherent s → IsCoherent (lock_hash s)
  lock_hash-IsCoherent c = with_lock-IsCoherent s (s.locked + 1) c

  pub lock_hash-held : not ((lock_hash s).locked == 0) ≡ true
  lock_hash-held = ground arith

  pub Available-held : (p : ℕ) (b : Bool) → Available s p b → Available (lock_hash s) p b
  Available-held p b (cached old h) = cached old (lookup-held p ∙ h)
  Available-held p b (creatable v creates h on_volume whole) =
      creatable v creates (lookup-held p ∙ h) on_volume whole

Origin-fresh :
    (now btype : ℕ) (s : IoDev) (p : ℕ) (d : Dio)
    → Origin s p now btype d
    → NotStale s p
    → d.good ≡ false
    → no_content d.content ≡ true
unfolding touch new_dio
Origin-fresh now btype s p d (reused old h e) fresh bad =
    ap (λ (x : Dio). no_content x.content) e
    ∙ ap no_content (fresh old h (sym (ap (λ (x : Dio). x.good) e) ∙ bad))
Origin-fresh now btype s p d (created v h on_volume whole e) fresh bad =
    ap (λ (x : Dio). no_content x.content) e

filled-store :
    (h : Host) (t : IoDev) (d e : Dio) (lbase lsize : ℕ) (op : Op) (media : ℕ → ℕ → ℕ)
    → t.media ≡ media
    → fill h media d lbase lsize (effective op) ≡ ok e
    → fill_found h t d lbase lsize op ≡ ok (some e, store e t)
unfolding fill_found
filled-store h t d e lbase lsize op media m run =
    ap (λ (c : Checked Dio). c >>= λ x. ok (some x, store x t))
      (ap (λ (n : ℕ → ℕ → ℕ). fill h n d lbase lsize (effective op)) m ∙ run)

module _ (h : Host) (now : ℕ) (s : IoDev) (btype lbase lsize : ℕ) (op : Op)
    (coherent : IsCoherent s) (q : IsRequest lbase lsize) where
  pub getblk-found :
      (found : Option Dio × IoDev)
      → io_alloc now (lock_hash s) lbase btype (op_creates op) ≡ ok found
      → getblk h now s btype lbase lsize op ≡ with_found h lbase lsize op found
  unfolding getblk
  getblk-found found run =
      let a : (ltb (low_bits lbase off_radix_bits) 31 && 2 ^ low_bits lbase off_radix_bits == lsize)
          ≡ true =
        rw (lt→ltb (low_bits lbase off_radix_bits) 31 (omega (arith, q.most_radix)))
          ((==_iff _ _).1 q.size) in
      rw (a, run) refl

  got-GetsBlock :
      (d : Dio) (u : IoDev)
      → Origin (lock_hash s) (base_of lbase) now btype d
      → io_alloc now (lock_hash s) lbase btype (op_creates op) ≡ ok (some d, u)
      → Replaced (lock_hash s) (base_of lbase) d u
      → u.locked ≡ s.locked + 1
      → NotStale s (base_of lbase)
      → (e : Dio) × (t : IoDev) × (getblk h now s btype lbase lsize op ≡ ok (some e, t))
        × GetsBlock h s lbase lsize (effective op) e t
  got-GetsBlock d u origin run r l fresh =
      let p = base_of lbase in
      let small = q.small in
      let c0 = lock_hash-IsCoherent s coherent in
      let sound : IsSound s p d =
        IsSound-same (lock_hash s) s p d refl refl refl
          (Origin-IsSound now btype (lock_hash s) c0 p d (omega arith) (omega arith) origin) in
      let at = sound.placed in
      let r' = unlocked-Replaced s u p d r in
      let before = λ (x : ℕ) (same : pbase_of x ≡ p).
        sym (view-held s x)
        ∙ Origin-view now btype (lock_hash s) c0 p d (omega arith) (omega arith) origin x same in
      let refs : d.refs ≡ references (lookup p s) + 1 =
        Origin-refs now btype (lock_hash s) c0 p d (omega arith) (omega arith) origin
        ∙ ap (λ (o : Option Dio). references o + 1) (lookup-held s p) in
      let below : d.dbase ≤ p = omega (arith, at.dbase, at.above) in
      let whole : low_bits d.dbase level1_radix ≡ 0 =
        ap (λ (n : ℕ). low_bits n level1_radix) at.dbase ∙ at.whole in
      elim (fill-Fills h s.media lbase q.small d at.pbase below whole sound.filled lsize
        (effective op)) [
          | inl (bad, some_bytes, stop) ↦ absurd (
              false≢true (
                sym some_bytes
                ∙ Origin-fresh now btype (lock_hash s) p d origin
                    (λ old there. fresh old (sym (lookup-held s p) ∙ there)) bad))
          | inr (e, filling, f) ↦ (
            e,
            store e (unlock_hash u),
            getblk-found (some d, u) run
                ∙ filled-store h (unlock_hash u) d e lbase lsize op s.media r'.media filling,
            stored-GetsBlock h s coherent lbase lsize q (effective op) d (unlock_hash u) sound
                before refs r' (unfold unlock_hash in omega (arith, l)) e f,
          )
        ]

-- A call of `hammer2_io_getblk` with a size that is that of the offset's radix, for bytes within one
-- buffer, which is cached or may be created, and is not left with bytes of a read that failed, in a
-- coherent state: it returns the buffer with one more reference, and leaves a coherent state, in
-- which the thread holds `iohash_lock` as often as before. The volumes show what they did: entirely
-- if the buffer has no content, and if it has, but for the bytes that HAMMER2_DOP_NEW sets to zero
-- and HAMMER2_DOP_NEWNZ leaves open. A buffer with content has the bytes that the volumes show; one
-- has none only if the host had no memory for it or a page of its device cannot be read, and in the
-- latter case it keeps its memory.
pub getblk-GetsBlock :
    (h : Host) (now : ℕ) (s : IoDev) (btype lbase lsize : ℕ) (op : Op)
    → IsCoherent s
    → IsRequest lbase lsize
    → Available s (base_of lbase) (op_creates op)
    → NotStale s (base_of lbase)
    → (d : Dio) × (t : IoDev) × (getblk h now s btype lbase lsize op ≡ ok (some d, t))
      × GetsBlock h s lbase lsize (effective op) d t
getblk-GetsBlock h now s btype lbase lsize op coherent q available fresh =
    let (d, origin, (u, run, r, l)) =
      io_alloc-found lbase lsize q now btype (lock_hash s) coherent.distinct (lock_hash-held s)
        (op_creates op) (Available-held s (base_of lbase) (op_creates op) available) in
    got-GetsBlock h now s btype lbase lsize op coherent q d u origin run r l fresh

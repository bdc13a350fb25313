-- ===== src/Dio/Dropped.antt =====
-- The state after the last reference of a buffer is dropped.
use windows_hammer2_dfly.Common.{
  ℕ, ◌+◌, ◌-◌, ◌<◌, ◌≡◌, ◌≢◌, refl, sym, ap, ◌∙◌, subst, false≢true, Option, none, some,
  some-injective, if_true, if_false, Bool-cases, ℕ_discrete, Checked, ok, panic, inl, inr, arith,
}
use windows_hammer2_dfly.Disk.{pbuf_size}
use windows_hammer2_dfly.Ondisk.Types.{Volume}
use windows_hammer2_dfly.Ondisk.Volumes.{get_volume}
use windows_hammer2_dfly.Dio.Types.{Dio, IoDev, pbase_of, lookup, store}
use windows_hammer2_dfly.Dio.Pages.{Host}
use windows_hammer2_dfly.Dio.Put.{write_out, freed, last_drop}
use windows_hammer2_dfly.Dio.Table.{Replaced}
use windows_hammer2_dfly.Dio.Found.{lookup-pbase, stored}
use windows_hammer2_dfly.Dio.View.{
  disk_byte, shown, view, IsPlaced, IsSound, IsCoherent, IsPlaced-alike, view-some,
}
use windows_hammer2_dfly.Dio.Cleaned.{free_shows}
use windows_hammer2_dfly.Dio.Places.{IsSeparate, IsWritable, write_out-outside, write_out-here}

-- The state after the last reference is dropped.
module _ (h : Host) (s : IoDev) (coherent : IsCoherent s) (separate : IsSeparate s) (p : ℕ)
    (d : Dio) (there : lookup p s ≡ some d) (writable : IsWritable h d.bdev) where
  sound : IsSound s p d
  sound = coherent.sound p d there

  abbrev pub after : IoDev
  after = last_drop h s d

  freed-Replaced : Replaced s p (freed d) (store (freed d) s)
  freed-Replaced =
      stored (freed d) p s s.iofree_count d (lookup-pbase p s d there) there coherent.distinct

  lookup-after : (q : ℕ) → lookup q after ≡ lookup q (store (freed d) s)
  unfolding lookup last_drop
  lookup-after q = refl

  -- The place of a sound buffer keeps its bytes, and so does a volume's place without a buffer.
  place_kept :
      (q : ℕ) (e : Dio) (o : ℕ)
      → IsSound s q e
      → q ≢ p
      → o < pbuf_size
      → after.media e.bdev (e.pbase - e.dbase + o) ≡ s.media e.bdev (e.pbase - e.dbase + o)
  unfolding last_drop
  place_kept q e o so ne lt =
      let at = so.placed in
      let m = write_out h s.media d in
      (λ i. m (at.bdev i) (at.pbase i - at.dbase i + o))
      ∙ write_out-outside h s separate p d sound q at.volume o at.served ne at.aligned lt
      ∙ sym (λ i. s.media (at.bdev i) (at.pbase i - at.dbase i + o))

  disk-kept :
      (x : ℕ) (m : Checked Volume)
      → get_volume s.nvolumes s.volumes (pbase_of x) ≡ m
      → pbase_of x ≢ p
      → disk_byte after.media m x ≡ disk_byte s.media m x
  unfolding last_drop
  disk-kept x panic e ne = refl
  disk-kept x (ok v) e ne =
      write_out-outside h s separate p d sound (pbase_of x) v (x - pbase_of x) e ne (omega arith)
        (omega arith)

  shown-kept :
      (o : Option Dio) (x : ℕ)
      → ((e : Dio) → o ≡ some e → IsSound s (pbase_of x) e)
      → pbase_of x ≢ p
      → shown after.media (get_volume s.nvolumes s.volumes (pbase_of x)) o x
        ≡ shown s.media (get_volume s.nvolumes s.volumes (pbase_of x)) o x
  shown-kept none x so ne = disk-kept x _ refl ne
  shown-kept (some e) x so ne = elim (Bool-cases e.good) [
    | inl good ↦ if_true e.good _ _ good ∙ sym (if_true e.good _ _ good)
    | inr bad ↦
        if_false e.good _ _ bad
        ∙ place_kept (pbase_of x) e (x - pbase_of x) (so e refl) ne (omega arith)
        ∙ sym (if_false e.good _ _ bad)
  ]

  after-byte :
      (x : ℕ)
      → pbase_of x ≡ p
      → after.media d.bdev (d.pbase - d.dbase + (x - pbase_of x)) ≡ view s x
  unfolding last_drop
  after-byte x same =
      write_out-here h s separate p d sound writable (x - pbase_of x) (omega arith)
      ∙ sym (view-some s x (ap (λ (q : ℕ). lookup q s) same ∙ there))

  pub after-view : (x : ℕ) → view after x ≡ view s x
  unfolding last_drop store
  after-view x = elim (ℕ_discrete (pbase_of x) p) [
    | no ne ↦
        unfold view in
        ap
          (λ (o : Option Dio). shown after.media (get_volume s.nvolumes s.volumes (pbase_of x)) o x)
          (lookup-after (pbase_of x) ∙ freed-Replaced.elsewhere (pbase_of x) ne)
        ∙ shown-kept (lookup (pbase_of x) s) x (λ e h. coherent.sound (pbase_of x) e h) ne
    | yes same ↦
        view-some after x
          (ap (λ (q : ℕ). lookup q after) same ∙ lookup-after p ∙ freed-Replaced.here)
        ∙ after-byte x same
  ]

  moved-IsPlaced : (q : ℕ) (e : Dio) → IsPlaced s q e → IsPlaced after q e
  unfolding last_drop store
  moved-IsPlaced q e at = IsPlaced-alike s after q e e refl refl refl refl refl at

  freed-IsSound : IsSound after p (freed d)
  unfolding last_drop store
  freed-IsSound = record {
    placed = IsPlaced-alike s after p d _ refl refl refl refl refl sound.placed;
    filled = record {
      present = λ good. absurd (false≢true good);
      clean = λ good. absurd (false≢true good);
    };
    free = λ none_held. refl;
  }

  after-IsSound : (q : ℕ) (e : Dio) → lookup q after ≡ some e → IsSound after q e
  after-IsSound q e found = elim (ℕ_discrete q p) [
    | yes same ↦
        let e-freed : freed d ≡ e = some-injective (freed d) e (
          sym freed-Replaced.here
          ∙ sym (lookup-after p)
          ∙ ap (λ (a : ℕ). lookup a after) (sym same)
          ∙ found) in
        subst (λ (y : Dio). IsSound after q y) e-freed
          (subst (λ (a : ℕ). IsSound after a (freed d)) (sym same) freed-IsSound)
    | no ne ↦
        let so =
          coherent.sound q e (sym (freed-Replaced.elsewhere q ne) ∙ sym (lookup-after q) ∙ found) in
        record {
          placed = moved-IsPlaced q e so.placed;
          filled = record {
            present = so.filled.present;
            clean = λ good dirty o lt.
                so.filled.clean good dirty o lt ∙ sym (place_kept q e o so ne lt);
          };
          free = so.free;
        }
  ]

  pub after-IsCoherent : IsCoherent after
  unfolding last_drop
  after-IsCoherent = record { distinct = freed-Replaced.distinct; sound = after-IsSound }

  -- The device has the bytes that were seen.
  pub after-disk :
      (x : ℕ)
      → pbase_of x ≡ p
      → disk_byte after.media (get_volume after.nvolumes after.volumes (pbase_of x)) x ≡ view s x
  after-disk x same =
      sym (free_shows after p (freed d) x freed-IsSound refl same) ∙ after-byte x same

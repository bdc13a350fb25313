-- ===== src/Dio/Written.antt =====
-- `hammer2_io_putblk`: the last reference writes what has changed, and the volumes show what they
-- did.
use windows_hammer2_dfly.Common.{
  ℕ, ◌+◌, ◌-◌, ◌≤◌, ◌≡◌, refl, sym, ap, ◌∙◌, false, some, ◌==◌, ==_iff, if◌then◌else◌, if_true,
  if_false, of_either, Bool-cases, ℕ_discrete, ok, inl, inr, arith,
}
use windows_hammer2_dfly.Ondisk.Volumes.{get_volume}
use windows_hammer2_dfly.Dio.Types.{Dio, IoDev, pbase_of, lookup, store, unlock_hash}
use windows_hammer2_dfly.Dio.Pages.{Host}
use windows_hammer2_dfly.Dio.Put.{
  dio_limit_of, above_limit, hash_cleanup, last_drop, trim, put_found, putblk,
}
use windows_hammer2_dfly.Dio.Table.{Replaced}
use windows_hammer2_dfly.Dio.Found.{lookup-pbase, stored}
use windows_hammer2_dfly.Dio.View.{
  dio_byte, disk_byte, view, IsSound, IsCoherent, IsPlaced-alike, view-some, Replaced-IsCoherent,
  view-Replaced_ne,
}
use windows_hammer2_dfly.Dio.Stored.{with_lock-IsCoherent}
use windows_hammer2_dfly.Dio.Coherent.{view-held}
use windows_hammer2_dfly.Dio.Cleaned.{Keeps, Keeps-refl, hash_cleanup-Keeps}
use windows_hammer2_dfly.Dio.Places.{IsSeparate, IsWritable}
use windows_hammer2_dfly.Dio.Dropped.{after-view, after-IsCoherent, after-disk}

view-unlocked : (s : IoDev) (x : ℕ) → view (unlock_hash s) x ≡ view s x
unfolding view lookup unlock_hash
view-unlocked s x = refl

-- The cleanup of the hash, with `iohash_lock` taken for it.
trim-Keeps : (h : Host) (now limit : ℕ) (t : IoDev) → IsCoherent t → Keeps t (trim h now limit t)
unfolding trim unlock_hash
trim-Keeps h now limit t c =
    let held = record t { locked = t.locked + 1 } in
    let u =
      if above_limit held.iofree_count (dio_limit_of limit)
      then hash_cleanup h now held (dio_limit_of limit)
      else held in
    let c0 = with_lock-IsCoherent t (t.locked + 1) c in
    let k : Keeps held u =
      of_either (above_limit held.iofree_count (dio_limit_of limit)) (λ (v : IoDev). Keeps held v)
        (hash_cleanup-Keeps h now held (dio_limit_of limit) c0) (Keeps-refl held c0) in
    record {
      coherent = with_lock-IsCoherent u (u.locked - 1) k.coherent;
      shows = λ x. view-unlocked u x ∙ k.shows x ∙ (view-held t x);
      media = k.media;
      nvolumes = k.nvolumes;
      volumes = k.volumes;
      locked = ap (λ (n : ℕ). n - 1) k.locked ∙ (omega arith);
    }

-- What a dropped reference leaves: the volumes show what they did. If it was the last one, the
-- device itself has the bytes of the buffer; if not, the buffer has one reference less.
pub record Puts (s : IoDev) (p : ℕ) (d : Dio) (t : IoDev) : Type 0 where
  pub coherent : IsCoherent t
  pub unlocked : t.locked ≡ s.locked
  pub shows : (x : ℕ) → view t x ≡ view s x
  pub written :
      d.refs ≡ 1
      → (x : ℕ) → pbase_of x ≡ p
      → disk_byte t.media (get_volume t.nvolumes t.volumes (pbase_of x)) x ≡ view s x
  pub fewer : 2 ≤ d.refs → lookup p t ≡ some (record d { refs = d.refs - 1 })

module _ (h : Host) (now limit : ℕ) (s : IoDev) (coherent : IsCoherent s) (p : ℕ) (d : Dio)
    (there : lookup p s ≡ some d) where
  last-Puts :
      IsSeparate s
      → IsWritable h d.bdev
      → d.refs ≡ 1
      → Puts s p d (trim h now limit (last_drop h s d))
  last-Puts separate writable one =
      let t = last_drop h s d in
      let k =
        trim-Keeps h now limit t (after-IsCoherent h s coherent separate p d there writable) in
      record {
        coherent = k.coherent;
        unlocked = k.locked ∙ (unfold last_drop store in refl);
        shows = λ x. k.shows x ∙ after-view h s coherent separate p d there writable x;
        written = λ last x same.
            (λ i. disk_byte (k.media i) (get_volume (k.nvolumes i) (k.volumes i) (pbase_of x)) x)
            ∙ after-disk h s coherent separate p d there writable x same;
        fewer = λ two. absurd (omega arith);
      }

  fewer-Puts : 2 ≤ d.refs → Puts s p d (store (record d { refs = d.refs - 1 }) s)
  fewer-Puts two =
      let e = record d { refs = d.refs - 1 } in
      let r : Replaced s p e (store e s) =
        stored e p s s.iofree_count d (lookup-pbase p s d there) there coherent.distinct in
      let so = coherent.sound p d there in
      let sound' : IsSound s p e = record {
        placed = IsPlaced-alike s s p d e refl refl refl refl refl so.placed;
        filled = record { present = so.filled.present; clean = so.filled.clean };
        free = λ none_held. absurd (omega arith);
      } in
      record {
        coherent = Replaced-IsCoherent s (store e s) p e r coherent sound';
        unlocked = unfold store in refl;
        shows = λ x. elim (ℕ_discrete (pbase_of x) p) [
          | no ne ↦ view-Replaced_ne s (store e s) p e r x ne
          | yes same ↦
              view-some (store e s) x (ap (λ (q : ℕ). lookup q (store e s)) same ∙ r.here)
              ∙ ap (λ (media : ℕ → ℕ → ℕ). dio_byte media d (x - pbase_of x)) r.media
              ∙ sym (view-some s x (ap (λ (q : ℕ). lookup q s) same ∙ there))
        ];
        written = λ last. absurd (omega arith);
        fewer = λ two'. r.here;
      }

-- `hammer2_io_putblk` of a buffer with references, in a coherent state whose volumes are on separate
-- devices, where the host takes all pages that are written to the buffer's device: it returns, leaves
-- a coherent state, in which the thread holds `iohash_lock` as often as before, and the volumes show
-- what they did. If it was the last reference, the device itself has the bytes of the buffer that
-- were seen; if not, the buffer has one reference less.
pub putblk-Puts :
    (h : Host) (now limit : ℕ) (s : IoDev) (p : ℕ) (d : Dio)
    → IsCoherent s
    → IsSeparate s
    → lookup p s ≡ some d
    → 1 ≤ d.refs
    → IsWritable h d.bdev
    → (t : IoDev) × (putblk h now limit s p ≡ ok t) × Puts s p d t
unfolding putblk put_found
putblk-Puts h now limit s p d coherent separate there held writable =
    let some_held : (d.refs == 0) ≡ false = ground arith in
    elim (Bool-cases (d.refs == 1)) [
      | inl t ↦ (
        trim h now limit (last_drop h s d),
        ap (put_found h now limit s) there
            ∙ if_false (d.refs == 0) _ _ some_held
            ∙ if_true (d.refs == 1) _ _ t,
        last-Puts h now limit s coherent p d there separate writable ((==_iff d.refs 1).0 t),
      )
      | inr f ↦ (
        store (record d { refs = d.refs - 1 }) s,
        ap (put_found h now limit s) there
            ∙ if_false (d.refs == 0) _ _ some_held
            ∙ if_false (d.refs == 1) _ _ f,
        fewer-Puts h now limit s coherent p d there (ground arith),
      )
    ]

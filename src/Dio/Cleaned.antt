-- ===== src/Dio/Cleaned.antt =====
-- `hammer2_io_hash_cleanup` changes nothing that the buffers show.
use windows_hammer2_dfly.Common.{
  ℕ, zero, suc, ◌+◌, ◌-◌, ◌%◌, ◌≡◌, refl, sym, ap, ◌∙◌, subst, false, Option, some, some-injective,
  List, ◌==◌, ==_iff, if_false, of_either, Bool-cases, Checked, inl, inr,
}
use windows_hammer2_dfly.Common.Int.{ℤ}
use windows_hammer2_dfly.Common.Words.{u32}
use windows_hammer2_dfly.Ondisk.Types.{Volume}
use windows_hammer2_dfly.Ondisk.Volumes.{get_volume}
use windows_hammer2_dfly.Dio.Types.{
  Dio, IoDev, pbase_of, hashv, find_dio, with_chain, lookup, iohash_size,
}
use windows_hammer2_dfly.Dio.Pages.{Host}
use windows_hammer2_dfly.Dio.Put.{
  dec_by, clean_chain, clean_turn, clean_turns, hash_cleanup, excess,
}
use windows_hammer2_dfly.Dio.Table.{Distinct}
use windows_hammer2_dfly.Dio.Cooled.{
  Cooled, alike, cooler, dropped, none-ne-some, clean_chain-Cooled, clean_chain-Distinct,
}
use windows_hammer2_dfly.Dio.View.{
  view-some, view-none, IsSound-same, IsPlaced-alike, shown, disk_byte, dio_byte, view, IsSound,
  IsCoherent,
}

-- `t` shows what `s` does.
pub record Keeps (s t : IoDev) : Type 0 where
  pub coherent : IsCoherent t
  pub shows : (x : ℕ) → view t x ≡ view s x
  pub media : t.media ≡ s.media
  pub nvolumes : t.nvolumes ≡ s.nvolumes
  pub volumes : t.volumes ≡ s.volumes
  pub locked : t.locked ≡ s.locked

pub Keeps-refl : (s : IoDev) → IsCoherent s → Keeps s s
Keeps-refl s c = record {
  coherent = c;
  shows = λ x. refl;
  media = refl;
  nvolumes = refl;
  volumes = refl;
  locked = refl;
}

pub Keeps-trans : {s t u : IoDev} → Keeps s t → Keeps t u → Keeps s u
Keeps-trans a b = record {
  coherent = b.coherent;
  shows = λ x. b.shows x ∙ a.shows x;
  media = b.media ∙ a.media;
  nvolumes = b.nvolumes ∙ a.nvolumes;
  volumes = b.volumes ∙ a.volumes;
  locked = b.locked ∙ a.locked;
}

-- A buffer without references shows what the device has.
pub free_shows :
    (s : IoDev) (p : ℕ) (d : Dio) (x : ℕ)
    → IsSound s p d
    → d.good ≡ false
    → pbase_of x ≡ p
    → dio_byte s.media d (x - pbase_of x)
      ≡ disk_byte s.media (get_volume s.nvolumes s.volumes (pbase_of x)) x
free_shows s p d x sound bad same =
    let at = sound.placed in
    let base : d.pbase ≡ pbase_of x = at.pbase ∙ sym same in
    if_false d.good _ _ bad
    ∙ (λ i. s.media (at.bdev i) (base i - at.dbase i + (x - pbase_of x)))
    ∙ sym (
        ap (λ (m : Checked Volume). disk_byte s.media m x)
          (ap (λ (q : ℕ). get_volume s.nvolumes s.volumes q) same ∙ at.served))

module _ (s : IoDev) (coherent : IsCoherent s) (iohash : ℕ → List Dio) (z : ℤ) (n : ℕ)
    (cools : (q : ℕ) → Cooled (lookup q s) (find_dio q (iohash (hashv q))))
    (distinct : (i : ℕ) → Distinct (iohash i)) where
  abbrev cleaned : IoDev
  cleaned = record s { iohash = iohash; iofree_count = z; io_iterator = n }

  lookup-cleaned : (q : ℕ) → Cooled (lookup q s) (lookup q cleaned)
  unfolding lookup
  lookup-cleaned q = cools q

  cleaned-IsSound : (q : ℕ) (e : Dio) → lookup q cleaned ≡ some e → IsSound cleaned q e
  cleaned-IsSound q e there = elim (lookup-cleaned q) [
    | alike same ↦ IsSound-same s cleaned q e refl refl refl (coherent.sound q e (sym same ∙ there))
    | cooler d act old free new ↦
        subst (λ (x : Dio). IsSound cleaned q x)
          (some-injective (record d { act = act }) e (sym new ∙ there))
          (act-IsSound d act (IsSound-same s cleaned q d refl refl refl (coherent.sound q d old)))
    | dropped d old free new ↦ absurd (none-ne-some e (sym new ∙ there))
  ]
    where
      act-IsSound :
          (d : Dio) (act : ℕ) → IsSound cleaned q d → IsSound cleaned q (record d { act = act })
      act-IsSound d act so = record {
        placed = IsPlaced-alike cleaned cleaned q d _ refl refl refl refl refl so.placed;
        filled = record { present = so.filled.present; clean = so.filled.clean };
        free = so.free;
      }

  cleaned-view : (x : ℕ) → view cleaned x ≡ view s x
  cleaned-view x = elim (lookup-cleaned (pbase_of x)) [
    | alike same ↦
        unfold view in
        ap (λ (o : Option Dio). shown s.media (get_volume s.nvolumes s.volumes (pbase_of x)) o x)
          same
    | cooler d act old free new ↦ view-some cleaned x new ∙ sym (view-some s x old)
    | dropped d old free new ↦
        let sound = coherent.sound (pbase_of x) d old in
        view-none cleaned x new
        ∙ sym (free_shows s (pbase_of x) d x sound (sound.free free) refl)
        ∙ sym (view-some s x old)
  ]

  cleaned-Keeps : Keeps s cleaned
  cleaned-Keeps = record {
    coherent = record { distinct = distinct; sound = cleaned-IsSound };
    shows = cleaned-view;
    media = refl;
    nvolumes = refl;
    volumes = refl;
    locked = refl;
  }

module _ (h : Host) (now : ℕ) where
  turn-Cooled :
      (i : ℕ) (s : IoDev)
      → IsCoherent s
      → (q : ℕ)
      → Cooled
          (lookup q s)
          (find_dio q (with_chain i (clean_chain h now (s.iohash i)).0 s.iohash (hashv q)))
  unfolding lookup
  turn-Cooled i s c q = elim (Bool-cases (hashv q == i)) [
    | inl t ↦ rw t (
        subst
          (λ (j : ℕ).
            Cooled (find_dio q (s.iohash j)) (find_dio q (clean_chain h now (s.iohash i)).0))
          (sym ((==_iff (hashv q) i).0 t)) (clean_chain-Cooled h now q (s.iohash i) (c.distinct i)))
    | inr f ↦ rw f (alike refl)
  ]

  clean_turn-Keeps : (i : ℕ) (s : IoDev) → IsCoherent s → Keeps s (clean_turn h now i s).0
  unfolding clean_turn
  clean_turn-Keeps i s c =
      cleaned-Keeps s c (with_chain i (clean_chain h now (s.iohash i)).0 s.iohash)
        (dec_by (clean_chain h now (s.iohash i)).1 s.iofree_count) (u32 (s.io_iterator + 1))
        (turn-Cooled i s c)
        (λ j. elim (Bool-cases (j == i)) [
          | inl t ↦ rw t (clean_chain-Distinct h now (s.iohash i) (c.distinct i))
          | inr f ↦ rw f (c.distinct j)
        ])

  clean_turns-Keeps :
      (maxscan i count : ℕ) (s : IoDev)
      → IsCoherent s
      → Keeps s (clean_turns maxscan h now i count s)
  unfolding clean_turns
  clean_turns-Keeps zero i count s c = Keeps-refl s c
  clean_turns-Keeps (suc maxscan) i count s c = elim (Bool-cases (count == 0)) [
    | inl t ↦ rw t (Keeps-refl s c)
    | inr f ↦
        let one = clean_turn-Keeps (i % iohash_size) s c in
        rw f (
          Keeps-trans one (
            clean_turns-Keeps maxscan s.io_iterator
              (count - (clean_turn h now (i % iohash_size) s).1)
              (clean_turn h now (i % iohash_size) s).0 one.coherent))
  ]

  pub hash_cleanup-Keeps :
      (s : IoDev) (dio_limit : ℕ) → IsCoherent s → Keeps s (hash_cleanup h now s dio_limit)
  unfolding hash_cleanup
  hash_cleanup-Keeps s dio_limit c =
      let t = record s { io_iterator = u32 (s.io_iterator + 1) } in
      let same : Keeps s t =
        cleaned-Keeps s c s.iohash s.iofree_count (u32 (s.io_iterator + 1))
          (λ q. unfold lookup in alike refl) c.distinct in
      of_either (excess s.iofree_count dio_limit == 0) (λ (u : IoDev). Keeps s u) (Keeps-refl s c)
        (Keeps-trans same (
          clean_turns-Keeps iohash_size s.io_iterator (excess s.iofree_count dio_limit) t
            same.coherent))

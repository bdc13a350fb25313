-- ===== src/Dio/Stored.antt =====
-- The hash after `hammer2_io_getblk` has filled the buffer that it found.
use windows_hammer2_dfly.Common.{
  ℕ, ◌+◌, ◌-◌, ◌≤◌, ◌<◌, ◌≡◌, refl, sym, ap, ◌∙◌, subst, ◌⊎◌, true, false, some, if_true,
  ℕ_discrete, arith,
}
use windows_hammer2_dfly.Common.Words.{high_bits}
use windows_hammer2_dfly.Disk.{pbuf_size, off_radix_bits}
use windows_hammer2_dfly.Dio.Types.{Dio, IoDev, pbase_of, lookup, store}
use windows_hammer2_dfly.Dio.Buffer.{Op, read, new, newnz, readq}
use windows_hammer2_dfly.Dio.Table.{Replaced, Replaced-trans}
use windows_hammer2_dfly.Dio.Found.{base_of, IsRequest, stored}
use windows_hammer2_dfly.Dio.Effects.{Spares, Zeroes}
use windows_hammer2_dfly.Dio.Pages.{Host}
use windows_hammer2_dfly.Dio.Loaded.{Refused}
use windows_hammer2_dfly.Dio.Filled.{Fills}
use windows_hammer2_dfly.Dio.View.{
  references, IsSound-same, IsPlaced-alike, content_at, dio_byte, view, IsSound, IsCoherent,
  Replaced-IsCoherent, view-Replaced_ne, view-Replaced_here,
}

-- `d` is the buffer of the bytes, with one more reference, in a state that shows what `s` did but for the
-- bytes of the operation.
pub record GetsBlock (h : Host) (s : IoDev) (lbase lsize : ℕ) (op : Op) (d : Dio) (t : IoDev)
    : Type 0 where
  pub coherent : IsCoherent t
  pub there : lookup (base_of lbase) t ≡ some d
  pub held : d.refs ≡ references (lookup (base_of lbase) s) + 1
  pub unlocked : t.locked ≡ s.locked
  pub spares :
      (x : ℕ)
      → (d.good ≡ false) ⊎ Spares op (high_bits lbase off_radix_bits) lsize x
      → view t x ≡ view s x
  pub zeroes :
      d.good ≡ true → (x : ℕ) → Zeroes op (high_bits lbase off_radix_bits) lsize x → view t x ≡ 0
  pub shows :
      d.good ≡ true → (o : ℕ) → o < pbuf_size → content_at d.content o ≡ view t (base_of lbase + o)
  pub refused : d.good ≡ false → Refused h d.bdev d.content

-- The state with `iohash_lock` taken or freed shows the same.
pub with_lock-IsCoherent : (s : IoDev) (n : ℕ) → IsCoherent s → IsCoherent (record s { locked = n })
unfolding lookup
with_lock-IsCoherent s n c = record {
  distinct = c.distinct;
  sound = λ p d h. IsSound-same s (record s { locked = n }) p d refl refl refl (c.sound p d h);
}

Zeroes-within : (op : Op) (lb lsize x : ℕ) → Zeroes op lb lsize x → (lb ≤ x) × (x < lb + lsize)
Zeroes-within new lb lsize x z = z
Zeroes-within newnz lb lsize x z = absurd z
Zeroes-within read lb lsize x z = absurd z
Zeroes-within readq lb lsize x z = absurd z

pbase_of-request :
    (lbase lsize x : ℕ)
    → IsRequest lbase lsize
    → high_bits lbase off_radix_bits ≤ x
    → x < high_bits lbase off_radix_bits + lsize
    → pbase_of x ≡ base_of lbase
pbase_of-request lbase lsize x q le lt = let room = q.inside in omega arith

module _ (h : Host) (s : IoDev) (coherent : IsCoherent s) (lbase lsize : ℕ)
    (q : IsRequest lbase lsize) (op : Op) (d : Dio) (t : IoDev)
    (sound : IsSound s (base_of lbase) d)
    (before : (x : ℕ)
      → pbase_of x ≡ base_of lbase
      → view s x ≡ dio_byte s.media d (x - base_of lbase))
    (held : d.refs ≡ references (lookup (base_of lbase) s) + 1) (r : Replaced s (base_of lbase) d t)
    (unlocked : t.locked ≡ s.locked) (e : Dio)
    (f : Fills h s.media op (base_of lbase) (high_bits lbase off_radix_bits) lsize d e) where
  stored-Replaced : Replaced s (base_of lbase) e (store e t)
  stored-Replaced = Replaced-trans r (
      stored e (base_of lbase) t t.iofree_count d (f.same.pbase ∙ sound.placed.pbase) r.here
        r.distinct)

  filled-IsSound : IsSound s (base_of lbase) e
  filled-IsSound =
      let at = sound.placed in
      record {
        placed =
            IsPlaced-alike s s (base_of lbase) d e refl refl f.same.bdev f.same.dbase f.same.pbase
              at;
        filled = f.filled;
        free = λ none_held. absurd (omega (arith, f.same.refs));
      }

  Spares-view :
      (x : ℕ)
      → (e.good ≡ false) ⊎ Spares op (high_bits lbase off_radix_bits) lsize x
      → view (store e t) x ≡ view s x
  Spares-view x why =
      let p = base_of lbase in
      elim (ℕ_discrete (pbase_of x) p) [
        | no ne ↦ view-Replaced_ne s (store e t) p e stored-Replaced x ne
        | yes same ↦
            let place : x ≡ p + (x - p) = omega arith in
            view-Replaced_here s (store e t) p e stored-Replaced x same
            ∙ f.spares (x - p) (omega arith) (
                subst
                  (λ (y : ℕ). (e.good ≡ false) ⊎ Spares op (high_bits lbase off_radix_bits) lsize y)
                  place why)
            ∙ sym (before x same)
      ]

  Zeroes-view :
      e.good ≡ true
      → (x : ℕ) → Zeroes op (high_bits lbase off_radix_bits) lsize x
      → view (store e t) x ≡ 0
  Zeroes-view good x z =
      let p = base_of lbase in
      let inside = Zeroes-within op (high_bits lbase off_radix_bits) lsize x z in
      let same = pbase_of-request lbase lsize x q inside.0 inside.1 in
      let place : x ≡ p + (x - p) = omega arith in
      view-Replaced_here s (store e t) p e stored-Replaced x same
      ∙ f.zeroes good (x - p) (omega arith)
          (subst (λ (y : ℕ). Zeroes op (high_bits lbase off_radix_bits) lsize y) place z)

  shows-view :
      e.good ≡ true
      → (o : ℕ) → o < pbuf_size
      → content_at e.content o ≡ view (store e t) (base_of lbase + o)
  shows-view good o lt =
      let p = base_of lbase in
      let same : pbase_of (p + o) ≡ p = omega arith in
      let back : p + o - p ≡ o = omega arith in
      sym (
        view-Replaced_here s (store e t) p e stored-Replaced (p + o) same
        ∙ ap (dio_byte s.media e) back
        ∙ if_true e.good _ _ good)

  pub stored-GetsBlock : GetsBlock h s lbase lsize op e (store e t)
  stored-GetsBlock = record {
    coherent =
        Replaced-IsCoherent s (store e t) (base_of lbase) e stored-Replaced coherent filled-IsSound;
    there = stored-Replaced.here;
    held = f.same.refs ∙ held;
    unlocked = unfold store in unlocked;
    spares = Spares-view;
    zeroes = Zeroes-view;
    shows = shows-view;
    refused = f.refused;
  }

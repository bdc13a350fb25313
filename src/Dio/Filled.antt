-- ===== src/Dio/Filled.antt =====
-- What `hammer2_io_getblk` does to the content of the buffer that it has found.
use windows_hammer2_dfly.Common.{
  ℕ, zero, suc, ◌+◌, ◌-◌, ◌^◌, ◌≤◌, ◌<◌, ◌≡◌, refl, sym, ap, subst, ◌∙◌, ◌⊎◌, true, false,
  false≢true, Option, ◌==◌, if_true, if_false, Bool-cases, Option-cases, ok, panic, inl, inr, arith,
}
use windows_hammer2_dfly.Common.Words.{low_bits, high_bits}
use windows_hammer2_dfly.Disk.{pbuf_size, level1_radix, off_radix_bits}
use windows_hammer2_dfly.Dio.Types.{Dio}
use windows_hammer2_dfly.Dio.Pages.{Host}
use windows_hammer2_dfly.Dio.Buffer.{Op, no_content, loaded, fill}
use windows_hammer2_dfly.Dio.Found.{base_of}
use windows_hammer2_dfly.Dio.View.{content_at, dio_byte, IsFilled}
use windows_hammer2_dfly.Dio.Effects.{Spares, Zeroes, IsSame}
use windows_hammer2_dfly.Dio.Renewed.{Renews, no_content-some, renew-Renews}
use windows_hammer2_dfly.Dio.Loaded.{Refused, Loads, load-Loads}

-- The buffer after a call of `hammer2_io_getblk`: it shows what it did before but for the bytes of
-- the operation, unless it has no content.
pub record Fills (h : Host) (media : ℕ → ℕ → ℕ) (op : Op) (p lb lsize : ℕ) (d e : Dio)
    : Type 0 where
  pub same : IsSame d e
  pub filled : IsFilled media e
  pub spares :
      (o : ℕ)
      → o < pbuf_size
      → (e.good ≡ false) ⊎ Spares op lb lsize (p + o)
      → dio_byte media e o ≡ dio_byte media d o
  pub zeroes :
      e.good ≡ true → (o : ℕ) → o < pbuf_size → Zeroes op lb lsize (p + o) → dio_byte media e o ≡ 0
  pub refused : e.good ≡ false → Refused h e.bdev e.content

-- What a buffer shows, with content and without.
dio_byte-good :
    (media : ℕ → ℕ → ℕ) (d : Dio) (o : ℕ)
    → d.good ≡ true
    → dio_byte media d o ≡ content_at d.content o
dio_byte-good media d o good = if_true d.good _ _ good

dio_byte-bad :
    (media : ℕ → ℕ → ℕ) (d : Dio) (o : ℕ)
    → d.good ≡ false
    → dio_byte media d o ≡ media d.bdev (d.pbase - d.dbase + o)
dio_byte-bad media d o bad = if_false d.good _ _ bad

same_place :
    (media : ℕ → ℕ → ℕ) (d e : Dio) (o : ℕ)
    → IsSame d e
    → media e.bdev (e.pbase - e.dbase + o) ≡ media d.bdev (d.pbase - d.dbase + o)
same_place media d e o same = λ i. media (same.bdev i) (same.pbase i - same.dbase i + o)

module _ (h : Host) (media : ℕ → ℕ → ℕ) (lbase : ℕ) (small : lbase < 2 ^ 64) (d : Dio)
    (pbase : d.pbase ≡ base_of lbase) (below : d.dbase ≤ base_of lbase)
    (whole : low_bits d.dbase level1_radix ≡ 0) (is_filled : IsFilled media d) (lsize : ℕ)
    (op : Op) where
  abbrev Filled : Dio → Type 0
  Filled e = Fills h media op (base_of lbase) (high_bits lbase off_radix_bits) lsize d e

  -- A renewed buffer shows what it did but for the bytes of the operation.
  renewed-Fills :
      (e : Dio)
      → d.good ≡ true
      → Renews op (base_of lbase) (high_bits lbase off_radix_bits) lsize d e
      → Filled e
  renewed-Fills e good r =
      let e_good : e.good ≡ true = r.good ∙ good in
      record {
        same = r.same;
        filled = record {
          present = λ g. r.present;
          clean = λ g dirty o lt.
              ap (λ (c : Option (ℕ → ℕ)). content_at c o) (r.clean dirty).1
              ∙ is_filled.clean good (r.clean dirty).0 o lt
              ∙ sym (same_place media d e o r.same);
        };
        spares = λ o lt why. elim why [
          | inl bad ↦ absurd (false≢true (sym bad ∙ e_good))
          | inr s ↦
              dio_byte-good media e o e_good ∙ r.spares o s ∙ sym (dio_byte-good media d o good)
        ];
        zeroes = λ g o lt z. dio_byte-good media e o e_good ∙ r.zeroes o z;
        refused = λ bad. absurd (false≢true (sym bad ∙ e_good));
      }

  loaded-Fills :
      d.good ≡ false
      → (e : Dio) (error : ℕ)
      → Loads h media op (base_of lbase) (high_bits lbase off_radix_bits) lsize d e error
      → Filled (loaded (e, error))
  loaded-Fills bad e zero l = record {
    same = record {
      refs = l.same.refs;
      bdev = l.same.bdev;
      dbase = l.same.dbase;
      pbase = l.same.pbase;
    };
    filled = record {
      present = λ g. l.present refl;
      clean = λ g dirty o lt. l.clean refl dirty o lt ∙ sym (same_place media d e o l.same);
    };
    spares = λ o lt why. elim why [
      | inl none_good ↦ absurd (false≢true (sym none_good))
      | inr s ↦ l.spares refl o lt s ∙ sym (dio_byte-bad media d o bad)
    ];
    zeroes = λ g o lt z. l.zeroes refl o lt z;
    refused = λ none_good. absurd (false≢true (sym none_good));
  }
  loaded-Fills bad e (suc n) l =
      let e_bad : (loaded (e, suc n)).good ≡ false =
        if_false (suc n == 0) true e.good (ground arith) ∙ l.good ∙ bad in
      record {
        same = record {
          refs = l.same.refs;
          bdev = l.same.bdev;
          dbase = l.same.dbase;
          pbase = l.same.pbase;
        };
        filled = record {
          present = λ g. absurd (false≢true (sym e_bad ∙ g));
          clean = λ g dirty o lt. absurd (false≢true (sym e_bad ∙ g));
        };
        spares = λ o lt why.
            dio_byte-bad media (loaded (e, suc n)) o e_bad
            ∙ same_place media d e o l.same
            ∙ sym (dio_byte-bad media d o bad);
        zeroes = λ g o lt z. absurd (false≢true (sym e_bad ∙ g));
        refused = λ none_good.
            subst (λ (bdev : ℕ). Refused h bdev e.content) (sym l.same.bdev)
              (l.refused (omega arith));
      }

  -- The assertion of the source fails for a buffer that has bytes from a read that failed.
  pub fill-Fills :
      ((d.good ≡ false) × (no_content d.content ≡ false) × (fill h media d lbase lsize op ≡ panic))
      ⊎ ((e : Dio) × (fill h media d lbase lsize op ≡ ok e) × Filled e)
  unfolding fill
  fill-Fills = elim (Bool-cases d.good) [
    | inl good ↦
        let (buf, content) = is_filled.present good in
        let (e, run, r) = renew-Renews lbase small d pbase below whole buf content lsize op in
        inr (e, if_true d.good _ _ good ∙ run, renewed-Fills e good r)
    | inr bad ↦ elim (Option-cases d.content) [
      | inr (buf, content) ↦ inl (
        bad,
        no_content-some d.content content,
        if_false d.good _ _ bad ∙ (rw (no_content-some d.content content) refl),
      )
      | inl absent ↦
          let ((e, error), run, l) =
            load-Loads h media lbase small d pbase below whole lsize op absent in
          inr (
            loaded (e, error),
            if_false d.good _ _ bad ∙ (rw (ap no_content absent, run) refl),
            loaded-Fills bad e error l,
          )
    ]
  ]

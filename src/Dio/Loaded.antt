-- ===== src/Dio/Loaded.antt =====
-- A buffer without content in `hammer2_io_getblk`: it is read, or fresh.
use windows_hammer2_dfly.Common.{
  ℕ, zero, suc, ◌+◌, ◌-◌, ◌*◌, ◌/◌, ◌%◌, ◌^◌, ◌≤◌, ◌<◌, ◌≡◌, ◌≢◌, ◌⊎◌, refl, sym, ap, ◌∙◌, subst,
  Bool, true, false, not, ◌&&◌, false≢true, Option, none, some, ◌==◌, if_true, if_false, Bool-cases,
  ok, inl, inr, arith,
}
use windows_hammer2_dfly.Common.Words.{sub64, low_bits, high_bits}
use windows_hammer2_dfly.Disk.{pbuf_size, level1_radix, off_radix_bits}
use windows_hammer2_dfly.Ondisk.Types.{enomem}
use windows_hammer2_dfly.Dio.Types.{Dio}
use windows_hammer2_dfly.Dio.Pages.{Host, read_pages-at, read_pages-refused, dev_bread}
use windows_hammer2_dfly.Dio.Buffer.{
  Op, read, new, newnz, readq, eio, no_content, zeroed, read_content, dio_bread_into, dio_bread,
  fresh_content, load_whole, load_part, load,
}
use windows_hammer2_dfly.Dio.Found.{base_of}
use windows_hammer2_dfly.Dio.View.{content_at}
use windows_hammer2_dfly.Dio.Effects.{Spares, Zeroes, IsSame, IsSame-refl}
use windows_hammer2_dfly.Dio.Renewed.{no_content-some, renew-Renews}

-- Why a buffer has no content: the host had no memory, or a page of the device cannot be read; then
-- the memory for it stays.
abbrev pub Refused : Host → ℕ → Option (ℕ → ℕ) → Type 0
Refused h bdev content =
    (h.memory ≡ false)
    ⊎ ((page : ℕ) × (h.readable bdev page ≡ false) × (no_content content ≡ false))

-- A buffer that is read, or not, with the error; and what that is for an operation.
pub record Loads (h : Host) (media : ℕ → ℕ → ℕ) (op : Op) (p lb lsize : ℕ) (d e : Dio) (error : ℕ)
    : Type 0 where
  pub same : IsSame d e
  pub good : e.good ≡ d.good
  pub present : error ≡ 0 → (buf : ℕ → ℕ) × (e.content ≡ some buf)
  pub clean :
      error ≡ 0
      → e.dirty ≡ false
      → (o : ℕ) → o < pbuf_size
      → content_at e.content o ≡ media d.bdev (d.pbase - d.dbase + o)
  pub spares :
      error ≡ 0
      → (o : ℕ) → o < pbuf_size
      → Spares op lb lsize (p + o)
      → content_at e.content o ≡ media d.bdev (d.pbase - d.dbase + o)
  pub zeroes :
      error ≡ 0 → (o : ℕ) → o < pbuf_size → Zeroes op lb lsize (p + o) → content_at e.content o ≡ 0
  pub refused : error ≢ 0 → Refused h d.bdev e.content

module _ (h : Host) (media : ℕ → ℕ → ℕ) (op : Op) (p lb lsize : ℕ) where
  -- An error leaves nothing to show.
  error-Loads :
      (d e : Dio) (error : ℕ)
      → IsSame d e
      → e.good ≡ d.good
      → error ≢ 0
      → Refused h d.bdev e.content
      → Loads h media op p lb lsize d e error
  error-Loads d e error same good wrong refused = record {
    same = same;
    good = good;
    present = λ none_wrong. absurd (wrong none_wrong);
    clean = λ none_wrong. absurd (wrong none_wrong);
    spares = λ none_wrong. absurd (wrong none_wrong);
    zeroes = λ none_wrong. absurd (wrong none_wrong);
    refused = λ wrong. refused;
  }

module _ (h : Host) (media : ℕ → ℕ → ℕ) (d : Dio) (below : d.dbase ≤ d.pbase)
    (small : d.pbase < 2 ^ 64) (whole : (d.pbase - d.dbase) % pbuf_size ≡ 0) where
  read_byte :
      (buf : ℕ → ℕ) (o : ℕ)
      → o < pbuf_size
      → (dev_bread h media d.bdev (sub64 d.pbase d.dbase) buf pbuf_size).0 ≡ true
      → (dev_bread h media d.bdev (sub64 d.pbase d.dbase) buf pbuf_size).1 o
        ≡ media d.bdev (d.pbase - d.dbase + o)
  unfolding dev_bread
  read_byte buf o lt all =
      let blk = sub64 d.pbase d.dbase / 4096 in
      let place : blk * 4096 + o ≡ d.pbase - d.dbase + o = omega arith in
      read_pages-at h d.bdev blk media 16 0 buf o all (omega arith) (omega arith)
      ∙ ap (media d.bdev) place

  read_content-Loads :
      (op : Op) (p lb lsize : ℕ) (buf : ℕ → ℕ)
      → ((x : ℕ) → ¬ Zeroes op lb lsize x)
      → Loads h media op p lb lsize d (read_content h media d buf).0 (read_content h media d buf).1
  unfolding read_content
  read_content-Loads op p lb lsize buf never =
      let same : IsSame d (read_content h media d buf).0 = record {
        refs = refl;
        bdev = refl;
        dbase = refl;
        pbase = refl;
      } in
      elim (Bool-cases (dev_bread h media d.bdev (sub64 d.pbase d.dbase) buf pbuf_size).0) [
        | inl all ↦ record {
          same = same;
          good = refl;
          present = λ none_wrong. (_, refl);
          clean = λ none_wrong dirty o lt. read_byte buf o lt all;
          spares = λ none_wrong o lt s. read_byte buf o lt all;
          zeroes = λ none_wrong o lt z. absurd (never _ z);
          refused = λ wrong. absurd (wrong (if_true _ _ _ all));
        }
        | inr f ↦ rw f (
            error-Loads h media op p lb lsize d _ eio same refl (omega arith) (
              let (page, closed) =
                read_pages-refused h d.bdev (sub64 d.pbase d.dbase / 4096) media 16 0 buf
                  (unfold dev_bread in f) in
              inr (page, closed, refl)))
      ]

  dio_bread-Loads :
      (op : Op) (p lb lsize : ℕ)
      → ((x : ℕ) → ¬ Zeroes op lb lsize x)
      → d.content ≡ none
      → Loads h media op p lb lsize d (dio_bread h media d).0 (dio_bread h media d).1
  unfolding dio_bread
  dio_bread-Loads op p lb lsize never absent =
      let Is = λ (r : Dio × ℕ). Loads h media op p lb lsize d r.0 r.1 in
      subst (λ (c : Option (ℕ → ℕ)). Is (dio_bread_into h media d c)) (sym absent)
        (elim (Bool-cases h.memory) [
          | inl t ↦
              subst Is (sym (if_true h.memory _ _ t))
                (read_content-Loads op p lb lsize h.fresh never)
          | inr f ↦ subst Is (sym (if_false h.memory _ _ f)) (
              error-Loads h media op p lb lsize d d enomem (IsSame-refl d) refl (omega arith)
                (inl f))
        ])

  -- A fresh buffer for the whole of the bytes.
  fresh-Loads :
      (op : Op) (buf : ℕ → ℕ)
      → ((o : ℕ) → o < pbuf_size → ¬ Spares op d.pbase pbuf_size (d.pbase + o))
      → ((o : ℕ) → o < pbuf_size → Zeroes op d.pbase pbuf_size (d.pbase + o) → buf o ≡ 0)
      → Loads h media op d.pbase d.pbase pbuf_size d
          (fresh_content h d buf).0
          (fresh_content h d buf).1
  unfolding fresh_content
  fresh-Loads op buf covered zero_there =
      let Is = λ (r : Dio × ℕ). Loads h media op d.pbase d.pbase pbuf_size d r.0 r.1 in
      elim (Bool-cases h.memory) [
        | inl t ↦ subst Is (sym (if_true h.memory _ _ t)) (record {
          same = record { refs = refl; bdev = refl; dbase = refl; pbase = refl };
          good = refl;
          present = λ none_wrong. (buf, refl);
          clean = λ none_wrong dirty. absurd (false≢true (sym dirty));
          spares = λ none_wrong o lt s. absurd (covered o lt s);
          zeroes = λ none_wrong o lt z. zero_there o lt z;
          refused = λ wrong. absurd (wrong refl);
        })
        | inr f ↦ subst Is (sym (if_false h.memory _ _ f)) (
            error-Loads h media op d.pbase d.pbase pbuf_size d d enomem (IsSame-refl d) refl
              (omega arith) (inl f))
      ]

  whole-Loads :
      (op : Op)
      → d.content ≡ none
      → Loads h media op d.pbase d.pbase pbuf_size d
          (load_whole h media d op).0
          (load_whole h media d op).1
  unfolding load_whole
  whole-Loads read absent = dio_bread-Loads read d.pbase d.pbase pbuf_size (λ x z. z) absent
  whole-Loads readq absent = dio_bread-Loads readq d.pbase d.pbase pbuf_size (λ x z. z) absent
  whole-Loads new absent =
      fresh-Loads new (zeroed 0 pbuf_size h.fresh)
        (λ o lt s. elim s [ inl low ↦ omega arith | inr high ↦ omega arith ])
        (λ o lt z. ground arith)
  whole-Loads newnz absent =
      fresh-Loads newnz h.fresh
        (λ o lt s. elim s [ inl low ↦ omega arith | inr high ↦ omega arith ]) (λ o lt z. absurd z)

-- A buffer without content is loaded; a buffer with content is renewed.
module _ (h : Host) (media : ℕ → ℕ → ℕ) (lbase : ℕ) (small : lbase < 2 ^ 64) (d : Dio)
    (pbase : d.pbase ≡ base_of lbase) (below : d.dbase ≤ base_of lbase)
    (whole : low_bits d.dbase level1_radix ≡ 0) (lsize : ℕ) (op : Op) where
  abbrev IsLoaded : Dio × ℕ → Type 0
  IsLoaded r = Loads h media op (base_of lbase) (high_bits lbase off_radix_bits) lsize d r.0 r.1

  -- After a read without error, the operation is that on content.
  renewed-Loads :
      (e : Dio)
      → Loads h media read (base_of lbase) (high_bits lbase off_radix_bits) lsize d e 0
      → (r : Dio × ℕ) × (load_part (e, 0) lbase lsize op ≡ ok r) × IsLoaded r
  unfolding load_part
  renewed-Loads e l =
      let (buf, content) = l.present refl in
      let e_pbase : e.pbase ≡ base_of lbase = l.same.pbase ∙ pbase in
      let e_below : e.dbase ≤ base_of lbase = rw (l.same.dbase) below in
      let e_whole : low_bits e.dbase level1_radix ≡ 0 = rw (l.same.dbase) whole in
      let (f, run, r) = renew-Renews lbase small e e_pbase e_below e_whole buf content lsize op in
      (
        (f, 0),
        rw (no_content-some e.content content, run) refl,
        record {
          same = record {
            refs = r.same.refs ∙ l.same.refs;
            bdev = r.same.bdev ∙ l.same.bdev;
            dbase = r.same.dbase ∙ l.same.dbase;
            pbase = r.same.pbase ∙ l.same.pbase;
          };
          good = r.good ∙ l.good;
          present = λ none_wrong. r.present;
          clean = λ none_wrong dirty o lt.
              ap (λ (c : Option (ℕ → ℕ)). content_at c o) (r.clean dirty).1
              ∙ l.clean refl (r.clean dirty).0 o lt;
          spares = λ none_wrong o lt s. r.spares o s ∙ l.spares refl o lt tt;
          zeroes = λ none_wrong o lt z. r.zeroes o z;
          refused = λ wrong. absurd (wrong refl);
        },
      )

  no_renewal : (b : Bool) (n : ℕ) → (b && suc n == 0) ≡ false
  no_renewal true n = ground arith
  no_renewal false n = refl

  read-Loads :
      (e : Dio) (error : ℕ)
      → Loads h media read (base_of lbase) (high_bits lbase off_radix_bits) lsize d e error
      → (r : Dio × ℕ) × (load_part (e, error) lbase lsize op ≡ ok r) × IsLoaded r
  read-Loads e zero l = renewed-Loads e l
  read-Loads e (suc n) l = (
    (e, suc n),
    unfold load_part in rw (no_renewal (not (no_content e.content)) n) refl,
    error-Loads h media op (base_of lbase) (high_bits lbase off_radix_bits) lsize d e (suc n) l.same
        l.good (omega arith) (l.refused (omega arith)),
  )

  pub load-Loads :
      d.content ≡ none → (r : Dio × ℕ) × (load h media d lbase lsize op ≡ ok r) × IsLoaded r
  unfolding load
  load-Loads absent =
      let below' : d.dbase ≤ d.pbase = omega arith in
      let small' : d.pbase < 2 ^ 64 = omega arith in
      let whole' : (d.pbase - d.dbase) % pbuf_size ≡ 0 = omega arith in
      elim (Bool-cases (d.pbase == high_bits lbase off_radix_bits && lsize == pbuf_size)) [
        | inl t ↦
            let start : d.pbase ≡ high_bits lbase off_radix_bits = ground arith in
            let size : lsize ≡ pbuf_size = ground arith in
            (
              load_whole h media d op,
              rw t refl,
              subst
                  (λ (lb : ℕ).
                    Loads h media op (base_of lbase) lb lsize d (load_whole h media d op).0
                      (load_whole h media d op).1)
                  start
                  (subst
                    (λ (p : ℕ).
                      Loads h media op p d.pbase lsize d (load_whole h media d op).0
                        (load_whole h media d op).1)
                    pbase
                    (subst
                      (λ (n : ℕ).
                        Loads h media op d.pbase d.pbase n d (load_whole h media d op).0
                          (load_whole h media d op).1)
                      (sym size) (whole-Loads h media d below' small' whole' op absent))),
            )
        | inr f ↦
            let (r, run, l) = read-Loads (dio_bread h media d).0 (dio_bread h media d).1 (
              dio_bread-Loads h media d below' small' whole' read (base_of lbase)
                (high_bits lbase off_radix_bits) lsize (λ x z. z) absent) in
            (r, rw f run, l)
      ]

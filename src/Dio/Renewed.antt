-- ===== src/Dio/Renewed.antt =====
-- The operations of `hammer2_io_getblk` on a buffer that has its content, and `hammer2_io_data`.
use windows_hammer2_dfly.Common.{
  ℕ, ◌+◌, ◌-◌, ◌%◌, ◌^◌, ◌≤◌, ◌<◌, ◌≡◌, refl, sym, ap, ◌⊎◌, true, false, false≢true, Option, none,
  some, ltb, lt→ltb, ok, inl, inr, arith,
}
use windows_hammer2_dfly.Common.Words.{u32, sub64, low_bits, high_bits}
use windows_hammer2_dfly.Disk.{pbuf_size, level1_radix, off_radix_bits}
use windows_hammer2_dfly.Dio.Types.{Dio}
use windows_hammer2_dfly.Dio.Buffer.{
  Op, read, new, newnz, readq, no_content, io_data, zeroed, zero_content, renew,
}
use windows_hammer2_dfly.Dio.Found.{base_of}
use windows_hammer2_dfly.Dio.View.{content_at}
use windows_hammer2_dfly.Dio.Effects.{Spares, Zeroes, IsSame, IsSame-refl}

-- What an operation makes of a buffer with content, which starts at the base `p` of the volumes.
pub record Renews (op : Op) (p lb lsize : ℕ) (d e : Dio) : Type 0 where
  pub same : IsSame d e
  pub good : e.good ≡ d.good
  pub present : (buf : ℕ → ℕ) × (e.content ≡ some buf)
  pub clean : e.dirty ≡ false → (d.dirty ≡ false) × (e.content ≡ d.content)
  pub spares :
      (o : ℕ) → Spares op lb lsize (p + o) → content_at e.content o ≡ content_at d.content o
  pub zeroes : (o : ℕ) → Zeroes op lb lsize (p + o) → content_at e.content o ≡ 0

content_at-zero_in :
    (off lsize o : ℕ) (c : Option (ℕ → ℕ))
    → off ≤ o
    → o < off + lsize
    → content_at (zero_content off lsize c) o ≡ 0
content_at-zero_in off lsize o none le lt = refl
content_at-zero_in off lsize o (some buf) le lt = ground arith

content_at-zero_out :
    (off lsize o : ℕ) (c : Option (ℕ → ℕ))
    → (o < off) ⊎ (off + lsize ≤ o)
    → content_at (zero_content off lsize c) o ≡ content_at c o
content_at-zero_out off lsize o none out = refl
content_at-zero_out off lsize o (some buf) out = ground arith

pub no_content-some : (c : Option (ℕ → ℕ)) {buf : ℕ → ℕ} → c ≡ some buf → no_content c ≡ false
no_content-some none h = cc
no_content-some (some buf) h = refl

module _ (lbase : ℕ) (small : lbase < 2 ^ 64) (d : Dio) (pbase : d.pbase ≡ base_of lbase)
    (below : d.dbase ≤ base_of lbase) (whole : low_bits d.dbase level1_radix ≡ 0) (buf : ℕ → ℕ)
    (content : d.content ≡ some buf) where
  off_lem :
      (q b : ℕ)
      → q ≡ base_of lbase
      → b ≤ q
      → b % 2 ^ 30 ≡ 0
      → u32 (sub64 (high_bits (sub64 lbase b) off_radix_bits) (sub64 q b))
        ≡ high_bits lbase off_radix_bits - base_of lbase
  off_lem q b e le w = omega arith

  pub io_data-offset : io_data d lbase ≡ ok (high_bits lbase off_radix_bits - base_of lbase)
  unfolding io_data
  io_data-offset =
      let off : u32 (sub64 (high_bits (sub64 lbase d.dbase) off_radix_bits) (sub64 d.pbase d.dbase))
          ≡ high_bits lbase off_radix_bits - base_of lbase =
        off_lem d.pbase d.dbase pbase (omega arith) whole in
      let inside : ltb (high_bits lbase off_radix_bits - base_of lbase) pbuf_size ≡ true =
        lt→ltb _ _ (omega arith) in
      rw (no_content-some d.content content, off, inside) refl

  untouched-Renews :
      (lsize : ℕ) (op : Op)
      → ((x : ℕ) → ¬ Zeroes op (high_bits lbase off_radix_bits) lsize x)
      → Renews op (base_of lbase) (high_bits lbase off_radix_bits) lsize d d
  untouched-Renews lsize op never = record {
    same = IsSame-refl d;
    good = refl;
    present = (buf, content);
    clean = λ h. (h, refl);
    spares = λ o h. refl;
    zeroes = λ o h. absurd (never _ h);
  }

  -- With content, every operation gives a result.
  pub renew-Renews :
      (lsize : ℕ) (op : Op)
      → (e : Dio) × (renew d lbase lsize op ≡ ok e)
        × Renews op (base_of lbase) (high_bits lbase off_radix_bits) lsize d e
  unfolding renew
  renew-Renews lsize read = (d, refl, untouched-Renews lsize read (λ x h. h))
  renew-Renews lsize readq = (d, refl, untouched-Renews lsize readq (λ x h. h))
  renew-Renews lsize newnz = (
    record d { dirty = true },
    refl,
    record {
      same = record { refs = refl; bdev = refl; dbase = refl; pbase = refl };
      good = refl;
      present = (buf, content);
      clean = λ h. absurd (false≢true (sym h));
      spares = λ o h. refl;
      zeroes = λ o h. absurd h;
    },
  )
  renew-Renews lsize new =
      let off = high_bits lbase off_radix_bits - base_of lbase in
      (
        record d { content = zero_content off lsize d.content; dirty = true },
        rw io_data-offset refl,
        record {
          same = record { refs = refl; bdev = refl; dbase = refl; pbase = refl };
          good = refl;
          present = (zeroed off lsize buf, ap (zero_content off lsize) content);
          clean = λ h. absurd (false≢true (sym h));
          spares = λ o h.
              content_at-zero_out off lsize o d.content
                (elim h [ inl low ↦ inl (omega arith) | inr high ↦ inr (omega arith) ]);
          zeroes = λ o h.
              content_at-zero_in off lsize o d.content (omega (arith, h.0)) (omega (arith, h.1));
        },
      )

-- ===== src/Dio/Places.antt =====
-- What the last drop of a buffer writes, and what it leaves.
use windows_hammer2_dfly.Common.{
  ℕ, zero, suc, ◌+◌, ◌-◌, ◌*◌, ◌/◌, ◌%◌, ◌^◌, ◌≤◌, ◌<◌, ◌≡◌, ◌≢◌, refl, sym, ap, ◌∙◌, ◌⊎◌, true,
  ◌&&◌, Option, none, some, Option-cases, if◌then◌else◌, if_true, if_false, of_either, Bool-cases,
  ℕ_discrete, dec_lt, ok, inl, inr, arith,
}
use windows_hammer2_dfly.Common.Words.{sub64}
use windows_hammer2_dfly.Disk.{pbuf_size}
use windows_hammer2_dfly.Ondisk.Types.{Volume}
use windows_hammer2_dfly.Ondisk.Volumes.{get_volume}
use windows_hammer2_dfly.Dio.Types.{Dio, IoDev, bdev_number}
use windows_hammer2_dfly.Dio.Pages.{
  Host, write_pages, write_pages-outside, write_pages-at, dev_bwrite,
}
use windows_hammer2_dfly.Dio.Put.{write_content, write_out}
use windows_hammer2_dfly.Dio.View.{content_at, dio_byte, IsSound}
use windows_hammer2_dfly.Dio.Origins.{get_volume-above}

-- A device is used at one offset of the volumes.
abbrev pub IsSeparate : IoDev → Type 0
IsSeparate s =
    (p q : ℕ) (v w : Volume)
    → get_volume s.nvolumes s.volumes p ≡ ok v
    → get_volume s.nvolumes s.volumes q ≡ ok w
    → bdev_number v.dev ≡ bdev_number w.dev
    → v.offset ≡ w.offset

-- The host has a buffer head for each page that is written to a device.
abbrev pub IsWritable : Host → ℕ → Type 0
IsWritable h bdev = (page : ℕ) → h.writable bdev page ≡ true

write_pages-writable :
    (h : Host) (bdev blk : ℕ) (buf : ℕ → ℕ) (left i : ℕ) (media : ℕ → ℕ → ℕ)
    → IsWritable h bdev
    → (write_pages h bdev blk buf left i media).0 ≡ true
unfolding write_pages
write_pages-writable h bdev blk buf zero i media w = refl
write_pages-writable h bdev blk buf (suc left) i media w =
    rw (w (blk + i)) (write_pages-writable h bdev blk buf left (i + 1) _ w)

-- The content of a buffer at whole pages of its device, written: the bytes outside stay, and those
-- inside are the content's.
module _ (h : Host) (media : ℕ → ℕ → ℕ) (d : Dio) (below : d.dbase ≤ d.pbase)
    (small : d.pbase < 2 ^ 64) (whole : (d.pbase - d.dbase) % pbuf_size ≡ 0) where
  write_content-outside :
      (c : Option (ℕ → ℕ)) (b y : ℕ)
      → (b ≢ d.bdev) ⊎ ((y < d.pbase - d.dbase) ⊎ (d.pbase - d.dbase + pbuf_size ≤ y))
      → write_content h media d c b y ≡ media b y
  unfolding dev_bwrite
  write_content-outside none b y out = refl
  write_content-outside (some buf) b y out =
      let blk = sub64 d.pbase d.dbase / 4096 in
      of_either (d.good && d.dirty) (λ (m : ℕ → ℕ → ℕ). m b y ≡ media b y)
        (write_pages-outside h d.bdev blk buf 16 0 media b y (elim out [
          | inl other ↦ inl other
          | inr (inl low) ↦ inr (inl (omega arith))
          | inr (inr high) ↦ inr (inr (omega arith))
        ]))
        refl

  write_content-at :
      (buf : ℕ → ℕ) (o : ℕ)
      → IsWritable h d.bdev
      → o < pbuf_size
      → write_content h media d (some buf) d.bdev (d.pbase - d.dbase + o)
        ≡ (if d.good && d.dirty then buf o else media d.bdev (d.pbase - d.dbase + o))
  unfolding dev_bwrite
  write_content-at buf o writable lt =
      let blk = sub64 d.pbase d.dbase / 4096 in
      let y = d.pbase - d.dbase + o in
      let back : y - blk * 4096 ≡ o = omega arith in
      elim (Bool-cases (d.good && d.dirty)) [
        | inl t ↦
            ap (λ (m : ℕ → ℕ → ℕ). m d.bdev y) (if_true (d.good && d.dirty) _ media t)
            ∙ write_pages-at h d.bdev blk buf 16 0 media y
                (write_pages-writable h d.bdev blk buf 16 0 media writable) (omega arith)
                (omega arith)
            ∙ ap buf back
            ∙ sym (if_true (d.good && d.dirty) _ _ t)
        | inr f ↦
            ap (λ (m : ℕ → ℕ → ℕ). m d.bdev y) (if_false (d.good && d.dirty) _ media f)
            ∙ sym (if_false (d.good && d.dirty) _ _ f)
      ]

none-ne-some : (buf : ℕ → ℕ) → none ≢ some buf
none-ne-some buf h = cc

-- The media after the last reference of `d` is dropped.
module _ (h : Host) (s : IoDev) (separate : IsSeparate s) (p : ℕ) (d : Dio)
    (sound : IsSound s p d) where
  -- The bytes of another buffer's place stay.
  pub write_out-outside :
      (q : ℕ) (v : Volume) (o : ℕ)
      → get_volume s.nvolumes s.volumes q ≡ ok v
      → q ≢ p
      → q % pbuf_size ≡ 0
      → o < pbuf_size
      → write_out h s.media d (bdev_number v.dev) (q - v.offset + o)
        ≡ s.media (bdev_number v.dev) (q - v.offset + o)
  unfolding write_out
  write_out-outside q v o served ne aligned lt =
      let at = sound.placed in
      let above = get_volume-above s.nvolumes s.volumes q v served in
      write_content-outside h s.media d (omega arith) (omega arith) (omega arith) d.content
        (bdev_number v.dev) (q - v.offset + o)
        (elim (ℕ_discrete (bdev_number v.dev) d.bdev) [
          | no other ↦ inl other
          | yes same ↦
              let one = separate q p v at.volume served at.served (same ∙ at.bdev) in
              elim (dec_lt q p) [
                | yes less ↦ inr (inl (omega (arith, one)))
                | no more ↦ inr (inr (omega (arith, one)))
              ]
        ])

  kept_or_written :
      (buf : ℕ → ℕ) (o : ℕ)
      → d.content ≡ some buf
      → o < pbuf_size
      → (if d.good && d.dirty then buf o else s.media d.bdev (d.pbase - d.dbase + o))
        ≡ dio_byte s.media d o
  kept_or_written buf o content lt = elim (Bool-cases d.good) [
    | inr bad ↦ rw bad refl
    | inl good ↦
        let shows : dio_byte s.media d o ≡ buf o =
          if_true d.good _ _ good ∙ ap (λ (c : Option (ℕ → ℕ)). content_at c o) content in
        elim (Bool-cases d.dirty) [
          | inl t ↦ if_true (d.good && d.dirty) _ _ (rw (good, t) refl) ∙ sym shows
          | inr f ↦
              if_false (d.good && d.dirty) _ _ (rw (good, f) refl)
              ∙ sym (sound.filled.clean good f o lt)
              ∙ sym (if_true d.good _ _ good)
        ]
  ]

  -- The bytes of its own place are those that it showed.
  pub write_out-here :
      IsWritable h d.bdev
      → (o : ℕ) → o < pbuf_size
      → write_out h s.media d d.bdev (d.pbase - d.dbase + o) ≡ dio_byte s.media d o
  unfolding write_out
  write_out-here writable o lt =
      let at = sound.placed in
      elim (Option-cases d.content) [
        | inl absent ↦ elim (Bool-cases d.good) [
          | inl good ↦
              let (buf, content) = sound.filled.present good in
              absurd (none-ne-some buf (sym absent ∙ content))
          | inr bad ↦
              ap
                (λ (c : Option (ℕ → ℕ)). write_content h s.media d c d.bdev (d.pbase - d.dbase + o))
                absent
              ∙ sym (if_false d.good _ _ bad)
        ]
        | inr (buf, content) ↦
            ap (λ (c : Option (ℕ → ℕ)). write_content h s.media d c d.bdev (d.pbase - d.dbase + o))
              content
            ∙ write_content-at h s.media d (omega arith) (omega arith) (omega arith) buf o writable
                lt
            ∙ kept_or_written buf o content lt
      ]

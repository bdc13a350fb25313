-- ===== src/Dio/Pages.antt =====
-- `hammer2_dev_bread` and `hammer2_dev_bwrite`: a region of a device, page by page.
use windows_hammer2_dfly.Common.{
  ℕ, zero, suc, ◌+◌, ◌-◌, ◌*◌, ◌/◌, ◌≤◌, ◌<◌, ◌≡◌, ◌≢◌, refl, sym, ap, ◌∙◌, ◌⊎◌, Bool, true, false,
  ◌&&◌, false≢true, ltb, leb, ◌==◌, if◌then◌else◌, Bool-cases, inl, inr, dec_lt, arith,
}

-- What the host does: the pages that `__bread` and `__getblk` give a buffer head for, whether
-- kvmalloc finds memory and what is in it, and the ticks of a second.
pub record Host : Type 0 where
  pub readable : ℕ → ℕ → Bool
  pub writable : ℕ → ℕ → Bool
  pub memory : Bool
  pub fresh : ℕ → ℕ
  pub hz : ℕ

-- PAGE_SIZE
abbrev pub page_size : ℕ
page_size = 4096

-- The bytes of page `i` of a buffer.
abbrev pub in_page : ℕ → ℕ → Bool
in_page i x = leb (i * page_size) x && ltb x (i * page_size + page_size)

module _ (h : Host) (bdev blk : ℕ) where
  -- The loop of `hammer2_dev_bread` from page `i` on: whether it read all, and the buffer.
  unfoldable pub read_pages : (ℕ → ℕ → ℕ) → ℕ → ℕ → (ℕ → ℕ) → Bool × (ℕ → ℕ)
  read_pages media zero i buf = (true, buf)
  read_pages media (suc left) i buf =
      let rest = read_pages media left (i + 1) (λ x.
        if in_page i x then media bdev ((blk + i) * page_size + (x - i * page_size)) else buf x) in
      if h.readable bdev (blk + i) then rest else (false, buf)

  -- The loop of `hammer2_dev_bwrite` from page `i` on. The page of a device that is written.
  abbrev pub in_block : ℕ → ℕ → ℕ → Bool
  in_block i b y =
      b == bdev && (leb ((blk + i) * page_size) y && ltb y ((blk + i) * page_size + page_size))

  unfoldable pub write_pages : (ℕ → ℕ) → ℕ → ℕ → (ℕ → ℕ → ℕ) → Bool × (ℕ → ℕ → ℕ)
  write_pages buf zero i media = (true, media)
  write_pages buf (suc left) i media =
      let rest = write_pages buf left (i + 1) (λ b y.
        if in_block i b y then buf (i * page_size + (y - (blk + i) * page_size)) else media b y) in
      if h.writable bdev (blk + i) then rest else (false, media)

  -- A read leaves the bytes of the pages before.
  read_pages-before :
      (media : ℕ → ℕ → ℕ) (left i : ℕ) (buf : ℕ → ℕ) (x : ℕ)
      → x < i * page_size
      → (read_pages media left i buf).1 x ≡ buf x
  unfolding read_pages
  read_pages-before media zero i buf x lt = refl
  read_pages-before media (suc left) i buf x lt =
      let next = λ (y : ℕ).
        if in_page i y then media bdev ((blk + i) * page_size + (y - i * page_size)) else buf y in
      let same : next x ≡ buf x = ground arith in
      elim (Bool-cases (h.readable bdev (blk + i))) [
        | inl t ↦ rw t (read_pages-before media left (i + 1) next x (omega arith) ∙ same)
        | inr f ↦ rw f refl
      ]

  -- What a read of all pages gives.
  pub read_pages-at :
      (media : ℕ → ℕ → ℕ) (left i : ℕ) (buf : ℕ → ℕ) (x : ℕ)
      → (read_pages media left i buf).0 ≡ true
      → i * page_size ≤ x
      → x < (i + left) * page_size
      → (read_pages media left i buf).1 x ≡ media bdev (blk * page_size + x)
  unfolding read_pages
  read_pages-at media zero i buf x all le lt = absurd (omega arith)
  read_pages-at media (suc left) i buf x all le lt =
      let next = λ (y : ℕ).
        if in_page i y then media bdev ((blk + i) * page_size + (y - i * page_size)) else buf y in
      elim (Bool-cases (h.readable bdev (blk + i))) [
        | inl t ↦
            let rest : (read_pages media left (i + 1) next).0 ≡ true = rw t at all in
            rw t (elim (dec_lt x ((i + 1) * page_size)) [
              | yes here ↦
                  let same : next x ≡ media bdev ((blk + i) * page_size + (x - i * page_size)) =
                    ground arith in
                  let place : (blk + i) * page_size + (x - i * page_size) ≡ blk * page_size + x =
                    omega arith in
                  read_pages-before media left (i + 1) next x here ∙ same ∙ ap (media bdev) place
              | no far ↦ read_pages-at media left (i + 1) next x rest (omega arith) (omega arith)
            ])
        | inr f ↦ absurd (false≢true (rw f at all))
      ]

  -- A write, of whatever pages, leaves the bytes outside of its region.
  pub write_pages-outside :
      (buf : ℕ → ℕ) (left i : ℕ) (media : ℕ → ℕ → ℕ) (b y : ℕ)
      → (b ≢ bdev) ⊎ ((y < (blk + i) * page_size) ⊎ ((blk + i + left) * page_size ≤ y))
      → (write_pages buf left i media).1 b y ≡ media b y
  unfolding write_pages
  write_pages-outside buf zero i media b y out = refl
  write_pages-outside buf (suc left) i media b y out =
      let next = λ (c z : ℕ).
        if in_block i c z then buf (i * page_size + (z - (blk + i) * page_size)) else media c z in
      let same : next b y ≡ media b y = ground arith in
      let still : (b ≢ bdev)
          ⊎ ((y < (blk + (i + 1)) * page_size) ⊎ ((blk + (i + 1) + left) * page_size ≤ y)) =
        elim out [
          | inl other ↦ inl other
          | inr (inl below) ↦ inr (inl (omega arith))
          | inr (inr above) ↦ inr (inr (omega arith))
        ] in
      elim (Bool-cases (h.writable bdev (blk + i))) [
        | inl t ↦ rw t (write_pages-outside buf left (i + 1) next b y still ∙ same)
        | inr f ↦ rw f refl
      ]

  -- A read that fails has met a page that cannot be read.
  pub read_pages-refused :
      (media : ℕ → ℕ → ℕ) (left i : ℕ) (buf : ℕ → ℕ)
      → (read_pages media left i buf).0 ≡ false
      → (page : ℕ) × (h.readable bdev page ≡ false)
  unfolding read_pages
  read_pages-refused media zero i buf failed = absurd (false≢true (sym failed))
  read_pages-refused media (suc left) i buf failed = elim (Bool-cases (h.readable bdev (blk + i))) [
    | inl t ↦ read_pages-refused media left (i + 1) _ (rw t at failed)
    | inr f ↦ (blk + i, f)
  ]

  -- What a write of all pages leaves in its region.
  pub write_pages-at :
      (buf : ℕ → ℕ) (left i : ℕ) (media : ℕ → ℕ → ℕ) (y : ℕ)
      → (write_pages buf left i media).0 ≡ true
      → (blk + i) * page_size ≤ y
      → y < (blk + i + left) * page_size
      → (write_pages buf left i media).1 bdev y ≡ buf (y - blk * page_size)
  unfolding write_pages
  write_pages-at buf zero i media y all le lt = absurd (omega arith)
  write_pages-at buf (suc left) i media y all le lt =
      let next = λ (c z : ℕ).
        if in_block i c z then buf (i * page_size + (z - (blk + i) * page_size)) else media c z in
      elim (Bool-cases (h.writable bdev (blk + i))) [
        | inl t ↦
            let rest : (write_pages buf left (i + 1) next).0 ≡ true = rw t at all in
            rw t (elim (dec_lt y ((blk + (i + 1)) * page_size)) [
              | yes here ↦
                  let same : next bdev y ≡ buf (i * page_size + (y - (blk + i) * page_size)) =
                    ground arith in
                  let place : i * page_size + (y - (blk + i) * page_size) ≡ y - blk * page_size =
                    omega arith in
                  write_pages-outside buf left (i + 1) next bdev y (inr (inl here))
                  ∙ same
                  ∙ ap buf place
              | no far ↦ write_pages-at buf left (i + 1) next y rest (omega arith) (omega arith)
            ])
        | inr f ↦ absurd (false≢true (rw f at all))
      ]

-- The number of pages of `bytes`, and the first block of `byteoff`.
unfoldable pub dev_bread : Host → (ℕ → ℕ → ℕ) → ℕ → ℕ → (ℕ → ℕ) → ℕ → Bool × (ℕ → ℕ)
dev_bread h media bdev byteoff buf bytes =
    read_pages h bdev (byteoff / page_size) media (bytes / page_size) 0 buf

unfoldable pub dev_bwrite : Host → (ℕ → ℕ → ℕ) → ℕ → ℕ → (ℕ → ℕ) → ℕ → Bool × (ℕ → ℕ → ℕ)
dev_bwrite h media bdev byteoff buf bytes =
    write_pages h bdev (byteoff / page_size) buf (bytes / page_size) 0 media

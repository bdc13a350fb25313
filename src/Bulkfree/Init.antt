-- ===== src/Bulkfree/Init.antt =====
-- `cbinfo_bmap_init`: the bitmaps that a collection starts from.
use windows_hammer2_dfly.Common.{
  ℕ, zero, suc, ◌+◌, ◌-◌, ◌*◌, ◌/◌, ◌%◌, ◌^◌, ◌≤◌, ◌<◌, ◌≡◌, refl, ◌∙◌, ap, ◌⊎◌, inl, inr, Bool,
  true, false, not, ◌&&◌, ◌||◌, ltb, leb, if◌then◌else◌, length, get_or, get_or-replicate, arith,
}
use windows_hammer2_dfly.Common.Words.{u64, high_bits}
use windows_hammer2_dfly.Common.Pairs.Masks.{pair, pair-span}
use windows_hammer2_dfly.Freemap.Bmap.Marks.{state}
use windows_hammer2_dfly.Bulkfree.Record.{Range, init_bmap, raised_lokey, init_bmaps, bmap_init}
use windows_hammer2_dfly.Bulkfree.Found.{IsCollected}
use windows_hammer2_dfly.Bulkfree.Scanned.{IsGathering, block}

-- The 4MB at `key` are for allocation: above the reserved areas of the volume and of the zone, and
-- within the storage.
abbrev pub usable : Range → ℕ → Bool
usable r key =
    leb r.allocator_beg key && leb (2 ^ 22) (key % 2 ^ 30) && leb (key + 2 ^ 22) r.total_size

pair-zero : (k : ℕ) → pair 0 k ≡ 0
pair-zero zero = refl
pair-zero (suc k) = pair-zero k

init_bmap-state : (t : Bool) (n : ℕ) → n < 256 → state (init_bmap t) n ≡ (if t then 0 else 3)
unfolding init_bmap
init_bmap-state true n lt =
    ap (λ (w : ℕ). pair w (n % 32)) (get_or-replicate 8 (n / 32) 0 0 (omega arith))
    ∙ pair-zero (n % 32)
init_bmap-state false n lt =
    ap (λ (w : ℕ). pair w (n % 32)) (get_or-replicate 8 (n / 32) (2 ^ 64 - 1) 0 (omega arith))
    ∙ pair-span 32 0 (n % 32) (omega arith) (omega arith)

length-init_bmap : (t : Bool) → length (init_bmap t).bitmapq ≡ 8
unfolding init_bmap
length-init_bmap true = refl
length-init_bmap false = refl

pub init_bmap-IsCollected : (t : Bool) → IsCollected (init_bmap t)
init_bmap-IsCollected true = record {
  words = length-init_bmap true;
  known = λ n lt. inl (init_bmap-state true n lt);
}
init_bmap-IsCollected false = record {
  words = length-init_bmap false;
  known = λ n lt. inr (init_bmap-state false n lt);
}

-- What the loop knows of `lokey` at `key`, where `start` is the rounded start of the allocator.
record IsLow (start key lokey : ℕ) : Type 0 where
  least : start ≤ lokey
  most : (lokey ≤ start) ⊎ (lokey ≤ high_bits key 30 + 2 ^ 22)

raised :
    (start key lokey : ℕ)
    → key < 2 ^ 63
    → IsLow start key lokey
    → IsLow start key (raised_lokey key lokey)
      × (high_bits key 30 + 2 ^ 22 ≤ raised_lokey key lokey)
unfolding raised_lokey
raised start key lokey small low =
    (record { least = ground arith; most = ground arith }, ground arith)

unusable :
    (r : Range) (start key low : ℕ)
    → key % 2 ^ 22 ≡ 0
    → start ≡ (r.allocator_beg + (2 ^ 22 - 1)) / 2 ^ 22 * 2 ^ 22
    → IsLow start key low
    → high_bits key 30 + 2 ^ 22 ≤ low
    → not (ltb key low || leb (high_bits r.total_size 22) key) ≡ usable r key
unusable r start key low whole rounded b h = ground arith

init_bmaps-states :
    (r : Range) (start left key lokey : ℕ)
    → key % 2 ^ 22 ≡ 0
    → start ≡ (r.allocator_beg + (2 ^ 22 - 1)) / 2 ^ 22 * 2 ^ 22
    → key + left * 2 ^ 22 ≤ 2 ^ 63
    → IsLow start key lokey
    → (i : ℕ) → i < left
    → get_or (init_bmaps left key lokey (high_bits r.total_size 22)) i (init_bmap true)
      ≡ init_bmap (usable r (key + i * 2 ^ 22))
unfolding init_bmaps
init_bmaps-states r start zero key lokey whole rounded room low i lt = absurd (omega arith)
init_bmaps-states r start (suc left) key lokey whole rounded room low zero lt =
    let (b, h) = raised start key lokey (omega arith) low in
    ap init_bmap (
      unusable r start key (raised_lokey key lokey) whole rounded b h
      ∙ ap (usable r) (let e : key ≡ key + 0 * 2 ^ 22 = omega arith in e))
init_bmaps-states r start (suc left) key lokey whole rounded room low (suc i) lt =
    let (b, h) = raised start key lokey (omega arith) low in
    rw (let e : u64 (key + 2 ^ 22) ≡ key + 2 ^ 22 = omega arith in e) (
      init_bmaps-states r start left (key + 2 ^ 22) (raised_lokey key lokey) (omega arith) rounded
        (omega arith)
        (record {
          least = b.least;
          most = elim b.most [ inl h' ↦ inl h' | inr h' ↦ inr (omega arith) ];
        })
        i (omega arith)
      ∙ ap (λ k. init_bmap (usable r k))
          (let e : key + 2 ^ 22 + i * 2 ^ 22 ≡ key + suc i * 2 ^ 22 = omega arith in e))

length-init_bmaps : (left key lokey hikey : ℕ) → length (init_bmaps left key lokey hikey) ≡ left
unfolding init_bmaps
length-init_bmaps zero key lokey hikey = refl
length-init_bmaps (suc left) key lokey hikey = ap suc (length-init_bmaps left _ _ hikey)

init-IsLow :
    (r : Range) (key : ℕ)
    → r.allocator_beg < 2 ^ 63
    → IsLow
        ((r.allocator_beg + (2 ^ 22 - 1)) / 2 ^ 22 * 2 ^ 22)
        key
        (high_bits (u64 (r.allocator_beg + (2 ^ 22 - 1))) 22)
init-IsLow r key small = record { least = omega arith; most = inl (omega arith) }

bmap_init-at :
    (r : Range) (count : ℕ)
    → r.sbase % 2 ^ 22 ≡ 0
    → r.sbase + count * 2 ^ 22 ≤ 2 ^ 63
    → r.allocator_beg < 2 ^ 63
    → (i : ℕ) → i < count
    → get_or (bmap_init r count) i (init_bmap true) ≡ init_bmap (usable r (r.sbase + i * 2 ^ 22))
unfolding bmap_init
bmap_init-at r count whole room small i lt =
    init_bmaps-states r _ count r.sbase _ whole refl room (init-IsLow r r.sbase small) i lt

length-bmap_init : (r : Range) (count : ℕ) → length (bmap_init r count) ≡ count
unfolding bmap_init
length-bmap_init r count = length-init_bmaps count r.sbase _ _

-- For a range of `count` times 4MB that starts at a multiple of 4MB, with all addresses below 2^63,
-- the collection starts from bitmaps in which a block is free (0) if its 4MB lie at or above the
-- start of the allocator, above the reserved 4MB of their zone, and within the storage, and in
-- which every other block is in use (3).
bmap_init-block :
    (r : Range) (count : ℕ)
    → r.sbase % 2 ^ 22 ≡ 0
    → r.sstop ≡ r.sbase + count * 2 ^ 22
    → r.sstop ≤ 2 ^ 63
    → r.allocator_beg < 2 ^ 63
    → IsGathering r (bmap_init r count)
      × ((n : ℕ)
          → n < count * 256
          → block (bmap_init r count) n ≡ (if usable r (r.sbase + n / 256 * 2 ^ 22) then 0 else 3))
bmap_init-block r count whole stop room small = (
  record {
    aligned = whole;
    covered = rw (length-bmap_init r count) stop;
    bounded = room;
    each = λ i lt.
        rw (bmap_init-at r count whole (omega arith) small i (rw (length-bmap_init r count) at lt))
          (init_bmap-IsCollected _);
  },
  λ n lt.
      rw (bmap_init-at r count whole (omega arith) small (n / 256) (omega arith))
        (init_bmap-state _ (n % 256) (omega arith)),
)

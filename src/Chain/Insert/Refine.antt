-- ===== src/Chain/Insert/Refine.antt =====
-- `hammer2_base_insert` inserts into the list of the entries in use.
use windows_hammer2_dfly.Common.{
  ℕ, suc, ◌+◌, ◌-◌, ◌^◌, ◌≤◌, ◌<◌, ◌≡◌, refl, sym, ◌∙◌, ap, false≢true, ◌⊎◌, inl, inr, true, false,
  not, ◌&&◌, ◌||◌, List, Option, set, length, ltb, leb, if◌then◌else◌, ◌==◌, Bool-cases, ℕ_discrete,
  dec_lt, ok, arith,
}
use native.Mathlib.Nat.{one-le-pow}
use windows_hammer2_dfly.Chain.Types.{Bref, is_empty, last_key, entry, Parent}
use windows_hammer2_dfly.Chain.Find.{reaches}
use windows_hammer2_dfly.Chain.Find.Ordered.{IsFitting, last_key-IsFitting, IsOrdered}
use windows_hammer2_dfly.Chain.Find.Nearest.{
  IsNearest, nearest-IsNearest, IsBlockArray, base_find-IsSearch,
}
use windows_hammer2_dfly.Chain.Account.{account_insert}
use windows_hammer2_dfly.Chain.Insert.{
  Room, before, after, no_room, slide_down, slide_up, Inserted, put_entry, insert_at, Flags, mapped,
  base_insert,
}
use windows_hammer2_dfly.Chain.Insert.Splice.{
  splice, without, set-splice, set-slide_down, set-slide_up, length-splice, length-without,
  entry-without_above, entry-splice_above, entry-splice_at,
}
use windows_hammer2_dfly.Chain.Insert.Sorted.{
  live, insert_by_key, IsPlace, live-splice, live-without, splice-IsOrdered, without-IsOrdered,
  validate-ok,
}
use windows_hammer2_dfly.Chain.Insert.Slot.{
  IsRoom, is_before, is_after, find_room-IsRoom, IsDisjoint, upper, before-IsPlace, after-IsPlace,
  end-IsPlace,
}

-- The array afterwards, and the list that it stands for.
pub record IsInserted (p : Parent) (e : Bref) (base : List Bref) (count : ℕ) (r : Inserted)
    : Type 0 where
  pub array : IsBlockArray r.parent r.base count
  pub entries : live r.base ≡ insert_by_key e (live base)
  pub stats : r.parent.stats ≡ p.stats
  pub index : ℕ
  pub within : index < count
  pub there : entry r.base index ≡ e

module _ (p : Parent) (base : List Bref) (count : ℕ) (e : Bref) (b : IsBlockArray p base count)
    (in_use : is_empty e ≡ false) (f : IsFitting e) where
  -- An array in which an empty entry has made room for the new one.
  record IsMoved (m j : ℕ) (moved : List Bref) : Type 0 where
    same : moved ≡ splice m e (without j base)
    spare : j < count
    free : is_empty (entry base j) ≡ true
    at_place : IsPlace e m (without j base)

  module _ (m j : ℕ) (moved : List Bref) (v : IsMoved m j moved) where
    still-IsOrdered : IsOrdered moved
    still-IsOrdered = rw (v.same) (
        splice-IsOrdered e m (without j base) in_use f
          (without-IsOrdered j base (omega (arith, v.spare, b.size)) b.ordered) v.at_place)

    still_sized : length moved ≡ count
    still_sized =
        rw (v.same, length-splice m e (without j base))
          (length-without j base (omega (arith, v.spare, b.size)) ∙ b.size)

    now_live : live moved ≡ insert_by_key e (live base)
    now_live = rw (v.same) (
        live-splice e m (without j base) in_use f
          (without-IsOrdered j base (omega (arith, v.spare, b.size)) b.ordered) v.at_place
        ∙ ap (insert_by_key e) (live-without j base v.free))

    unmoved : (t : ℕ) → m < t → j < t → entry moved t ≡ entry base t
    unmoved t gt gt' =
        let shift : t ≡ suc (t - 1) = omega arith in
        rw (v.same) (
          ap (entry (splice m e (without j base))) shift
          ∙ entry-splice_above m (t - 1) e (without j base) (omega arith)
          ∙ entry-without_above j (t - 1) base (omega arith)
          ∙ ap (entry base) (sym shift))

    inserted :
        (q : Parent)
        → q.counted ≡ true
        → q.stats ≡ p.stats
        → q.live_zero ≤ count
        → p.live_zero ≤ q.live_zero
        → m < q.live_zero
        → j < q.live_zero
        → IsInserted p e base count (record { parent = q; base = moved })
    inserted q counted stats limit more gt gt' = record {
      array = record {
        counted = counted;
        size = still_sized;
        limit = limit;
        trailing =
            λ t le lt. rw (unmoved t (omega arith) (omega arith)) (b.trailing t (omega arith) lt);
        ordered = still-IsOrdered;
      };
      entries = now_live;
      stats = stats;
      index = m;
      within = omega (
        arith,
        v.at_place.within,
        length-without j base (omega (arith, v.spare, b.size)),
        b.size,
      );
      there = rw (v.same) (entry-splice_at m e (without j base) v.at_place.within);
    }

  module _ (d : IsDisjoint e base) (i : ℕ) (n : IsNearest e.key base i) where
    -- The entry at the index, if there is one, is in use and lies above.
    hit_used : i < count → is_empty (entry base i) ≡ false
    hit_used lt = not_empty (entry base i) (n.at (omega (arith, b.size)))
      where
        not_empty : (x : Bref) → reaches e.key x ≡ true → is_empty x ≡ false
        not_empty x h = ground arith

    hit_live : i < count → i < p.live_zero
    hit_live lt = elim (dec_lt i p.live_zero) [
      | yes below ↦ below
      | no over ↦ absurd (false≢true (sym (hit_used lt) ∙ b.trailing i (omega arith) lt))
    ]

    no_overlap :
        (not (i == count) && (ltb (entry base i).key e.key || leb (entry base i).key (last_key e)))
        ≡ false
    no_overlap = elim (dec_lt i count) [
      | yes lt ↦
          clear lt
            (upper e base i n b.ordered d i (omega arith) (omega (arith, b.size)) (hit_used lt))
            (last_key-IsFitting e f)
      | no over ↦
          let at_end : i ≡ count = omega (arith, n.inside, b.size) in
          let t : (i == count) ≡ true = ground arith in rw t refl
    ]
      where
        clear :
            i < count
            → last_key e < (entry base i).key
            → last_key e + 1 ≡ e.key + 2 ^ e.keybits
            → (not (i == count)
                && (ltb (entry base i).key e.key || leb (entry base i).key (last_key e)))
              ≡ false
        clear lt gap last = ground (arith, one-le-pow e.keybits 2)

    -- The two ways to move entries.
    IsMoved-down :
        (j : ℕ)
        → j < i
        → is_empty (entry base j) ≡ true
        → IsMoved
            (i - 1)
            j
            (if j == i - 1 then set base j e else set (slide_down j (i - j - 1) base) (i - 1) e)
    IsMoved-down j lt free = record {
      same = elim (ℕ_discrete j (i - 1)) [
        | yes h ↦
            let t : (j == i - 1) ≡ true = ground arith in
            rw t (
              set-splice j e base (omega (arith, n.inside))
              ∙ ap (λ m. splice m e (without j base)) h)
        | no ne ↦
            let t : (j == i - 1) ≡ false = ground arith in
            let sum : j + (i - j - 1) ≡ i - 1 = omega arith in
            rw t (rw sum at (set-slide_down j (i - j - 1) e base (omega (arith, n.inside))))
      ];
      spare = omega (arith, n.inside, b.size);
      free = free;
      at_place =
          before-IsPlace e base i n b.ordered d j (i - 1) (omega arith) (omega arith)
            (omega (arith, n.inside));
    }

    IsMoved-up :
        (k : ℕ)
        → i < k
        → k < count
        → is_empty (entry base k) ≡ true
        → IsMoved i k (set (slide_up i (k - i) base) i e)
    IsMoved-up k gt size free = record {
      same =
          let sum : i + suc (k - i - 1) ≡ k = omega arith in
          let more : suc (k - i - 1) ≡ k - i = omega arith in
          rw (sum, more) at (set-slide_up i (k - i - 1) e base (omega (arith, b.size)));
      spare = size;
      free = free;
      at_place = after-IsPlace e base i n b.ordered d k gt (omega (arith, b.size));
    }

    IsMoved-end :
        i ≡ count → p.live_zero < count → IsMoved p.live_zero p.live_zero (set base p.live_zero e)
    IsMoved-end at_end size = record {
      same = set-splice p.live_zero e base (omega (arith, b.size));
      spare = size;
      free = b.trailing p.live_zero (omega arith) size;
      at_place =
          end-IsPlace e base i n b.ordered d p.live_zero (omega (arith, b.size))
            (omega (arith, b.size)) (λ t le lt. b.trailing t le (omega (arith, b.size)));
    }

    put_entry-IsInserted :
        (room : Room)
        → IsRoom base count i room
        → (i < count) ⊎ (count ≤ p.live_zero)
        → (r : Inserted) × (put_entry p base count i e room ≡ ok r) × IsInserted p e base count r
    unfolding put_entry
    put_entry-IsInserted no_room fits full = elim fits [ ]
    put_entry-IsInserted (before j) (is_before lt free) full =
        let v = IsMoved-down j lt free in
        let moved =
          if j == i - 1 then set base j e else set (slide_down j (i - j - 1) base) (i - 1) e in
        let low : i ≤ p.live_zero = elim full [
          | inl h ↦ omega (arith, hit_live h)
          | inr h ↦ omega (arith, n.inside, b.size)
        ] in
        (
          record { parent = p; base = moved },
          rw (validate-ok moved (still-IsOrdered (i - 1) j moved v)) refl,
          inserted (i - 1) j moved v p b.counted refl b.limit (omega arith) (omega arith)
              (omega arith),
        )
    put_entry-IsInserted (after k) (is_after gt size free) full =
        let v = IsMoved-up k gt size free in
        let moved = set (slide_up i (k - i) base) i e in
        let q = if leb p.live_zero k then record p { live_zero = k + 1 } else p in
        (
          record { parent = q; base = moved },
          rw (validate-ok moved (still-IsOrdered i k moved v)) refl,
          inserted i k moved v q (ground (arith, b.counted)) (ground arith)
              (ground (arith, b.limit)) (ground arith) (ground arith) (ground arith),
        )

    away : (e0 : ℕ) → e0 < count → is_empty (entry base e0) ≡ true → (e0 + 1 ≤ i) ⊎ (i + 1 ≤ e0)
    away e0 size free = elim (ℕ_discrete e0 i) [
      | yes h ↦ absurd (false≢true (sym (hit_used (omega arith)) ∙ rw h at free))
      | no ne ↦ elim (dec_lt e0 i) [ yes below ↦ inl (omega arith) | no above ↦ inr (omega arith) ]
    ]

    not_appended :
        ((i == count) && ltb p.live_zero count) ≡ false → (i < count) ⊎ (count ≤ p.live_zero)
    not_appended moves = elim (dec_lt i count) [
      | yes lt ↦ inl lt
      | no over ↦ inr (ground (arith, n.inside, b.size))
    ]

    pub insert_at-IsInserted :
        (e0 : ℕ)
        → e0 < count
        → is_empty (entry base e0) ≡ true
        → (r : Inserted) × (insert_at p base count i e ≡ ok r) × IsInserted p e base count r
    unfolding insert_at
    insert_at-IsInserted e0 size free = elim (Bool-cases ((i == count) && ltb p.live_zero count)) [
      | inl append ↦
          let parts : (i ≡ count) × (p.live_zero < count) = (ground arith, ground arith) in
          let v = IsMoved-end parts.0 parts.1 in
          (
            record {
              parent = record p { live_zero = p.live_zero + 1 };
              base = set base p.live_zero e;
            },
            rw append refl,
            inserted p.live_zero p.live_zero _ v (record p { live_zero = p.live_zero + 1 })
                b.counted refl (omega (arith, parts.1)) (omega arith) (omega arith) (omega arith),
          )
      | inr moves ↦
          let far = away e0 size free in
          let room =
            find_room-IsRoom base count i e0 (omega (arith, n.inside, b.size)) size free (count + 1)
              1 (omega arith) (omega arith) far in
          let (r, run, done) = put_entry-IsInserted _ room (not_appended moves) in
          (r, rw (moves, no_overlap) run, done)
    ]

found_array :
    (p : Parent) (base : List Bref) (count cached : ℕ) (e : Bref)
    → IsBlockArray p base count
    → IsBlockArray (record p { cache_index = cached; stats = account_insert e p.stats }) base count
found_array p base count cached e b = record {
  counted = b.counted;
  size = b.size;
  limit = b.limit;
  trailing = b.trailing;
  ordered = b.ordered;
}

pub base_insert-IsInserted :
    (p : Parent) (base : List Bref) (count : ℕ) (chain : Option Flags) (e : Bref)
    → IsBlockArray p base count
    → is_empty e ≡ false
    → IsFitting e
    → IsDisjoint e base
    → (e0 : ℕ) → e0 < count
    → is_empty (entry base e0) ≡ true
    → (cached : ℕ) × (r : Inserted) × (base_insert p base count chain e ≡ ok (r, mapped chain))
      × IsInserted
          (record p { cache_index = cached; stats = account_insert e p.stats })
          e
          base
          count
          r
unfolding base_insert
base_insert-IsInserted p base count chain e b in_use fits d e0 size free =
    let (f, run, index, next) = base_find-IsSearch p base count 0 e.key b in
    let n : IsNearest e.key base f.index = rw index (nearest-IsNearest e.key base) in
    let q = record p { cache_index = f.cache_index; stats = account_insert e p.stats } in
    let b' = found_array p base count f.cache_index e b in
    let (r, done, h) =
      insert_at-IsInserted q base count e b' in_use fits d f.index n e0 size free in
    let within : leb f.index count ≡ true = ground (arith, n.inside, b.size) in
    (f.cache_index, r, rw (run, within, done) refl, h)

-- The insertion of an entry in use, whose keys fit in 64 bits and are those of no other entry, into
-- a block array that has an empty entry, and whose entries in use are ordered without an overlap
-- with only empty ones from `live_zero` on, returns: neither an assertion nor the check of the whole
-- array fails. The result is such a block array again; its list of entries in use is the old one
-- with the new entry inserted by its key; and the statistics are those of one entry more.
pub base_insert-live :
    (p : Parent) (base : List Bref) (count : ℕ) (chain : Option Flags) (e : Bref)
    → IsBlockArray p base count
    → is_empty e ≡ false
    → IsFitting e
    → IsDisjoint e base
    → (e0 : ℕ) → e0 < count
    → is_empty (entry base e0) ≡ true
    → (r : Inserted) × (base_insert p base count chain e ≡ ok (r, mapped chain))
      × IsBlockArray r.parent r.base count
      × (live r.base ≡ insert_by_key e (live base))
      × (r.parent.stats ≡ account_insert e p.stats)
base_insert-live p base count chain e b in_use fits d e0 size free =
    let (cached, r, run, h) =
      base_insert-IsInserted p base count chain e b in_use fits d e0 size free in
    (r, run, h.array, h.entries, h.stats)

-- ===== src/Chain/Combined/Nearer.antt =====
-- The search of the chains in memory and of the block array returns the nearer of the two.
use windows_hammer2_dfly.Common.{
  ℕ, ◌+◌, ◌≤◌, ◌<◌, ◌≡◌, refl, sym, ◌∙◌, false≢true, inl, inr, true, false, ◌&&◌, ◌||◌, List, none,
  some, Option-cases, ltb, leb, ltb→lt, ◌==◌, length, Bool-cases, dec_lt, ℕ_discrete, ok, arith,
}
use windows_hammer2_dfly.Common.Words.{u64}
use windows_hammer2_dfly.Chain.Types.{Bref, is_empty, last_key, entry, Parent}
use windows_hammer2_dfly.Chain.Find.{reaches}
use windows_hammer2_dfly.Chain.Find.Ordered.{IsOrdered, entry-IsFitting, ordered_entries}
use windows_hammer2_dfly.Chain.Find.Nearest.{
  IsNearest, nearest-IsNearest, IsBlockArray, base_find-IsSearch,
}
use windows_hammer2_dfly.Chain.Combined.{
  in_range, Choice, nothing, chain_choice, entry_choice, choose, Combined, combined_find,
}
use windows_hammer2_dfly.Chain.Combined.Children.{
  IsTree, key-le, in_range-keys, IsLeast, first_in, first_in-IsLeast, first_in-none,
  chain_find-first,
}

ltb-false : (a b : ℕ) → ltb a b ≡ false → b ≤ a
ltb-false a b h = ground arith

-- A choice is right: what is chosen meets the range and has the least key there, a chain before an
-- entry with the same key; nothing is chosen only if nothing meets the range.
pub data IsChoice (base children : List Bref) (key_beg key_end : ℕ) : Choice → Type 0 where
  none_meets :
      ((i : ℕ)
        → i < length base
        → is_empty (entry base i) ≡ false
        → in_range key_beg key_end (entry base i) ≡ false)
      → ((j : ℕ) → j < length children → in_range key_beg key_end (entry children j) ≡ false)
      → IsChoice base children key_beg key_end nothing
  chain_meets :
      {c : Bref}
      → IsLeast key_beg key_end children c
      → ((i : ℕ)
          → i < length base
          → is_empty (entry base i) ≡ false
          → in_range key_beg key_end (entry base i) ≡ true
          → c.key ≤ (entry base i).key)
      → IsChoice base children key_beg key_end (chain_choice c)
  entry_meets :
      {e : ℕ}
      → e < length base
      → is_empty (entry base e) ≡ false
      → in_range key_beg key_end (entry base e) ≡ true
      → ((i : ℕ)
          → i < length base
          → is_empty (entry base i) ≡ false
          → in_range key_beg key_end (entry base i) ≡ true
          → (entry base e).key ≤ (entry base i).key)
      → ((j : ℕ)
          → j < length children
          → in_range key_beg key_end (entry children j) ≡ true
          → (entry base e).key < (entry children j).key)
      → IsChoice base children key_beg key_end (entry_choice e)

-- A chain and an entry that share a key start at the same key.
abbrev pub IsCoherent : List Bref → List Bref → Type 0
IsCoherent base children =
    (i j : ℕ)
    → i < length base
    → j < length children
    → is_empty (entry base i) ≡ false
    → (entry base i).key ≤ last_key (entry children j)
    → (entry children j).key ≤ last_key (entry base i)
    → (entry children j).key ≡ (entry base i).key

module _ (base children : List Bref) (key_beg key_end : ℕ) (o : IsOrdered base) (i : ℕ)
    (n : IsNearest key_beg base i) where
  meets-reaches :
      (e : Bref) → is_empty e ≡ false → in_range key_beg key_end e ≡ true → reaches key_beg e ≡ true
  meets-reaches e used h = ground arith

  -- The entries in use that meet the range are at the index or after it.
  at_or_after :
      (t : ℕ)
      → t < length base
      → is_empty (entry base t) ≡ false
      → in_range key_beg key_end (entry base t) ≡ true
      → i ≤ t
  at_or_after t lt used h = elim (dec_lt t i) [
    | yes before ↦
        absurd (false≢true (sym (n.before t before) ∙ meets-reaches (entry base t) used h))
    | no after ↦ omega arith
  ]

  used_at : i < length base → is_empty (entry base i) ≡ false
  used_at lt = go (entry base i) (n.at lt)
    where
      go : (e : Bref) → reaches key_beg e ≡ true → is_empty e ≡ false
      go e h = ground arith

  reached_at : i < length base → key_beg ≤ last_key (entry base i)
  reached_at lt =
      go (entry base i) (n.at lt) (key-le (entry base i) (entry-IsFitting base o i lt (used_at lt)))
    where
      go : (e : Bref) → reaches key_beg e ≡ true → e.key ≤ last_key e → key_beg ≤ last_key e
      go e h le = ground arith

  least_entry :
      (t : ℕ)
      → t < length base
      → is_empty (entry base t) ≡ false
      → in_range key_beg key_end (entry base t) ≡ true
      → (entry base i).key ≤ (entry base t).key
  least_entry t lt used h = elim (ℕ_discrete t i) [
    | yes e ↦ rw e (omega arith)
    | no ne ↦
        let le = at_or_after t lt used h in
        omega (
          arith,
          ordered_entries base o i t (omega arith) lt (used_at (omega arith)) used,
          key-le (entry base i) (entry-IsFitting base o i (omega arith) (used_at (omega arith))),
        )
  ]

  meets_at :
      i < length base
      → (entry base i).key ≤ key_end
      → in_range key_beg key_end (entry base i) ≡ true
  meets_at lt le = go (entry base i) (reached_at lt) le
    where
      go : (e : Bref) → key_beg ≤ last_key e → e.key ≤ key_end → in_range key_beg key_end e ≡ true
      go e h h' = ground arith

  nothing_beyond :
      ((t : ℕ)
        → t < length base
        → is_empty (entry base t) ≡ false
        → in_range key_beg key_end (entry base t) ≡ true
        → ⊥)
      → (t : ℕ) → t < length base
      → is_empty (entry base t) ≡ false
      → in_range key_beg key_end (entry base t) ≡ false
  nothing_beyond never t lt used = elim (Bool-cases (in_range key_beg key_end (entry base t))) [
    | inl h ↦ absurd (never t lt used h)
    | inr h ↦ h
  ]

  module _ (count : ℕ) (size : length base ≡ count) where
    at_end : (i == count) ≡ true → length base ≤ i
    at_end e = ground arith

    not_at_end : (i == count) ≡ false → i < length base
    not_at_end e = ground (arith, n.inside)

    choose-none :
        first_in key_beg key_end children ≡ none
        → (ch : Choice) × (choose base count i key_beg key_end none ≡ ok ch)
          × IsChoice base children key_beg key_end ch
    unfolding choose
    choose-none no_child = elim (Bool-cases (i == count)) [
      | inl ends ↦ rw ends (
        nothing,
        refl,
        none_meets
            (nothing_beyond
              (λ t lt used h. absurd (omega (arith, at_or_after t lt used h, at_end ends))))
            (first_in-none key_beg key_end children no_child),
      )
      | inr inside ↦
          let lt = not_at_end inside in
          elim (Bool-cases (ltb key_end (entry base i).key)) [
            | inl over ↦
                rw (inside, over)
                  (
                    nothing,
                    refl,
                    none_meets
                        (nothing_beyond (λ t lt' used h.
                          let low = least_entry t lt' used h in
                          let high = in_range-keys key_beg key_end (entry base t) h in
                          absurd (omega (arith, low, high.1, ltb→lt _ _ over))))
                        (first_in-none key_beg key_end children no_child),
                  )
            | inr under ↦
                rw (inside, under)
                  (
                    entry_choice i,
                    refl,
                    entry_meets lt (used_at lt) (meets_at lt (ltb-false _ _ under)) least_entry
                        (λ j lt' h. absurd (
                          false≢true
                            (sym (first_in-none key_beg key_end children no_child j lt') ∙ h))),
                  )
          ]
    ]

    module _ (c : Bref) (l : IsLeast key_beg key_end children c)
        (coherent : IsCoherent base children) where
      limit_kept : ltb key_end c.key ≡ false
      limit_kept = let h = in_range-keys key_beg key_end c l.meets in ground (arith, h.1)

      same_key :
          (lt : i < length base)
          → (leb c.key key_beg && leb (entry base i).key key_beg || c.key == (entry base i).key)
            ≡ true
          → c.key ≡ (entry base i).key
      same_key lt h = elim (ℕ_discrete c.key (entry base i).key) [
        | yes e ↦ e
        | no ne ↦
            let low : (c.key ≤ key_beg) × ((entry base i).key ≤ key_beg) =
              both_low (entry base i).key ne h in
            let reach = in_range-keys key_beg key_end c l.meets in
            rw (l.there) at (
              coherent i l.index lt l.within (used_at lt)
                (rw (l.there) (omega (arith, low, reach.0)))
                (rw (l.there) (omega (arith, low, reach_entry lt))))
      ]
        where
          both_low :
              (k : ℕ)
              → ¬ (c.key ≡ k)
              → (leb c.key key_beg && leb k key_beg || c.key == k) ≡ true
              → (c.key ≤ key_beg) × (k ≤ key_beg)
          both_low k ne h = (ground arith, ground arith)

          reach_entry : i < length base → key_beg ≤ last_key (entry base i)
          reach_entry lt = reached_at lt

      chain_first :
          (i < length base → c.key ≤ (entry base i).key)
          → IsChoice base children key_beg key_end (chain_choice c)
      chain_first first = chain_meets l (λ t lt used h.
          let le = at_or_after t lt used h in
          omega (arith, least_entry t lt used h, first (omega arith)))

      choose-some :
          (ch : Choice) × (choose base count i key_beg key_end (some c) ≡ ok ch)
          × IsChoice base children key_beg key_end ch
      unfolding choose
      choose-some = elim (Bool-cases (i == count)) [
        | inl ends ↦
            rw (ends, limit_kept)
              (chain_choice c, refl, chain_first (λ lt. absurd (omega (arith, at_end ends))))
        | inr inside ↦
            let lt = not_at_end inside in
            elim (Bool-cases (
              leb c.key key_beg && leb (entry base i).key key_beg || c.key == (entry base i).key)) [
                | inl together ↦
                    let e = same_key lt together in
                    let t : (c.key == (entry base i).key) ≡ true = ground arith in
                    rw (inside, together, t, limit_kept)
                      (chain_choice c, refl, chain_first (λ _. omega (arith, e)))
                | inr apart ↦ elim (Bool-cases (ltb c.key (entry base i).key)) [
                  | inl lower ↦
                      rw (inside, apart, lower, limit_kept)
                        (chain_choice c, refl, chain_first (λ _. omega (arith, ltb→lt _ _ lower)))
                  | inr higher ↦
                      let gap : (entry base i).key < c.key =
                        strictly (entry base i).key apart higher in
                      let h = in_range-keys key_beg key_end c l.meets in
                      let t : ltb key_end (entry base i).key ≡ false = ground (arith, h.1, gap) in
                      rw (inside, apart, higher, t)
                        (
                          entry_choice i,
                          refl,
                          entry_meets lt (used_at lt) (meets_at lt (omega (arith, h.1, gap)))
                              least_entry (λ j lt' meets. omega (arith, l.least j lt' meets, gap)),
                        )
                ]
              ]
      ]
        where
          strictly :
              (k : ℕ)
              → (leb c.key key_beg && leb k key_beg || c.key == k) ≡ false
              → ltb c.key k ≡ false
              → k < c.key
          strictly k h h' = ground arith

-- The search over a block array (whose entries in use are ordered without an overlap, with only
-- empty ones from `live_zero` on) and over the chains in memory (ordered without an overlap), where
-- a chain and an entry that share a key start at the same key, returns: no assertion fails. What it
-- chooses meets the range and has the least key of all entries and chains that do, a chain being
-- chosen before an entry with the same key; and it chooses nothing only if nothing meets the range.
pub combined_find-IsChoice :
    (p : Parent) (base : List Bref) (count key_beg key_end : ℕ) (children : List Bref)
    → IsBlockArray p base count
    → IsTree children
    → IsCoherent base children
    → (r : Combined) × (combined_find p (some base) count key_beg key_end children ≡ ok r)
      × IsChoice base children key_beg key_end r.choice
unfolding combined_find
combined_find-IsChoice p base count key_beg key_end children b t coherent =
    let (f, run, index, next) = base_find-IsSearch p base count (u64 (key_end + 1)) key_beg b in
    let (info, run', best) = chain_find-first key_beg key_end children f.key_next t in
    let n : IsNearest key_beg base f.index = rw index (nearest-IsNearest key_beg base) in
    elim (Option-cases (first_in key_beg key_end children)) [
      | inl e ↦
          let (ch, run'', done) =
            choose-none base children key_beg key_end b.ordered f.index n count b.size e in
          (
            record { choice = ch; key_next = info.key_next; cache_index = f.cache_index },
            rw (run, run', best, e, run'') refl,
            done,
          )
      | inr (c, e) ↦
          let l = first_in-IsLeast key_beg key_end children c t e in
          let (ch, run'', done) =
            choose-some base children key_beg key_end b.ordered f.index n count b.size c l
              coherent in
          (
            record { choice = ch; key_next = info.key_next; cache_index = f.cache_index },
            rw (run, run', best, e, run'') refl,
            done,
          )
    ]

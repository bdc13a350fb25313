-- ===== src/Freemap/Bmap/Scan.antt =====
-- What the element scan of `hammer2_bmap_alloc` finds: the bits under the mask are clear; and what
-- it means that it finds nothing.
use native.Mathlib.Nat.{mod-eq_of_lt, zero-add}
use windows_hammer2_dfly.Common.{
  ℕ, zero, suc, ◌+◌, ◌*◌, ◌/◌, ◌≤◌, ◌<◌, bit_and, ◌≡◌, ◌≢◌, refl, ◌∙◌, ap, sym, some-injective,
  false≢true, inl, inr, List, [], ◌∷◌, none, some, ◌==◌, ==_iff, Bool-cases, Option-cases, get_or,
  length, arith,
}
use windows_hammer2_dfly.Common.Words.{u64, ◌<<<◌}
use windows_hammer2_dfly.Common.Pairs.Masks.{ones, span, span-shift, span-lt}
use windows_hammer2_dfly.Freemap.Bmap.{low_mask, bmradix_of, scan_element, scan_word, scan_elements}
use windows_hammer2_dfly.Freemap.Bmap.Fit.{Fit}

-- A mask shifted by whole blocks, while it stays in the word.
pub shifted_mask : (m t c : ℕ) → t + c + m ≤ 32 → u64 (span m t <<< (c * 2)) ≡ span m (t + c)
shifted_mask m t c le = ap u64 (span-shift m t c) ∙ mod-eq_of_lt (span-lt 32 m (t + c) le)

-- A run of `m` clear blocks in a word, as the inner loop reports it.
pub record IsRun (m word : ℕ) (found : ℕ × ℕ) : Type 0 where
  pub block : ℕ
  pub inside : block + m ≤ 32
  pub place : found.0 ≡ block * 2
  pub mask : found.1 ≡ span m block
  pub clear : bit_and word (span m block) ≡ 0

module _ (m word : ℕ) where
  pub scan_element-IsRun :
      (left t bmmask j : ℕ) (found : ℕ × ℕ)
      → t + m * left ≡ 32
      → (0 < left → bmmask ≡ span m t)
      → j ≡ t * 2
      → scan_element left (m * 2) word bmmask j ≡ some found
      → IsRun m word found
  unfolding scan_element
  scan_element-IsRun zero t bmmask j found e masked place h = cc
  scan_element-IsRun (suc left) t bmmask j found e masked place h =
      elim (Bool-cases (bit_and word bmmask == 0)) [
        | inl clear ↦
            let first : (j, bmmask) ≡ found = some-injective _ _ (rw clear at h) in
            record {
              block = t;
              inside = grind arith;
              place = ap (λ (p : ℕ × ℕ). p.0) (sym first) ∙ place;
              mask = ap (λ (p : ℕ × ℕ). p.1) (sym first) ∙ masked (omega arith);
              clear = rw (← masked (omega arith)) ((==_iff _ 0).0 clear);
            }
        | inr used ↦
            scan_element-IsRun left (t + m) (u64 (bmmask <<< (m * 2))) (j + m * 2) found
              (omega arith) (λ more. rw (masked (omega arith)) (shifted_mask m t m (grind arith)))
              (omega arith) (rw used at h)
      ]

  -- The inner loop gives up only if each aligned run of `m` blocks has a bit set.
  pub scan_element-none :
      (left t bmmask j : ℕ)
      → t + m * left ≡ 32
      → (0 < left → bmmask ≡ span m t)
      → scan_element left (m * 2) word bmmask j ≡ none
      → (k : ℕ) → k < left
      → bit_and word (span m (t + m * k)) ≢ 0
  unfolding scan_element
  scan_element-none zero t bmmask j e masked h k lt = absurd (omega arith)
  scan_element-none (suc left) t bmmask j e masked h zero lt =
      elim (Bool-cases (bit_and word bmmask == 0)) [
        | inl clear ↦ cc (rw clear at h)
        | inr used ↦ λ z.
            false≢true (sym used ∙ (==_iff _ 0).1 (rw (masked (omega arith)) (rw (start) at z)))
      ]
    where
      start : t + m * 0 ≡ t
      start = omega arith
  scan_element-none (suc left) t bmmask j e masked h (suc k) lt =
      elim (Bool-cases (bit_and word bmmask == 0)) [
        | inl clear ↦ cc (rw clear at h)
        | inr used ↦ rw (next k) (
            scan_element-none left (t + m) (u64 (bmmask <<< (m * 2))) (j + m * 2) (omega arith)
              (λ more. rw (masked (omega arith)) (shifted_mask m t m (grind arith))) (rw used at h)
              k (omega arith))
      ]
    where
      next : (k : ℕ) → t + m * suc k ≡ t + m + m * k
      next k = omega arith

-- The outer loop: the element that it names and the run in it.
pub record IsHit (m : ℕ) (words : List ℕ) (i : ℕ) (found : ℕ × ℕ × ℕ) : Type 0 where
  pub element : ℕ
  pub index : found.0 ≡ i + element
  pub within : element < length words
  pub run : IsRun m (get_or words element 0) (found.1, found.2)

scan_word_lem :
    (bmradix word : ℕ)
    → scan_word bmradix word ≡ scan_element (64 / bmradix) bmradix word (low_mask bmradix) 0
unfolding scan_word
scan_word_lem bmradix word = refl

module _ {radix : ℕ} (f : Fit radix) where
  from_start :
      (word : ℕ)
      → scan_word (bmradix_of radix) word
        ≡ scan_element f.rounds (f.blocks * 2) word (low_mask (f.blocks * 2)) 0
  from_start word = scan_word_lem (bmradix_of radix) word ∙ rw (f.count, f.bits)

  first_mask : low_mask (f.blocks * 2) ≡ ones f.blocks
  first_mask = rw (← f.bits) (f.low)

  scan_word-IsRun :
      (word : ℕ) (found : ℕ × ℕ)
      → scan_word (bmradix_of radix) word ≡ some found
      → IsRun f.blocks word found
  scan_word-IsRun word found h =
      scan_element-IsRun f.blocks word f.rounds 0 (low_mask (f.blocks * 2)) 0 found
        (omega (arith, f.whole)) (λ _. first_mask) refl (sym (from_start word) ∙ h)

  scan_word-none :
      (word : ℕ)
      → scan_word (bmradix_of radix) word ≡ none
      → (k : ℕ) → k < f.rounds
      → bit_and word (span f.blocks (f.blocks * k)) ≢ 0
  scan_word-none word h k lt = rw (← zero-add (f.blocks * k)) (
      scan_element-none f.blocks word f.rounds 0 (low_mask (f.blocks * 2)) 0
        (omega (arith, f.whole)) (λ _. first_mask) (sym (from_start word) ∙ h) k lt)

  pub scan_elements-IsHit :
      (words : List ℕ) (i : ℕ) (found : ℕ × ℕ × ℕ)
      → scan_elements (bmradix_of radix) words i ≡ some found
      → IsHit f.blocks words i found
  unfolding scan_elements
  scan_elements-IsHit [] i found h = cc
  scan_elements-IsHit (word ∷ words) i found h =
      elim (Option-cases (scan_word (bmradix_of radix) word)) [
        | inl e ↦ later (scan_elements-IsHit words (i + 1) found (rw (e, scan_elements) at h))
        | inr (hit, e) ↦
            let first : (i, hit.0, hit.1) ≡ found =
              some-injective _ _ (rw (e, scan_elements) at h) in
            rw (← first) (record {
              element = 0;
              index = omega arith;
              within = omega arith;
              run = scan_word-IsRun word hit e;
            })
      ]
    where
      later : IsHit f.blocks words (i + 1) found → IsHit f.blocks (word ∷ words) i found
      later r = record {
        element = suc r.element;
        index = omega (arith, r.index);
        within = omega (arith, r.within);
        run = r.run;
      }

  -- The scan gives up only if no aligned run of the size is clear in any element.
  pub scan_elements-none :
      (words : List ℕ) (i : ℕ)
      → scan_elements (bmradix_of radix) words i ≡ none
      → (n k : ℕ) → n < length words
      → k < f.rounds
      → bit_and (get_or words n 0) (span f.blocks (f.blocks * k)) ≢ 0
  unfolding scan_elements
  scan_elements-none [] i h n k lt inside = absurd (omega arith)
  scan_elements-none (word ∷ words) i h n k lt inside =
      elim (Option-cases (scan_word (bmradix_of radix) word)) [
        | inl e ↦ at n lt (scan_word-none word e k inside) (λ n' lt'.
            scan_elements-none words (i + 1) (rw (e, scan_elements) at h) n' k lt' inside)
        | inr (hit, e) ↦ cc (rw (e, scan_elements) at h)
      ]
    where
      at :
          (n : ℕ)
          → n < suc (length words)
          → bit_and word (span f.blocks (f.blocks * k)) ≢ 0
          → ((n' : ℕ)
              → n' < length words
              → bit_and (get_or words n' 0) (span f.blocks (f.blocks * k)) ≢ 0)
          → bit_and (get_or (word ∷ words) n 0) (span f.blocks (f.blocks * k)) ≢ 0
      at zero lt' now later = now
      at (suc n) lt' now later = later n (omega arith)

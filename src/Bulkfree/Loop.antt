-- ===== src/Bulkfree/Loop.antt =====
-- The inner loop of the merge: what each turn keeps, and the pairs of the element it leaves.
use windows_hammer2_dfly.Common.{ℕ, zero, suc, ◌+◌, ◌*◌, ◌/◌, ◌%◌, ◌<◌, ◌≡◌, refl, ◌∙◌, ap, arith}
use windows_hammer2_dfly.Common.Pairs.Masks.{pair}
use windows_hammer2_dfly.Disk.{freemap_block_size}
use windows_hammer2_dfly.Bulkfree.Sync.{Merging, sync_pair, sync_pairs}
use windows_hammer2_dfly.Bulkfree.Turn.{merge, IsTurn, sync_pair-IsTurn}

-- The turns from pair `k` on have not changed the pairs of the word that are left.
abbrev pub Ahead : ℕ → ℕ → ℕ → ℕ → Type 0
Ahead left k word w = (j : ℕ) → j < left → pair word (k + j) ≡ pair w j

module _ (left k w : ℕ) (s : Merging) (sum : k + suc left ≡ 32)
    (ahead : Ahead (suc left) k s.word w) where
  this_pair : pair s.word k ≡ w % 4
  this_pair = ap (pair s.word) (let e : k ≡ k + 0 = omega arith in e) ∙ ahead 0 (omega arith)

  this-IsTurn : (m off : ℕ) → IsTurn (w % 4) m k s.word (sync_pair (w % 4) m (k * 2) off s).word
  this-IsTurn m off = sync_pair-IsTurn k (w % 4) m off s (omega arith) this_pair

  next-Ahead : (m off : ℕ) → Ahead left (suc k) (sync_pair (w % 4) m (k * 2) off s).word (w / 4)
  next-Ahead m off j lt =
      (this-IsTurn m off).there (suc k + j) (omega arith) (λ e. absurd (omega arith))
      ∙ ap (pair s.word) (let e : suc k + j ≡ k + suc j = omega arith in e)
      ∙ ahead (suc j) (omega arith)

next_shift : (k : ℕ) → k * 2 + 2 ≡ suc k * 2
next_shift k = omega arith

module _ (P : Merging → Type 0)
    (step : (k l m off : ℕ) (s : Merging)
      → k < 32
      → pair s.word k ≡ l
      → P s
      → P (sync_pair l m (k * 2) off s)) where
  pub sync_pairs-keeps :
      (left k w mmask off : ℕ) (s : Merging)
      → k + left ≡ 32
      → Ahead left k s.word w
      → P s
      → P (sync_pairs left w mmask (k * 2) off s)
  unfolding sync_pairs
  sync_pairs-keeps zero k w mmask off s sum ahead h = h
  sync_pairs-keeps (suc left) k w mmask off s sum ahead h =
      let s' = sync_pair (w % 4) (mmask % 4) (k * 2) off s in
      let next : P s' =
        step k (w % 4) (mmask % 4) off s (omega arith) (this_pair left k w s sum ahead) h in
      rw (next_shift k) (
        sync_pairs-keeps left (suc k) (w / 4) (mmask / 4) (off + freemap_block_size) s'
          (omega arith) (next-Ahead left k w s sum ahead (mmask % 4) off) next)

-- The pairs below `k` stay, and those from `k` on are merged.
pub record IsLoop (left k w mmask word v : ℕ) : Type 0 where
  pub below : (j : ℕ) → j < k → pair v j ≡ pair word j
  pub merged : (j : ℕ) → j < left → pair v (k + j) ≡ merge (pair w j) (pair mmask j)

IsLoop-cons :
    (left k w mmask word next v : ℕ)
    → k + suc left ≡ 32
    → IsTurn (w % 4) (mmask % 4) k word next
    → IsLoop left (suc k) (w / 4) (mmask / 4) next v
    → IsLoop (suc left) k w mmask word v
IsLoop-cons left k w mmask word next v sum turn later = record {
  below =
      λ j lt. later.below j (omega arith) ∙ turn.there j (omega arith) (λ e. absurd (omega arith));
  merged = merged_at;
}
  where
    merged_at : (j : ℕ) → j < suc left → pair v (k + j) ≡ merge (pair w j) (pair mmask j)
    merged_at zero lt =
        ap (pair v) (let e : k + 0 ≡ k = omega arith in e) ∙ later.below k (omega arith) ∙ turn.here
    merged_at (suc j) lt =
        ap (pair v) (let e : k + suc j ≡ suc k + j = omega arith in e)
        ∙ later.merged j (omega arith)

pub sync_pairs-IsLoop :
    (left k w mmask off : ℕ) (s : Merging)
    → k + left ≡ 32
    → Ahead left k s.word w
    → IsLoop left k w mmask s.word (sync_pairs left w mmask (k * 2) off s).word
unfolding sync_pairs
sync_pairs-IsLoop zero k w mmask off s sum ahead = record {
  below = λ j lt. refl;
  merged = λ j lt. absurd (omega arith);
}
sync_pairs-IsLoop (suc left) k w mmask off s sum ahead =
    let turn = this-IsTurn left k w s sum ahead (mmask % 4) off in
    let s' = sync_pair (w % 4) (mmask % 4) (k * 2) off s in
    rw (sync_pairs, next_shift k)
      (IsLoop-cons left k w mmask s.word s'.word _ sum turn (
        sync_pairs-IsLoop left (suc k) (w / 4) (mmask / 4) (off + freemap_block_size) s'
          (omega arith) (next-Ahead left k w s sum ahead (mmask % 4) off)))

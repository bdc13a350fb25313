-- ===== src/Chain/Insert/Splice.antt =====
-- An insertion as two simple steps on lists: an empty entry is taken out, and the new one put in.
use windows_hammer2_dfly.Common.{
  ℕ, zero, suc, ◌+◌, ◌≤◌, ◌<◌, ◌≡◌, refl, ap, List, [], ◌∷◌, set, length, arith,
}
use windows_hammer2_dfly.Chain.Types.{Bref, entry}
use windows_hammer2_dfly.Chain.Insert.{slide_down, push_up, slide_up}

-- The list with an entry put in at an index, and with the one at an index taken out.
abbrev pub splice : ℕ → Bref → List Bref → List Bref
splice zero e es = e ∷ es
splice (suc m) e [] = e ∷ []
splice (suc m) e (x ∷ es) = x ∷ splice m e es

abbrev pub without : ℕ → List Bref → List Bref
without i [] = []
without zero (x ∷ es) = es
without (suc i) (x ∷ es) = x ∷ without i es

slide_down_front :
    (n : ℕ) (x e : Bref) (es : List Bref)
    → n ≤ length es
    → set (slide_down 0 n (x ∷ es)) n e ≡ splice n e es
unfolding slide_down
slide_down_front zero x e es le = refl
slide_down_front (suc n) x e [] le = absurd (omega arith)
slide_down_front (suc n) x e (y ∷ es) le = ap (λ l. y ∷ l) (slide_down_front n y e es (omega arith))

pub set-slide_down :
    (j n : ℕ) (e : Bref) (es : List Bref)
    → j + n < length es
    → set (slide_down j n es) (j + n) e ≡ splice (j + n) e (without j es)
unfolding slide_down
set-slide_down j n e [] lt = absurd (omega arith)
set-slide_down zero n e (x ∷ es) lt =
    rw (let t : 0 + n ≡ n = omega arith in t) (slide_down_front n x e es (omega arith))
set-slide_down (suc j) n e (x ∷ es) lt =
    rw (let t : suc j + n ≡ suc (j + n) = omega arith in t)
      (ap (λ l. x ∷ l) (set-slide_down j n e es (omega arith)))

push_up-zero : (x : Bref) (es : List Bref) → push_up 0 x es ≡ es
unfolding push_up
push_up-zero x [] = refl
push_up-zero x (y ∷ es) = refl

push_up-without :
    (n : ℕ) (x : Bref) (es : List Bref) → n < length es → push_up (suc n) x es ≡ x ∷ without n es
unfolding push_up
push_up-without n x [] lt = absurd (omega arith)
push_up-without zero x (y ∷ es) lt = ap (λ l. x ∷ l) (push_up-zero y es)
push_up-without (suc n) x (y ∷ es) lt = ap (λ l. x ∷ l) (push_up-without n y es (omega arith))

pub set-slide_up :
    (i n : ℕ) (e : Bref) (es : List Bref)
    → i + suc n < length es
    → set (slide_up i (suc n) es) i e ≡ splice i e (without (i + suc n) es)
unfolding slide_up
set-slide_up i n e [] lt = absurd (omega arith)
set-slide_up zero n e (x ∷ es) lt =
    rw (let t : 0 + suc n ≡ suc n = omega arith in t)
      (ap (λ l. e ∷ l) (push_up-without n x es (omega arith)))
set-slide_up (suc i) n e (x ∷ es) lt =
    rw (let t : suc i + suc n ≡ suc (i + suc n) = omega arith in t)
      (ap (λ l. x ∷ l) (set-slide_up i n e es (omega arith)))

-- A plain write is the case where nothing moves.
pub set-splice :
    (j : ℕ) (e : Bref) (es : List Bref) → j < length es → set es j e ≡ splice j e (without j es)
set-splice j e [] lt = absurd (omega arith)
set-splice zero e (x ∷ es) lt = refl
set-splice (suc j) e (x ∷ es) lt = ap (λ l. x ∷ l) (set-splice j e es (omega arith))

pub length-splice : (m : ℕ) (e : Bref) (es : List Bref) → length (splice m e es) ≡ suc (length es)
length-splice zero e es = refl
length-splice (suc m) e [] = refl
length-splice (suc m) e (x ∷ es) = ap suc (length-splice m e es)

pub length-without :
    (j : ℕ) (es : List Bref) → j < length es → suc (length (without j es)) ≡ length es
length-without j [] lt = absurd (omega arith)
length-without zero (x ∷ es) lt = refl
length-without (suc j) (x ∷ es) lt = ap suc (length-without j es (omega arith))

pub entry-without_below : (j t : ℕ) (es : List Bref) → t < j → entry (without j es) t ≡ entry es t
entry-without_below j t [] lt = refl
entry-without_below zero t (x ∷ es) lt = absurd (omega arith)
entry-without_below (suc j) zero (x ∷ es) lt = refl
entry-without_below (suc j) (suc t) (x ∷ es) lt = entry-without_below j t es (omega arith)

pub entry-without_above :
    (j t : ℕ) (es : List Bref) → j ≤ t → entry (without j es) t ≡ entry es (suc t)
entry-without_above j t [] le = refl
entry-without_above zero t (x ∷ es) le = refl
entry-without_above (suc j) zero (x ∷ es) le = absurd (omega arith)
entry-without_above (suc j) (suc t) (x ∷ es) le = entry-without_above j t es (omega arith)

pub entry-splice_above :
    (m t : ℕ) (e : Bref) (es : List Bref) → m ≤ t → entry (splice m e es) (suc t) ≡ entry es t
entry-splice_above zero t e es le = refl
entry-splice_above (suc m) t e [] le = refl
entry-splice_above (suc m) zero e (x ∷ es) le = absurd (omega arith)
entry-splice_above (suc m) (suc t) e (x ∷ es) le = entry-splice_above m t e es (omega arith)

pub entry-splice_below :
    (m t : ℕ) (e : Bref) (es : List Bref)
    → m ≤ length es
    → t < m
    → entry (splice m e es) t ≡ entry es t
entry-splice_below zero t e es le lt = absurd (omega arith)
entry-splice_below (suc m) t e [] le lt = absurd (omega arith)
entry-splice_below (suc m) zero e (x ∷ es) le lt = refl
entry-splice_below (suc m) (suc t) e (x ∷ es) le lt =
    entry-splice_below m t e es (omega arith) (omega arith)

pub entry-splice_at :
    (m : ℕ) (e : Bref) (es : List Bref) → m ≤ length es → entry (splice m e es) m ≡ e
entry-splice_at zero e es le = refl
entry-splice_at (suc m) e [] le = absurd (omega arith)
entry-splice_at (suc m) e (x ∷ es) le = entry-splice_at m e es (omega arith)

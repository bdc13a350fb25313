-- ===== src/Chain/Insert/Sorted.antt =====
-- The entries in use of a block array, in their order: the list that the array stands for.
use windows_hammer2_dfly.Common.{
  ℕ, zero, suc, ◌+◌, ◌-◌, ◌^◌, ◌≤◌, ◌<◌, ◌≡◌, refl, ◌∙◌, inl, inr, dec_lt, ap, true, false, List,
  [], ◌∷◌, length, ltb, leb, if◌then◌else◌, Bool-cases, ℕ_discrete, ok, arith,
}
use native.Mathlib.Nat.{one-le-pow}
use windows_hammer2_dfly.Chain.Types.{Bref, is_empty, last_key, entry}
use windows_hammer2_dfly.Chain.Find.Ordered.{
  IsFitting, last_key-IsFitting, Above, IsOrdered, unused, used,
}
use windows_hammer2_dfly.Chain.Insert.{validate, validate_after}
use windows_hammer2_dfly.Chain.Insert.Splice.{
  splice, without, entry-without_below, entry-without_above, length-without, length-splice,
  entry-splice_below, entry-splice_at, entry-splice_above,
}

abbrev pub live : List Bref → List Bref
live [] = []
live (e ∷ es) = let rest = live es in if is_empty e then rest else e ∷ rest

-- Insertion by key into a list that is in the order of the keys.
abbrev pub insert_by_key : Bref → List Bref → List Bref
insert_by_key e [] = e ∷ []
insert_by_key e (x ∷ xs) =
    let rest = insert_by_key e xs in if ltb x.key e.key then x ∷ rest else e ∷ x ∷ xs

-- Index `m` is a place for an entry: those in use before it lie below, and those after it above.
pub record IsPlace (e : Bref) (m : ℕ) (es : List Bref) : Type 0 where
  pub within : m ≤ length es
  pub below : (t : ℕ) → t < m → is_empty (entry es t) ≡ false → last_key (entry es t) < e.key
  pub above :
      (t : ℕ)
      → m ≤ t
      → t < length es
      → is_empty (entry es t) ≡ false
      → last_key e < (entry es t).key

IsPlace-tail : (e x : Bref) (m : ℕ) (es : List Bref) → IsPlace e (suc m) (x ∷ es) → IsPlace e m es
IsPlace-tail e x m es p = record {
  within = omega (arith, p.within);
  below = λ t lt h. p.below (suc t) (omega arith) h;
  above = λ t le lt h. p.above (suc t) (omega arith) (omega arith) h;
}

pub live-without :
    (j : ℕ) (es : List Bref) → is_empty (entry es j) ≡ true → live (without j es) ≡ live es
live-without j [] h = refl
live-without zero (x ∷ es) h = rw h refl
live-without (suc j) (x ∷ es) h = rw (live-without j es h) refl

first_above :
    (e : Bref) (es : List Bref)
    → is_empty e ≡ false
    → IsFitting e
    → IsPlace e 0 es
    → e ∷ live es ≡ insert_by_key e (live es)
first_above e [] used_e f p = refl
first_above e (x ∷ es) used_e f p = elim (Bool-cases (is_empty x)) [
  | inl h ↦ rw h (
      first_above e es used_e f (record {
        within = omega arith;
        below = λ t lt. absurd (omega arith);
        above = λ t le lt. p.above (suc t) (omega arith) (omega arith);
      }))
  | inr h ↦
      let gap = p.above 0 (omega arith) (omega arith) h in
      let t : ltb x.key e.key ≡ false = not_below gap (last_key-IsFitting e f) in rw (h, t) refl
]
  where
    not_below :
        last_key e < x.key → last_key e + 1 ≡ e.key + 2 ^ e.keybits → ltb x.key e.key ≡ false
    not_below gap last = ground (arith, one-le-pow e.keybits 2)

pub live-splice :
    (e : Bref) (m : ℕ) (es : List Bref)
    → is_empty e ≡ false
    → IsFitting e
    → IsOrdered es
    → IsPlace e m es
    → live (splice m e es) ≡ insert_by_key e (live es)
live-splice e zero es used_e f o p = rw used_e (first_above e es used_e f p)
live-splice e (suc m) [] used_e f o p = absurd (omega (arith, p.within))
live-splice e (suc m) (x ∷ es) used_e f (unused h o) p =
    rw h (live-splice e m es used_e f o (IsPlace-tail e x m es p))
live-splice e (suc m) (x ∷ es) used_e f (used h fx a o) p =
    let gap = p.below 0 (omega arith) h in
    let t : ltb x.key e.key ≡ true = is_below gap (last_key-IsFitting x fx) in
    rw (h, t) (ap (λ l. x ∷ l) (live-splice e m es used_e f o (IsPlace-tail e x m es p)))
  where
    is_below : last_key x < e.key → last_key x + 1 ≡ x.key + 2 ^ x.keybits → ltb x.key e.key ≡ true
    is_below gap last = ground (arith, one-le-pow x.keybits 2)

Above-without : (k j : ℕ) (es : List Bref) → j < length es → Above k es → Above k (without j es)
Above-without k j es size a t lt h = elim (dec_lt t j) [
  | yes below ↦
      let same = entry-without_below j t es below in rw same (a t (omega arith) (rw same at h))
  | no above ↦
      let same = entry-without_above j t es (omega arith) in
      rw same (a (suc t) (omega (arith, length-without j es size)) (rw same at h))
]

pub without-IsOrdered :
    (j : ℕ) (es : List Bref) → j < length es → IsOrdered es → IsOrdered (without j es)
without-IsOrdered j [] size o = absurd (omega arith)
without-IsOrdered zero (x ∷ es) size (unused h o) = o
without-IsOrdered zero (x ∷ es) size (used h f a o) = o
without-IsOrdered (suc j) (x ∷ es) size (unused h o) =
    unused h (without-IsOrdered j es (omega arith) o)
without-IsOrdered (suc j) (x ∷ es) size (used h f a o) =
    used h f (Above-without (last_key x) j es (omega arith) a)
      (without-IsOrdered j es (omega arith) o)

Above-splice :
    (k m : ℕ) (e : Bref) (es : List Bref)
    → m ≤ length es
    → k < e.key
    → Above k es
    → Above k (splice m e es)
Above-splice k m e es le low a t lt h = elim (dec_lt t m) [
  | yes below ↦
      let same = entry-splice_below m t e es le below in rw same (a t (omega arith) (rw same at h))
  | no above ↦ elim (ℕ_discrete t m) [
    | yes here ↦ rw (here, entry-splice_at m e es le) low
    | no ne ↦
        let shift : t ≡ suc (t - 1) = omega arith in
        let same : entry (splice m e es) t ≡ entry es (t - 1) =
          ap (entry (splice m e es)) shift ∙ entry-splice_above m (t - 1) e es (omega arith) in
        rw same (a (t - 1) (omega (arith, length-splice m e es)) (rw same at h))
  ]
]

pub splice-IsOrdered :
    (e : Bref) (m : ℕ) (es : List Bref)
    → is_empty e ≡ false
    → IsFitting e
    → IsOrdered es
    → IsPlace e m es
    → IsOrdered (splice m e es)
splice-IsOrdered e zero es used_e f o p = used used_e f (λ t lt h. p.above t (omega arith) lt h) o
splice-IsOrdered e (suc m) [] used_e f o p = absurd (omega (arith, p.within))
splice-IsOrdered e (suc m) (x ∷ es) used_e f (unused h o) p =
    unused h (splice-IsOrdered e m es used_e f o (IsPlace-tail e x m es p))
splice-IsOrdered e (suc m) (x ∷ es) used_e f (used h fx a o) p =
    used h fx
      (Above-splice (last_key x) m e es (omega (arith, p.within)) (p.below 0 (omega arith) h) a)
      (splice-IsOrdered e m es used_e f o (IsPlace-tail e x m es p))

-- The check at the end of an insertion passes an ordered array.
validate_after-ok :
    (k : ℕ) (es : List Bref) → Above k es → IsOrdered es → validate_after k es ≡ ok tt
unfolding validate_after
validate_after-ok k [] a o = refl
validate_after-ok k (x ∷ es) a (unused h o) =
    rw h (validate_after-ok k es (λ t lt e. a (suc t) (omega arith) e) o)
validate_after-ok k (x ∷ es) a (used h f a' o) =
    let low = a 0 (omega arith) h in
    let t : leb x.key k ≡ false = ground arith in rw (h, t) (validate_after-ok (last_key x) es a' o)

pub validate-ok : (es : List Bref) → IsOrdered es → validate es ≡ ok tt
unfolding validate
validate-ok [] o = refl
validate-ok (x ∷ es) (unused h o) = rw h (validate-ok es o)
validate-ok (x ∷ es) (used h f a o) = rw h (validate_after-ok (last_key x) es a o)

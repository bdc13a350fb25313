-- ===== src/Chain/Find/Ordered.antt =====
-- The order of a block array.
use native.Mathlib.Nat.{one-le-pow}
use windows_hammer2_dfly.Common.{
  ℕ, zero, suc, ◌+◌, ◌^◌, ◌≤◌, ◌<◌, ◌≡◌, refl, sym, ◌∙◌, false≢true, inl, inr, true, false, List,
  [], ◌∷◌, length, leb, ltb, lt→ltb, ◌||◌, Bool-cases, arith,
}
use windows_hammer2_dfly.Chain.Types.{Bref, is_empty, last_key, entry}
use windows_hammer2_dfly.Chain.Find.{reaches}

-- The keys of an entry do not wrap.
pub record IsFitting (e : Bref) : Type 0 where
  pub bits : e.keybits < 64
  pub top : e.key + 2 ^ e.keybits ≤ 2 ^ 64

pub last_key-IsFitting : (e : Bref) → IsFitting e → last_key e + 1 ≡ e.key + 2 ^ e.keybits
last_key-IsFitting e f = omega (arith, one-le-pow e.keybits 2)

-- Every entry in use lies above a key.
abbrev pub Above : ℕ → List Bref → Type 0
Above k es = (i : ℕ) → i < length es → is_empty (entry es i) ≡ false → k < (entry es i).key

-- The entries in use fit, and are in the order of their keys without an overlap.
pub data IsOrdered : List Bref → Type 0 where
  no_entry : IsOrdered []
  unused : {e : Bref} {es : List Bref} → is_empty e ≡ true → IsOrdered es → IsOrdered (e ∷ es)
  used :
      {e : Bref} {es : List Bref}
      → is_empty e ≡ false
      → IsFitting e
      → Above (last_key e) es
      → IsOrdered es
      → IsOrdered (e ∷ es)

pub entry-IsFitting :
    (es : List Bref)
    → IsOrdered es
    → (i : ℕ) → i < length es
    → is_empty (entry es i) ≡ false
    → IsFitting (entry es i)
entry-IsFitting [] o i lt e = absurd (omega arith)
entry-IsFitting (x ∷ es) (unused b o) zero lt e = absurd (false≢true (sym e ∙ b))
entry-IsFitting (x ∷ es) (unused b o) (suc i) lt e = entry-IsFitting es o i (omega arith) e
entry-IsFitting (x ∷ es) (used b f a o) zero lt e = f
entry-IsFitting (x ∷ es) (used b f a o) (suc i) lt e = entry-IsFitting es o i (omega arith) e

pub ordered_entries :
    (es : List Bref)
    → IsOrdered es
    → (i j : ℕ) → i < j
    → j < length es
    → is_empty (entry es i) ≡ false
    → is_empty (entry es j) ≡ false
    → last_key (entry es i) < (entry es j).key
ordered_entries [] o i j lt size ei ej = absurd (omega arith)
ordered_entries (x ∷ es) o i zero lt size ei ej = absurd (omega arith)
ordered_entries (x ∷ es) (unused b o) zero (suc j) lt size ei ej = absurd (false≢true (sym ei ∙ b))
ordered_entries (x ∷ es) (unused b o) (suc i) (suc j) lt size ei ej =
    ordered_entries es o i j (omega arith) (omega arith) ei ej
ordered_entries (x ∷ es) (used b f a o) zero (suc j) lt size ei ej = a j (omega arith) ej
ordered_entries (x ∷ es) (used b f a o) (suc i) (suc j) lt size ei ej =
    ordered_entries es o i j (omega arith) (omega arith) ei ej

-- An entry before one that starts at or below the key does not reach the key.
pub passed_entries :
    (es : List Bref)
    → IsOrdered es
    → (i j key : ℕ) → i < j
    → j < length es
    → is_empty (entry es j) ≡ false
    → (entry es j).key ≤ key
    → reaches key (entry es i) ≡ false
passed_entries es o i j key lt size ej le = elim (Bool-cases (is_empty (entry es i))) [
  | inl e ↦ rw e refl
  | inr e ↦
      let f = entry-IsFitting es o i (omega arith) e in
      rw e (beyond_last (last_key-IsFitting (entry es i) f) (ordered_entries es o i j lt size e ej))
]
  where
    beyond_last :
        last_key (entry es i) + 1 ≡ (entry es i).key + 2 ^ (entry es i).keybits
        → last_key (entry es i) < (entry es j).key
        → (ltb key (entry es i).key || leb key (last_key (entry es i))) ≡ false
    beyond_last last h = ground (arith, one-le-pow (entry es i).keybits 2)

-- An entry after one that reaches the key reaches it too, if it is in use.
pub later_entries :
    (es : List Bref)
    → IsOrdered es
    → (i j key : ℕ) → i < j
    → j < length es
    → reaches key (entry es i) ≡ true
    → is_empty (entry es j) ≡ false
    → reaches key (entry es j) ≡ true
later_entries es o i j key lt size reached ej =
    let in_use : is_empty (entry es i) ≡ false = used_of (entry es i) reached in
    let last = last_key-IsFitting (entry es i) (entry-IsFitting es o i (omega arith) in_use) in
    let after = ordered_entries es o i j lt size in_use ej in
    rw (ej, lt→ltb key (entry es j).key (key_below last after reached)) refl
  where
    used_of : (e : Bref) → reaches key e ≡ true → is_empty e ≡ false
    used_of e h = ground arith

    key_below :
        last_key (entry es i) + 1 ≡ (entry es i).key + 2 ^ (entry es i).keybits
        → last_key (entry es i) < (entry es j).key
        → reaches key (entry es i) ≡ true
        → key < (entry es j).key
    key_below last after h = ground (arith, one-le-pow (entry es i).keybits 2)

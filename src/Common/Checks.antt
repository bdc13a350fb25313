-- ===== src/Common/Checks.antt =====
-- The result of C code that may stop in an assertion: `KKASSERT`, `hpanic` and `panic` do not
-- return. A result that is no error code is `ok`.
use mathlib.Core.Bool.{Bool, true, false}
use mathlib.Core.Path.{◌≡◌, refl, ap}
use mathlib.Core.Logic.{◌⊎◌, inl, inr}

pub data Checked {ℓ} (A : Type ℓ) : Type ℓ where
  ok : A → Checked A
  panic : Checked A

infixl 5 ◌>>=◌ ◌>>◌
abbrev pub ◌>>=◌ {ℓ κ} : {A : Type ℓ} {B : Type κ} → Checked A → (A → Checked B) → Checked B
ok a >>= f = f a
panic >>= f = panic

abbrev pub ◌>>◌ {ℓ} : {B : Type ℓ} → Checked (Unit {0}) → Checked B → Checked B
m >> k = m >>= λ _. k

-- KKASSERT(b)
abbrev pub assert : Bool → Checked (Unit {0})
assert true = ok tt
assert false = panic

pub Checked-cases {ℓ} : {A : Type ℓ} (m : Checked A) → (m ≡ panic) ⊎ ((a : A) × (m ≡ ok a))
Checked-cases (ok a) = inr (a, refl)
Checked-cases panic = inl refl

pub ok-injective {ℓ} : {A : Type ℓ} (a b : A) → ok a ≡ ok b → a ≡ b
ok-injective a b h = ap (λ m. elim m [ ok x ↦ x | panic ↦ a ]) h

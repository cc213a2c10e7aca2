-- ===== src/Prelude/Maybe.antt =====
-- Chains of computations that may stop.
use mathlib.Core.Path.{◌≡◌, refl, ap}
use mathlib.Core.Option.{Option, none, some}
use mathlib.Core.Bool.{Bool, true, false}
use mathlib.Core.Logic.{◌⊎◌, inl, inr}
use librustyaxe.Prelude.Tests.{if◌then◌else◌}
use native.Mathlib.Omega.{arith}

infixl 5 ◌>>=◌
abbrev pub ◌>>=◌ {ℓ κ} : {A : Type ℓ} {B : Type κ} → Option A → (A → Option B) → Option B
none >>= f = none
some a >>= f = f a

-- Inversion of a chain that ends.
pub >>=-eq-some {ℓ κ} :
    {A : Type ℓ} {B : Type κ} (m : Option A) (f : A → Option B) {b : B}
    → (m >>= f) ≡ some b
    → (a : A) × (m ≡ some a) × (f a ≡ some b)
>>=-eq-some none f h = ground arith
>>=-eq-some (some a) f h = (a, refl, h)

module _ {ℓ} {A B : Type ℓ} where
  pub some-pair :
      {a c : A} {b d : B} → ◌≡◌ {A = Option (A × B)} (some (a, b)) (some (c, d)) → (a ≡ c) × (b ≡ d)
  some-pair h = (ground arith, ground arith)

module _ {ℓ} {A : Type ℓ} where
  pub some-injective : {a b : A} → some a ≡ some b → a ≡ b
  some-injective {a = a} h = ap (λ o. elim o [ none ↦ a | some x ↦ x ]) h

  -- Inversion of a guard that stops, and of a choice between two ends.
  pub guard-eq-some :
      (b : Bool) (o : Option A) {c : A}
      → (if b then none else o) ≡ some c
      → (b ≡ false) × (o ≡ some c)
  guard-eq-some true o h = ground arith
  guard-eq-some false o h = (refl, h)

  pub if-cases :
      (b : Bool) (o p : Option A) {c : A}
      → (if b then o else p) ≡ some c
      → ((b ≡ true) × (o ≡ some c)) ⊎ ((b ≡ false) × (p ≡ some c))
  if-cases true o p h = inl (refl, h)
  if-cases false o p h = inr (refl, h)

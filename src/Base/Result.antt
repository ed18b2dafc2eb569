-- ===== src/Base/Result.antt =====
-- Functions that may throw: an error on the left, a value on the right.
use mathlib.Core.Bool.{Bool, true, false}
use mathlib.Core.Logic.{◌⊎◌, inl, inr}
use mathlib.Core.Option.{Option, none, some}
use mathlib.Core.Path.{◌≡◌, refl, ap}
use native.Mathlib.Omega.{arith}

-- `throw`
abbrev pub raise {ℓ} : {E A : Type ℓ} → E → E ⊎ A
raise = inl

infixl 5 ◌>>=◌ ◌>>◌
abbrev pub ◌>>=◌ {ℓ} : {E A B : Type ℓ} → E ⊎ A → (A → E ⊎ B) → E ⊎ B
inl e >>= f = inl e
inr a >>= f = f a

abbrev pub ◌>>◌ {ℓ} : {E B : Type ℓ} → E ⊎ Unit {ℓ} → E ⊎ B → E ⊎ B
m >> n = m >>= λ _. n

-- `if (!ok) throw e`
abbrev pub require {ℓ} : {E : Type ℓ} → Bool → E → E ⊎ Unit {ℓ}
require true e = inr tt
require false e = inl e

-- `if (o === null) throw e`
abbrev pub or_raise {ℓ} : {E A : Type ℓ} → Option A → E → E ⊎ A
or_raise none e = inl e
or_raise (some a) e = inr a

-- a block returned because its first part did, and so did the rest
pub >>=-returns {ℓ} :
    {E A B : Type ℓ} (m : E ⊎ A) (f : A → E ⊎ B) {b : B}
    → (m >>= f) ≡ inr b
    → (a : A) × (m ≡ inr a) × (f a ≡ inr b)
>>=-returns (inl e) f h = cc
>>=-returns (inr a) f h = (a, refl, h)

pub require-returns {ℓ} :
    {E : Type ℓ} (b : Bool) (e : E) {u : Unit {ℓ}} → require b e ≡ inr u → b ≡ true
require-returns true e h = refl
require-returns false e h = cc

pub or_raise-returns {ℓ} :
    {E A : Type ℓ} (o : Option A) (e : E) {a : A} → or_raise o e ≡ inr a → o ≡ some a
or_raise-returns none e h = cc
or_raise-returns (some a) e h = ground (arith, h)

pub inr_injective {ℓ} : {E A : Type ℓ} {a b : A} → ◌≡◌ {A = E ⊎ A} (inr a) (inr b) → a ≡ b
inr_injective {a = a} h = ap (elim [ inl e ↦ a | inr x ↦ x ]) h

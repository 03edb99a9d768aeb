-- ===== src/Base/Results.antt =====
-- What a transaction or a statement returns: a value, or what it throws.
use mathlib.Core.Path.{◌≡◌, refl}
use mathlib.Core.Bool.{Bool, true, false}
use gist_agent.Base.Tests.{if◌then◌else◌}

pub data Result {ε ℓ} (E : Type ε) (A : Type ℓ) : Type (ε ⊔ ℓ) where
  ok : A → Result E A
  err : E → Result E A

module _ {ε ℓ} {E : Type ε} {A : Type ℓ} where
  pub ok-injective : {a b : A} → ◌≡◌ {A = Result E A} (ok a) (ok b) → a ≡ b
  ok-injective h = cc

-- `await`: what is thrown is passed on.
infixl 5 ◌>>=◌
abbrev pub ◌>>=◌ {ε ℓ κ} :
    {E : Type ε} {A : Type ℓ} {B : Type κ} (m : Result E A) (f : A → Result E B) → Result E B
m >>= f = elim m [ ok a ↦ f a | err thrown ↦ err thrown ]

-- Where a sequence of two succeeds, the first one has.
pub >>=-eq-ok {ε ℓ κ} :
    {E : Type ε} {A : Type ℓ} {B : Type κ} (m : Result E A) (f : A → Result E B) {b : B}
    → (m >>= f) ≡ ok b
    → (a : A) × (m ≡ ok a) × (f a ≡ ok b)
>>=-eq-ok (err thrown) f h = cc
>>=-eq-ok (ok a) f h = (a, refl, h)

-- Where code that throws under a condition returns, the condition was false.
pub passes {ε ℓ} :
    {E : Type ε} {A : Type ℓ} (c : Bool) (e : E) (m : Result E A) {a : A}
    → (if c then err e else m) ≡ ok a
    → (c ≡ false) × (m ≡ ok a)
passes true e m h = cc
passes false e m h = (refl, h)

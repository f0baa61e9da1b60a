-- ===== src/Prelude/Results.antt =====
-- `Result<A, E>`, and chains of fallible steps, which stop at the first error.
use mathlib.Core.Path.{◌≡◌, refl, ap, ◌∙◌}
use mathlib.Core.Logic.{◌⊎◌, inl, inr, ◌↔◌}
use mathlib.Core.Option.{Option, none, some}

pub data Result (E A : Type 0) : Type 0 where
  ok : A → Result E A
  err : E → Result E A

infixl 5 ◌>>=◌
abbrev pub ◌>>=◌ : {E A B : Type 0} → Result E A → (A → Result E B) → Result E B
ok a >>= f = f a
err e >>= f = err e

-- `Result::ok`
abbrev pub to_option : {E A : Type 0} → Result E A → Option A
to_option (ok a) = some a
to_option (err e) = none

module _ {E A B : Type 0} where
  pub >>=-eq-ok :
      (r : Result E A) (f : A → Result E B) {b : B}
      → (r >>= f) ≡ ok b
      → (a : A) × (r ≡ ok a) × (f a ≡ ok b)
  >>=-eq-ok (ok a) f h = (a, refl, h)
  >>=-eq-ok (err e) f h = cc

-- Whether a result is good, and its error if it is not.
abbrev pub outcome : {E A : Type 0} → Result E A → Result E (Unit {0})
outcome (ok a) = ok tt
outcome (err e) = err e

module _ {E A B : Type 0} where
  pub outcome->>=_ok : (r : Result E A) (g : A → B) → outcome (r >>= (λ a. ok (g a))) ≡ outcome r
  outcome->>=_ok (ok a) g = refl
  outcome->>=_ok (err e) g = refl

module _ {E A B C : Type 0} where
  pub outcome->>=_two :
      (r : Result E A) (q : Result E B) (g : A → B → C)
      → outcome (r >>= (λ a. q >>= (λ b. ok (g a b)))) ≡ (outcome r >>= (λ u. outcome q))
  outcome->>=_two (ok a) (ok b) g = refl
  outcome->>=_two (ok a) (err e) g = refl
  outcome->>=_two (err e) q g = refl

pub to_option-eq-some : {E A : Type 0} (r : Result E A) (a : A) → to_option r ≡ some a → r ≡ ok a
to_option-eq-some (ok b) a h = cc
to_option-eq-some (err e) a h = cc

pub ok-injective : {E A : Type 0} {a b : A} → Path (Result E A) (ok a) (ok b) → a ≡ b
ok-injective h = cc

pub Result-cases :
    {E A : Type 0} (r : Result E A) → ((a : A) × (r ≡ ok a)) ⊎ ((e : E) × (r ≡ err e))
Result-cases (ok a) = inl (a, refl)
Result-cases (err e) = inr (e, refl)

module _ {E A B : Type 0} where
  -- A chain of two steps is good exactly if both are.
  pub >>=-eq-ok_iff :
      (r : Result E A) (f : A → Result E B) (b : B)
      → ((r >>= f) ≡ ok b) ↔ ((a : A) × (r ≡ ok a) × (f a ≡ ok b))
  >>=-eq-ok_iff (ok a) f b = (λ h. (a, refl, h), λ (a', same, h). ap f (ok-injective same) ∙ h)
  >>=-eq-ok_iff (err e) f b = (λ h. cc, λ (a', same, h). cc)

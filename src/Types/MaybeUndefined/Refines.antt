-- ===== src/Types/MaybeUndefined/Refines.antt =====
-- src/types/maybe_undefined.rs: `MaybeUndefined<T>` as an `Option<Option<T>>`.
use mathlib.Core.Option
use async_graphql.Prelude.{Bool, true, false, Option, none, some, ◌≡◌, refl}
use async_graphql.Types.MaybeUndefined.{
  MaybeUndefined, undefined, null, value, take, contains_value, contains, into_option, from_option,
  update_to, of_option, map, map_value,
}

module _ {ℓ} {T : Type ℓ} (eq : T → T → Bool) where
  -- `==` of the options over a content with `==`.
  abbrev pub eq_option : Option T → Option T → Bool
  eq_option none none = true
  eq_option none (some y) = false
  eq_option (some x) none = false
  eq_option (some x) (some y) = eq x y

  -- Whether an optional option is `Some` of the other.
  abbrev pub holds : Option T → Option (Option T) → Bool
  holds x none = false
  holds x (some y) = eq_option x y

into_option-of_option {ℓ} : {U : Type ℓ} (o : Option U) → into_option (of_option o) ≡ some o
unfolding into_option of_option
into_option-of_option none = refl
into_option-of_option (some v) = refl

module _ {ℓ} {T : Type ℓ} (eq : T → T → Bool) where
  contains_null : (x : Option T) → contains eq null x ≡ holds eq x (some none)
  unfolding contains
  contains_null none = refl
  contains_null (some x) = refl

  contains-value : (v : T) (x : Option T) → contains eq (value v) x ≡ holds eq x (some (some v))
  unfolding contains
  contains-value v none = refl
  contains-value v (some x) = refl

module _ {ℓ ℓ'} {T : Type ℓ} {U : Type ℓ'} (eq : T → T → Bool) (f : Option T → Option U)
    (g : T → U) where
  -- What an optional option promises, for each operation.
  abbrev pub Simulates : MaybeUndefined T → Option (Option T) → Type (ℓ ⊔ ℓ')
  Simulates m o =
      (into_option m ≡ o)
      × (from_option o ≡ m)
      × (take m ≡ Option.get_or o none)
      × ((old : Option T) → update_to m old ≡ Option.get_or o old)
      × ((x : Option T) → contains eq m x ≡ holds eq x o)
      × ((x : T) → contains_value eq m x ≡ holds eq (some x) o)
      × (into_option (map f m) ≡ Option.map f o)
      × (into_option (map_value g m) ≡ Option.map (Option.map g) o)

  -- A `MaybeUndefined` implements the `Option<Option<T>>` that it converts into: converting back
  -- gives it again, and each operation answers what the optional option answers, with `Null` as
  -- `Some(None)`. `take` and `update_to` read it as what is to be written, if anything; `contains`
  -- and `contains_value` compare with what is in it; `map` and `map_value` change what is in it, so
  -- that `Undefined` stays as it is.
  pub into_option-Simulates : (m : MaybeUndefined T) → Simulates m (into_option m)
  unfolding into_option from_option take update_to contains contains_value map map_value
  into_option-Simulates undefined =
      (refl, refl, refl, λ old. refl, λ x. refl, λ x. refl, refl, refl)
  into_option-Simulates null = (
    refl,
    refl,
    refl,
    λ old. refl,
    contains_null eq,
    λ x. refl,
    into_option-of_option (f none),
    refl,
  )
  into_option-Simulates (value v) = (
    refl,
    refl,
    refl,
    λ old. refl,
    contains-value eq v,
    λ x. refl,
    into_option-of_option (f (some v)),
    refl,
  )

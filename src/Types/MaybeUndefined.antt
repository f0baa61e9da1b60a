-- ===== src/Types/MaybeUndefined.antt =====
-- src/types/maybe_undefined.rs: an argument that is not given, given as null, or given. The `==` of the
-- content and its input type are parameters; serde's traits and the registration are left out.
pub mod Refines
pub mod Parsed
mod Tests
use async_graphql.Prelude.{
  [], ◌++◌, Text, codes, text_eq, Bool, true, false, Option, none, some, Result, ok, err,
  if◌then◌else◌,
}
use async_graphql.Value.{ConstValue}

pub data MaybeUndefined {ℓ} (T : Type ℓ) : Type ℓ where
  undefined : MaybeUndefined T
  null : MaybeUndefined T
  value : T → MaybeUndefined T

module _ {ℓ} {T : Type ℓ} where
  unfoldable pub is_undefined : MaybeUndefined T → Bool
  is_undefined undefined = true
  is_undefined null = false
  is_undefined (value v) = false

  unfoldable pub is_null : MaybeUndefined T → Bool
  is_null undefined = false
  is_null null = true
  is_null (value v) = false

  unfoldable pub is_value : MaybeUndefined T → Bool
  is_value undefined = false
  is_value null = false
  is_value (value v) = true

  unfoldable pub take : MaybeUndefined T → Option T
  take undefined = none
  take null = none
  take (value v) = some v

  unfoldable pub contains_value : (T → T → Bool) → MaybeUndefined T → T → Bool
  contains_value eq undefined x = false
  contains_value eq null x = false
  contains_value eq (value y) x = eq x y

  unfoldable pub contains : (T → T → Bool) → MaybeUndefined T → Option T → Bool
  contains eq undefined x = false
  contains eq null none = true
  contains eq null (some x) = false
  contains eq (value y) none = false
  contains eq (value y) (some x) = eq x y

  -- `From<MaybeUndefined<T>> for Option<Option<T>>`
  unfoldable pub into_option : MaybeUndefined T → Option (Option T)
  into_option undefined = none
  into_option null = some none
  into_option (value v) = some (some v)

  -- `From<Option<Option<T>>> for MaybeUndefined<T>`
  unfoldable pub from_option : Option (Option T) → MaybeUndefined T
  from_option none = undefined
  from_option (some none) = null
  from_option (some (some v)) = value v

  -- What stands behind the reference afterwards.
  unfoldable pub update_to : MaybeUndefined T → Option T → Option T
  update_to undefined old = old
  update_to null old = none
  update_to (value new) old = some new

-- What `map` makes of the answer.
unfoldable pub of_option {ℓ} : {T : Type ℓ} → Option T → MaybeUndefined T
of_option none = null
of_option (some v) = value v

unfoldable pub map {ℓ ℓ'} :
    {T : Type ℓ} {U : Type ℓ'} → (Option T → Option U) → MaybeUndefined T → MaybeUndefined U
unfolding of_option
map f undefined = undefined
map f null = of_option (f none)
map f (value v) = of_option (f (some v))

unfoldable pub map_value {ℓ ℓ'} :
    {T : Type ℓ} {U : Type ℓ'} → (T → U) → MaybeUndefined T → MaybeUndefined U
map_value f undefined = undefined
map_value f null = null
map_value f (value v) = value (f v)

unfoldable pub transpose :
    {T E : Type 0} → MaybeUndefined (Result E T) → Result E (MaybeUndefined T)
transpose undefined = ok undefined
transpose null = ok null
transpose (value (ok v)) = ok (value v)
transpose (value (err e)) = err e

-- `InputValueError`
pub record InputValueError (Extensions : Type 0) : Type 0 where
  pub message : Text
  pub extensions : Option Extensions

-- `InputType`, with what is asked of it here.
pub record InputType (Number Extensions T : Type 0) : Type 0 where
  pub type_name : Text
  pub parse : Option (ConstValue Number) → Result (InputValueError Extensions) T
  pub to_value : T → ConstValue Number

-- `propagate`, from the type of the first name to that of the second.
unfoldable pub propagate :
    {Extensions : Type 0} → Text → Text → InputValueError Extensions → InputValueError Extensions
propagate from to error = if text_eq from to then error else record {
  message = error.message ++ codes " (occurred while parsing \"" ++ to ++ codes "\")";
  extensions = error.extensions;
}

module _ {Number Extensions T : Type 0} (inner : InputType Number Extensions T) where
  unfoldable pub type_name : Text
  type_name = inner.type_name

  -- The content is parsed, with `?`.
  unfoldable pub parse_value :
      ConstValue Number → Result (InputValueError Extensions) (MaybeUndefined T)
  unfolding propagate type_name
  parse_value given = elim (inner.parse (some given)) [
    | ok v ↦ ok (value v)
    | err e ↦ err (propagate inner.type_name type_name e)
  ]

  unfoldable pub parse :
      Option (ConstValue Number) → Result (InputValueError Extensions) (MaybeUndefined T)
  unfolding parse_value
  parse none = ok undefined
  parse (some ConstValue.null) = ok null
  parse (some given) = parse_value given

  unfoldable pub to_value : MaybeUndefined T → ConstValue Number
  to_value undefined = ConstValue.null
  to_value null = ConstValue.null
  to_value (value v) = inner.to_value v

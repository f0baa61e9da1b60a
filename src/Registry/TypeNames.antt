-- ===== src/Registry/TypeNames.antt =====
-- src/registry/mod.rs: `MetaTypeName`, one layer of the text of a type. `none` is a panic, or too
-- little fuel.
pub mod Layers
pub mod Subtype
mod Tests
use async_graphql.Prelude.{
  ℕ, zero, suc, ◌+◌, List, [], ◌∷◌, ◌++◌, Text, text_eq, Bool, true, false, Option, none, some, ltb,
  if◌then◌else◌, length, strip_prefix, strip_suffix,
}

pub data MetaTypeName : Type 0 where
  list : Text → MetaTypeName
  non_null : Text → MetaTypeName
  named : Text → MetaTypeName

infixl 5 ◌>>=◌
abbrev pub ◌>>=◌ : {A B : Type 0} → Option A → (A → Option B) → Option B
some a >>= f = f a
none >>= f = none

-- `&rest[..rest.len() - 1]`: the slice panics on the empty text, and where its end lies inside of
-- the last character.
unfoldable pub drop_last_byte : Text → Option Text
drop_last_byte [] = none
drop_last_byte (c ∷ []) = if ltb c 128 then some [] else none
drop_last_byte (c ∷ d ∷ s) = do t ← drop_last_byte (d ∷ s); some (c ∷ t)

-- The inner option is the function's own.
unfoldable pub strip_brackets : Text → Option (Option Text)
unfolding drop_last_byte strip_prefix
strip_brackets type_name = elim (strip_prefix b'[' type_name) [
  | none ↦ some none
  | some rest ↦ elim (drop_last_byte rest) [ none ↦ none | some inner ↦ some (some inner) ]
]

unfoldable pub create : Text → Option MetaTypeName
unfolding strip_brackets strip_suffix
create type_name = elim (strip_suffix b'!' type_name) [
  | some inner ↦ some (non_null inner)
  | none ↦ elim (strip_brackets type_name) [
    | none ↦ none
    | some none ↦ some (named type_name)
    | some (some inner) ↦ some (list inner)
  ]
]

-- A call is on a shorter text.
unfoldable pub concrete_typename : ℕ → Text → Option Text
concrete_typename zero type_name = none
concrete_typename (suc f) type_name = create type_name >>= λ m. elim m [
  | list inner ↦ concrete_typename f inner
  | non_null inner ↦ concrete_typename f inner
  | named name ↦ some name
]

unfoldable pub is_non_null : MetaTypeName → Bool
is_non_null (non_null _) = true
is_non_null _ = false

unfoldable pub unwrap_non_null : MetaTypeName → Option MetaTypeName
unfolding create
unwrap_non_null (non_null ty) = create ty
unwrap_non_null (list ty) = some (list ty)
unwrap_non_null (named ty) = some (named ty)

-- The call of `is_subtype` on two texts.
unfoldable pub both : (MetaTypeName → MetaTypeName → Option Bool) → Text → Text → Option Bool
both rec super_type sub_type = do super ← create super_type; sub ← create sub_type; rec super sub

unfoldable pub is_subtype : ℕ → MetaTypeName → MetaTypeName → Option Bool
is_subtype zero super sub = none
is_subtype (suc f) (non_null super_type) (non_null sub_type) =
    both (is_subtype f) super_type sub_type
is_subtype (suc f) (named super_type) (non_null sub_type) = both (is_subtype f) super_type sub_type
is_subtype (suc f) (named super_type) (named sub_type) = some (text_eq super_type sub_type)
is_subtype (suc f) (list super_type) (list sub_type) = both (is_subtype f) super_type sub_type
is_subtype (suc f) super sub = some false

-- `MetaTypeName::create(a).is_subtype(&MetaTypeName::create(b))`, with enough fuel.
unfoldable pub accepts : Text → Text → Option Bool
unfolding both is_subtype create text_eq
accepts super_type sub_type =
    both (is_subtype (suc (length super_type + length sub_type))) super_type sub_type

-- ===== src/Parser/TypeNames.antt =====
-- parser/src/types/mod.rs: types as they are written in a document, such as `[String!]!`.
pub mod RoundTrip
mod Tests
use mathlib.Core.Option
use async_graphql.Prelude.{
  ℕ, zero, suc, List, [], ◌∷◌, ◌++◌, Text, Bool, true, false, ◌||◌, ◌&&◌, Option, none, some, leb,
  ◌==◌, if◌then◌else◌, length, strip_prefix, strip_suffix,
}

mutual
  -- `Type { base, nullable }`
  pub data Type_ : Type 0 where
    type_ : BaseType → Bool → Type_

  pub data BaseType : Type 0 where
    named : Text → BaseType
    list : Type_ → BaseType

-- `Display`
unfoldable mutual
  pub display : Type_ → Text
  display (type_ base nullable) = display_base base ++ (if nullable then [] else b'!' ∷ [])

  pub display_base : BaseType → Text
  display_base (named name) = name
  display_base (list ty) = b'[' ∷ (display ty ++ b']' ∷ [])

-- `strip_suffix('!')` of `Type::new`: whether the type is nullable, and the text of its base.
unfoldable pub split_nullable : Text → Bool × Text
split_nullable ty = elim (strip_suffix b'!' ty) [ some rest ↦ (false, rest) | none ↦ (true, ty) ]

-- The base of `Type::new`, with the call for the elements of a list passed in.
unfoldable pub new_base : (Text → Option Type_) → Text → Option BaseType
new_base rec ty = elim (strip_prefix b'[' ty) [
  | none ↦ some (named ty)
  | some inner ↦ elim (strip_suffix b']' inner) [
    | none ↦ none
    | some element ↦ Option.map list (rec element)
  ]
]

-- `Type::new`. A call is on a shorter text, so that fuel above the text's length is enough.
unfoldable pub new_with : ℕ → Text → Option Type_
new_with zero ty = none
new_with (suc f) ty =
    let (nullable, base) = split_nullable ty in
    Option.map (λ b. type_ b nullable) (new_base (new_with f) base)

unfoldable pub new : Text → Option Type_
unfolding new_with new_base split_nullable strip_prefix strip_suffix
new ty = new_with (suc (length ty)) ty

-- The characters of a GraphQL name.
unfoldable pub is_name_char : ℕ → Bool
is_name_char c =
    (leb b'a' c && leb c b'z')
    || (leb b'A' c && leb c b'Z')
    || (leb b'0' c && leb c b'9')
    || c == b'_'

-- ===== src/Registry/CacheControl.antt =====
-- src/registry/cache_control.rs: the cache control of types and fields, and how the parts of a query
-- are merged (the visitor of src/validation/visitors/cache_control.rs starts from the default and
-- merges one part after the other).
pub mod Laws
mod Tests
use async_graphql.Prelude.{
  ℕ, suc, List, [], ◌∷◌, ◌++◌, Text, codes, Bool, true, false, ◌&&◌, Option, none, some, ltb, ◌==◌,
  if◌then◌else◌,
}
use async_graphql.Prelude.Int.{ℤ, pos, negsuc, min_ℤ}
use async_graphql.Value.Print.{decimal}

-- `max_age` is -1 for `no-cache`.
pub record CacheControl : Type 0 where
  pub public : Bool
  pub max_age : ℤ

-- `Default`
abbrev pub default : CacheControl
default = record { public = true; max_age = pos 0 }

-- The text for `max_age` in the header's value.
unfoldable pub age_value : ℤ → Text
unfolding decimal
age_value (pos n) = if ltb 0 n then codes "max-age=" ++ decimal n else []
age_value (negsuc n) = if n == 0 then codes "no-cache" else []

-- `value += …` for a private response
unfoldable pub with_scope : Bool → Text → Text
with_scope true value = value
with_scope false [] = codes "private"
with_scope false (c ∷ value) = (c ∷ value) ++ codes ", private"

unfoldable pub non_empty : Text → Option Text
non_empty [] = none
non_empty (c ∷ value) = some (c ∷ value)

-- The value of the `Cache-Control` header.
unfoldable pub value : CacheControl → Option Text
unfolding age_value with_scope non_empty
value c = non_empty (with_scope c.public (age_value c.max_age))

abbrev pub is_no_cache : ℤ → Bool
is_no_cache (negsuc n) = n == 0
is_no_cache (pos n) = false

abbrev pub is_zero : ℤ → Bool
is_zero (pos n) = n == 0
is_zero (negsuc n) = false

-- The `match` on the two ages.
unfoldable pub merge_age : ℤ → ℤ → ℤ
unfolding min_ℤ
merge_age a b =
    if is_no_cache a
    then negsuc 0
    else if is_no_cache b
    then negsuc 0
    else if is_zero b
    then a
    else if is_zero a
    then b
    else min_ℤ a b

unfoldable pub merge : CacheControl → CacheControl → CacheControl
unfolding merge_age
merge c other = record {
  public = c.public && other.public;
  max_age = merge_age c.max_age other.max_age;
}

-- The merges of the visitor, over the parts of the query in the order in which they are entered.
unfoldable pub merge_all : CacheControl → List CacheControl → CacheControl
merge_all c [] = c
merge_all c (part ∷ parts) = merge_all (merge c part) parts

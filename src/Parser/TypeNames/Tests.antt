-- ===== src/Parser/TypeNames/Tests.antt =====
-- Runs of `Type::new`, and the theorems at concrete types.
use async_graphql.Prelude.{codes, true, false, none, some, ◌≡◌, refl, all}
use async_graphql.Parser.TypeNames.{Type_, type_, named, list, display, new, is_name_char}
use async_graphql.Parser.TypeNames.RoundTrip.{is_well_named, new-display, display-injective}

-- [String!]!
abbrev strings : Type_
strings = type_ (list (type_ (named (codes "String")) false)) false

reads_list : new (codes "[String!]!") ≡ some strings
unfolding new
reads_list = refl

reads_unclosed : new (codes "[Int") ≡ none
unfolding new
reads_unclosed = refl

strings-is_well_named : is_well_named strings ≡ true
unfolding is_well_named is_name_char all
strings-is_well_named = refl

new-display_example : new (display strings) ≡ some strings
new-display_example = new-display strings strings-is_well_named

display-injective_example : strings ≡ strings
display-injective_example =
    display-injective strings strings strings-is_well_named strings-is_well_named refl

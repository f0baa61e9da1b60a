-- ===== src/Registry/TypeNames/Tests.antt =====
-- Runs of `MetaTypeName`, and the theorems at concrete types.
use async_graphql.Prelude.{codes, true, false, not, ◌&&◌, none, some, ◌≡◌, refl, all, arith}
use async_graphql.Parser.TypeNames.{Type_, type_, display, is_name_char}
use async_graphql.Parser.TypeNames
use async_graphql.Parser.TypeNames.RoundTrip.{is_well_named}
use async_graphql.Registry.TypeNames.{list, create, concrete_typename, accepts}
use async_graphql.Registry.TypeNames.Layers.{
  meta, create-display, concrete_typename-display, base_name, weight,
}
use async_graphql.Registry.TypeNames.Subtype.{
  accepts-display, accepts-non_null_list, compatible, gives_non_null_list,
}

abbrev int : Type_
int = type_ (TypeNames.named (codes "Int")) true

-- [Int]!
abbrev ints : Type_
ints = type_ (TypeNames.list int) false

creates_list : create (codes "[Int!]") ≡ some (list (codes "Int!"))
unfolding create
creates_list = refl

bracket_panics : create (codes "[") ≡ none
unfolding create
bracket_panics = refl

int-is_well_named : is_well_named int ≡ true
unfolding is_well_named is_name_char all
int-is_well_named = refl

ints-is_well_named : is_well_named ints ≡ true
unfolding is_well_named is_name_char all
ints-is_well_named = refl

create-display_example : create (display ints) ≡ some (meta ints)
create-display_example = create-display ints ints-is_well_named

concrete_typename-display_example : concrete_typename 5 (display ints) ≡ some (base_name ints)
concrete_typename-display_example =
    concrete_typename-display ints 5 ints-is_well_named (unfold weight in omega arith)

accepts-display_example :
    accepts (display int) (display ints)
    ≡ some (compatible int ints && not (gives_non_null_list int ints))
accepts-display_example = accepts-display int ints int-is_well_named ints-is_well_named

accepts-non_null_list_example :
    (accepts (display (type_ (TypeNames.list int) true)) (display ints) ≡ some false)
    × (compatible (type_ (TypeNames.list int) true) ints ≡ true)
accepts-non_null_list_example = accepts-non_null_list int int-is_well_named

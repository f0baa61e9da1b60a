-- ===== src/Registry/Visible/Tests.antt =====
-- Runs of `remove_unused_types` and `find_visible_types`, and their theorems there.
use async_graphql.Prelude.{
  ℕ, ◌+◌, ◌<◌, List, [], ◌∷◌, map, Text, text_discrete, codes, Bool, true, false, Option, none,
  some, ◌≡◌, refl, ◌↔◌, ◌⊎◌, get, length, arith, contains,
}
use async_graphql.Registry.CacheControl.{default}
use async_graphql.Registry.TypeNames.{create}
use async_graphql.Registry.Types.{
  MetaField, MetaType, object, interface, type_overlap, Registry, values, is_shown, is_system_type,
  name_of,
}
use async_graphql.Registry.Types.Overlap.{type_overlap_comm}
use async_graphql.Registry.Visible.{remove_unused_types, find_visible_types}
use async_graphql.Registry.Visible.Schema.{mentioned, Found, is_legible}
use async_graphql.Registry.Visible.Correct.{all_shown, is_keyed, remove_unused_types_iff}
use async_graphql.Registry.Visible.Shown.{find_visible_types-Shown}
use async_graphql.Registry.Visible.Interfaces.{Shown}

-- A request is known by whether it is an administrator's.
abbrev admin_only : Option (Bool → Bool)
admin_only = some (λ admin. admin)

abbrev x_field : Text → Option (Bool → Bool) → Text × MetaField Bool
x_field ty visible = (
  codes "x",
  record { name = codes "x"; args = []; ty = ty; cache_control = default; visible = visible },
)

abbrev object_of :
    Text → List (Text × MetaField Bool) → Option (Bool → Bool) → Text × MetaType Bool ℕ
object_of name fields visible = (
  name,
  object (record {
    name = name;
    fields = fields;
    cache_control = default;
    resolvable = true;
    keys = none;
    visible = visible;
    is_subscription = false;
    rust_typename = none;
  }),
)

abbrev interface_of : Text → List (Text × MetaField Bool) → List Text → Text × MetaType Bool ℕ
interface_of name fields possible = (
  name,
  interface (record {
    name = name;
    fields = fields;
    possible_types = possible;
    keys = none;
    visible = none;
    rust_typename = none;
  }),
)

abbrev schema_of : List (Text × MetaType Bool ℕ) → Registry Bool ℕ
schema_of types = record {
  types = types;
  directives = [];
  implements = [];
  query_type = codes "Q";
  mutation_type = none;
  subscription_type = none;
}

-- The query type has a field of type A, which is hidden from all but administrators; B is unused.
abbrev schema : Registry Bool ℕ
schema = schema_of (
    object_of (codes "A") [] admin_only
    ∷ object_of (codes "B") [] none
    ∷ object_of (codes "Q") (x_field (codes "[A!]") none ∷ []) none
    ∷ [])

removes :
    remove_unused_types 3 schema
    ≡ some (
        schema_of (
          object_of (codes "A") [] admin_only
          ∷ object_of (codes "Q") (x_field (codes "[A!]") none ∷ []) none
          ∷ []))
unfolding remove_unused_types create
removes = refl

hides : find_visible_types false 3 schema ≡ some (codes "Q" ∷ [])
unfolding find_visible_types create
hides = refl

shows : find_visible_types true 3 schema ≡ some (codes "A" ∷ codes "Q" ∷ [])
unfolding find_visible_types create
shows = refl

-- An interface I, whose possible type X is mentioned by the interface J only, which shows itself for
-- its possible type Q.
abbrev late : Registry Bool ℕ
late = schema_of (
    interface_of (codes "I") [] (codes "X" ∷ [])
    ∷ interface_of (codes "J") (x_field (codes "X") none ∷ []) (codes "Q" ∷ [])
    ∷ object_of (codes "Q") [] none
    ∷ object_of (codes "X") [] none
    ∷ [])

-- The interface that comes first in the order of names is not asked again, though X is there.
asked_once : find_visible_types true 5 late ≡ some (codes "J" ∷ codes "Q" ∷ codes "X" ∷ [])
unfolding find_visible_types create
asked_once = refl

-- The same schema, but that the name K of the interface comes behind J.
abbrev late_renamed : Registry Bool ℕ
late_renamed = schema_of (
    interface_of (codes "J") (x_field (codes "X") none ∷ []) (codes "Q" ∷ [])
    ∷ interface_of (codes "K") [] (codes "X" ∷ [])
    ∷ object_of (codes "Q") [] none
    ∷ object_of (codes "X") [] none
    ∷ [])

asked_after :
    find_visible_types true 5 late_renamed
    ≡ some (codes "J" ∷ codes "K" ∷ codes "Q" ∷ codes "X" ∷ [])
unfolding find_visible_types create
asked_after = refl

schema-is_legible : is_legible schema ≡ true
unfolding is_legible create
schema-is_legible = refl

schema-is_keyed : is_keyed schema.types ≡ true
unfolding is_keyed
schema-is_keyed = refl

schema-enough : length (mentioned (all_shown schema) schema) < 7
unfolding mentioned create
schema-enough = omega arith

remove_unused_types_iff_example :
    (left : Registry Bool ℕ) × (remove_unused_types 7 schema ≡ some left)
    × ((name : Text) (ty : MetaType Bool ℕ)
        → (get text_discrete name left.types ≡ some ty) ↔ (
            (get text_discrete name schema.types ≡ some ty)
            × ((is_system_type name ≡ true) ⊎ Found (all_shown schema) schema name)))
remove_unused_types_iff_example =
    remove_unused_types_iff schema 7 schema-is_keyed schema-is_legible schema-enough

late-is_legible : is_legible late ≡ true
unfolding is_legible create
late-is_legible = refl

late-enough : length (mentioned (is_shown true) late) + length late.types < 12
unfolding mentioned create is_shown
late-enough = omega arith

find_visible_types-Shown_example :
    (names : List Text) × (find_visible_types true 12 late ≡ some names)
    × ((name : Text)
        → contains text_discrete name names ≡ true
        → (is_system_type name ≡ true) ⊎ Shown true late name)
    × ((name : Text)
        → contains text_discrete name (map name_of (values late.types)) ≡ true
        → (is_system_type name ≡ true) ⊎ Found (is_shown true) late name
        → contains text_discrete name names ≡ true)
find_visible_types-Shown_example = find_visible_types-Shown true late 12 late-is_legible late-enough

-- An interface with the possible type A, and the type A itself.
type_overlap_comm_example :
    type_overlap false
      (interface_of (codes "I") [] (codes "A" ∷ [])).1
      (object_of (codes "A") [] admin_only).1
    ≡ type_overlap false
        (object_of (codes "A") [] admin_only).1
        (interface_of (codes "I") [] (codes "A" ∷ [])).1
type_overlap_comm_example =
    type_overlap_comm false (interface_of (codes "I") [] (codes "A" ∷ [])).1
      (object_of (codes "A") [] admin_only).1

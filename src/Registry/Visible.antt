-- ===== src/Registry/Visible.antt =====
-- src/registry/mod.rs: which types of a schema are used (`remove_unused_types`), and which ones a
-- request may see (`find_visible_types`). The two walk over the types the same way, but the first
-- asks nobody whether a type is visible: `shown` says what is. The fuel bounds the depth of the
-- calls; `none` is a panic in a type's text, or too little fuel.
pub mod Mentions
pub mod Walked
pub mod Schema
pub mod Correct
pub mod Interfaces
pub mod Shown
mod Tests
use mathlib.Core.Option
use async_graphql.Prelude.{
  ℕ, zero, suc, List, [], ◌∷◌, ◌++◌, map, Text, text_discrete, Bool, true, false, not, Option, none,
  some, get, any, contains, keep, length, if◌then◌else◌,
}
use async_graphql.Registry.TypeNames.{concrete_typename, ◌>>=◌}
use async_graphql.Registry.Types.{
  MetaInputValue, MetaField, MetaType, scalar, object, interface, union, enum, input_object,
  MetaDirective, Registry, values, is_shown, is_system_type, is_visible, name_of, has_keys,
  visible_of,
}
use async_graphql.Validation.Graph.{walk_each}

-- `MetaTypeName::concrete_typename`, with enough fuel.
unfoldable pub concrete : Text → Option Text
unfolding concrete_typename
concrete ty = concrete_typename (suc (length ty)) ty

module _ {Context Number : Type 0} where
  -- The names of the types of the operations.
  unfoldable pub root_types : Registry Context Number → List Text
  root_types registry = registry.query_type ∷ elim (registry.mutation_type) [
    | none ↦ elim (registry.subscription_type) [ none ↦ [] | some s ↦ s ∷ [] ]
    | some m ↦ elim (registry.subscription_type) [ none ↦ m ∷ [] | some s ↦ m ∷ s ∷ [] ]
  ]

  -- The names of the types that have keys.
  unfoldable pub entities : List (MetaType Context Number) → List Text
  unfolding keep has_keys name_of
  entities types = map name_of (keep has_keys types)

module _ {Context : Type 0} (shown : Option (Context → Bool) → Bool) where
  -- `rec` is the call of `traverse_type`.
  unfoldable pub traverse_input_value :
      (Text → List Text → Option (List Text))
      → MetaInputValue Context
      → List Text
      → Option (List Text)
  unfolding concrete
  traverse_input_value rec input_value used = elim (shown input_value.visible) [
    | false ↦ some used
    | true ↦ concrete input_value.ty >>= λ name. rec name used
  ]

  unfoldable pub traverse_field :
      (Text → List Text → Option (List Text)) → MetaField Context → List Text → Option (List Text)
  unfolding concrete traverse_input_value walk_each
  traverse_field rec field used = elim (shown field.visible) [
    | false ↦ some used
    | true ↦ (concrete field.ty >>= λ name. rec name used) >>= λ used'.
        walk_each (traverse_input_value rec) (values field.args) used'
  ]

  unfoldable pub traverse_directive :
      (Text → List Text → Option (List Text))
      → MetaDirective Context
      → List Text
      → Option (List Text)
  unfolding traverse_input_value walk_each
  traverse_directive rec directive used = elim (shown directive.visible) [
    | false ↦ some used
    | true ↦ walk_each (traverse_input_value rec) (values directive.args) used
  ]

module _ {Context Number : Type 0} (shown : Option (Context → Bool) → Bool) where
  -- The `match` on a type that was not there before.
  unfoldable pub traverse_parts :
      (Text → List Text → Option (List Text))
      → MetaType Context Number
      → List Text
      → Option (List Text)
  unfolding traverse_field traverse_input_value walk_each
  traverse_parts rec (object ty) used = walk_each (traverse_field shown rec) (values ty.fields) used
  traverse_parts rec (interface ty) used =
      walk_each (traverse_field shown rec) (values ty.fields) used >>= λ used'.
      walk_each rec ty.possible_types used'
  traverse_parts rec (union ty) used = walk_each rec ty.possible_types used
  traverse_parts rec (input_object ty) used =
      walk_each (traverse_input_value shown rec) (values ty.input_fields) used
  traverse_parts rec _ used = some used

  unfoldable pub traverse_type :
      List (Text × MetaType Context Number) → ℕ → Text → List Text → Option (List Text)
  unfolding contains text_discrete get visible_of traverse_parts
  traverse_type types zero type_name used = none
  traverse_type types (suc f) type_name used = elim (contains text_discrete type_name used) [
    | true ↦ some used
    | false ↦ elim (get text_discrete type_name types) [
      | none ↦ some used
      | some ty ↦ elim (shown (visible_of ty)) [
        | false ↦ some used
        | true ↦ traverse_parts (traverse_type types f) ty (type_name ∷ used)
      ]
    ]
  ]

  -- The loops over the directives, the types of the three operations, and the entities.
  unfoldable pub traverse_schema : ℕ → Registry Context Number → Option (List Text)
  unfolding traverse_directive walk_each traverse_type root_types entities
  traverse_schema f registry =
      let rec = traverse_type registry.types f in
      walk_each (traverse_directive shown rec) (values registry.directives) [] >>= λ used.
      walk_each rec (root_types registry) used >>= λ used'.
      walk_each rec (entities (values registry.types)) used'

module _ {Context Number : Type 0} where
  -- `self.types.remove` for each name of a set.
  unfoldable pub remove_all :
      List Text → List (Text × MetaType Context Number) → List (Text × MetaType Context Number)
  unfolding keep contains text_discrete
  remove_all names types = keep (λ p. not (contains text_discrete p.0 names)) types

  -- The names of the types that are neither a system type nor used.
  unfoldable pub unused_types : List Text → List (MetaType Context Number) → List Text
  unfolding is_system_type name_of contains text_discrete
  unused_types used [] = []
  unused_types used (ty ∷ types) =
      if is_system_type (name_of ty)
      then unused_types used types
      else if contains text_discrete (name_of ty) used
      then unused_types used types
      else name_of ty ∷ unused_types used types

  -- All counts as visible here.
  unfoldable pub remove_unused_types :
      ℕ → Registry Context Number → Option (Registry Context Number)
  unfolding traverse_schema remove_all unused_types
  remove_unused_types f registry =
      Option.map
        (λ used. record {
          types = remove_all (unused_types used (values registry.types)) registry.types;
          directives = registry.directives;
          implements = registry.implements;
          query_type = registry.query_type;
          mutation_type = registry.mutation_type;
          subscription_type = registry.subscription_type;
        })
        (traverse_schema (λ visible. true) f registry)

  -- An interface that is not among the visible types joins them if one of its possible types is.
  unfoldable pub traverse_interface :
      Context
      → (Text → List Text → Option (List Text))
      → MetaType Context Number
      → List Text
      → Option (List Text)
  unfolding is_shown contains text_discrete any
  traverse_interface ctx rec (interface ty) visible_types =
      if is_shown ctx ty.visible
      then if contains text_discrete ty.name visible_types
        then some visible_types
        else if any (λ name. contains text_discrete name visible_types) ty.possible_types
        then rec ty.name visible_types
        else some visible_types
      else some visible_types
  traverse_interface ctx rec _ visible_types = some visible_types

  -- The set that the loops have found, before the filter.
  unfoldable pub found_types : Context → ℕ → Registry Context Number → Option (List Text)
  unfolding traverse_schema is_shown walk_each traverse_interface traverse_type
  found_types ctx f registry = traverse_schema (is_shown ctx) f registry >>= λ visible_types.
      walk_each (traverse_interface ctx (traverse_type (is_shown ctx) registry.types f))
        (values registry.types) visible_types

  unfoldable pub find_visible_types : Context → ℕ → Registry Context Number → Option (List Text)
  unfolding found_types keep is_system_type name_of contains text_discrete
  find_visible_types ctx f registry =
      Option.map
        (λ visible_types.
          keep
            (λ name.
              if is_system_type name then true else contains text_discrete name visible_types)
            (map name_of (values registry.types)))
        (found_types ctx f registry)

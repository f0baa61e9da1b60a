-- ===== src/Registry/Types.antt =====
-- src/registry/mod.rs: the types of a schema and the registry that holds them. What only the export
-- of SDL reads (descriptions, deprecation, tags, …) is left out. `Context` is the context of a
-- request, which decides what is visible; `Number` is serde_json's number.
pub mod Overlap
use async_graphql.Prelude.{
  List, [], ◌∷◌, map, Text, text_discrete, text_eq, Bool, true, false, Option, none, some, get,
  codes, any, contains, ◌==◌, if◌then◌else◌,
}
use async_graphql.Value.{ConstValue}
use async_graphql.Registry.CacheControl.{CacheControl}

pub record MetaInputValue (Context : Type 0) : Type 0 where
  pub name : Text
  pub ty : Text
  pub default_value : Option Text
  pub visible : Option (Context → Bool)

pub record MetaField (Context : Type 0) : Type 0 where
  pub name : Text
  pub args : List (Text × MetaInputValue Context)
  pub ty : Text
  pub cache_control : CacheControl
  pub visible : Option (Context → Bool)

pub record MetaEnumValue (Context : Type 0) : Type 0 where
  pub name : Text
  pub visible : Option (Context → Bool)

pub record ScalarType (Context Number : Type 0) : Type 0 where
  pub name : Text
  pub is_valid : Option (ConstValue Number → Bool)
  pub visible : Option (Context → Bool)

pub record ObjectType (Context : Type 0) : Type 0 where
  pub name : Text
  pub fields : List (Text × MetaField Context)
  pub cache_control : CacheControl
  pub resolvable : Bool
  pub keys : Option (List Text)
  pub visible : Option (Context → Bool)
  pub is_subscription : Bool
  pub rust_typename : Option Text

pub record InterfaceType (Context : Type 0) : Type 0 where
  pub name : Text
  pub fields : List (Text × MetaField Context)
  pub possible_types : List Text
  pub keys : Option (List Text)
  pub visible : Option (Context → Bool)
  pub rust_typename : Option Text

pub record UnionType (Context : Type 0) : Type 0 where
  pub name : Text
  pub possible_types : List Text
  pub visible : Option (Context → Bool)
  pub rust_typename : Option Text

pub record EnumType (Context : Type 0) : Type 0 where
  pub name : Text
  pub enum_values : List (Text × MetaEnumValue Context)
  pub visible : Option (Context → Bool)
  pub rust_typename : Option Text

pub record InputObjectType (Context : Type 0) : Type 0 where
  pub name : Text
  pub input_fields : List (Text × MetaInputValue Context)
  pub visible : Option (Context → Bool)
  pub rust_typename : Option Text
  pub oneof : Bool

pub data MetaType (Context Number : Type 0) : Type 0 where
  scalar : ScalarType Context Number → MetaType Context Number
  object : ObjectType Context → MetaType Context Number
  interface : InterfaceType Context → MetaType Context Number
  union : UnionType Context → MetaType Context Number
  enum : EnumType Context → MetaType Context Number
  input_object : InputObjectType Context → MetaType Context Number

pub record MetaDirective (Context : Type 0) : Type 0 where
  pub name : Text
  pub args : List (Text × MetaInputValue Context)
  pub is_repeatable : Bool
  pub visible : Option (Context → Bool)

pub record Registry (Context Number : Type 0) : Type 0 where
  pub types : List (Text × MetaType Context Number)
  pub directives : List (Text × MetaDirective Context)
  pub implements : List (Text × List Text)
  pub query_type : Text
  pub mutation_type : Option Text
  pub subscription_type : Option Text

-- The values of a map, in order.
abbrev pub values : {V : Type 0} → List (Text × V) → List V
values m = map (λ p. p.1) m

-- The function `is_visible`
unfoldable pub is_shown : {Context : Type 0} → Context → Option (Context → Bool) → Bool
is_shown ctx none = true
is_shown ctx (some f) = f ctx

-- `"__"`, with which the names of the introspection start.
unfoldable pub starts_with_underscores : Text → Bool
starts_with_underscores (a ∷ b ∷ name) = if a == b'_' then b == b'_' else false
starts_with_underscores _ = false

unfoldable pub is_system_type : Text → Bool
unfolding starts_with_underscores text_eq
is_system_type name =
    if starts_with_underscores name
    then true
    else if text_eq name (codes "Boolean")
    then true
    else if text_eq name (codes "Int")
    then true
    else if text_eq name (codes "Float")
    then true
    else if text_eq name (codes "String")
    then true
    else text_eq name (codes "ID")

module _ {Context Number : Type 0} where
  unfoldable pub fields_of : MetaType Context Number → Option (List (Text × MetaField Context))
  fields_of (object ty) = some ty.fields
  fields_of (interface ty) = some ty.fields
  fields_of _ = none

  unfoldable pub field_by_name : MetaType Context Number → Text → Option (MetaField Context)
  unfolding fields_of get text_discrete
  field_by_name ty name = elim (fields_of ty) [
    | none ↦ none
    | some fields ↦ get text_discrete name fields
  ]

  -- The `match` in `is_visible`
  unfoldable pub visible_of : MetaType Context Number → Option (Context → Bool)
  visible_of (scalar ty) = ty.visible
  visible_of (object ty) = ty.visible
  visible_of (interface ty) = ty.visible
  visible_of (union ty) = ty.visible
  visible_of (enum ty) = ty.visible
  visible_of (input_object ty) = ty.visible

  unfoldable pub is_visible : Context → MetaType Context Number → Bool
  unfolding is_shown visible_of
  is_visible ctx ty = is_shown ctx (visible_of ty)

  unfoldable pub name_of : MetaType Context Number → Text
  name_of (scalar ty) = ty.name
  name_of (object ty) = ty.name
  name_of (interface ty) = ty.name
  name_of (union ty) = ty.name
  name_of (enum ty) = ty.name
  name_of (input_object ty) = ty.name

  unfoldable pub is_composite : MetaType Context Number → Bool
  is_composite (object ty) = true
  is_composite (interface ty) = true
  is_composite (union ty) = true
  is_composite _ = false

  unfoldable pub is_abstract : MetaType Context Number → Bool
  is_abstract (interface ty) = true
  is_abstract (union ty) = true
  is_abstract _ = false

  unfoldable pub is_leaf : MetaType Context Number → Bool
  is_leaf (enum ty) = true
  is_leaf (scalar ty) = true
  is_leaf _ = false

  unfoldable pub is_input : MetaType Context Number → Bool
  is_input (enum ty) = true
  is_input (scalar ty) = true
  is_input (input_object ty) = true
  is_input _ = false

  unfoldable pub is_possible_type : MetaType Context Number → Text → Bool
  unfolding contains text_discrete text_eq
  is_possible_type (interface ty) type_name = contains text_discrete type_name ty.possible_types
  is_possible_type (union ty) type_name = contains text_discrete type_name ty.possible_types
  is_possible_type (object ty) type_name = text_eq ty.name type_name
  is_possible_type _ type_name = false

  unfoldable pub possible_types : MetaType Context Number → Option (List Text)
  possible_types (interface ty) = some ty.possible_types
  possible_types (union ty) = some ty.possible_types
  possible_types _ = none

  -- `same` is `std::ptr::eq`: whether the two are one type of the registry.
  unfoldable pub type_overlap : Bool → MetaType Context Number → MetaType Context Number → Bool
  unfolding is_abstract any possible_types is_possible_type name_of
  type_overlap same a b =
      if same
      then true
      else if is_abstract a
      then if is_abstract b
        then elim (possible_types a) [ none ↦ false | some names ↦ any (is_possible_type b) names ]
        else is_possible_type a (name_of b)
      else if is_abstract b
      then is_possible_type b (name_of a)
      else false

  -- The keys of an entity; a type has any that are not empty.
  unfoldable pub has_keys : MetaType Context Number → Bool
  has_keys (object ty) = elim (ty.keys) [ some (key ∷ keys) ↦ true | _ ↦ false ]
  has_keys (interface ty) = elim (ty.keys) [ some (key ∷ keys) ↦ true | _ ↦ false ]
  has_keys _ = false

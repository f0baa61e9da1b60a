-- ===== src/Validation/InputValues.antt =====
-- src/validation/utils.rs: `is_valid_input_value`, which checks a value against the text of a type.
-- The inner option is the function's own, the message of what is wrong; the outer one is `none` for
-- a panic (a type that is not in the registry, or a text that is no type) and for too little fuel.
pub mod Accepts
pub mod Decides
pub mod Leaves
pub mod Layered
pub mod Objects
pub mod Correct
mod Tests
use async_graphql.Prelude.{
  ℕ, zero, suc, List, [], ◌∷◌, ◌++◌, Text, codes, text_discrete, text_eq, Bool, true, false, not,
  Option, none, some, get, keep, if◌then◌else◌,
}
use async_graphql.Value.{
  ConstValue, ConstList, ConstMap, null, number, string, boolean, binary, enum, list, object, nil,
  cons, end, entry,
}
use async_graphql.Value.Print.{decimal}
use async_graphql.Registry.TypeNames.{MetaTypeName, create, is_non_null}
use async_graphql.Registry.Types.{
  MetaInputValue, MetaEnumValue, MetaType, ScalarType, EnumType, InputObjectType, Registry, values,
}

-- `QueryPathNode`, with its segments: an index, or a name.
pub data QueryPathNode : Type 0 where
  root : Text → QueryPathNode
  index : QueryPathNode → ℕ → QueryPathNode
  name : QueryPathNode → Text → QueryPathNode

-- `Display`
unfoldable pub display_path : QueryPathNode → Text
unfolding decimal
display_path (root segment) = segment
display_path (index parent i) = display_path parent ++ b'.' ∷ decimal i
display_path (name parent segment) = display_path parent ++ b'.' ∷ segment

unfoldable pub quoted : Text → Text
quoted s = b'"' ∷ s ++ b'"' ∷ []

unfoldable pub valid_error : QueryPathNode → Text → Text
unfolding display_path quoted
valid_error path msg = quoted (display_path path) ++ codes ", " ++ msg

-- The result of a check.
abbrev pub Checked : Type 0
Checked = Option (Option Text)

abbrev pub valid : Checked
valid = some none

unfoldable pub refused : QueryPathNode → Text → Checked
unfolding valid_error
refused path msg = some (some (valid_error path msg))

unfoldable pub expected_type : QueryPathNode → Text → Checked
unfolding refused quoted
expected_type path type_name = refused path (codes "expected type " ++ quoted type_name)

module _ {Number : Type 0} where
  -- `values.get`
  unfoldable pub find_value : Text → ConstMap Number → Option (ConstValue Number)
  unfolding text_eq
  find_value key end = none
  find_value key (entry k value rest) = if text_eq k key then some value else find_value key rest

  unfoldable pub keys_of : ConstMap Number → List Text
  keys_of end = []
  keys_of (entry k value rest) = k ∷ keys_of rest

  -- The test of the only field of a `oneof` object.
  unfoldable pub check_single : QueryPathNode → ConstValue Number → Option Text
  unfolding valid_error
  check_single path null = some (
      valid_error path (
        codes
          "Oneof Input Objects require that exactly one field must be supplied and that field must not be null"))
  check_single path value = none

  -- The tests of a `oneof` object: one field, which is not null.
  unfoldable pub check_oneof : QueryPathNode → Bool → ConstMap Number → Option Text
  unfolding valid_error check_single
  check_oneof path false map = none
  check_oneof path true (entry k value end) = check_single path value
  check_oneof path true map =
      some (valid_error path (codes "Oneof input objects requires have exactly one field"))

-- After the loop over the fields: `input_names` are the keys that no field has.
unfoldable pub check_unknown : QueryPathNode → Text → List Text → Checked
unfolding refused quoted
check_unknown path object_name [] = valid
check_unknown path object_name (key ∷ input_names) =
    refused path (codes "unknown field " ++ quoted key ++ codes " of type " ++ quoted object_name)

module _ {Number : Type 0} (rec : Text → ConstValue Number → QueryPathNode → Checked) where
  -- The loop over the elements of a list.
  unfoldable pub check_elements : Text → QueryPathNode → ℕ → ConstList Number → Checked
  check_elements type_name path idx nil = valid
  check_elements type_name path idx (cons elem elems) = elim (rec type_name elem (index path idx)) [
    | none ↦ none
    | some (some reason) ↦ some (some reason)
    | some none ↦ check_elements type_name path (suc idx) elems
  ]

-- A field that is not given.
unfoldable pub check_missing : {Context : Type 0} → QueryPathNode → MetaInputValue Context → Checked
unfolding create is_non_null refused quoted
check_missing path field = elim (create field.ty) [
  | none ↦ none
  | some ty ↦
      if is_non_null ty
      then elim (field.default_value) [
        | some default ↦ valid
        | none ↦ refused path (
            codes "field "
            ++ quoted field.name
            ++ codes " of type "
            ++ quoted field.ty
            ++ codes " is required but not provided")
      ]
      else valid
]

module _ {Context Number : Type 0} (rec : Text → ConstValue Number → QueryPathNode → Checked) where
  -- One field of the object type.
  unfoldable pub check_field : QueryPathNode → ConstMap Number → MetaInputValue Context → Checked
  unfolding find_value check_missing
  check_field path map field = elim (find_value field.name map) [
    | some value ↦ rec field.ty value (name path field.name)
    | none ↦ check_missing path field
  ]

  -- The loop over the fields of the object type.
  unfoldable pub check_fields :
      QueryPathNode → Text → ConstMap Number → List (MetaInputValue Context) → List Text → Checked
  unfolding check_unknown check_field keep text_eq
  check_fields path object_name map [] input_names = check_unknown path object_name input_names
  check_fields path object_name map (field ∷ fields) input_names =
      elim (check_field path map field) [
        | none ↦ none
        | some (some reason) ↦ some (some reason)
        | some none ↦
            check_fields path object_name map fields
              (keep (λ key. not (text_eq key field.name)) input_names)
      ]

  unfoldable pub check_object : QueryPathNode → InputObjectType Context → ConstMap Number → Checked
  unfolding check_oneof check_fields keys_of
  check_object path ty map = elim (check_oneof path ty.oneof map) [
    | some reason ↦ some (some reason)
    | none ↦ check_fields path ty.name map (values ty.input_fields) (keys_of map)
  ]

  unfoldable pub check_enum : QueryPathNode → EnumType Context → Text → Checked
  unfolding get text_discrete refused quoted
  check_enum path ty value = elim (get text_discrete value ty.enum_values) [
    | some v ↦ valid
    | none ↦ refused path (
        codes "enumeration type "
        ++ quoted ty.name
        ++ codes " does not contain the value "
        ++ quoted value)
  ]

  -- A value, which is not null, of a type of the registry.
  unfoldable pub check_named :
      Text → MetaType Context Number → ConstValue Number → QueryPathNode → Checked
  unfolding expected_type check_enum check_object
  check_named type_name (MetaType.scalar ty) value path = elim (ty.is_valid) [
    | none ↦ valid
    | some is_valid_fn ↦ if is_valid_fn value then valid else expected_type path type_name
  ]
  check_named type_name (MetaType.enum ty) (enum v) path = check_enum path ty v
  check_named type_name (MetaType.enum ty) (string v) path = check_enum path ty v
  check_named type_name (MetaType.enum ty) value path = expected_type path type_name
  check_named type_name (MetaType.input_object ty) (object map) path = check_object path ty map
  check_named type_name (MetaType.input_object ty) value path = valid
  check_named type_name ty value path = valid

  -- One layer of the type.
  unfoldable pub check_layer :
      Registry Context Number → MetaTypeName → ConstValue Number → QueryPathNode → Checked
  unfolding expected_type check_elements get text_discrete check_named
  check_layer registry (MetaTypeName.non_null type_name) null path = expected_type path type_name
  check_layer registry (MetaTypeName.non_null type_name) value path = rec type_name value path
  check_layer registry (MetaTypeName.list type_name) (list elems) path =
      check_elements rec type_name path 0 elems
  check_layer registry (MetaTypeName.list type_name) null path = valid
  check_layer registry (MetaTypeName.list type_name) value path = rec type_name value path
  check_layer registry (MetaTypeName.named type_name) null path = valid
  check_layer registry (MetaTypeName.named type_name) value path =
      elim (get text_discrete type_name registry.types) [
        | none ↦ none
        | some ty ↦ check_named type_name ty value path
      ]

module _ {Context Number : Type 0} (registry : Registry Context Number) where
  unfoldable pub is_valid_input_value : ℕ → Text → ConstValue Number → QueryPathNode → Checked
  unfolding create check_layer
  is_valid_input_value zero type_name value path = none
  is_valid_input_value (suc f) type_name value path = elim (create type_name) [
    | none ↦ none
    | some ty ↦ check_layer (is_valid_input_value f) registry ty value path
  ]

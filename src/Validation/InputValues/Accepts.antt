-- ===== src/Validation/InputValues/Accepts.antt =====
-- When a value is one of a type: what `is_valid_input_value` of src/validation/utils.rs should find,
-- on the types themselves.
use async_graphql.Prelude.{
  List, [], ◌∷◌, Text, text_discrete, text_eq, Bool, true, false, Option, none, some, ◌≡◌, get,
  contains, map, if◌then◌else◌,
}
use async_graphql.Parser.TypeNames.{Type_, BaseType, type_, named, list}
use async_graphql.Value.{
  ConstValue, ConstList, ConstMap, null, number, string, boolean, binary, enum, object, nil, cons,
  end, entry,
}
use async_graphql.Registry.Types.{
  MetaInputValue, MetaEnumValue, MetaType, EnumType, Registry, values,
}
use async_graphql.Validation.InputValues.{keys_of}

-- A value that is not null, at a type: lists are given their elements' type, and any other value may
-- stand for a list that has it alone.
unfoldable pub Coerced : (Text → Type 0) → Option (Type_ → Type 0) → BaseType → Type 0
Coerced at_name elements (named name) = at_name name
Coerced at_name none (list (type_ base nullable)) = Coerced at_name none base
Coerced at_name (some all) (list ty) = all ty

abbrev pub is_nullable : Type_ → Bool
is_nullable (type_ base nullable) = nullable

abbrev pub base_of : Type_ → BaseType
base_of (type_ base nullable) = base

unfoldable pub NotNull : {Number : Type 0} → ConstValue Number → Type 0
NotNull null = ⊥
NotNull value = Unit {0}

-- A `oneof` object has one field, which is not null.
unfoldable pub OneofOk : {Number : Type 0} → Bool → ConstMap Number → Type 0
unfolding NotNull
OneofOk false entries = Unit {0}
OneofOk true (entry key value end) = NotNull value
OneofOk true entries = ⊥

-- A value of an enum type.
abbrev pub IsEnumValue : {Context : Type 0} → EnumType Context → Text → Type 0
IsEnumValue {Context} ty v =
    (found : MetaEnumValue Context) × (get text_discrete v ty.enum_values ≡ some found)

-- At a type of the registry, for a value that is neither null nor an object.
unfoldable pub IsLeaf :
    {Context Number : Type 0} → MetaType Context Number → ConstValue Number → Type 0
IsLeaf {Number = Number} (MetaType.scalar ty) value =
    (is_valid : ConstValue Number → Bool) → ty.is_valid ≡ some is_valid → is_valid value ≡ true
IsLeaf (MetaType.enum ty) (enum v) = IsEnumValue ty v
IsLeaf (MetaType.enum ty) (string v) = IsEnumValue ty v
IsLeaf (MetaType.enum ty) value = ⊥
IsLeaf ty value = Unit {0}

-- A field that is not given may be null, or it has a default value.
unfoldable pub MissingOk : Type_ → Option Text → Type 0
MissingOk (type_ base true) default = Unit {0}
MissingOk (type_ base false) (some default) = Unit {0}
MissingOk (type_ base false) none = ⊥

module _ {Context : Type 0} (type_of : MetaInputValue Context → Type_) where
  -- The fields of an object: each that is given has a value of its type, and each that is required is
  -- given. `at` says of a field's name whether it is given, and if so whether its value fits.
  unfoldable pub FieldOk : Option (Type_ → Type 0) → MetaInputValue Context → Type 0
  unfolding MissingOk
  FieldOk (some fits) field = fits (type_of field)
  FieldOk none field = MissingOk (type_of field) field.default_value

  unfoldable pub FieldsOk :
      (Text → Option (Type_ → Type 0)) → List (MetaInputValue Context) → Type 0
  unfolding FieldOk
  FieldsOk at [] = Unit {0}
  FieldsOk at (field ∷ fields) = FieldOk (at field.name) field × FieldsOk at fields

  -- An object at a type of the registry. At an input object type it keeps the rule of `oneof`, its
  -- fields are right, and it has no others.
  unfoldable pub ObjectOk :
      {Number : Type 0}
      → (Text → Option (Type_ → Type 0))
      → MetaType Context Number
      → ConstMap Number
      → Type 0
  unfolding OneofOk FieldsOk keys_of contains text_discrete IsLeaf
  ObjectOk at (MetaType.input_object ty) entries =
      OneofOk ty.oneof entries
      × (FieldsOk at (values ty.input_fields)
          × ((key : Text)
              → contains text_discrete key (keys_of entries) ≡ true
              → contains text_discrete key (map (λ field. field.name) (values ty.input_fields))
                ≡ true))
  ObjectOk at ty entries = IsLeaf ty (object entries)

-- At a name, which is that of a type of the registry.
module _ {Context Number : Type 0} (registry : Registry Context Number) where
  abbrev pub AtName : (MetaType Context Number → Type 0) → Text → Type 0
  AtName P name =
      (ty : MetaType Context Number) × (get text_discrete name registry.types ≡ some ty) × P ty

module _ {Context Number : Type 0} (registry : Registry Context Number)
    (type_of : MetaInputValue Context → Type_) where
  unfoldable mutual
    unfolding Coerced IsLeaf ObjectOk text_eq

    pub Accepts : ConstValue Number → Type_ → Type 0
    Accepts null ty = is_nullable ty ≡ true
    Accepts (ConstValue.list elems) ty =
        Coerced (AtName registry (λ t. IsLeaf t (ConstValue.list elems))) (some (AllAccept elems))
          (base_of ty)
    Accepts (object entries) ty =
        Coerced (AtName registry (λ t. ObjectOk type_of (field_at entries) t entries)) none
          (base_of ty)
    Accepts (number n) ty = Coerced (AtName registry (λ t. IsLeaf t (number n))) none (base_of ty)
    Accepts (string s) ty = Coerced (AtName registry (λ t. IsLeaf t (string s))) none (base_of ty)
    Accepts (boolean b) ty = Coerced (AtName registry (λ t. IsLeaf t (boolean b))) none (base_of ty)
    Accepts (binary b) ty = Coerced (AtName registry (λ t. IsLeaf t (binary b))) none (base_of ty)
    Accepts (enum v) ty = Coerced (AtName registry (λ t. IsLeaf t (enum v))) none (base_of ty)

    pub AllAccept : ConstList Number → Type_ → Type 0
    AllAccept nil ty = Unit {0}
    AllAccept (cons value rest) ty = Accepts value ty × AllAccept rest ty

    pub field_at : ConstMap Number → Text → Option (Type_ → Type 0)
    field_at end key = none
    field_at (entry k value rest) key =
        if text_eq k key then some (Accepts value) else field_at rest key

-- ===== src/Validation/InputValues/Leaves.antt =====
-- `is_valid_input_value` (src/validation/utils.rs) at the types of the registry but for the fields of
-- an object.
use async_graphql.Prelude.{
  Text, text_discrete, Bool, true, false, Option, none, some, ◌≡◌, refl, get, if◌then◌else◌,
  Bool-cases, inl, inr, Option-cases, some-injective, sym, ◌∙◌, ap,
}
use async_graphql.Value.{
  ConstValue, ConstMap, null, number, string, boolean, binary, enum, list, object, end, entry,
}
use async_graphql.Registry.Types.{MetaType, EnumType, ScalarType, MetaEnumValue}
use async_graphql.Validation.InputValues.{
  QueryPathNode, Checked, valid, check_single, check_oneof, check_enum, check_named, expected_type,
}
use async_graphql.Validation.InputValues.Accepts.{NotNull, OneofOk, IsEnumValue, IsLeaf}
use async_graphql.Validation.InputValues.Decides.{Decides, valid-Decides, refused-Decides}

module _ {Number : Type 0} where
  single-Decides :
      (path : QueryPathNode) (value : ConstValue Number)
      → Decides (some (check_single path value)) (NotNull value)
  unfolding check_single NotNull
  single-Decides path null = (some _, refl, (λ h. cc, λ p. elim p [ ]))
  single-Decides path (number n) = valid-Decides (Unit {0}) tt
  single-Decides path (string s) = valid-Decides (Unit {0}) tt
  single-Decides path (boolean b) = valid-Decides (Unit {0}) tt
  single-Decides path (binary b) = valid-Decides (Unit {0}) tt
  single-Decides path (enum v) = valid-Decides (Unit {0}) tt
  single-Decides path (list elems) = valid-Decides (Unit {0}) tt
  single-Decides path (object entries) = valid-Decides (Unit {0}) tt

  pub oneof-Decides :
      (path : QueryPathNode) (oneof : Bool) (entries : ConstMap Number)
      → Decides (some (check_oneof path oneof entries)) (OneofOk oneof entries)
  unfolding check_oneof OneofOk
  oneof-Decides path false entries = valid-Decides (Unit {0}) tt
  oneof-Decides path true end = (some _, refl, (λ h. cc, λ p. elim p [ ]))
  oneof-Decides path true (entry key value end) = single-Decides path value
  oneof-Decides path true (entry key value (entry key' value' rest)) =
      (some _, refl, (λ h. cc, λ p. elim p [ ]))

  abbrev pub is_object : ConstValue Number → Bool
  is_object (object entries) = true
  is_object value = false

module _ {Context Number : Type 0} (rec : Text → ConstValue Number → QueryPathNode → Checked) where
  enum-Decides :
      (ty : EnumType Context) (v : Text) (path : QueryPathNode)
      → Decides (check_enum rec path ty v) (IsEnumValue ty v)
  unfolding check_enum
  enum-Decides ty v path = elim (Option-cases (get text_discrete v ty.enum_values)) [
    | inl e ↦ rw (e, check_enum) (refused-Decides path _ _ (λ (found, e'). no_value found e'))
    | inr (found, e) ↦ rw (e, check_enum) (valid-Decides _ (found, refl))
  ]
    where
      no_value :
          (found : MetaEnumValue Context)
          → Path (Option (MetaEnumValue Context)) none (some found)
          → ⊥
      no_value found e = cc

  pub scalar-Decides :
      (name : Text) (ty : ScalarType Context Number) (value : ConstValue Number)
      (path : QueryPathNode)
      → Decides
          (check_named rec name (MetaType.scalar ty) value path)
          (IsLeaf (MetaType.scalar ty) value)
  unfolding check_named IsLeaf expected_type
  scalar-Decides name ty value path = go ty.is_valid
    where
      true_false : true ≡ false → ⊥
      true_false h = cc

      go :
          (o : Option (ConstValue Number → Bool))
          → Decides
              (elim o [
                | none ↦ valid
                | some test ↦ if test value then valid else expected_type path name
              ])
              ((test : ConstValue Number → Bool) → o ≡ some test → test value ≡ true)
      go none = valid-Decides _ (λ test h. cc)
      go (some test) = elim (Bool-cases (test value)) [
        | inl e ↦
            rw e (
              valid-Decides _
                (λ other h. ap (λ t. t value) (sym (some-injective test other h)) ∙ e))
        | inr e ↦ rw e (refused-Decides path _ _ (λ p. true_false (sym (p test refl) ∙ e)))
      ]

  pub IsLeaf-Decides :
      (name : Text) (ty : MetaType Context Number) (value : ConstValue Number)
      (path : QueryPathNode)
      → is_object value ≡ false
      → Decides (check_named rec name ty value path) (IsLeaf ty value)
  unfolding check_named IsLeaf expected_type
  IsLeaf-Decides name (MetaType.scalar ty) value path h = scalar-Decides name ty value path
  IsLeaf-Decides name (MetaType.object ty) value path h = valid-Decides (Unit {0}) tt
  IsLeaf-Decides name (MetaType.interface ty) value path h = valid-Decides (Unit {0}) tt
  IsLeaf-Decides name (MetaType.union ty) value path h = valid-Decides (Unit {0}) tt
  IsLeaf-Decides name (MetaType.enum ty) (enum v) path h = enum-Decides ty v path
  IsLeaf-Decides name (MetaType.enum ty) (string v) path h = enum-Decides ty v path
  IsLeaf-Decides name (MetaType.enum ty) null path h = refused-Decides path _ ⊥ (λ p. p)
  IsLeaf-Decides name (MetaType.enum ty) (number n) path h = refused-Decides path _ ⊥ (λ p. p)
  IsLeaf-Decides name (MetaType.enum ty) (boolean b) path h = refused-Decides path _ ⊥ (λ p. p)
  IsLeaf-Decides name (MetaType.enum ty) (binary b) path h = refused-Decides path _ ⊥ (λ p. p)
  IsLeaf-Decides name (MetaType.enum ty) (list elems) path h = refused-Decides path _ ⊥ (λ p. p)
  IsLeaf-Decides name (MetaType.enum ty) (object entries) path h = cc
  IsLeaf-Decides name (MetaType.input_object ty) null path h = valid-Decides (Unit {0}) tt
  IsLeaf-Decides name (MetaType.input_object ty) (number n) path h = valid-Decides (Unit {0}) tt
  IsLeaf-Decides name (MetaType.input_object ty) (string s) path h = valid-Decides (Unit {0}) tt
  IsLeaf-Decides name (MetaType.input_object ty) (boolean b) path h = valid-Decides (Unit {0}) tt
  IsLeaf-Decides name (MetaType.input_object ty) (binary b) path h = valid-Decides (Unit {0}) tt
  IsLeaf-Decides name (MetaType.input_object ty) (enum v) path h = valid-Decides (Unit {0}) tt
  IsLeaf-Decides name (MetaType.input_object ty) (list elems) path h = valid-Decides (Unit {0}) tt
  IsLeaf-Decides name (MetaType.input_object ty) (object entries) path h = cc

-- ===== src/Validation/InputValues/Objects.antt =====
-- `is_valid_input_value` (src/validation/utils.rs) at a name, for objects and null.
use async_graphql.Prelude.{
  ℕ, zero, suc, ◌≤◌, ◌<◌, List, [], ◌∷◌, Text, text_discrete, text_eq, true, false, Option, none,
  some, ◌≡◌, refl, sym, ◌∙◌, subst, ◌↔◌, inl, inr, get, Bool-cases, some-injective,
}
use async_graphql.Parser.TypeNames
use async_graphql.Parser.TypeNames.{Type_, BaseType, type_, display}
use async_graphql.Value.{ConstValue, ConstMap, null, object, end, entry}
use async_graphql.Registry.Types.{MetaInputValue, MetaType, InputObjectType, Registry, values}
use async_graphql.Registry.TypeNames.{MetaTypeName}
use async_graphql.Registry.TypeNames.Layers.{weight, create-display, meta}
use async_graphql.Validation.InputValues.{
  QueryPathNode, Checked, find_value, keys_of, check_oneof, check_fields, check_object, check_named,
  check_layer, expected_type, is_valid_input_value,
}
use async_graphql.Validation.InputValues.Accepts.{IsLeaf, ObjectOk, AtName, Accepts, field_at}
use async_graphql.Validation.InputValues.Decides.{
  Decides, valid-Decides, refused-Decides, Decides_same, At, Known, check_fields-Decides,
}
use async_graphql.Validation.InputValues.Leaves.{
  is_object, IsLeaf-Decides, scalar-Decides, oneof-Decides,
}
use async_graphql.Validation.InputValues.Layered.{Fine}

oneof_then :
    {P Q : Type 0} (first : Option Text) (rest : Checked)
    → Decides (some first) P
    → Decides rest Q
    → Decides (elim first [ some reason ↦ some (some reason) | none ↦ rest ]) (P × Q)
oneof_then (some reason) rest (r, e, h) later =
    (some reason, refl, (λ n. cc, λ p. some-injective (some reason) r e ∙ h.1 p.0))
oneof_then none rest (r, e, h) (r', e', h') =
    (r', e', (λ n. (h.0 (sym (some-injective none r e)), h'.0 n), λ p. h'.1 p.1))

module _ {Context Number : Type 0} (registry : Registry Context Number)
    (type_of : MetaInputValue Context → Type_) (W : ℕ) where
  -- The types of an object's fields: each text is that of a type, whose name is known, and which has
  -- no more layers than W.
  unfoldable pub AllFine : List (MetaInputValue Context) → Type 0
  AllFine [] = Unit {0}
  AllFine (field ∷ fields) =
      (field.ty ≡ display (type_of field))
      × Fine registry (type_of field)
      × (weight (type_of field) ≤ W)
      × AllFine fields

  abbrev pub WellTyped : Type 0
  WellTyped =
      (name : Text) (ty : InputObjectType Context)
      → get text_discrete name registry.types ≡ some (MetaType.input_object ty)
      → AllFine (values ty.input_fields)

  pub Known-At :
      (rec : Text → ConstValue Number → QueryPathNode → Checked) (entries : ConstMap Number)
      → (at : Text → Option (Type_ → Type 0))
      → ((key : Text) (ty : Type_)
          → Fine registry ty
          → weight ty ≤ W
          → At rec (find_value key entries) (at key) ty)
      → (fields : List (MetaInputValue Context)) → AllFine fields
      → Known type_of rec entries at fields
  unfolding Known AllFine
  Known-At rec entries at asked [] fine = tt
  Known-At rec entries at asked (field ∷ fields) (e, fine, le, others) = (
    e,
    fine.0,
    asked field.name (type_of field) fine le,
    Known-At rec entries at asked fields others,
  )

  -- A condition on the type of a name, once the type is found.
  pub AtName-found :
      (P : MetaType Context Number → Type 0) (name : Text) (found : MetaType Context Number)
      → get text_discrete name registry.types ≡ some found
      → P found ↔ AtName registry P name
  AtName-found P name found e =
      (λ p. (found, e, p), λ (ty, e', p). subst P (some-injective ty found (sym e' ∙ e)) p)

  pub at-IsLeaf :
      (value : ConstValue Number)
      → is_object value ≡ false
      → ((rec : Text → ConstValue Number → QueryPathNode → Checked) (name : Text)
            (path : QueryPathNode)
          → check_layer rec registry (MetaTypeName.named name) value path
            ≡ elim (get text_discrete name registry.types) [
              | none ↦ none
              | some ty ↦ check_named rec name ty value path
            ])
      → (f : ℕ) (name : Text) (path : QueryPathNode) (found : MetaType Context Number)
      → get text_discrete name registry.types ≡ some found
      → Decides
          (check_layer
            (is_valid_input_value registry f)
            registry
            (MetaTypeName.named name)
            value
            path)
          (AtName registry (λ t. IsLeaf t value) name)
  at-IsLeaf value h run f name path found e =
      subst (λ r. Decides r (AtName registry (λ t. IsLeaf t value) name))
        (sym (run (is_valid_input_value registry f) name path ∙ rw e refl))
        (Decides_same _ (AtName-found (λ t. IsLeaf t value) name found e)
          (IsLeaf-Decides (is_valid_input_value registry f) name found value path h))

  pub object-Decides :
      (f : ℕ) (name : Text) (found : MetaType Context Number) (entries : ConstMap Number)
      → (path : QueryPathNode) → get text_discrete name registry.types ≡ some found
      → WellTyped
      → ((key : Text) (ty : Type_)
          → Fine registry ty
          → weight ty ≤ W
          → At
              (is_valid_input_value registry f)
              (find_value key entries)
              (field_at registry type_of entries key)
              ty)
      → Decides
          (check_named (is_valid_input_value registry f) name found (object entries) path)
          (ObjectOk type_of (field_at registry type_of entries) found entries)
  unfolding check_named ObjectOk check_object IsLeaf expected_type
  object-Decides f name (MetaType.scalar ty) entries path e typed asked =
      scalar-Decides (is_valid_input_value registry f) name ty (object entries) path
  object-Decides f name (MetaType.object ty) entries path e typed asked =
      valid-Decides (Unit {0}) tt
  object-Decides f name (MetaType.interface ty) entries path e typed asked =
      valid-Decides (Unit {0}) tt
  object-Decides f name (MetaType.union ty) entries path e typed asked = valid-Decides (Unit {0}) tt
  object-Decides f name (MetaType.enum ty) entries path e typed asked =
      refused-Decides path _ ⊥ (λ p. p)
  object-Decides f name (MetaType.input_object ty) entries path e typed asked =
      let rec = is_valid_input_value registry f in
      oneof_then (check_oneof path ty.oneof entries)
        (check_fields rec path ty.name entries (values ty.input_fields) (keys_of entries))
        (oneof-Decides path ty.oneof entries)
        (check_fields-Decides type_of rec path ty.name entries (field_at registry type_of entries)
          (values ty.input_fields) (keys_of entries)
          (Known-At rec entries (field_at registry type_of entries) asked (values ty.input_fields)
            (typed name ty e)))

  At-same :
      (rec : Text → ConstValue Number → QueryPathNode → Checked) (o o' : Option (ConstValue Number))
      (a a' : Option (Type_ → Type 0)) (ty : Type_)
      → o ≡ o'
      → a ≡ a'
      → At rec o' a' ty
      → At rec o a ty
  At-same rec o o' a a' ty e e' h =
      subst (λ x. At rec x a ty) (sym e) (subst (λ x. At rec o' x ty) (sym e') h)

  pub find_value-same :
      (k key : Text) (value : ConstValue Number) (rest : ConstMap Number)
      → text_eq k key ≡ true
      → find_value key (entry k value rest) ≡ some value
  unfolding find_value
  find_value-same k key value rest same = rw (same, find_value) refl

  pub find_value-differ :
      (k key : Text) (value : ConstValue Number) (rest : ConstMap Number)
      → text_eq k key ≡ false
      → find_value key (entry k value rest) ≡ find_value key rest
  unfolding find_value
  find_value-differ k key value rest differ = rw (differ, find_value) refl

  pub At-find_value :
      (rec : Text → ConstValue Number → QueryPathNode → Checked) (entries : ConstMap Number)
      → (key : Text) (ty : Type_)
      → ((given : ConstValue Number) (path : QueryPathNode)
          → find_value key entries ≡ some given
          → Decides (rec (display ty) given path) (Accepts registry type_of given ty))
      → At rec (find_value key entries) (field_at registry type_of entries key) ty
  unfolding find_value field_at
  At-find_value rec end key ty asked = inl (refl, refl)
  At-find_value rec (entry k value rest) key ty asked = elim (Bool-cases (text_eq k key)) [
    | inl same ↦ inr (
      value,
      Accepts registry type_of value,
      find_value-same k key value rest same,
      rw (same, field_at) refl,
      λ path. asked value path (find_value-same k key value rest same),
    )
    | inr differ ↦
        At-same rec (find_value key (entry k value rest)) (find_value key rest)
          (field_at registry type_of (entry k value rest) key) (field_at registry type_of rest key)
          ty (find_value-differ k key value rest differ) (rw (differ, field_at) refl)
          (At-find_value rec rest key ty
            (λ given path e. asked given path (find_value-differ k key value rest differ ∙ e)))
  ]

  pub null-Decides :
      (ty : Type_) (f : ℕ) (path : QueryPathNode)
      → Fine registry ty
      → weight ty < f
      → Decides
          (is_valid_input_value registry f (display ty) null path)
          (Accepts registry type_of null ty)
  unfolding is_valid_input_value meta Accepts check_layer expected_type
  null-Decides ty zero path fine lt = elim lt [ ]
  null-Decides (type_ base false) (suc f) path fine lt =
      rw (create-display (type_ base false) fine.0, is_valid_input_value)
        (refused-Decides path _ _ (λ p. cc))
  null-Decides (type_ (TypeNames.named n) true) (suc f) path fine lt =
      rw (create-display (type_ (TypeNames.named n) true) fine.0, is_valid_input_value)
        (valid-Decides _ refl)
  null-Decides (type_ (TypeNames.list t) true) (suc f) path fine lt =
      rw (create-display (type_ (TypeNames.list t) true) fine.0, is_valid_input_value)
        (valid-Decides _ refl)

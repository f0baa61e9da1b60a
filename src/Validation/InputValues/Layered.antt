-- ===== src/Validation/InputValues/Layered.antt =====
-- The layers of a type in `is_valid_input_value` (src/validation/utils.rs), for a value that is not
-- null.
use async_graphql.Prelude.{
  ℕ, zero, suc, ◌+◌, ◌<◌, Text, text_discrete, Bool, true, false, Option, none, some, ◌≡◌, refl,
  sym, ◌∙◌, ap, subst, get, arith,
}
use async_graphql.Parser.TypeNames
use async_graphql.Parser.TypeNames.{Type_, BaseType, type_, display, display_base}
use async_graphql.Parser.TypeNames.RoundTrip.{is_well_named}
use async_graphql.Value.{ConstValue}
use async_graphql.Registry.Types.{MetaType, Registry}
use async_graphql.Registry.TypeNames.{MetaTypeName}
use async_graphql.Registry.TypeNames.Layers.{
  meta, create-display, display-nullable, base_name, weight,
}
use async_graphql.Validation.InputValues.{QueryPathNode, Checked, check_layer, is_valid_input_value}
use async_graphql.Validation.InputValues.Accepts.{Coerced, AtName}
use async_graphql.Validation.InputValues.Decides.{Decides}

module _ {Context Number : Type 0} (registry : Registry Context Number) where
  -- The names in a type are names, and the one inside is of a type of the registry.
  abbrev pub Fine : Type_ → Type 0
  Fine ty =
      (is_well_named ty ≡ true)
      × ((found : MetaType Context Number) × (get text_discrete (base_name ty) registry.types
            ≡ some found))

  -- The answer at a list type.
  abbrev pub AtList : ConstValue Number → ℕ → Option (Type_ → Type 0) → Type 0
  AtList value cost none =
      (rec : Text → ConstValue Number → QueryPathNode → Checked) (ty : Text) (path : QueryPathNode)
      → check_layer rec registry (MetaTypeName.list ty) value path ≡ rec ty value path
  AtList value cost (some all) =
      (f : ℕ) (ty : Type_) (path : QueryPathNode)
      → Fine ty
      → cost + weight ty < suc f
      → Decides
          (check_layer (is_valid_input_value registry f) registry (MetaTypeName.list (display ty))
            value path)
          (all ty)

  module _ (value : ConstValue Number) (cost : ℕ) (P : MetaType Context Number → Type 0)
      (not_null : (rec : Text → ConstValue Number → QueryPathNode → Checked) (ty : Text)
        → (path : QueryPathNode)
        → check_layer rec registry (MetaTypeName.non_null ty) value path ≡ rec ty value path)
      (at_name : (f : ℕ) (name : Text) (path : QueryPathNode) (found : MetaType Context Number)
        → get text_discrete name registry.types ≡ some found
        → cost < suc f
        → Decides
            (check_layer
              (is_valid_input_value registry f)
              registry
              (MetaTypeName.named name)
              value
              path)
            (AtName registry P name)) where
    layer-run :
        (ty : Type_) (f : ℕ) (path : QueryPathNode)
        → is_well_named ty ≡ true
        → is_valid_input_value registry (suc f) (display ty) value path
          ≡ check_layer (is_valid_input_value registry f) registry (meta ty) value path
    unfolding is_valid_input_value
    layer-run ty f path h = rw (create-display ty h, is_valid_input_value) refl

    -- A type that may be null, and one that may not.
    pub layered :
        (elements : Option (Type_ → Type 0))
        → AtList value cost elements
        → (base : BaseType) (nullable : Bool) (f : ℕ) (path : QueryPathNode)
        → Fine (type_ base nullable)
        → cost + weight (type_ base nullable) < f
        → Decides
            (is_valid_input_value registry f (display (type_ base nullable)) value path)
            (Coerced (AtName registry P) elements base)
    unfolding Coerced meta weight base_name is_well_named
    layered elements at_list base nullable zero path fine lt = elim lt [ ]
    layered elements at_list base false (suc f) path fine lt =
        subst (λ run. Decides run (Coerced (AtName registry P) elements base))
          (sym (
            layer-run (type_ base false) f path fine.0
            ∙ (not_null (is_valid_input_value registry f) (display_base base) path
                ∙ ap (λ t. is_valid_input_value registry f t value path)
                    (sym (display-nullable base)))))
          (layered elements at_list base true f path fine (omega arith))
    layered elements at_list (TypeNames.named name) true (suc f) path (named, (found, e)) lt =
        subst (λ run. Decides run (AtName registry P name))
          (sym (layer-run (type_ (TypeNames.named name) true) f path named))
          (at_name f name path found e (omega arith))
    layered none at_list (TypeNames.list (type_ base nullable)) true (suc f) path fine lt =
        subst (λ run. Decides run (Coerced (AtName registry P) none base))
          (sym (
            layer-run (type_ (TypeNames.list (type_ base nullable)) true) f path fine.0
            ∙ at_list (is_valid_input_value registry f) (display (type_ base nullable)) path))
          (layered none at_list base nullable f path fine (omega arith))
    layered (some all) at_list (TypeNames.list ty) true (suc f) path fine lt =
        subst (λ run. Decides run (all ty))
          (sym (layer-run (type_ (TypeNames.list ty) true) f path fine.0))
          (at_list f ty path fine (omega arith))

-- ===== src/Validation/InputValues/Correct.antt =====
-- `is_valid_input_value` (src/validation/utils.rs) finds exactly the values that are of their type.
use async_graphql.Prelude.{
  ℕ, suc, ◌+◌, ◌<◌, Text, text_eq, none, some, ◌≡◌, refl, sym, ◌∙◌, subst, inl, inr, arith,
  Bool-cases, some-injective,
}
use async_graphql.Parser.TypeNames.{Type_, type_, display}
use async_graphql.Value.{
  ConstValue, ConstList, ConstMap, null, number, string, boolean, binary, enum, object, nil, cons,
  end, entry,
}
use async_graphql.Registry.Types.{MetaInputValue, Registry}
use async_graphql.Registry.TypeNames.Layers.{weight}
use async_graphql.Validation.InputValues.{
  QueryPathNode, index, find_value, check_elements, check_layer, is_valid_input_value,
}
use async_graphql.Validation.InputValues.Accepts.{
  IsLeaf, ObjectOk, AtName, Accepts, AllAccept, field_at,
}
use async_graphql.Validation.InputValues.Decides.{
  Decides, valid-Decides, Decides_same, then_Decides,
}
use async_graphql.Validation.InputValues.Layered.{Fine, layered}
use async_graphql.Validation.InputValues.Objects.{
  WellTyped, AtName-found, at-IsLeaf, object-Decides, find_value-same, find_value-differ,
  At-find_value, null-Decides,
}

-- How deep the calls go: W is the greatest number of layers of a field's type.
module _ {Number : Type 0} (W : ℕ) where
  unfoldable mutual
    pub cost : ConstValue Number → ℕ
    cost (ConstValue.list elems) = suc (costs elems)
    cost (object entries) = suc (W + cost_map entries)
    cost value = 0

    pub costs : ConstList Number → ℕ
    costs nil = 0
    costs (cons value rest) = cost value + costs rest

    pub cost_map : ConstMap Number → ℕ
    cost_map end = 0
    cost_map (entry key value rest) = cost value + cost_map rest

module _ {Context Number : Type 0} (registry : Registry Context Number)
    (type_of : MetaInputValue Context → Type_) (W : ℕ) where
  module _ (typed : WellTyped registry type_of W) where
    mutual
      unfolding Accepts cost check_layer find_value check_elements

      value-Decides :
          (value : ConstValue Number) (ty : Type_) (f : ℕ) (path : QueryPathNode)
          → Fine registry ty
          → cost W value + weight ty < f
          → Decides
              (is_valid_input_value registry f (display ty) value path)
              (Accepts registry type_of value ty)
      value-Decides null ty f path fine lt =
          null-Decides registry type_of W ty f path fine (omega (arith, lt))
      value-Decides (number n) (type_ base nullable) f path fine lt =
          layered registry (number n) 0 (λ t. IsLeaf t (number n)) (λ rec t p. refl)
            (λ g name p found e l.
              at-IsLeaf registry type_of W (number n) refl (λ rec t q. refl) g name p found e)
            none (λ rec t p. refl) base nullable f path fine lt
      value-Decides (string s) (type_ base nullable) f path fine lt =
          layered registry (string s) 0 (λ t. IsLeaf t (string s)) (λ rec t p. refl)
            (λ g name p found e l.
              at-IsLeaf registry type_of W (string s) refl (λ rec t q. refl) g name p found e)
            none (λ rec t p. refl) base nullable f path fine lt
      value-Decides (boolean b) (type_ base nullable) f path fine lt =
          layered registry (boolean b) 0 (λ t. IsLeaf t (boolean b)) (λ rec t p. refl)
            (λ g name p found e l.
              at-IsLeaf registry type_of W (boolean b) refl (λ rec t q. refl) g name p found e)
            none (λ rec t p. refl) base nullable f path fine lt
      value-Decides (binary b) (type_ base nullable) f path fine lt =
          layered registry (binary b) 0 (λ t. IsLeaf t (binary b)) (λ rec t p. refl)
            (λ g name p found e l.
              at-IsLeaf registry type_of W (binary b) refl (λ rec t q. refl) g name p found e)
            none (λ rec t p. refl) base nullable f path fine lt
      value-Decides (enum v) (type_ base nullable) f path fine lt =
          layered registry (enum v) 0 (λ t. IsLeaf t (enum v)) (λ rec t p. refl)
            (λ g name p found e l.
              at-IsLeaf registry type_of W (enum v) refl (λ rec t q. refl) g name p found e)
            none (λ rec t p. refl) base nullable f path fine lt
      value-Decides (ConstValue.list elems) (type_ base nullable) f path fine lt =
          layered registry (ConstValue.list elems) (suc (costs W elems))
            (λ t. IsLeaf t (ConstValue.list elems)) (λ rec t p. refl)
            (λ g name p found e l.
              at-IsLeaf registry type_of W (ConstValue.list elems) refl (λ rec t q. refl) g name p
                found e)
            (some (AllAccept registry type_of elems))
            (λ g t p fine' l. elements-Decides elems t g p 0 fine' (omega (arith, l))) base nullable
            f path fine lt
      value-Decides (object entries) (type_ base nullable) f path fine lt =
          layered registry (object entries) (suc (W + cost_map W entries))
            (λ t. ObjectOk type_of (field_at registry type_of entries) t entries) (λ rec t p. refl)
            (λ g name p found e l.
              subst
                (λ r. Decides r (
                  AtName registry
                    (λ t. ObjectOk type_of (field_at registry type_of entries) t entries) name))
                (sym (rw (check_layer, e) refl))
                (Decides_same _
                  (AtName-found registry type_of W
                    (λ t. ObjectOk type_of (field_at registry type_of entries) t entries) name found
                    e)
                  (object-Decides registry type_of W g name found entries p e typed
                    (λ key t fine' le.
                      At-find_value registry type_of W (is_valid_input_value registry g) entries key
                        t
                        (λ given q e'.
                          given-Decides entries key t g given q fine' (omega (arith, l, le)) e')))))
            none (λ rec t p. refl) base nullable f path fine lt

      elements-Decides :
          (elems : ConstList Number) (ty : Type_) (f : ℕ) (path : QueryPathNode) (idx : ℕ)
          → Fine registry ty
          → costs W elems + weight ty < f
          → Decides
              (check_elements (is_valid_input_value registry f) (display ty) path idx elems)
              (AllAccept registry type_of elems ty)
      elements-Decides nil ty f path idx fine lt = valid-Decides (Unit {0}) tt
      elements-Decides (cons value rest) ty f path idx fine lt =
          then_Decides (is_valid_input_value registry f (display ty) value (index path idx))
            (check_elements (is_valid_input_value registry f) (display ty) path (suc idx) rest)
            (value-Decides value ty f (index path idx) fine (omega (arith, lt)))
            (elements-Decides rest ty f path (suc idx) fine (omega (arith, lt)))

      given-Decides :
          (entries : ConstMap Number) (key : Text) (ty : Type_) (f : ℕ) (given : ConstValue Number)
          → (path : QueryPathNode) → Fine registry ty
          → cost_map W entries + weight ty < f
          → find_value key entries ≡ some given
          → Decides
              (is_valid_input_value registry f (display ty) given path)
              (Accepts registry type_of given ty)
      given-Decides end key ty f given path fine lt e = cc
      given-Decides (entry k value rest) key ty f given path fine lt e =
          elim (Bool-cases (text_eq k key)) [
            | inl same ↦
                subst
                  (λ v.
                    Decides (is_valid_input_value registry f (display ty) v path)
                      (Accepts registry type_of v ty))
                  (some-injective value given
                    (sym (find_value-same registry type_of W k key value rest same) ∙ e))
                  (value-Decides value ty f path fine (omega (arith, lt)))
            | inr differ ↦
                given-Decides rest key ty f given path fine (omega (arith, lt))
                  (sym (find_value-differ registry type_of W k key value rest differ) ∙ e)
          ]

  -- When the fields of the registry's input objects have types of the registry, with no more than W
  -- layers, and a value is checked against a type of the registry with enough fuel, then
  -- `is_valid_input_value` comes to an answer and does not panic. It finds nothing wrong exactly if
  -- the value is one of the type, by the rules for coercion of null, lists, single values in place
  -- of lists, scalars, enums, and input objects with their required, unknown and `oneof` fields;
  -- only that any value but an object passes where an input object is asked for.
  pub is_valid_input_value-Accepts :
      WellTyped registry type_of W
      → (value : ConstValue Number) (ty : Type_) (f : ℕ) (path : QueryPathNode) → Fine registry ty
      → cost W value + weight ty < f
      → Decides
          (is_valid_input_value registry f (display ty) value path)
          (Accepts registry type_of value ty)
  is_valid_input_value-Accepts typed value ty f path fine lt =
      value-Decides typed value ty f path fine lt

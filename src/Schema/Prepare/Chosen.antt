-- ===== src/Schema/Prepare/Chosen.antt =====
-- Which operation of a document `prepare_request` of src/schema.rs executes.
use async_graphql.Prelude.{
  List, [], ◌∷◌, Text, text_eq, text_eq_iff, text_eq_refl, false, Option, none, some, ◌≡◌, ◌≢◌,
  refl, sym, ◌∙◌, ap, ◌↔◌, Result, ok, err, ok-injective, some-injective, arith, Bool-cases, inl,
  inr, subst, Option-cases,
}
use async_graphql.Document.{OperationDefinition}
use async_graphql.Schema.Limits.{ServerError}
use async_graphql.Schema.Prepare.{find_operation, select_operation, unknown_operation}

module _ {Number : Type 0} where
  -- The first operation of a name; in the program's map there is no other.
  pub data Named (name : Text) (operation : OperationDefinition Number)
      : List (Option Text × OperationDefinition Number) → Type 0 where
    here :
        {rest : List (Option Text × OperationDefinition Number)}
        → Named name operation ((some name, operation) ∷ rest)
    there :
        {other : Option Text × OperationDefinition Number}
        {rest : List (Option Text × OperationDefinition Number)}
        → other.0 ≢ some name
        → Named name operation rest
        → Named name operation (other ∷ rest)

  -- The operation that a request asks for: the one of the name that it gives, and without a name the
  -- only one.
  pub data Chosen (operations : List (Option Text × OperationDefinition Number))
      : Option Text → Option Text × OperationDefinition Number → Type 0 where
    by_name :
        {name : Text} {operation : OperationDefinition Number}
        → Named name operation operations
        → Chosen operations (some name) (some name, operation)
    the_only :
        {chosen : Option Text × OperationDefinition Number}
        → operations ≡ chosen ∷ []
        → Chosen operations none chosen

  find_operation-Named :
      (name : Text) (operations : List (Option Text × OperationDefinition Number))
      → (operation : OperationDefinition Number) → find_operation name operations ≡ some operation
      → Named name operation operations
  unfolding find_operation
  find_operation-Named name [] operation e = cc
  find_operation-Named name ((none, first) ∷ rest) operation e =
      there (λ same. cc) (find_operation-Named name rest operation e)
  find_operation-Named name ((some n, first) ∷ rest) operation e =
      elim (Bool-cases (text_eq n name)) [
        | inl agree ↦
            let found : find_operation name ((some n, first) ∷ rest) ≡ some first =
              rw (agree, find_operation) refl in
            subst (λ o. Named name o ((some n, first) ∷ rest))
              (some-injective first operation (sym found ∙ e))
              (subst (λ m. Named m first ((some n, first) ∷ rest)) ((text_eq_iff n name).0 agree)
                here)
        | inr differ ↦
            let passed_by : find_operation name ((some n, first) ∷ rest)
                ≡ find_operation name rest =
              rw (differ, find_operation) refl in
            there (λ same. differs n name differ (some-injective n name same))
              (find_operation-Named name rest operation (sym passed_by ∙ e))
      ]
    where
      differs : (a b : Text) → text_eq a b ≡ false → a ≡ b → ⊥
      differs a b e same = ground (arith, (text_eq_iff a b).1 same)

  Named-find_operation :
      (name : Text) (operations : List (Option Text × OperationDefinition Number))
      → (operation : OperationDefinition Number) → Named name operation operations
      → find_operation name operations ≡ some operation
  unfolding find_operation
  Named-find_operation name [] operation named = elim named [ ]
  Named-find_operation name ((some n, first) ∷ rest) operation here =
      rw (text_eq_refl name, find_operation) refl
  Named-find_operation name ((none, first) ∷ rest) operation (there ne later) =
      Named-find_operation name rest operation later
  Named-find_operation name ((some n, first) ∷ rest) operation (there ne later) =
      elim (Bool-cases (text_eq n name)) [
        | inl agree ↦ elim (ne (ap some ((text_eq_iff n name).0 agree))) [ ]
        | inr differ ↦ rw (differ, find_operation) (Named-find_operation name rest operation later)
      ]

  select_operation_sound :
      (name : Option Text) (operations : List (Option Text × OperationDefinition Number))
      → (chosen : Option Text × OperationDefinition Number)
      → select_operation name operations ≡ ok chosen
      → Chosen operations name chosen
  unfolding select_operation
  select_operation_sound none [] chosen h = cc
  select_operation_sound none (first ∷ []) chosen h = the_only (ap (λ c. c ∷ []) (ok-injective h))
  select_operation_sound none (first ∷ second ∷ rest) chosen h = cc
  select_operation_sound (some name) operations chosen h =
      elim (Option-cases (find_operation name operations)) [
        | inl e ↦ refused (sym (rw (e, select_operation) refl) ∙ h)
        | inr (operation, e) ↦
            let found : select_operation (some name) operations ≡ ok (some name, operation) =
              rw (e, select_operation) refl in
            subst (Chosen operations (some name)) (ok-injective (sym found ∙ h))
              (by_name (find_operation-Named name operations operation e))
      ]
    where
      refused :
          Path
            (Result (List ServerError) (Option Text × OperationDefinition Number))
            (err (unknown_operation name ∷ []))
            (ok chosen)
          → Chosen operations (some name) chosen
      refused e = cc

  select_operation_complete :
      (name : Option Text) (operations : List (Option Text × OperationDefinition Number))
      → (chosen : Option Text × OperationDefinition Number) → Chosen operations name chosen
      → select_operation name operations ≡ ok chosen
  unfolding select_operation
  select_operation_complete none operations chosen (the_only e) = rw e refl
  select_operation_complete (some name) operations (n, operation) (by_name named) =
      rw (Named-find_operation name operations operation named, select_operation) refl

  -- An operation is selected exactly if it is the one that the request asks for.
  pub select_operation-Chosen :
      (name : Option Text) (operations : List (Option Text × OperationDefinition Number))
      → (chosen : Option Text × OperationDefinition Number)
      → (select_operation name operations ≡ ok chosen) ↔ Chosen operations name chosen
  select_operation-Chosen name operations chosen = (
    select_operation_sound name operations chosen,
    select_operation_complete name operations chosen,
  )

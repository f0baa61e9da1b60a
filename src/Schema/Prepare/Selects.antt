-- ===== src/Schema/Prepare/Selects.antt =====
-- What `prepare_request` of src/schema.rs asks of a document: that the request brings it, that it keeps
-- the limits, and that it passes the rules and has the operation that the request asks for.
use async_graphql.Prelude.{
  ℕ, List, Text, Option, none, some, ◌≡◌, refl, sym, ◌∙◌, ap, ◌↔◌, ◌⊎◌, inl, inr, Result, ok, err,
  ◌>>=◌, ok-injective, Option-cases, some-injective, >>=-eq-ok_iff,
}
use async_graphql.Value.{ConstValue}
use async_graphql.Document.{OperationDefinition, ExecutableDocument, operation_sets}
use async_graphql.Schema.Limits.{ServerError, check_recursive_depth, check_limits}
use async_graphql.Schema.Limits.Decides.{Decides, AllOperations}
use async_graphql.Schema.Limits.Depth.{Fits}
use async_graphql.Schema.Limits.Correct.{
  KeepsLimits, check_recursive_depth-Decides, check_limits-Decides,
}
use async_graphql.Schema.Prepare.{
  Request, QueryEnv, select_operation, query_env, Outside, document_of, after_parse,
}
use async_graphql.Schema.Prepare.Chosen.{Chosen, select_operation-Chosen}
use async_graphql.Schema.Prepare.Executed.{Executes, query_env-Executes}

module _ {Number : Type 0} (doc : ExecutableDocument Number) (max_depth : ℕ) where
  -- What the limits ask for; that of the directives may be missing.
  abbrev pub InLimits : Option ℕ → Type 0
  InLimits none = AllOperations (λ set. Fits doc max_depth set 0) (operation_sets doc)
  InLimits (some limit) = KeepsLimits doc max_depth limit

  without_limit :
      (r : Result ServerError (Unit {0}))
      → check_recursive_depth doc max_depth ≡ some r
      → (r ≡ ok tt) ↔ InLimits none
      → Decides (check_limits doc max_depth none) (InLimits none)
  unfolding check_limits
  without_limit (err e) run iff = (err e, rw (run, check_limits) refl, iff)
  without_limit (ok tt) run iff = (ok tt, rw (run, check_limits) refl, iff)

  pub check_limits-InLimits :
      (limit : Option ℕ) → Decides (check_limits doc max_depth limit) (InLimits limit)
  check_limits-InLimits (some limit) = check_limits-Decides doc max_depth limit
  check_limits-InLimits none =
      let (r, run, iff) = check_recursive_depth-Decides doc max_depth in without_limit r run iff

-- The document of a request: the one that it brings, or else that of its text.
abbrev pub Brings :
    {Number Validation : Type 0}
    → Outside Number Validation
    → Request Number
    → ExecutableDocument Number
    → Type 0
Brings outside request doc =
    (request.parsed_query ≡ some doc)
    ⊎ ((request.parsed_query ≡ none) × (outside.parse_query request.query ≡ ok doc))

-- The hooks of the extensions may fail, but they make no document and no result of their own.
pub record Passes {Number Validation : Type 0} (outside : Outside Number Validation) : Type 0 where
  pub parse_passes :
      (query : Text) (variables : List (Text × ConstValue Number))
      → (parsed : Result ServerError (ExecutableDocument Number)) (doc : ExecutableDocument Number)
      → outside.around_parse query variables parsed ≡ ok doc
      → parsed ≡ ok doc
  pub validation_passes :
      (result : Result (List ServerError) Validation) (validation : Validation)
      → outside.around_validation result ≡ ok validation
      → result ≡ ok validation

module _ {Number Validation : Type 0} (outside : Outside Number Validation) where
  -- A document passes the rules and the hook around them, and it has the operation that the request
  -- asks for, which is executed.
  abbrev pub Selects :
      Request Number → ExecutableDocument Number → QueryEnv Number Validation → Type 0
  Selects request doc env =
      (validation : Validation) × (chosen : Option Text × OperationDefinition Number)
      × (outside.check_rules doc request.variables ≡ ok validation)
      × (outside.around_validation (ok validation) ≡ ok validation)
      × Chosen doc.operations request.operation_name chosen
      × Executes request doc validation chosen env

  pub document_of-Brings :
      (request : Request Number) (doc : ExecutableDocument Number)
      → (document_of outside request ≡ ok doc) ↔ Brings outside request doc
  unfolding document_of
  document_of-Brings request doc = elim (Option-cases request.parsed_query) [
    | inl e ↦ (
      λ h. inr (e, sym (rw (e, document_of) refl) ∙ h),
      λ brings. elim brings [
        | inl e' ↦ missing e e'
        | inr (e', parses) ↦ rw (e, document_of) parses
      ],
    )
    | inr (own, e) ↦ (
      λ h. inl (e ∙ ap some (ok-injective (sym (taken own e) ∙ h))),
      λ brings. elim brings [
        | inl e' ↦ taken own e ∙ ap ok (some-injective own doc (sym e ∙ e'))
        | inr (e', parses) ↦ missing e' e
      ],
    )
  ]
    where
      missing :
          {B : Type 0} {o : Option (ExecutableDocument Number)} {d : ExecutableDocument Number}
          → o ≡ none
          → o ≡ some d
          → B
      missing e f = cc

      taken :
          (own : ExecutableDocument Number)
          → request.parsed_query ≡ some own
          → document_of outside request ≡ ok own
      taken own e = rw (e, document_of) refl

  -- A hook that is passed.
  pub passed :
      {E A : Type 0} (hook : Result E A → Result E A)
      → ((r : Result E A) (a : A) → hook r ≡ ok a → r ≡ ok a)
      → (r : Result E A) (a : A) → (hook r ≡ ok a) ↔ ((r ≡ ok a) × (hook (ok a) ≡ ok a))
  passed hook passes r a =
      (λ h. let e = passes r a h in (e, ap hook (sym e) ∙ h), λ (e, h). ap hook e ∙ h)

  pub after_parse-Selects :
      Passes outside
      → (request : Request Number) (doc : ExecutableDocument Number)
      → (env : QueryEnv Number Validation)
      → (after_parse outside request doc ≡ ok env) ↔ Selects request doc env
  unfolding after_parse
  after_parse-Selects passes request doc env =
      let finish : Validation
          → Option Text × OperationDefinition Number
          → Result (List ServerError) (QueryEnv Number Validation) =
        λ validation chosen. ok (query_env request doc validation chosen) in
      let select = select_operation request.operation_name doc.operations in
      let checked = outside.check_rules doc request.variables in
      let rules =
        >>=-eq-ok_iff (outside.around_validation checked) (λ v. select >>= finish v) env in
      (
        λ h.
            let (validation, valid, more) = rules.0 h in
            let (chosen, selected, same) = (>>=-eq-ok_iff select (finish validation) env).0 more in
            let (checks, hook) =
              (passed outside.around_validation passes.validation_passes checked validation).0
                valid in
            (
              validation,
              chosen,
              checks,
              hook,
              (select_operation-Chosen request.operation_name doc.operations chosen).0 selected,
              (query_env-Executes request doc validation chosen env).0 (ok-injective same),
            ),
        λ (validation, chosen, checks, hook, asked, executes). rules.1 (
          validation,
          (passed outside.around_validation passes.validation_passes checked validation).1
              (checks, hook),
          (>>=-eq-ok_iff select (finish validation) env).1 (
            chosen,
            (select_operation-Chosen request.operation_name doc.operations chosen).1 asked,
            ap ok ((query_env-Executes request doc validation chosen env).1 executes),
          ),
        ),
      )

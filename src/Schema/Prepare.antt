-- ===== src/Schema/Prepare.antt =====
-- src/schema.rs: `prepare_request`, from a request to what is executed. Parameters are the parser, the
-- rules of the validation, and the hooks of the extensions: what they make of the request, of the
-- result of parsing, and of the result of the validation.
pub mod Chosen
pub mod Executed
pub mod Selects
pub mod Correct
mod Tests
use mathlib.Core.Option
use async_graphql.Prelude.{
  ℕ, List, [], ◌∷◌, ◌++◌, map, Text, codes, text_eq, Option, none, some, Result, ok, err, ◌>>=◌,
  if◌then◌else◌,
}
use async_graphql.Value.{ConstValue}
use async_graphql.Document.{OperationDefinition, FragmentDefinition, ExecutableDocument}
use async_graphql.Schema.Limits.{ServerError, check_limits}
use async_graphql.Schema.Skips.{remove_skipped_selection}

pub record Request (Number : Type 0) : Type 0 where
  pub query : Text
  pub operation_name : Option Text
  pub variables : List (Text × ConstValue Number)
  pub parsed_query : Option (ExecutableDocument Number)

-- What is made for the execution (`QueryEnvInner`), with the result of the validation.
pub record QueryEnv (Number Validation : Type 0) : Type 0 where
  pub variables : List (Text × ConstValue Number)
  pub operation_name : Option Text
  pub operation : OperationDefinition Number
  pub fragments : List (Text × FragmentDefinition Number)
  pub validation : Validation

-- "Unknown operation named \"{}\""
unfoldable pub unknown_operation : Text → ServerError
unknown_operation name = record {
  message = codes "Unknown operation named " ++ b'"' ∷ name ++ b'"' ∷ [];
  location = none;
}

abbrev pub operation_name_required : ServerError
operation_name_required = record {
  message = codes "Operation name required in request.";
  location = none;
}

module _ {Number : Type 0} where
  -- `operations.remove(operation_name)`: the operation without a name is none of the map.
  unfoldable pub find_operation :
      Text → List (Option Text × OperationDefinition Number) → Option (OperationDefinition Number)
  unfolding text_eq
  find_operation name [] = none
  find_operation name ((none, operation) ∷ operations) = find_operation name operations
  find_operation name ((some n, operation) ∷ operations) =
      if text_eq n name then some operation else find_operation name operations

  -- The operation to execute, with its name.
  unfoldable pub select_operation :
      Option Text
      → List (Option Text × OperationDefinition Number)
      → Result (List ServerError) (Option Text × OperationDefinition Number)
  unfolding find_operation unknown_operation
  select_operation (some name) operations = elim (find_operation name operations) [
    | none ↦ err (unknown_operation name ∷ [])
    | some operation ↦ ok (some name, operation)
  ]
  select_operation none ((name, operation) ∷ []) = ok (name, operation)
  select_operation none operations = err (operation_name_required ∷ [])

  -- The loop over the fragments, which loses what is skipped.
  unfoldable pub skip_fragments :
      List (Text × ConstValue Number)
      → List (Text × FragmentDefinition Number)
      → List (Text × FragmentDefinition Number)
  unfolding remove_skipped_selection
  skip_fragments variables =
      map (λ p. (p.0, record p.1 { set = remove_skipped_selection variables p.1.set }))

  -- What is executed of a document.
  unfoldable pub query_env :
      {Validation : Type 0}
      → Request Number
      → ExecutableDocument Number
      → Validation
      → Option Text × OperationDefinition Number
      → QueryEnv Number Validation
  unfolding skip_fragments remove_skipped_selection
  query_env request doc validation chosen = record {
    variables = request.variables;
    operation_name = chosen.0;
    operation = record chosen.1 { set = remove_skipped_selection request.variables chosen.1.set };
    fragments = skip_fragments request.variables doc.fragments;
    validation = validation;
  }

-- What `prepare_request` calls. Each hook of the extensions has the result of what it is around.
pub record Outside (Number Validation : Type 0) : Type 0 where
  pub prepare : Request Number → Result (List ServerError) (Request Number)
  pub parse_query : Text → Result ServerError (ExecutableDocument Number)
  pub check_rules :
      ExecutableDocument Number
      → List (Text × ConstValue Number)
      → Result (List ServerError) Validation
  pub around_parse :
      Text
      → List (Text × ConstValue Number)
      → Result ServerError (ExecutableDocument Number)
      → Result ServerError (ExecutableDocument Number)
  pub around_validation :
      Result (List ServerError) Validation → Result (List ServerError) Validation

module _ {Number Validation : Type 0} (outside : Outside Number Validation) where
  -- The document that came with the request, or that of its text.
  unfoldable pub document_of : Request Number → Result ServerError (ExecutableDocument Number)
  document_of request = elim (request.parsed_query) [
    | some doc ↦ ok doc
    | none ↦ outside.parse_query request.query
  ]

  -- From where there is a document.
  unfoldable pub after_parse :
      Request Number
      → ExecutableDocument Number
      → Result (List ServerError) (QueryEnv Number Validation)
  unfolding select_operation query_env
  after_parse request doc =
      outside.around_validation (outside.check_rules doc request.variables) >>= λ validation.
      select_operation request.operation_name doc.operations >>= λ chosen.
      ok (query_env request doc validation chosen)

  -- The hook around the parser, with what comes after it.
  unfoldable pub with_parsed :
      Request Number
      → Result ServerError (ExecutableDocument Number)
      → Result (List ServerError) (QueryEnv Number Validation)
  unfolding after_parse
  with_parsed request parsed = elim (outside.around_parse request.query request.variables parsed) [
    | err e ↦ err (e ∷ [])
    | ok doc ↦ after_parse request doc
  ]

  module _ (recursive_depth : ℕ) (max_directives : Option ℕ) where
    -- `fut_parse`: the document, with the checks of the limits. `none` is too little fuel.
    unfoldable pub parse_document :
        Request Number → Option (Result ServerError (ExecutableDocument Number))
    unfolding document_of check_limits
    parse_document request = elim (document_of request) [
      | err e ↦ some (err e)
      | ok doc ↦
          Option.map (λ checked. checked >>= λ done. ok doc)
            (check_limits doc recursive_depth max_directives)
    ]

    unfoldable pub prepare_request :
        Request Number → Option (Result (List ServerError) (QueryEnv Number Validation))
    unfolding parse_document with_parsed
    prepare_request request = elim (outside.prepare request) [
      | err es ↦ some (err es)
      | ok request' ↦ Option.map (with_parsed request') (parse_document request')
    ]

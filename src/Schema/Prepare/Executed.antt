-- ===== src/Schema/Prepare/Executed.antt =====
-- What `prepare_request` of src/schema.rs hands to the execution: the operation and the fragments,
-- without what the request's variables skip.
use async_graphql.Prelude.{List, [], ◌∷◌, Text, Option, ◌≡◌, refl, sym, ◌∙◌, ap, subst, ◌↔◌}
use async_graphql.Value.{ConstValue}
use async_graphql.Document.{
  OperationDefinition, SelectionSet, FragmentDefinition, ExecutableDocument,
}
use async_graphql.Schema.Skips.{remove_skipped_selection}
use async_graphql.Schema.Skips.Left.{LeftSet}
use async_graphql.Schema.Skips.Kept.{remove_skipped_selection_iff}
use async_graphql.Schema.Prepare.{Request, QueryEnv, skip_fragments, query_env}

-- The fragments of a document, each with what is left of its selection set.
pub data LeftFragments {Number : Type 0} (variables : List (Text × ConstValue Number))
    : List (Text × FragmentDefinition Number)
      → List (Text × FragmentDefinition Number)
      → Type 0 where
  no_fragments : LeftFragments variables [] []
  left_fragment :
      {name : Text} {fragment : FragmentDefinition Number} {set : SelectionSet Number}
      {fragments left : List (Text × FragmentDefinition Number)}
      → LeftSet variables fragment.set set
      → LeftFragments variables fragments left
      → LeftFragments variables
          ((name, fragment) ∷ fragments)
          ((name, record fragment { set = set }) ∷ left)

-- What is executed: the request's variables and the chosen operation, with what is left of its
-- selection set, and the document's fragments.
pub record Executes {Number Validation : Type 0} (request : Request Number)
    (doc : ExecutableDocument Number) (validation : Validation)
    (chosen : Option Text × OperationDefinition Number) (env : QueryEnv Number Validation)
    : Type 0 where
  pub same_variables : env.variables ≡ request.variables
  pub same_name : env.operation_name ≡ chosen.0
  pub same_operation : env.operation ≡ record chosen.1 { set = env.operation.set }
  pub left_selections : LeftSet request.variables chosen.1.set env.operation.set
  pub left_fragments : LeftFragments request.variables doc.fragments env.fragments
  pub same_validation : env.validation ≡ validation

module _ {Number : Type 0} (variables : List (Text × ConstValue Number)) where
  set-Left :
      (set : SelectionSet Number) → LeftSet variables set (remove_skipped_selection variables set)
  set-Left set =
      (remove_skipped_selection_iff variables set (remove_skipped_selection variables set)).0 refl

  fragments-Left :
      (fragments : List (Text × FragmentDefinition Number))
      → LeftFragments variables fragments (skip_fragments variables fragments)
  unfolding skip_fragments
  fragments-Left [] = no_fragments
  fragments-Left ((name, fragment) ∷ fragments) =
      left_fragment (set-Left fragment.set) (fragments-Left fragments)

  Left-fragments :
      (fragments left : List (Text × FragmentDefinition Number))
      → LeftFragments variables fragments left
      → skip_fragments variables fragments ≡ left
  unfolding skip_fragments
  Left-fragments fragments left no_fragments = refl
  Left-fragments fragments left
        (left_fragment {name} {fragment} {set} {fragments = others} {left = kept} h rest) =
      let same = (remove_skipped_selection_iff variables fragment.set set).1 h in
      let later = Left-fragments others kept rest in
      λ i. (name, record fragment { set = same i }) ∷ later i

-- `query_env` is what is executed.
pub query_env-Executes :
    {Number Validation : Type 0} (request : Request Number) (doc : ExecutableDocument Number)
    (validation : Validation) (chosen : Option Text × OperationDefinition Number)
    (env : QueryEnv Number Validation)
    → (query_env request doc validation chosen ≡ env) ↔ Executes request doc validation chosen env
unfolding query_env
query_env-Executes request doc validation chosen env = (
  λ e. subst (Executes request doc validation chosen) e (record {
    same_variables = refl;
    same_name = refl;
    same_operation = refl;
    left_selections = set-Left request.variables chosen.1.set;
    left_fragments = fragments-Left request.variables doc.fragments;
    same_validation = refl;
  }),
  λ h.
      let same_set =
        (remove_skipped_selection_iff request.variables chosen.1.set env.operation.set).1
          h.left_selections in
      let same_operation = ap (λ s. record chosen.1 { set = s }) same_set ∙ sym h.same_operation in
      let same_fragments =
        Left-fragments request.variables doc.fragments env.fragments h.left_fragments in
      λ i. record {
        variables = sym h.same_variables i;
        operation_name = sym h.same_name i;
        operation = same_operation i;
        fragments = same_fragments i;
        validation = sym h.same_validation i;
      },
)

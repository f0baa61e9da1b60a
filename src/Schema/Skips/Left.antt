-- ===== src/Schema/Skips/Left.antt =====
-- What is left of a selection set when `@skip` and `@include` have been obeyed, by the rules of the
-- specification (for `remove_skipped_selection` of src/schema.rs).
use async_graphql.Prelude.{List, [], ◌∷◌, Text, codes, ◌≡◌, ◌⊎◌}
use async_graphql.Value.{ConstValue}
use async_graphql.Document.{
  Directive, Field, FragmentSpread, InlineFragment, Selection, SelectionSet, Selections, field,
  fragment_spread, inline_fragment, selection_set, nil, cons,
}
use async_graphql.Validation.Scope.{Pos}
use async_graphql.Schema.Skips.Excluded.{Excluded}

-- `@skip` and `@include`.
abbrev pub Conditional : {Number : Type 0} → Directive Number → Type 0
Conditional directive = (directive.name ≡ codes "skip") ⊎ (directive.name ≡ codes "include")

-- A list of directives, and the list without the conditional ones.
pub data Stripped {Number : Type 0}
    : List (Directive Number) → List (Directive Number) → Type 0 where
  stripped_all : Stripped [] []
  drops :
      {directive : Directive Number} {directives left : List (Directive Number)}
      → Conditional directive
      → Stripped directives left
      → Stripped (directive ∷ directives) left
  stays :
      {directive : Directive Number} {directives left : List (Directive Number)}
      → ¬ Conditional directive
      → Stripped directives left
      → Stripped (directive ∷ directives) (directive ∷ left)

-- The directives that stand at a selection.
abbrev pub carried : {Number : Type 0} → Selection Number → List (Directive Number)
carried (field node set) = node.directives
carried (fragment_spread node) = node.directives
carried (inline_fragment node set) = node.directives

-- A selection set, and what is left of it: the selections that no directive excludes, in order,
-- without conditional directives, and with what is left of their own selection sets.
mutual
  pub data LeftSet {Number : Type 0} (variables : List (Text × ConstValue Number))
      : SelectionSet Number → SelectionSet Number → Type 0 where
    left_set :
        {pos : Pos} {selections left : Selections Number}
        → LeftItems variables selections left
        → LeftSet variables (selection_set pos selections) (selection_set pos left)

  pub data LeftItems {Number : Type 0} (variables : List (Text × ConstValue Number))
      : Selections Number → Selections Number → Type 0 where
    left_nil : LeftItems variables nil nil
    excluded :
        {selection : Selection Number} {selections left : Selections Number}
        → Excluded variables (carried selection)
        → LeftItems variables selections left
        → LeftItems variables (cons selection selections) left
    left_cons :
        {selection kept : Selection Number} {selections left : Selections Number}
        → ¬ Excluded variables (carried selection)
        → LeftItem variables selection kept
        → LeftItems variables selections left
        → LeftItems variables (cons selection selections) (cons kept left)

  pub data LeftItem {Number : Type 0} (variables : List (Text × ConstValue Number))
      : Selection Number → Selection Number → Type 0 where
    left_field :
        {node : Field Number} {directives : List (Directive Number)}
        {set left : SelectionSet Number}
        → Stripped node.directives directives
        → LeftSet variables set left
        → LeftItem variables (field node set) (field (record node { directives = directives }) left)
    left_spread :
        {node : FragmentSpread Number} {directives : List (Directive Number)}
        → Stripped node.directives directives
        → LeftItem variables
            (fragment_spread node)
            (fragment_spread (record node { directives = directives }))
    left_inline :
        {node : InlineFragment Number} {directives : List (Directive Number)}
        {set left : SelectionSet Number}
        → Stripped node.directives directives
        → LeftSet variables set left
        → LeftItem variables
            (inline_fragment node set)
            (inline_fragment (record node { directives = directives }) left)

-- ===== src/Document.antt =====
-- parser/src/types/executable.rs: an executable document. A node stands with its position.
use mathlib.Core.Option
use async_graphql.Prelude.{
  List, [], ◌∷◌, map, Text, text_discrete, text_eq, Bool, true, false, Option, none, some, get,
  if◌then◌else◌,
}
use async_graphql.Value.{ConstValue, Value}
use async_graphql.Parser.TypeNames.{Type_}
use async_graphql.Validation.Scope.{Pos}

pub record Argument (Number : Type 0) : Type 0 where
  pub name : Text
  pub pos : Pos
  pub value : Value Number

pub record Directive (Number : Type 0) : Type 0 where
  pub name : Text
  pub pos : Pos
  pub arguments : List (Argument Number)

-- The first argument of a name, as the two methods `get_argument` find it.
unfoldable pub find_argument :
    {Number : Type 0} → Text → List (Argument Number) → Option (Value Number)
unfolding text_eq
find_argument name [] = none
find_argument name (argument ∷ arguments) =
    if text_eq argument.name name then some argument.value else find_argument name arguments

-- `Directive::get_argument`
unfoldable pub get_argument : {Number : Type 0} → Text → Directive Number → Option (Value Number)
unfolding find_argument
get_argument name directive = find_argument name directive.arguments

-- A field but for its selection set.
pub record Field (Number : Type 0) : Type 0 where
  pub alias : Option Text
  pub name : Text
  pub pos : Pos
  pub arguments : List (Argument Number)
  pub directives : List (Directive Number)

-- `Field::response_key`
unfoldable pub response_key : {Number : Type 0} → Field Number → Text
response_key node = elim (node.alias) [ none ↦ node.name | some alias ↦ alias ]

pub record FragmentSpread (Number : Type 0) : Type 0 where
  pub fragment_name : Text
  pub pos : Pos
  pub directives : List (Directive Number)

-- An inline fragment but for its selection set.
pub record InlineFragment (Number : Type 0) : Type 0 where
  pub type_condition : Option Text
  pub pos : Pos
  pub directives : List (Directive Number)

mutual
  pub data Selection (Number : Type 0) : Type 0 where
    field : Field Number → SelectionSet Number → Selection Number
    fragment_spread : FragmentSpread Number → Selection Number
    inline_fragment : InlineFragment Number → SelectionSet Number → Selection Number

  pub data SelectionSet (Number : Type 0) : Type 0 where
    selection_set : Pos → Selections Number → SelectionSet Number

  -- The items of a selection set.
  pub data Selections (Number : Type 0) : Type 0 where
    nil : Selections Number
    cons : Selection Number → Selections Number → Selections Number

abbrev pub items : {Number : Type 0} → SelectionSet Number → Selections Number
items (selection_set pos selections) = selections

abbrev pub pos_of : {Number : Type 0} → SelectionSet Number → Pos
pos_of (selection_set pos selections) = pos

abbrev pub is_empty : {Number : Type 0} → Selections Number → Bool
is_empty nil = true
is_empty (cons selection selections) = false

pub data OperationType : Type 0 where
  query mutation subscription : OperationType

pub record VariableDefinition (Number : Type 0) : Type 0 where
  pub name : Text
  pub pos : Pos
  pub var_type : Type_
  pub directives : List (Directive Number)
  pub default_value : Option (ConstValue Number)

pub record OperationDefinition (Number : Type 0) : Type 0 where
  pub ty : OperationType
  pub pos : Pos
  pub variable_definitions : List (VariableDefinition Number)
  pub directives : List (Directive Number)
  pub set : SelectionSet Number

pub record FragmentDefinition (Number : Type 0) : Type 0 where
  pub on : Text
  pub pos : Pos
  pub directives : List (Directive Number)
  pub set : SelectionSet Number

-- A document: its operations in order, by name, and its fragments.
pub record ExecutableDocument (Number : Type 0) : Type 0 where
  pub operations : List (Option Text × OperationDefinition Number)
  pub fragments : List (Text × FragmentDefinition Number)

module _ {Number : Type 0} (doc : ExecutableDocument Number) where
  -- The selection sets of the operations.
  abbrev pub operation_sets : List (Option Text × SelectionSet Number)
  operation_sets = map (λ p. (p.0, p.1.set)) doc.operations

  -- The selection set of a fragment.
  unfoldable pub fragment_set : Text → Option (SelectionSet Number)
  unfolding get text_discrete
  fragment_set name = Option.map (λ f. f.set) (get text_discrete name doc.fragments)

-- ===== src/Schema/Skips.antt =====
-- src/schema.rs: `remove_skipped_selection`, which takes the selections away that `@skip` and
-- `@include` exclude, and these directives from the others.
pub mod Excluded
pub mod Judged
pub mod Left
pub mod Again
pub mod Kept
mod Tests
use async_graphql.Prelude.{
  List, [], ◌∷◌, Text, codes, text_discrete, text_eq, Bool, true, false, not, ◌&&◌, ◌||◌, Option,
  none, some, if◌then◌else◌, get, keep, Result, ok, err,
}
use async_graphql.Value.{ConstValue, Value, boolean, into_const_with}
use async_graphql.Document.{
  Directive, get_argument, Selection, SelectionSet, Selections, field, fragment_spread,
  inline_fragment, selection_set, nil, cons,
}

-- Whether a directive has the value `true` or `false` of its condition in favour of the selection;
-- none for other directives.
unfoldable pub include_of : Text → Option Bool
unfolding text_eq
include_of name =
    if text_eq name (codes "skip")
    then some false
    else if text_eq name (codes "include")
    then some true
    else none

-- The closure of the second `retain`.
unfoldable pub is_other : {Number : Type 0} → Directive Number → Bool
unfolding text_eq
is_other directive =
    not (text_eq directive.name (codes "skip")) && not (text_eq directive.name (codes "include"))

-- `InputType::parse` of `bool`, or the default of a value that is none.
unfoldable pub parse_bool : {Number : Type 0} → ConstValue Number → Bool
parse_bool (boolean b) = b
parse_bool _ = false

module _ {Number : Type 0} (variables : List (Text × ConstValue Number)) where
  -- `variables.get(&name).cloned().ok_or(())`
  unfoldable pub look_up : Text → Result (Unit {0}) (ConstValue Number)
  unfolding get text_discrete
  look_up name = elim (get text_discrete name variables) [ none ↦ err tt | some value ↦ ok value ]

  -- The value of a condition; a variable that is missing makes it null, which is no Boolean value.
  unfoldable pub condition_value : Value Number → Bool
  unfolding look_up into_const_with parse_bool
  condition_value condition = elim (into_const_with look_up condition) [
    | err e ↦ false
    | ok value ↦ parse_bool value
  ]

  unfoldable pub is_skipped : List (Directive Number) → Bool
  unfolding include_of get_argument condition_value
  is_skipped [] = false
  is_skipped (directive ∷ directives) =
      let rest = is_skipped directives in
      elim (include_of directive.name) [
        | none ↦ rest
        | some include ↦ elim (get_argument (codes "if") directive) [
          | none ↦ rest
          | some condition ↦
              if include
              then (if condition_value condition then rest else true)
              else if condition_value condition
              then true
              else rest
        ]
      ]

  -- `selection.node.directives()`
  abbrev pub directives_of : Selection Number → List (Directive Number)
  directives_of (field node set) = node.directives
  directives_of (fragment_spread node) = node.directives
  directives_of (inline_fragment node set) = node.directives

  -- `remove_skipped_selection`. Its three passes over the items are one here: an item is dropped, or
  -- it loses its directives and is entered.
  unfoldable mutual
    unfolding is_skipped keep is_other

    pub remove_skipped_selection : SelectionSet Number → SelectionSet Number
    remove_skipped_selection (selection_set pos selections) =
        selection_set pos (retain_items selections)

    pub retain_items : Selections Number → Selections Number
    retain_items nil = nil
    retain_items (cons selection selections) =
        let entered = enter_item selection in
        let rest = retain_items selections in
        if is_skipped (directives_of selection) then rest else cons entered rest

    pub enter_item : Selection Number → Selection Number
    enter_item (field node set) =
        field (record node { directives = keep is_other node.directives })
          (remove_skipped_selection set)
    enter_item (fragment_spread node) =
        fragment_spread (record node { directives = keep is_other node.directives })
    enter_item (inline_fragment node set) =
        inline_fragment (record node { directives = keep is_other node.directives })
          (remove_skipped_selection set)

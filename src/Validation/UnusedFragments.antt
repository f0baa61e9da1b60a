-- ===== src/Validation/UnusedFragments.antt =====
-- src/validation/rules/no_unused_fragments.rs: each fragment of a document is spread in one of its
-- operations, directly or not.
pub mod Correct
mod Tests
use mathlib.Core.Option
use async_graphql.Prelude.{
  ℕ, suc, List, [], ◌∷◌, ◌++◌, map, Text, codes, text_discrete, Bool, true, false, not, Option,
  none, some, if◌then◌else◌, length, contains, insert, keep, extend, items, values,
}
use async_graphql.Validation.Scope.{
  Scope, operation, fragment, scope_discrete, named_discrete, RuleError, quoted, Named,
}
use async_graphql.Validation.Graph.{walk, walk_each}

pub record NoUnusedFragments : Type 0 where
  pub spreads : List (Scope × List Text)
  pub defined_fragments : List Named
  pub current_scope : Option Scope

abbrev pub default : NoUnusedFragments
default = record { spreads = []; defined_fragments = []; current_scope = none }

module _ (rule : NoUnusedFragments) where
  unfoldable pub enter_operation_definition : Option Text → NoUnusedFragments
  enter_operation_definition name = record rule { current_scope = some (operation name) }

  unfoldable pub enter_fragment_definition : Named → NoUnusedFragments
  unfolding insert contains named_discrete
  enter_fragment_definition named = record rule {
    current_scope = some (fragment named.0);
    defined_fragments = insert named_discrete named rule.defined_fragments;
  }

  unfoldable pub enter_fragment_spread : Text → NoUnusedFragments
  unfolding scope_discrete extend
  enter_fragment_spread name = elim rule.current_scope [
    | none ↦ rule
    | some scope ↦ record rule { spreads = extend scope_discrete scope (name ∷ []) rule.spreads }
  ]

  -- The fragments spread in a fragment, and in an operation.
  abbrev pub next_fragments : Text → List Text
  next_fragments name = items scope_discrete (fragment name) rule.spreads

  abbrev pub first_fragments : Option Text → List Text
  first_fragments op_name = items scope_discrete (operation op_name) rule.spreads

  -- `result` of `find_reachable_fragments`, which the walk takes with nothing to collect.
  abbrev pub Found : Type 0
  Found = List Text × Unit {0}

  -- `find_reachable_fragments` of a fragment.
  unfoldable pub find_from_fragment : ℕ → Text → Found → Option Found
  unfolding walk text_discrete items scope_discrete
  find_from_fragment f = walk text_discrete next_fragments (λ name done. done) f

  -- `find_reachable_fragments`: an operation is not put into the result.
  unfoldable pub find_reachable_fragments : ℕ → Scope → Found → Option Found
  unfolding find_from_fragment walk_each
  find_reachable_fragments f (operation name) found =
      walk_each (find_from_fragment f) (first_fragments name) found
  find_reachable_fragments f (fragment name) found = find_from_fragment f name found

  -- The loop over the operations.
  unfoldable pub find_all : ℕ → List (Option Text) → Found → Option Found
  unfolding find_reachable_fragments
  find_all f [] found = some found
  find_all f (name ∷ names) found = elim (find_reachable_fragments f (operation name) found) [
    | none ↦ none
    | some found' ↦ find_all f names found'
  ]

  -- The fragments that `exit_document` reports. Fuel for each fragment that is spread is enough.
  unfoldable pub unused_of : List (Option Text) → Option (List Named)
  unfolding find_all keep contains text_discrete values
  unused_of operations =
      Option.map
        (λ found. keep (λ v. not (contains text_discrete v.0 found.0)) rule.defined_fragments)
        (find_all (suc (length (values scope_discrete rule.spreads))) operations ([], tt))

  -- `exit_document`
  unfoldable pub exit_document : List (Option Text) → Option (List RuleError)
  unfolding unused_of
  exit_document operations =
      Option.map
        (map (λ v. record {
          locations = v.1 ∷ [];
          message = codes "Fragment " ++ (quoted v.0 ++ codes " is never used");
        }))
        (unused_of operations)

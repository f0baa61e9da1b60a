-- ===== src/Schema/Limits/Tests.antt =====
-- Runs of the limits, and the theorems there.
use async_graphql.Prelude.{ℕ, [], ◌∷◌, codes, none, some, ◌≡◌, refl, err}
use async_graphql.Validation.Scope.{Pos}
use async_graphql.Document.{
  SelectionSet, field, fragment_spread, nil, cons, selection_set, ExecutableDocument,
  OperationDefinition, FragmentDefinition, query, Field, operation_sets,
}
use async_graphql.Schema.Limits.{passed, check_recursive_depth, check_limits, too_deep}
use async_graphql.Schema.Limits.Decides.{Decides, AllOperations}
use async_graphql.Schema.Limits.Depth.{Fits}
use async_graphql.Schema.Limits.Correct.{
  check_recursive_depth-Decides, KeepsLimits, check_limits-Decides,
}

abbrev at : Pos
at = record { line = 1; column = 1 }

abbrev leaf : SelectionSet ℕ
leaf = selection_set at nil

-- { ...F }
abbrev spreads_f : SelectionSet ℕ
spreads_f =
    selection_set at
      (cons (fragment_spread (record { fragment_name = codes "F"; pos = at; directives = [] })) nil)

abbrev operation : SelectionSet ℕ → OperationDefinition ℕ
operation set = record {
  ty = query;
  pos = at;
  variable_definitions = [];
  directives = [];
  set = set;
}

abbrev fragment : SelectionSet ℕ → FragmentDefinition ℕ
fragment set = record { on = codes "T"; pos = at; directives = []; set = set }

abbrev x : Field ℕ
x = record { alias = none; name = codes "x"; pos = at; arguments = []; directives = [] }

-- { ...F }  fragment F on T { ...F }
abbrev circle : ExecutableDocument ℕ
circle = record {
  operations = (none, operation spreads_f) ∷ [];
  fragments = (codes "F", fragment spreads_f) ∷ [];
}

-- { ...F }  fragment F on T { x }
abbrev flat : ExecutableDocument ℕ
flat = record {
  operations = (none, operation spreads_f) ∷ [];
  fragments = (codes "F", fragment (selection_set at (cons (field x leaf) nil))) ∷ [];
}

circle_ends : check_recursive_depth circle 2 ≡ some (err (too_deep circle 2 spreads_f))
unfolding check_recursive_depth
circle_ends = refl

flat_passes : check_limits flat 1 (some 0) ≡ passed
unfolding check_limits
flat_passes = refl

check_recursive_depth-Decides_example :
    Decides
      (check_recursive_depth circle 2)
      (AllOperations (λ set. Fits circle 2 set 0) (operation_sets circle))
check_recursive_depth-Decides_example = check_recursive_depth-Decides circle 2

check_limits-Decides_example : Decides (check_limits flat 1 (some 0)) (KeepsLimits flat 1 0)
check_limits-Decides_example = check_limits-Decides flat 1 0

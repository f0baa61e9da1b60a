-- ===== src/Validation/UndefinedVariables/Tests.antt =====
-- A run of the rule on a small document, and its theorem there.
use async_graphql.Prelude.{ℕ, List, [], ◌∷◌, codes, true, some, ◌≡◌, refl, ◌↔◌, contains}
use async_graphql.Value.{Value, variable}
use async_graphql.Validation.Scope.{Scope, operation, scope_discrete, named_discrete, Pos, Named}
use async_graphql.Validation.Graph.{Reach, walk_each}
use async_graphql.Validation.UndefinedVariables.{
  NoUndefinedVariables, default, enter_operation_definition, enter_fragment_definition,
  enter_variable_definition, enter_argument, enter_fragment_spread, next_scopes, undefined_of,
}
use async_graphql.Validation.UndefinedVariables.Correct.{UsesUndefined, undefined_of_iff}

abbrev at : ℕ → Pos
at n = record { line = n; column = 1 }

abbrev defined_use : Value ℕ
defined_use = variable (codes "a")

abbrev undefined_use : Value ℕ
undefined_use = variable (codes "b")

-- query Foo($a: Int) { ...F }  fragment F on Type { field(x: $a, y: $b) ...F }
abbrev visited : NoUndefinedVariables
visited =
    let r1 = enter_operation_definition default (some (codes "Foo")) (at 1) in
    let r2 = enter_variable_definition r1 (codes "a") in
    let r3 = enter_fragment_spread r2 (codes "F") in
    let r4 = enter_fragment_definition r3 (codes "F") in
    let r5 = enter_argument r4 (at 2) defined_use in
    let r6 = enter_argument r5 (at 3) undefined_use in enter_fragment_spread r6 (codes "F")

reports : undefined_of visited (some (codes "Foo")) (codes "a" ∷ []) ≡ some ((codes "b", at 3) ∷ [])
unfolding enter_operation_definition enter_variable_definition enter_fragment_spread
    enter_fragment_definition enter_argument undefined_of walk_each
reports = refl

undefined_of_iff_example :
    (undef : List Named) × (undefined_of visited (some (codes "Foo")) (codes "a" ∷ []) ≡ some undef)
    × ((v : Named)
        → (contains named_discrete v undef ≡ true) ↔ (
            (scope : Scope) × Reach scope_discrete
              (next_scopes visited)
              (operation (some (codes "Foo")))
              scope
            × UsesUndefined visited (codes "a" ∷ []) scope v))
undefined_of_iff_example = undefined_of_iff visited (some (codes "Foo")) (codes "a" ∷ [])

-- ===== src/Validation/UnusedVariables/Tests.antt =====
-- A run of the rule on a small document, and its theorem there.
use async_graphql.Prelude.{ℕ, List, [], ◌∷◌, codes, true, some, ◌≡◌, refl, ◌↔◌, contains}
use async_graphql.Value.{Value, variable}
use async_graphql.Validation.Scope.{Scope, operation, scope_discrete, named_discrete, Pos, Named}
use async_graphql.Validation.Graph.{Reach, walk_each}
use async_graphql.Validation.UnusedVariables.{
  NoUnusedVariables, default, enter_operation_definition, enter_fragment_definition,
  enter_variable_definition, enter_argument, enter_fragment_spread, next_scopes, unused_of,
}
use async_graphql.Validation.UnusedVariables.Correct.{Uses, unused_of_iff}

abbrev at : ℕ → Pos
at n = record { line = n; column = 1 }

abbrev used : Named
used = (codes "a", at 1)

abbrev unused : Named
unused = (codes "b", at 2)

abbrev argument : Value ℕ
argument = variable (codes "a")

-- query Foo($a: Int, $b: Int) { ...F }  fragment F on Type { field(x: $a) ...F }
abbrev visited : NoUnusedVariables
visited =
    let r1 = enter_operation_definition default (some (codes "Foo")) in
    let r2 = enter_variable_definition r1 used in
    let r3 = enter_variable_definition r2 unused in
    let r4 = enter_fragment_spread r3 (codes "F") in
    let r5 = enter_fragment_definition r4 (codes "F") in
    let r6 = enter_argument r5 argument in enter_fragment_spread r6 (codes "F")

reports : unused_of visited (some (codes "Foo")) (used ∷ unused ∷ []) ≡ some (unused ∷ [])
unfolding enter_operation_definition enter_variable_definition enter_fragment_spread
    enter_fragment_definition enter_argument unused_of walk_each
reports = refl

unused_of_iff_example :
    (vars : List Named) × (unused_of visited (some (codes "Foo")) (used ∷ unused ∷ []) ≡ some vars)
    × ((v : Named)
        → (contains named_discrete v vars ≡ true) ↔ (
            (contains named_discrete v (used ∷ unused ∷ []) ≡ true)
            × ¬ (
                (scope : Scope) × Reach scope_discrete
                  (next_scopes visited)
                  (operation (some (codes "Foo")))
                  scope
                × Uses visited scope v.0)))
unused_of_iff_example = unused_of_iff visited (some (codes "Foo")) (used ∷ unused ∷ [])

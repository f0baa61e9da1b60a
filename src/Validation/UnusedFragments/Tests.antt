-- ===== src/Validation/UnusedFragments/Tests.antt =====
-- A run of the rule on a small document, and its theorem there.
use async_graphql.Prelude.{ℕ, List, [], ◌∷◌, codes, true, some, ◌≡◌, refl, ◌↔◌, contains}
use async_graphql.Validation.Scope.{named_discrete, Pos, Named}
use async_graphql.Validation.Graph.{walk_each}
use async_graphql.Validation.UnusedFragments.{
  NoUnusedFragments, default, enter_operation_definition, enter_fragment_definition,
  enter_fragment_spread, unused_of,
}
use async_graphql.Validation.UnusedFragments.Correct.{Used, unused_fragments_iff}

abbrev at : ℕ → Pos
at n = record { line = n; column = 1 }

-- query Foo { ...A }  fragment A on T { ...B }  fragment B on T { ...A }  fragment C on T { x }
abbrev visited : NoUnusedFragments
visited =
    let r1 = enter_operation_definition default (some (codes "Foo")) in
    let r2 = enter_fragment_spread r1 (codes "A") in
    let r3 = enter_fragment_definition r2 (codes "A", at 2) in
    let r4 = enter_fragment_spread r3 (codes "B") in
    let r5 = enter_fragment_definition r4 (codes "B", at 3) in
    let r6 = enter_fragment_spread r5 (codes "A") in enter_fragment_definition r6 (codes "C", at 4)

reports : unused_of visited (some (codes "Foo") ∷ []) ≡ some ((codes "C", at 4) ∷ [])
unfolding enter_operation_definition enter_fragment_spread enter_fragment_definition unused_of
    walk_each
reports = refl

unused_fragments_iff_example :
    (unused : List Named) × (unused_of visited (some (codes "Foo") ∷ []) ≡ some unused)
    × ((v : Named)
        → (contains named_discrete v unused ≡ true) ↔ (
            (contains named_discrete v visited.defined_fragments ≡ true)
            × ¬ (Used visited (some (codes "Foo") ∷ []) v.0)))
unused_fragments_iff_example = unused_fragments_iff visited (some (codes "Foo") ∷ [])

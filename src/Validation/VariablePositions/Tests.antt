-- ===== src/Validation/VariablePositions/Tests.antt =====
-- A run of the rule on a small document, and its theorem there.
use mathlib.Core.List.{Memᴰ}
use async_graphql.Prelude.{
  ℕ, List, [], ◌∷◌, codes, true, false, some, ◌≡◌, refl, sym, subst, ◌↔◌, all, values,
}
use async_graphql.Value.{Value, variable}
use async_graphql.Parser.TypeNames.{type_, named, display, is_name_char}
use async_graphql.Parser.TypeNames.RoundTrip.{is_well_named}
use async_graphql.Validation.Scope.{Scope, operation, scope_discrete, Pos, RuleError}
use async_graphql.Validation.Graph.{Reach, walk_each}
use async_graphql.Validation.VariablePositions.{
  VariableDefinition, VariableInAllowedPosition, default, enter_operation_definition,
  enter_fragment_definition, enter_variable_definition, enter_fragment_spread, enter_input_value,
  next_scopes, errors_of,
}
use async_graphql.Validation.VariablePositions.Correct.{Allowed, Typed, errors_of_iff}
use async_graphql.Validation.VariablePositions.Allowed.{HasType, WellNamed}

abbrev at : ℕ → Pos
at n = record { line = n; column = 1 }

-- $a: Int = 1
abbrev definition : VariableDefinition
definition = record {
  pos = at 1;
  name = codes "a";
  var_type = type_ (named (codes "Int")) true;
  has_default = true;
}

abbrev use_of_a : Value ℕ
use_of_a = variable (codes "a")

-- query Foo($a: Int = 1) { ...F }  fragment F on Type { field(x: $a) }, where x is of type Int!
abbrev visited : VariableInAllowedPosition
visited =
    let r1 = enter_operation_definition default (some (codes "Foo")) in
    let r2 = enter_variable_definition r1 definition in
    let r3 = enter_fragment_spread r2 (codes "F") in
    let r4 = enter_fragment_definition r3 (codes "F") in
    enter_input_value r4 (at 2) (some (codes "Int!")) use_of_a

reports : errors_of visited (definition ∷ []) (operation (some (codes "Foo"))) ≡ some []
unfolding enter_operation_definition enter_variable_definition enter_fragment_spread
    enter_fragment_definition enter_input_value errors_of walk_each
reports = refl

place-HasType : HasType (record { name = codes "a"; pos = at 2; type_name = codes "Int!" })
unfolding display is_well_named is_name_char all
place-HasType = (type_ (named (codes "Int")) false, refl, refl)

visited-Typed : Typed visited
unfolding enter_operation_definition enter_variable_definition enter_fragment_spread
    enter_fragment_definition enter_input_value values
visited-Typed usage (Memᴰ.head e) = subst HasType (sym e) place-HasType
visited-Typed usage (Memᴰ.tail m) = elim m [ ]

definition-WellNamed : WellNamed (definition ∷ [])
unfolding is_well_named is_name_char all
definition-WellNamed def (Memᴰ.head e) = subst (λ d. is_well_named d.var_type ≡ true) (sym e) refl
definition-WellNamed def (Memᴰ.tail m) = elim m [ ]

errors_of_iff_example :
    (errors : List RuleError) × (errors_of visited
        (definition ∷ [])
        (operation (some (codes "Foo")))
      ≡ some errors)
    × ((errors ≡ []) ↔ (
        (scope : Scope)
        → Reach scope_discrete (next_scopes visited) (operation (some (codes "Foo"))) scope
        → Allowed visited (definition ∷ []) scope))
errors_of_iff_example =
    errors_of_iff visited (definition ∷ []) (operation (some (codes "Foo"))) definition-WellNamed
      visited-Typed

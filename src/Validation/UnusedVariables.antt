-- ===== src/Validation/UnusedVariables.antt =====
-- src/validation/rules/no_unused_variables.rs: each variable of an operation should be used by it or
-- by a fragment that it spreads, directly or not.
pub mod Correct
mod Tests
use mathlib.Core.Option
use async_graphql.Prelude.{
  ℕ, suc, List, [], ◌∷◌, ◌++◌, map, Text, codes, text_discrete, Bool, true, false, not, Option,
  none, some, if◌then◌else◌, length, contains, insert, get, put, keep, items, extend, values,
}
use async_graphql.Value.{Value, referenced_variables}
use async_graphql.Validation.Scope.{
  Scope, operation, fragment, scope_discrete, name_discrete, named_discrete, Pos, RuleError, quoted,
  Named, fragments,
}
use async_graphql.Validation.Graph.{walk}

pub record NoUnusedVariables : Type 0 where
  pub defined_variables : List (Option Text × List Named)
  pub used_variables : List (Scope × List Text)
  pub current_scope : Option Scope
  pub spreads : List (Scope × List Text)

abbrev pub default : NoUnusedVariables
default = record { defined_variables = []; used_variables = []; current_scope = none; spreads = [] }

abbrev pub names : List Named → List Text
names = map (λ v. v.0)

module _ (rule : NoUnusedVariables) where
  unfoldable pub enter_operation_definition : Option Text → NoUnusedVariables
  unfolding name_discrete put
  enter_operation_definition name = record rule {
    current_scope = some (operation name);
    defined_variables = put name_discrete name [] rule.defined_variables;
  }

  unfoldable pub enter_fragment_definition : Text → NoUnusedVariables
  enter_fragment_definition name = record rule { current_scope = some (fragment name) }

  -- `get_mut(name)` and `vars.insert`
  unfoldable pub define : Option Text → Named → NoUnusedVariables
  unfolding name_discrete named_discrete get put insert
  define name var = elim (get name_discrete name rule.defined_variables) [
    | none ↦ rule
    | some vars ↦ record rule {
      defined_variables =
          put name_discrete name (insert named_discrete var vars) rule.defined_variables;
    }
  ]

  unfoldable pub enter_variable_definition : Named → NoUnusedVariables
  unfolding define
  enter_variable_definition var = elim rule.current_scope [
    | none ↦ rule
    | some scope ↦ elim scope [ operation name ↦ define name var | fragment name ↦ rule ]
  ]

  unfoldable pub enter_argument : {Number : Type 0} → Value Number → NoUnusedVariables
  unfolding scope_discrete extend referenced_variables
  enter_argument value = elim rule.current_scope [
    | none ↦ rule
    | some scope ↦ record rule {
      used_variables = extend scope_discrete scope (referenced_variables value) rule.used_variables;
    }
  ]

  unfoldable pub enter_fragment_spread : Text → NoUnusedVariables
  unfolding scope_discrete extend
  enter_fragment_spread name = elim rule.current_scope [
    | none ↦ rule
    | some scope ↦ record rule { spreads = extend scope_discrete scope (name ∷ []) rule.spreads }
  ]

  -- The scopes that are spread in a scope.
  abbrev pub next_scopes : Scope → List Scope
  next_scopes scope = fragments (items scope_discrete scope rule.spreads)

  -- All scopes that a walk can come to.
  abbrev pub known_scopes : Scope → List Scope
  known_scopes from = from ∷ fragments (values scope_discrete rule.spreads)

  -- The loop over the variables used in a scope.
  unfoldable pub use_all : List Text → List Text → List Text → List Text
  unfolding contains insert text_discrete
  use_all defined [] used = used
  use_all defined (var ∷ vars) used =
      use_all defined vars
        (if contains text_discrete var defined then insert text_discrete var used else used)

  -- `find_used_vars`; the first list of the state is `visited`, the second `used`.
  unfoldable pub find_used_vars :
      ℕ → List Text → Scope → List Scope × List Text → Option (List Scope × List Text)
  unfolding walk use_all scope_discrete items
  find_used_vars f defined =
      walk scope_discrete next_scopes
        (λ scope used. use_all defined (items scope_discrete scope rule.used_variables) used) f

  -- The variables of an operation that `exit_document` reports. Fuel for each scope is enough.
  unfoldable pub unused_of : Option Text → List Named → Option (List Named)
  unfolding find_used_vars keep contains values text_discrete
  unused_of op_name def_vars =
      let from = operation op_name in
      Option.map (λ st. keep (λ v. not (contains text_discrete v.0 st.1)) def_vars)
        (find_used_vars (suc (length (known_scopes from))) (names def_vars) from ([], []))

abbrev pub message : Option Text → Text → Text
message none var = codes "Variable " ++ (quoted (b'$' ∷ var) ++ codes " is not used")
message (some op_name) var =
    codes "Variable "
    ++ (quoted (b'$' ∷ var) ++ (codes " is not used by operation " ++ quoted op_name))

-- The errors of one operation.
unfoldable pub report : Option Text → List Named → List RuleError
report op_name vars = map (λ v. record { locations = v.1 ∷ []; message = message op_name v.0 }) vars

-- `exit_document`
unfoldable pub exit_document :
    NoUnusedVariables → List (Option Text × List Named) → Option (List RuleError)
unfolding unused_of report
exit_document rule [] = some []
exit_document rule ((op_name, def_vars) ∷ ops) = elim (unused_of rule op_name def_vars) [
  | none ↦ none
  | some vars ↦ Option.map (λ errors. report op_name vars ++ errors) (exit_document rule ops)
]

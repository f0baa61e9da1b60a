-- ===== src/Validation/UndefinedVariables.antt =====
-- src/validation/rules/no_undefined_variables.rs: the variables that an operation uses, or a
-- fragment that it spreads, directly or not, are defined by it.
pub mod Correct
mod Tests
use mathlib.Core.Option
use async_graphql.Prelude.{
  ℕ, suc, List, [], ◌∷◌, ◌++◌, map, Text, codes, text_discrete, Bool, true, false, not, Option,
  none, some, if◌then◌else◌, length, contains, insert, get, put, extend, items, values,
}
use async_graphql.Value.{Value, referenced_variables}
use async_graphql.Validation.Scope.{
  Scope, operation, fragment, scope_discrete, name_discrete, Pos, RuleError, quoted, Named,
  fragments,
}
use async_graphql.Validation.Graph.{walk}

pub record NoUndefinedVariables : Type 0 where
  pub defined_variables : List (Option Text × (Pos × List Text))
  pub used_variables : List (Scope × List Named)
  pub current_scope : Option Scope
  pub spreads : List (Scope × List Text)

abbrev pub default : NoUndefinedVariables
default = record { defined_variables = []; used_variables = []; current_scope = none; spreads = [] }

-- `extend` of a `HashMap` with pairs.
unfoldable pub put_all : List Named → List Named → List Named
unfolding put text_discrete
put_all [] vars = vars
put_all ((name, pos) ∷ more) vars = put_all more (put text_discrete name pos vars)

-- The variables used in a scope: none when the scope has no entry.
unfoldable pub used_in : Scope → List (Scope × List Named) → List Named
unfolding get scope_discrete
used_in scope m = elim (get scope_discrete scope m) [ none ↦ [] | some vars ↦ vars ]

module _ (rule : NoUndefinedVariables) where
  unfoldable pub enter_operation_definition : Option Text → Pos → NoUndefinedVariables
  unfolding name_discrete put
  enter_operation_definition name pos = record rule {
    current_scope = some (operation name);
    defined_variables = put name_discrete name (pos, []) rule.defined_variables;
  }

  unfoldable pub enter_fragment_definition : Text → NoUndefinedVariables
  enter_fragment_definition name = record rule { current_scope = some (fragment name) }

  -- `get_mut(name)` and `vars.insert`
  unfoldable pub define : Option Text → Text → NoUndefinedVariables
  unfolding name_discrete text_discrete get put insert
  define name var = elim (get name_discrete name rule.defined_variables) [
    | none ↦ rule
    | some (pos, vars) ↦ record rule {
      defined_variables =
          put name_discrete name (pos, insert text_discrete var vars) rule.defined_variables;
    }
  ]

  unfoldable pub enter_variable_definition : Text → NoUndefinedVariables
  unfolding define
  enter_variable_definition var = elim rule.current_scope [
    | none ↦ rule
    | some scope ↦ elim scope [ operation name ↦ define name var | fragment name ↦ rule ]
  ]

  -- The position is the one of the argument's name.
  unfoldable pub enter_argument : {Number : Type 0} → Pos → Value Number → NoUndefinedVariables
  unfolding scope_discrete put put_all used_in referenced_variables
  enter_argument pos value = elim rule.current_scope [
    | none ↦ rule
    | some scope ↦ record rule {
      used_variables =
          put scope_discrete scope
            (put_all (map (λ n. (n, pos)) (referenced_variables value))
              (used_in scope rule.used_variables))
            rule.used_variables;
    }
  ]

  unfoldable pub enter_fragment_spread : Text → NoUndefinedVariables
  unfolding scope_discrete extend
  enter_fragment_spread name = elim rule.current_scope [
    | none ↦ rule
    | some scope ↦ record rule { spreads = extend scope_discrete scope (name ∷ []) rule.spreads }
  ]

  -- The scopes that are spread in a scope.
  abbrev pub next_scopes : Scope → List Scope
  next_scopes scope = fragments (items scope_discrete scope rule.spreads)

  -- All scopes that a walk can come to.
  abbrev pub known_scopes : Scope → List Scope
  known_scopes from = from ∷ fragments (values scope_discrete rule.spreads)

  -- The loop over the variables used in a scope; `undef.push` puts the last at the end.
  unfoldable pub push_undefined : List Text → List Named → List Named → List Named
  unfolding contains text_discrete
  push_undefined defined [] undef = undef
  push_undefined defined (var ∷ vars) undef =
      push_undefined defined vars
        (if contains text_discrete var.0 defined then undef else undef ++ var ∷ [])

  -- `find_undef_vars`; the first list of the state is `visited`, the second `undef`.
  unfoldable pub find_undef_vars :
      ℕ → List Text → Scope → List Scope × List Named → Option (List Scope × List Named)
  unfolding walk push_undefined scope_discrete items used_in
  find_undef_vars f defined =
      walk scope_discrete next_scopes
        (λ scope undef. push_undefined defined (used_in scope rule.used_variables) undef) f

  -- What an operation uses and does not define. Fuel for each scope is enough.
  unfoldable pub undefined_of : Option Text → List Text → Option (List Named)
  unfolding find_undef_vars values
  undefined_of op_name def_vars =
      let from = operation op_name in
      Option.map (λ st. st.1)
        (find_undef_vars (suc (length (known_scopes from))) def_vars from ([], []))

-- One error of an operation, which stands at `def_pos`.
unfoldable pub error_of : Option Text → Pos → Named → RuleError
error_of none def_pos (var, pos) = record {
  locations = pos ∷ [];
  message = codes "Variable " ++ (quoted (b'$' ∷ var) ++ codes " is not defined");
}
error_of (some op_name) def_pos (var, pos) = record {
  locations = def_pos ∷ pos ∷ [];
  message =
      codes "Variable "
      ++ (quoted (b'$' ∷ var) ++ (codes " is not defined by operation " ++ quoted op_name));
}

-- `exit_document`
unfoldable pub exit_document :
    NoUndefinedVariables → List (Option Text × (Pos × List Text)) → Option (List RuleError)
unfolding undefined_of error_of
exit_document rule [] = some []
exit_document rule ((op_name, (def_pos, def_vars)) ∷ ops) =
    elim (undefined_of rule op_name def_vars) [
      | none ↦ none
      | some undef ↦
          Option.map (λ errors. map (error_of op_name def_pos) undef ++ errors)
            (exit_document rule ops)
    ]

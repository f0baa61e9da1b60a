-- ===== src/Validation/VariablePositions.antt =====
-- src/validation/rules/variables_in_allowed_position.rs: a variable stands only where its type may.
pub mod Allowed
pub mod Settled
pub mod Correct
mod Tests
use mathlib.Core.Option
use async_graphql.Prelude.{
  ℕ, suc, List, [], ◌∷◌, ◌++◌, Text, codes, text_discrete, text_eq, Bool, true, false, not, ◌&&◌,
  Option, none, some, if◌then◌else◌, length, contains, insert, items, extend, values,
}
use async_graphql.Value.{Value, variable}
use async_graphql.Parser.TypeNames.{Type_, type_, display}
use async_graphql.Registry.TypeNames.{accepts}
use async_graphql.Validation.Scope.{
  Scope, operation, fragment, scope_discrete, Pos, RuleError, quoted, fragments,
}
use async_graphql.Validation.Graph.{walk}

-- `VariableDefinition`, with its position; of the default value only whether there is one.
pub record VariableDefinition : Type 0 where
  pub pos : Pos
  pub name : Text
  pub var_type : Type_
  pub has_default : Bool

-- A use of a variable: its name, its position, and the type of the place, as a text.
pub record Usage : Type 0 where
  pub name : Text
  pub pos : Pos
  pub type_name : Text

pub record VariableInAllowedPosition : Type 0 where
  pub spreads : List (Scope × List Text)
  pub variable_usages : List (Scope × List Usage)
  pub variable_defs : List (Scope × List VariableDefinition)
  pub current_scope : Option Scope

abbrev pub default : VariableInAllowedPosition
default = record { spreads = []; variable_usages = []; variable_defs = []; current_scope = none }

-- `var_defs.iter().find(..)`
unfoldable pub find_definition : Text → List VariableDefinition → Option VariableDefinition
unfolding text_eq
find_definition name [] = none
find_definition name (def ∷ defs) =
    if text_eq def.name name then some def else find_definition name defs

abbrev pub is_nullable : Type_ → Bool
is_nullable (type_ base nullable) = nullable

-- The type that a definition gives to its variable. With a default value a nullable type counts as
-- a non-null one.
unfoldable pub expected_type : VariableDefinition → Text
unfolding display
expected_type def =
    if is_nullable def.var_type && def.has_default
    then display def.var_type ++ b'!' ∷ []
    else display def.var_type

-- The text of the error names the type of the place first and the variable's type last.
unfoldable pub error_of : VariableDefinition → Usage → RuleError
unfolding expected_type
error_of def usage = record {
  locations = def.pos ∷ usage.pos ∷ [];
  message =
      codes "Variable "
      ++ (quoted usage.name
          ++ (codes " of type "
              ++ (quoted usage.type_name
                  ++ (codes " used in position expecting type " ++ quoted (expected_type def)))));
}

-- The check of one use; `none` is a panic or too little fuel of the subtype test.
unfoldable pub check_usage : List VariableDefinition → Usage → Option (List RuleError)
unfolding find_definition accepts expected_type error_of
check_usage defs usage = elim (find_definition usage.name defs) [
  | none ↦ some []
  | some def ↦
      Option.map (λ fits. if fits then [] else error_of def usage ∷ [])
        (accepts usage.type_name (expected_type def))
]

module _ (rule : VariableInAllowedPosition) where
  unfoldable pub enter_operation_definition : Option Text → VariableInAllowedPosition
  enter_operation_definition name = record rule { current_scope = some (operation name) }

  unfoldable pub enter_fragment_definition : Text → VariableInAllowedPosition
  enter_fragment_definition name = record rule { current_scope = some (fragment name) }

  unfoldable pub enter_variable_definition : VariableDefinition → VariableInAllowedPosition
  unfolding scope_discrete extend
  enter_variable_definition def = elim rule.current_scope [
    | none ↦ rule
    | some scope ↦ record rule {
      variable_defs = extend scope_discrete scope (def ∷ []) rule.variable_defs;
    }
  ]

  -- A set of spreads: one that is there already changes nothing.
  unfoldable pub enter_fragment_spread : Text → VariableInAllowedPosition
  unfolding scope_discrete extend items contains text_discrete
  enter_fragment_spread name = elim rule.current_scope [
    | none ↦ rule
    | some scope ↦ record rule {
      spreads =
          extend scope_discrete scope
            (if contains text_discrete name (items scope_discrete scope rule.spreads)
              then []
              else name ∷ [])
            rule.spreads;
    }
  ]

  unfoldable pub enter_input_value :
      {Number : Type 0} → Pos → Option Text → Value Number → VariableInAllowedPosition
  unfolding scope_discrete extend
  enter_input_value pos (some expected) (variable name) = elim rule.current_scope [
    | none ↦ rule
    | some scope ↦ record rule {
      variable_usages =
          extend scope_discrete scope (record { name = name; pos = pos; type_name = expected } ∷ [])
            rule.variable_usages;
    }
  ]
  enter_input_value pos expected value = rule

  -- The scopes that are spread in a scope.
  abbrev pub next_scopes : Scope → List Scope
  next_scopes scope = fragments (items scope_discrete scope rule.spreads)

  -- All scopes that a walk can come to.
  abbrev pub known_scopes : Scope → List Scope
  known_scopes from = from ∷ fragments (values scope_discrete rule.spreads)

-- The loop over the uses in a scope.
unfoldable pub check_all : List VariableDefinition → List Usage → Option (List RuleError)
unfolding check_usage
check_all defs [] = some []
check_all defs (usage ∷ usages) = elim (check_usage defs usage) [
  | none ↦ none
  | some errors ↦ Option.map (λ more. errors ++ more) (check_all defs usages)
]

module _ (rule : VariableInAllowedPosition) (defs : List VariableDefinition) where
  -- What a scope adds to the errors.
  unfoldable pub check_scope : Scope → Option (List RuleError) → Option (List RuleError)
  unfolding items scope_discrete check_all
  check_scope scope none = none
  check_scope scope (some errors) =
      Option.map (λ more. errors ++ more)
        (check_all defs (items scope_discrete scope rule.variable_usages))

  -- `collect_incorrect_usages`; the list of the state is `visited`.
  unfoldable pub collect_incorrect_usages :
      ℕ
      → Scope
      → List Scope × Option (List RuleError)
      → Option (List Scope × Option (List RuleError))
  unfolding walk check_scope scope_discrete items
  collect_incorrect_usages = walk scope_discrete (next_scopes rule) check_scope

  -- The errors of one operation. Fuel for each scope is enough.
  unfoldable pub errors_of : Scope → Option (List RuleError)
  unfolding collect_incorrect_usages values
  errors_of from =
      elim (collect_incorrect_usages (suc (length (known_scopes rule from))) from ([], some [])) [
        | none ↦ none
        | some st ↦ st.1
      ]

-- `exit_document`
unfoldable pub exit_document :
    VariableInAllowedPosition → List (Scope × List VariableDefinition) → Option (List RuleError)
unfolding errors_of
exit_document rule [] = some []
exit_document rule ((scope, defs) ∷ more) = elim (errors_of rule defs scope) [
  | none ↦ none
  | some errors ↦ Option.map (λ others. errors ++ others) (exit_document rule more)
]

-- ===== src/Validation/Scope.antt =====
-- src/validation/utils.rs: the scope that a rule is in, and the errors that rules report
-- (src/validation/visitor.rs).
use async_graphql.Prelude.{ℕ, List, [], ◌∷◌, ◌++◌, map, Text, Option, text_discrete, ℕ_discrete}

pub data Scope : Type 0 where
  operation : Option Text → Scope
  fragment : Text → Scope

unfoldable pub scope_discrete : Discrete Scope
unfolding text_discrete
scope_discrete = hlevel text_discrete

unfoldable pub name_discrete : Discrete (Option Text)
unfolding text_discrete
name_discrete = hlevel text_discrete

-- parser/src/pos.rs
pub record Pos : Type 0 where
  pub line : ℕ
  pub column : ℕ

pub record RuleError : Type 0 where
  pub locations : List Pos
  pub message : Text

-- A name in quotes, as the messages have it.
abbrev pub quoted : Text → Text
quoted name = 34 ∷ (name ++ 34 ∷ [])

-- A variable's name or a fragment's, with a position.
abbrev pub Named : Type 0
Named = Text × Pos

unfoldable pub named_discrete : Discrete Named
unfolding text_discrete ℕ_discrete
named_discrete = hlevel (text_discrete, ℕ_discrete)

-- The fragments spread in a scope, as scopes.
abbrev pub fragments : List Text → List Scope
fragments names = map fragment names

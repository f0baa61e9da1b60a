-- ===== src/Validation.antt =====
-- src/validation/: the rules that walk from scope to scope along the fragment spreads.
pub mod InputValues
pub mod Scope
pub mod Graph
pub mod UnusedVariables
pub mod UndefinedVariables
pub mod UnusedFragments
pub mod VariablePositions

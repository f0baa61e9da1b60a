-- ===== src/Validation/Graph.antt =====
-- The walk that the rules of src/validation/rules/ share: from a scope to the fragments spread in
-- it, each scope once. Each rule has the walk as a method of its own (`find_used_vars`,
-- `find_undef_vars`, `collect_incorrect_usages`), and they differ in what they do at a scope.
pub mod Total
pub mod Reached
pub mod Collected
use async_graphql.Prelude.{
  ℕ, zero, suc, List, [], ◌∷◌, ◌++◌, Bool, true, false, Option, none, some, ◌≡◌, contains,
}

-- The loop over the spreads of a scope: each is handed what the one before it left.
module _ {K St : Type 0} where
  unfoldable pub walk_each : (K → St → Option St) → List K → St → Option St
  walk_each rec [] st = some st
  walk_each rec (k ∷ ks) st = elim (rec k st) [ none ↦ none | some st' ↦ walk_each rec ks st' ]

-- The scopes that can be reached along spreads.
pub data Reach {K : Type 0} (dec : Discrete K) (spreads : K → List K) (from : K) : K → Type 0 where
  here : Reach dec spreads from from
  next :
      {a b : K}
      → Reach dec spreads from a
      → contains dec b (spreads a) ≡ true
      → Reach dec spreads from b

module _ {K S : Type 0} (dec : Discrete K) (spreads : K → List K) (enter : K → S → S) where
  -- The scopes visited so far, the last first, and what the rule has collected. The fuel bounds the
  -- depth of the calls; `none` is too little fuel.
  unfoldable pub walk : ℕ → K → List K × S → Option (List K × S)
  walk zero from st = none
  walk (suc f) from (visited, s) = elim (contains dec from visited) [
    | true ↦ some (visited, s)
    | false ↦ walk_each (walk f) (spreads from) (from ∷ visited, enter from s)
  ]

  -- What has been collected after the scopes of a list were entered, the last one first.
  unfoldable pub enter_all : List K → S → S
  enter_all [] s = s
  enter_all (k ∷ ks) s = enter k (enter_all ks s)

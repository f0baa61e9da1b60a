-- ===== src/Prelude/Multimaps.antt =====
-- Maps to lists: `entry(k).or_default()`, to which items are appended.
use mathlib.Core.Path.{◌≡◌}
use mathlib.Core.Logic.{ite}
use mathlib.Core.Bool.{true}
use mathlib.Core.List.{List, [], ◌∷◌, ◌++◌}
use native.Mathlib.Omega.{arith}
use async_graphql.Prelude.Lists.{contains, contains-append_left, contains-append_right}

module _ {ℓ} {K V : Type ℓ} (dec : Discrete K) where
  -- The items of a key; none for a key that is missing.
  unfoldable pub items : K → List (K × List V) → List V
  items k [] = []
  items k ((j, vs) ∷ m) = ite (dec j k) vs (items k m)

  unfoldable pub extend : K → List V → List (K × List V) → List (K × List V)
  extend k vs [] = (k, vs) ∷ []
  extend k vs ((j, ws) ∷ m) = ite (dec j k) ((j, ws ++ vs) ∷ m) ((j, ws) ∷ extend k vs m)

  pub items-extend :
      (k j : K) (vs : List V) (m : List (K × List V))
      → items j (extend k vs m) ≡ ite (dec k j) (items j m ++ vs) (items j m)
  unfolding items extend
  items-extend k j vs [] = ground arith
  items-extend k j vs ((i, ws) ∷ m) = ground (arith, items-extend k j vs m)

  -- All items of all keys.
  unfoldable pub values : List (K × List V) → List V
  values [] = []
  values ((j, vs) ∷ m) = vs ++ values m

  pub items-values :
      (decV : Discrete V) (k : K) (v : V) (m : List (K × List V))
      → contains decV v (items k m) ≡ true
      → contains decV v (values m) ≡ true
  unfolding items values
  items-values decV k v [] h = h
  items-values decV k v ((j, vs) ∷ m) h = ground (
    arith,
    contains-append_left decV v vs (values m),
    contains-append_right decV v vs (values m),
    items-values decV k v m,
  )

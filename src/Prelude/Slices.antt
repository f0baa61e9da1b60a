-- ===== src/Prelude/Slices.antt =====
-- `strip_prefix` and `strip_suffix` of the standard library, at one character.
use Prim.Native.Nat.{ℕ}
use mathlib.Core.Path.{◌≡◌, refl}
use mathlib.Core.Logic.{◌≢◌}
use mathlib.Core.Bool.{Bool, true, false}
use mathlib.Core.List.{List, [], ◌∷◌, ◌++◌}
use mathlib.Core.Option
use mathlib.Core.Option.{Option, none, some}
use native.Mathlib.Omega.{arith}
use async_graphql.Prelude.Tests.{◌==◌, if◌then◌else◌}
use async_graphql.Prelude.Lists.{all}

unfoldable pub strip_prefix : ℕ → List ℕ → Option (List ℕ)
strip_prefix c [] = none
strip_prefix c (x ∷ s) = if x == c then some s else none

unfoldable pub strip_suffix : ℕ → List ℕ → Option (List ℕ)
strip_suffix c [] = none
strip_suffix c (x ∷ []) = if x == c then some [] else none
strip_suffix c (x ∷ y ∷ s) = Option.map (λ t. x ∷ t) (strip_suffix c (y ∷ s))

pub strip_suffix-append : (c : ℕ) (s : List ℕ) → strip_suffix c (s ++ c ∷ []) ≡ some s
unfolding strip_suffix
strip_suffix-append c [] = ground arith
strip_suffix-append c (x ∷ []) = ground arith
strip_suffix-append c (x ∷ y ∷ s) = rw (strip_suffix-append c (y ∷ s))

pub strip_suffix-append_ne : (c d : ℕ) (s : List ℕ) → d ≢ c → strip_suffix c (s ++ d ∷ []) ≡ none
unfolding strip_suffix
strip_suffix-append_ne c d [] h = ground arith
strip_suffix-append_ne c d (x ∷ []) h = ground arith
strip_suffix-append_ne c d (x ∷ y ∷ s) h = rw (strip_suffix-append_ne c d (y ∷ s) h)

pub strip_suffix-all :
    (p : ℕ → Bool) (c : ℕ) (s : List ℕ) → p c ≡ false → all p s ≡ true → strip_suffix c s ≡ none
unfolding strip_suffix all
strip_suffix-all p c [] e h = refl
strip_suffix-all p c (x ∷ []) e h = ground arith
strip_suffix-all p c (x ∷ y ∷ s) e h =
    let rest : all p (y ∷ s) ≡ true = ground arith in rw (strip_suffix-all p c (y ∷ s) e rest)

pub strip_prefix-all :
    (p : ℕ → Bool) (c : ℕ) (s : List ℕ) → p c ≡ false → all p s ≡ true → strip_prefix c s ≡ none
unfolding strip_prefix all
strip_prefix-all p c [] e h = refl
strip_prefix-all p c (x ∷ s) e h = ground arith

-- ===== src/Prelude/Lists.antt =====
-- Lists measured by native numbers, Boolean membership, and association lists. A `HashSet` of the
-- program is a list read through `contains`; a `HashMap` is a list of pairs read through `get`.
use Prim.Native.Nat.{ℕ, suc, ◌+◌}
use mathlib.Core.Path.{◌≡◌, refl, ap, subst}
use mathlib.Core.Logic.{◌⊎◌, inl, inr, ◌↔◌, ite}
use mathlib.Core.Bool.{Bool, true, false}
use mathlib.Core.List.{List, [], ◌∷◌, ◌++◌, map}
use mathlib.Core.Option.{Option, none, some}
use native.Mathlib.Omega.{arith}
use async_graphql.Prelude.Tests.{if◌then◌else◌, Bool-cases}

module _ {ℓ} {A : Type ℓ} where
  abbrev pub length : List A → ℕ
  length [] = 0
  length (x ∷ xs) = suc (length xs)

  pub length-append : (xs ys : List A) → length (xs ++ ys) ≡ length xs + length ys
  length-append [] ys = omega arith
  length-append (x ∷ xs) ys = omega (arith, length-append xs ys)

  -- `iter().any(p)`
  unfoldable pub any : (A → Bool) → List A → Bool
  any p [] = false
  any p (x ∷ xs) = if p x then true else any p xs

  -- `iter().all(p)`
  unfoldable pub all : (A → Bool) → List A → Bool
  all p [] = true
  all p (x ∷ xs) = if p x then all p xs else false

module _ {ℓ} {A : Type ℓ} (dec : Discrete A) where
  unfoldable pub contains : A → List A → Bool
  contains a [] = false
  contains a (x ∷ xs) = ite (dec x a) true (contains a xs)

  -- `HashSet::insert`: an element that is there already changes nothing.
  unfoldable pub insert : A → List A → List A
  insert a xs = if contains a xs then xs else a ∷ xs

  pub contains-cons_self : (a : A) (xs : List A) → contains a (a ∷ xs) ≡ true
  unfolding contains
  contains-cons_self a xs = ground arith

  pub contains-cons_of : (a x : A) (xs : List A) → contains a xs ≡ true → contains a (x ∷ xs) ≡ true
  unfolding contains
  contains-cons_of a x xs h = ground arith

  pub contains-cons :
      (a x : A) (xs : List A) → contains a (x ∷ xs) ≡ true → (x ≡ a) ⊎ (contains a xs ≡ true)
  unfolding contains
  contains-cons a x xs h = ground arith

  pub contains-insert :
      (a b : A) (xs : List A) → contains a (insert b xs) ≡ ite (dec b a) true (contains a xs)
  unfolding insert contains
  contains-insert a b xs = ground arith

  pub contains-append :
      (a : A) (xs ys : List A)
      → contains a (xs ++ ys) ≡ (if contains a xs then true else contains a ys)
  unfolding contains
  contains-append a [] ys = refl
  contains-append a (x ∷ xs) ys = ground (arith, contains-append a xs ys)

module _ {ℓ} {K V : Type ℓ} (dec : Discrete K) where
  -- `HashMap::get`
  unfoldable pub get : K → List (K × V) → Option V
  get k [] = none
  get k ((j, v) ∷ m) = ite (dec j k) (some v) (get k m)

  -- `HashMap::insert`: the value of a key that is there already is replaced in place.
  unfoldable pub put : K → V → List (K × V) → List (K × V)
  put k v [] = (k, v) ∷ []
  put k v ((j, w) ∷ m) = ite (dec j k) ((j, v) ∷ m) ((j, w) ∷ put k v m)

  pub get-put :
      (k j : K) (v : V) (m : List (K × V)) → get j (put k v m) ≡ ite (dec k j) (some v) (get j m)
  unfolding get put
  get-put k j v [] = refl
  get-put k j v ((i, w) ∷ m) = ground (arith, get-put k j v m)

module _ {ℓ} {A : Type ℓ} (dec : Discrete A) where
  pub contains-append_left :
      (a : A) (xs ys : List A) → contains dec a xs ≡ true → contains dec a (xs ++ ys) ≡ true
  contains-append_left a xs ys h = ground (arith, contains-append dec a xs ys)

  pub contains-append_right :
      (a : A) (xs ys : List A) → contains dec a ys ≡ true → contains dec a (xs ++ ys) ≡ true
  contains-append_right a xs ys h = ground (arith, contains-append dec a xs ys)

  pub contains-append_cases :
      (a : A) (xs ys : List A)
      → contains dec a (xs ++ ys) ≡ true
      → (contains dec a xs ≡ true) ⊎ (contains dec a ys ≡ true)
  contains-append_cases a xs ys h = ground (arith, contains-append dec a xs ys)

module _ {ℓ} {A : Type ℓ} where
  -- `filter`, and `retain`
  unfoldable pub keep : (A → Bool) → List A → List A
  keep p [] = []
  keep p (x ∷ xs) = if p x then x ∷ keep p xs else keep p xs

  pub contains-keep :
      (dec : Discrete A) (p : A → Bool) (a : A) (xs : List A)
      → (contains dec a (keep p xs) ≡ true) ↔ ((contains dec a xs ≡ true) × (p a ≡ true))
  unfolding keep contains
  contains-keep dec p a [] = (λ h. cc, λ h. h.0)
  contains-keep dec p a (x ∷ xs) = elim (dec x a) [
    | yes e ↦ ground (arith, contains-keep dec p a xs, ap p e)
    | no ne ↦ ground (arith, contains-keep dec p a xs)
  ]

module _ {ℓ} {A B : Type ℓ} (dec : Discrete A) (decB : Discrete B) (f : A → B) where
  pub contains-map :
      (b : B) (xs : List A)
      → contains decB b (map f xs) ≡ true
      → (a : A) × (contains dec a xs ≡ true) × (f a ≡ b)
  unfolding contains
  contains-map b [] h = cc
  contains-map b (x ∷ xs) h = elim (contains-cons decB b (f x) (map f xs) h) [
    | inl e ↦ (x, contains-cons_self dec x xs, e)
    | inr later ↦
        let (a, known, e) = contains-map b xs later in (a, contains-cons_of dec a x xs known, e)
  ]

  pub contains-map_of :
      (a : A) (xs : List A) → contains dec a xs ≡ true → contains decB (f a) (map f xs) ≡ true
  unfolding contains
  contains-map_of a [] h = cc
  contains-map_of a (x ∷ xs) h = elim (contains-cons dec a x xs h) [
    | inl e ↦ rw e (contains-cons_self decB (f a) (map f xs))
    | inr later ↦ contains-cons_of decB (f a) (f x) (map f xs) (contains-map_of a xs later)
  ]

  -- What is mapped grows with the list.
  pub contains-map_mono :
      (b : B) (xs ys : List A)
      → ((a : A) → contains dec a xs ≡ true → contains dec a ys ≡ true)
      → contains decB b (map f xs) ≡ true
      → contains decB b (map f ys) ≡ true
  contains-map_mono b xs ys sub h =
      let (a, known, e) = contains-map b xs h in
      subst (λ x. contains decB x (map f ys) ≡ true) e (contains-map_of a ys (sub a known))

module _ {ℓ} {A : Type ℓ} (dec : Discrete A) where
  -- A member for which a test holds.
  pub any-contains :
      (p : A → Bool) (xs : List A)
      → any p xs ≡ true
      → (x : A) × (contains dec x xs ≡ true) × (p x ≡ true)
  unfolding any
  any-contains p [] h = cc
  any-contains p (x ∷ xs) h = elim (Bool-cases (p x)) [
    | inl e ↦ (x, contains-cons_self dec x xs, e)
    | inr e ↦
        let (y, later, e') = any-contains p xs (ground arith) in
        (y, contains-cons_of dec y x xs later, e')
  ]

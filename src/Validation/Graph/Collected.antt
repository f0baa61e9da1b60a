-- ===== src/Validation/Graph/Collected.antt =====
-- A rule that gathers items at each scope has, at the end of the walk, the items of the scopes that
-- can be reached, and no others.
use async_graphql.Prelude.{
  ℕ, ◌<◌, List, [], ◌∷◌, true, some, ◌≡◌, ◌↔◌, ◌⊎◌, inl, inr, contains, contains-cons_self,
  contains-cons_of, contains-cons, length, subst,
}
use async_graphql.Validation.Graph.{Reach, walk, enter_all}
use async_graphql.Validation.Graph.Reached.{walk-Reached}

module _ {K X : Type 0} (dec : Discrete K) (decX : Discrete X) (spreads : K → List K)
    (enter : K → List X → List X) where
  -- What a rule gathers at one scope: exactly the items `x` with `Item k x`, besides what it has.
  pub record Gathers (Item : K → X → Type 0) : Type 0 where
    pub gathered :
        (k : K) (x : X) (xs : List X)
        → contains decX x (enter k xs) ≡ true
        → Item k x ⊎ (contains decX x xs ≡ true)
    pub gathers : (k : K) (x : X) (xs : List X) → Item k x → contains decX x (enter k xs) ≡ true
    pub keeps :
        (k : K) (x : X) (xs : List X)
        → contains decX x xs ≡ true
        → contains decX x (enter k xs) ≡ true

  module _ (Item : K → X → Type 0) (g : Gathers Item) where
    enter_all_sound :
        (ks : List K) (x : X)
        → contains decX x (enter_all dec spreads enter ks []) ≡ true
        → (k : K) × (contains dec k ks ≡ true) × Item k x
    unfolding enter_all contains
    enter_all_sound [] x h = cc
    enter_all_sound (k ∷ ks) x h = elim (g.gathered k x _ h) [
      | inl here ↦ (k, contains-cons_self dec k ks, here)
      | inr later ↦
          let (j, known, item) = enter_all_sound ks x later in
          (j, contains-cons_of dec j k ks known, item)
    ]

    enter_all_complete :
        (ks : List K) (k : K) (x : X)
        → contains dec k ks ≡ true
        → Item k x
        → contains decX x (enter_all dec spreads enter ks []) ≡ true
    unfolding enter_all contains
    enter_all_complete [] k x h item = cc
    enter_all_complete (j ∷ ks) k x h item = elim (contains-cons dec k j ks h) [
      | inl e ↦ g.gathers j x _ (rw e item)
      | inr later ↦ g.keeps j x _ (enter_all_complete ks k x later item)
    ]

    -- The items at the end of a walk that starts with none.
    pub walk-Gathers :
        (scopes : List K) (f : ℕ) (from : K)
        → ((a b : K) → contains dec b (spreads a) ≡ true → contains dec b scopes ≡ true)
        → contains dec from scopes ≡ true
        → length scopes < f
        → (r : List K × List X) × (walk dec spreads enter f from ([], []) ≡ some r)
          × ((x : X)
              → (contains decX x r.1 ≡ true) ↔ ((k : K) × Reach dec spreads from k × Item k x))
    walk-Gathers scopes f from closed known lt =
        let (r, run, w) = walk-Reached dec spreads enter scopes f from [] closed known lt in
        (
          r,
          run,
          λ x. (
            λ h.
                let (k, entered, item) =
                  enter_all_sound r.0 x (subst (λ l. contains decX x l ≡ true) w.collected h) in
                (k, w.sound k entered, item),
            λ (k, reached, item).
                rw w.collected (enter_all_complete r.0 k x (w.complete k reached) item),
          ),
        )

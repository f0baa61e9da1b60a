-- ===== src/Validation/Graph/Reached.antt =====
-- The walk ends with enough fuel, and it has entered exactly the scopes that can be reached.
use async_graphql.Prelude.{
  ℕ, zero, suc, ◌<◌, List, [], ◌∷◌, true, Option, some, ◌≡◌, refl, ◌↔◌, inl, inr, arith, contains,
  contains-cons_self, contains-cons_of, append-nil, Bool-cases, subst, sym, ap, ◌∙◌, length,
}
use async_graphql.Validation.Graph.{walk_each, Reach, here, next, walk, enter_all}
use async_graphql.Validation.Graph.Total.{
  unvisited, unvisited-cons-lt, unvisited-append-le, unvisited-le, contains-single, Walked,
  Walked-none, Walked-old, Walked-enter, Walked-then,
}

module _ {K S : Type 0} (dec : Discrete K) (spreads : K → List K) (enter : K → S → S) where
  -- A run that gave a result, with what it left.
  abbrev pub Ends : Option (List K × S) → List K → List K → S → Type 0
  Ends run targets visited s =
      (r : List K × S) × (run ≡ some r) × Walked dec spreads enter targets visited s r

  module _ (scopes : List K) where
    each-Ends :
        (bound : ℕ) (rec : K → List K × S → Option (List K × S))
        → ((k : K) (visited : List K) (s : S)
            → contains dec k scopes ≡ true
            → unvisited dec scopes visited < bound
            → Ends (rec k (visited, s)) (k ∷ []) visited s)
        → (ks : List K) (visited : List K) (s : S)
        → ((a : K) → contains dec a ks ≡ true → contains dec a scopes ≡ true)
        → unvisited dec scopes visited < bound
        → Ends (walk_each rec ks (visited, s)) ks visited s
    unfolding walk_each
    each-Ends bound rec ends [] visited s known lt =
        ((visited, s), refl, Walked-none dec spreads enter visited s)
    each-Ends bound rec ends (k ∷ ks) visited s known lt =
        let (r, run, w) = ends k visited s (known k (contains-cons_self dec k ks)) lt in
        let fewer : unvisited dec scopes r.0 < bound =
          rw w.marks (omega (arith, unvisited-append-le dec scopes w.new visited)) in
        let (r', run', w') =
          each-Ends bound rec ends ks r.0 r.1 (λ a h. known a (contains-cons_of dec a k ks h))
            fewer in
        (r', rw (run, walk_each) run', Walked-then dec spreads enter k ks visited s r r' w w')

    module _
        (closed : (a b : K)
          → contains dec b (spreads a) ≡ true
          → contains dec b scopes ≡ true) where
      pub walk-Ends :
          (f : ℕ) (from : K) (visited : List K) (s : S)
          → contains dec from scopes ≡ true
          → unvisited dec scopes visited < f
          → Ends (walk dec spreads enter f from (visited, s)) (from ∷ []) visited s
      unfolding walk
      walk-Ends zero from visited s known lt = elim lt [ ]
      walk-Ends (suc f) from visited s known lt = elim (Bool-cases (contains dec from visited)) [
        | inl old ↦ ((visited, s), rw (old, walk), Walked-old dec spreads enter from visited s old)
        | inr fresh ↦
            let (r, run, w) =
              each-Ends f (walk dec spreads enter f) (λ k v s'. walk-Ends f k v s') (spreads from)
                (from ∷ visited) (enter from s) (λ b h. closed from b h)
                (omega (arith, unvisited-cons-lt dec scopes from visited known fresh)) in
            (r, rw (fresh, walk) run, Walked-enter dec spreads enter from visited s r w)
      ]

  -- A walk from one scope with nothing visited before.
  pub record Reached (from : K) (s : S) (r : List K × S) : Type 0 where
    -- The scopes entered are those that can be reached.
    pub sound : (a : K) → contains dec a r.0 ≡ true → Reach dec spreads from a
    pub complete : (a : K) → Reach dec spreads from a → contains dec a r.0 ≡ true
    -- What is collected comes from them, one after the other.
    pub collected : r.1 ≡ enter_all dec spreads enter r.0 s

  Walked-complete :
      (from : K) (s : S) (r : List K × S)
      → Walked dec spreads enter (from ∷ []) [] s r
      → {a : K} → Reach dec spreads from a
      → contains dec a r.0 ≡ true
  Walked-complete from s r w here = w.found from (contains-cons_self dec from [])
  Walked-complete from s r w (next {a} {b} h e) =
      w.closed a b
        (subst (λ l. contains dec a l ≡ true) (w.marks ∙ append-nil w.new)
          (Walked-complete from s r w h))
        e

  Walked-Reached :
      (from : K) (s : S) (r : List K × S)
      → Walked dec spreads enter (from ∷ []) [] s r
      → Reached from s r
  Walked-Reached from s r w =
      let same : r.0 ≡ w.new = w.marks ∙ append-nil w.new in
      record {
        sound = λ a h.
            let (t, ht, hr) = w.reachable a (subst (λ l. contains dec a l ≡ true) same h) in
            subst (λ x. Reach dec spreads x a) (sym (contains-single dec t from ht)) hr;
        complete = λ a h. Walked-complete from s r w h;
        collected = w.collected ∙ ap (λ l. enter_all dec spreads enter l s) (sym same);
      }

  -- A walk from a scope ends with fuel above the number of scopes, and what it has entered are the
  -- scopes that can be reached.
  pub walk-Reached :
      (scopes : List K) (f : ℕ) (from : K) (s : S)
      → ((a b : K) → contains dec b (spreads a) ≡ true → contains dec b scopes ≡ true)
      → contains dec from scopes ≡ true
      → length scopes < f
      → (r : List K × S) × (walk dec spreads enter f from ([], s) ≡ some r) × Reached from s r
  walk-Reached scopes f from s closed known lt =
      let (r, run, w) =
        walk-Ends scopes closed f from [] s known (omega (arith, unvisited-le dec scopes [])) in
      (r, run, Walked-Reached from s r w)

  Walked-complete_from :
      (targets : List K) (s : S) (r : List K × S)
      → Walked dec spreads enter targets [] s r
      → (t : K) → contains dec t targets ≡ true
      → {a : K} → Reach dec spreads t a
      → contains dec a r.0 ≡ true
  Walked-complete_from targets s r w t known here = w.found t known
  Walked-complete_from targets s r w t known (next {a} {b} h e) =
      w.closed a b
        (subst (λ l. contains dec a l ≡ true) (w.marks ∙ append-nil w.new)
          (Walked-complete_from targets s r w t known h))
        e

  -- The same for walks from several scopes, one after the other.
  pub walk_each-Reached :
      (scopes : List K) (f : ℕ) (targets : List K) (s : S)
      → ((a b : K) → contains dec b (spreads a) ≡ true → contains dec b scopes ≡ true)
      → ((a : K) → contains dec a targets ≡ true → contains dec a scopes ≡ true)
      → length scopes < f
      → (r : List K × S) × (walk_each (walk dec spreads enter f) targets ([], s) ≡ some r)
        × ((a : K)
            → (contains dec a r.0 ≡ true)
              ↔ ((t : K) × (contains dec t targets ≡ true) × Reach dec spreads t a))
  walk_each-Reached scopes f targets s closed known lt =
      let (r, run, w) =
        each-Ends scopes f (walk dec spreads enter f) (λ k v s'. walk-Ends scopes closed f k v s')
          targets [] s known (omega (arith, unvisited-le dec scopes [])) in
      (
        r,
        run,
        λ a. (
          λ h. w.reachable a (subst (λ l. contains dec a l ≡ true) (w.marks ∙ append-nil w.new) h),
          λ (t, k, reach). Walked-complete_from targets s r w t k reach,
        ),
      )

-- ===== src/Validation/Graph/Total.antt =====
-- With enough fuel the walk ends, and it has entered exactly the scopes that can be reached.
use async_graphql.Prelude.{
  ℕ, ◌+◌, ◌≤◌, ◌<◌, List, [], ◌∷◌, ◌++◌, true, false, ◌≡◌, refl, ◌∙◌, ap, sym, subst, inl, inr,
  length, arith, contains, contains-cons_self, contains-cons_of, contains-cons,
  contains-append_left, contains-append_right, contains-append_cases, append_assoc, if◌then◌else◌,
}
use async_graphql.Validation.Graph.{Reach, here, next, enter_all}

module _ {K : Type 0} (dec : Discrete K) where
  -- How many members of a list have not been visited.
  unfoldable pub unvisited : List K → List K → ℕ
  unvisited [] visited = 0
  unvisited (u ∷ us) visited = (if contains dec u visited then 0 else 1) + unvisited us visited

  pub unvisited-le : (us visited : List K) → unvisited us visited ≤ length us
  unfolding unvisited
  unvisited-le [] visited = omega arith
  unvisited-le (u ∷ us) visited = ground (arith, unvisited-le us visited)

  unvisited-cons-le :
      (us : List K) (k : K) (visited : List K) → unvisited us (k ∷ visited) ≤ unvisited us visited
  unfolding unvisited
  unvisited-cons-le [] k visited = omega arith
  unvisited-cons-le (u ∷ us) k visited =
      ground (arith, unvisited-cons-le us k visited, contains-cons_of dec u k visited)

  pub unvisited-cons-lt :
      (us : List K) (k : K) (visited : List K)
      → contains dec k us ≡ true
      → contains dec k visited ≡ false
      → unvisited us (k ∷ visited) < unvisited us visited
  unfolding unvisited contains
  unvisited-cons-lt [] k visited h fresh = cc
  unvisited-cons-lt (u ∷ us) k visited h fresh = elim (dec u k) [
    | yes e ↦ ground (arith, unvisited-cons-le us k visited, ap (λ x. contains dec x visited) e)
    | no ne ↦ ground (
      arith,
      unvisited-cons-lt us k visited,
      contains-cons dec k u us,
      contains-cons_of dec u k visited,
    )
  ]

  pub unvisited-append-le :
      (us new visited : List K) → unvisited us (new ++ visited) ≤ unvisited us visited
  unvisited-append-le us [] visited = omega arith
  unvisited-append-le us (k ∷ new) visited =
      omega (arith, unvisited-append-le us new visited, unvisited-cons-le us k (new ++ visited))

  pub contains-single : (a x : K) → contains dec a (x ∷ []) ≡ true → x ≡ a
  unfolding contains
  contains-single a x h = ground arith

  Reach-edge :
      (spreads : K → List K) (from t : K) {a : K}
      → contains dec t (spreads from) ≡ true
      → Reach dec spreads t a
      → Reach dec spreads from a
  Reach-edge spreads from t h here = next here h
  Reach-edge spreads from t h (next r e) = next (Reach-edge spreads from t h r) e

  module _ {S : Type 0} (spreads : K → List K) (enter : K → S → S) where
    -- What a walk from some targets leaves: the scopes that it entered stand before those visited
    -- earlier, and the rule has collected from each of them once.
    pub record Walked (targets : List K) (visited : List K) (s : S) (r : List K × S) : Type 0 where
      pub new : List K
      pub marks : r.0 ≡ new ++ visited
      pub collected : r.1 ≡ enter_all dec spreads enter new s
      pub found : (a : K) → contains dec a targets ≡ true → contains dec a r.0 ≡ true
      pub reachable :
          (a : K)
          → contains dec a new ≡ true
          → (t : K) × (contains dec t targets ≡ true) × Reach dec spreads t a
      pub closed :
          (a b : K)
          → contains dec a new ≡ true
          → contains dec b (spreads a) ≡ true
          → contains dec b r.0 ≡ true

    enter_all-append :
        (xs ys : List K) (s : S)
        → enter_all dec spreads enter (xs ++ ys) s
          ≡ enter_all dec spreads enter xs (enter_all dec spreads enter ys s)
    unfolding enter_all
    enter_all-append [] ys s = refl
    enter_all-append (x ∷ xs) ys s = ap (enter x) (enter_all-append xs ys s)

    pub Walked-keeps :
        {targets visited : List K} {s : S} {r : List K × S} (a : K)
        → Walked targets visited s r
        → contains dec a visited ≡ true
        → contains dec a r.0 ≡ true
    Walked-keeps {targets} {visited} a w h =
        rw w.marks (contains-append_right dec a w.new visited h)

    pub Walked-none : (visited : List K) (s : S) → Walked [] visited s (visited, s)
    unfolding enter_all contains
    Walked-none visited s = record {
      new = [];
      marks = refl;
      collected = refl;
      found = λ a h. cc;
      reachable = λ a h. cc;
      closed = λ a b h k. cc;
    }

    pub Walked-old :
        (from : K) (visited : List K) (s : S)
        → contains dec from visited ≡ true
        → Walked (from ∷ []) visited s (visited, s)
    unfolding enter_all contains
    Walked-old from visited s old = record {
      new = [];
      marks = refl;
      collected = refl;
      found = λ a h. ground arith;
      reachable = λ a h. cc;
      closed = λ a b h k. cc;
    }

    pub Walked-enter :
        (from : K) (visited : List K) (s : S) (r : List K × S)
        → Walked (spreads from) (from ∷ visited) (enter from s) r
        → Walked (from ∷ []) visited s r
    unfolding enter_all
    Walked-enter from visited s r w = record {
      new = w.new ++ from ∷ [];
      marks = w.marks ∙ sym (append_assoc w.new (from ∷ []) visited);
      collected = w.collected ∙ sym (enter_all-append w.new (from ∷ []) s);
      found = λ a h.
          subst (λ x. contains dec x r.0 ≡ true) (contains-single a from h)
            (Walked-keeps from w (contains-cons_self dec from visited));
      reachable = λ a h. elim (contains-append_cases dec a w.new (from ∷ []) h) [
        | inl old ↦
            let (t, ht, hr) = w.reachable a old in
            (from, contains-cons_self dec from [], Reach-edge spreads from t ht hr)
        | inr self ↦ (
          from,
          contains-cons_self dec from [],
          subst (Reach dec spreads from) (contains-single a from self) here,
        )
      ];
      closed = λ a b h k. elim (contains-append_cases dec a w.new (from ∷ []) h) [
        | inl old ↦ w.closed a b old k
        | inr self ↦ w.found b (rw (contains-single a from self) k)
      ];
    }

    pub Walked-then :
        (k : K) (ks : List K) (visited : List K) (s : S) (r r' : List K × S)
        → Walked (k ∷ []) visited s r
        → Walked ks r.0 r.1 r'
        → Walked (k ∷ ks) visited s r'
    unfolding enter_all
    Walked-then k ks visited s r r' w w' = record {
      new = w'.new ++ w.new;
      marks = w'.marks ∙ ap (λ x. w'.new ++ x) w.marks ∙ sym (append_assoc w'.new w.new visited);
      collected =
          w'.collected
          ∙ ap (enter_all dec spreads enter w'.new) w.collected
          ∙ sym (enter_all-append w'.new w.new s);
      found = λ a h. elim (contains-cons dec a k ks h) [
        | inl e ↦ Walked-keeps a w' (w.found a (rw e (contains-cons_self dec a [])))
        | inr later ↦ w'.found a later
      ];
      reachable = λ a h. elim (contains-append_cases dec a w'.new w.new h) [
        | inl late ↦
            let (t, ht, hr) = w'.reachable a late in (t, contains-cons_of dec t k ks ht, hr)
        | inr early ↦
            let (t, ht, hr) = w.reachable a early in
            (t, contains-append_left dec t (k ∷ []) ks ht, hr)
      ];
      closed = λ a b h e. elim (contains-append_cases dec a w'.new w.new h) [
        | inl late ↦ w'.closed a b late e
        | inr early ↦ Walked-keeps b w' (w.closed a b early e)
      ];
    }

-- ===== src/Validation/UnusedFragments/Correct.antt =====
-- What the rule of src/validation/rules/no_unused_fragments.rs reports.
use async_graphql.Prelude.{
  ℕ, suc, List, [], ◌∷◌, ◌++◌, Text, text_discrete, Bool, true, false, not, Option, none, some, ◌≡◌,
  refl, ◌↔◌, inl, inr, arith, length, contains, contains-append_cases, contains-append_left,
  contains-append_right, contains-cons, contains-cons_self, contains-cons_of, contains-keep, keep,
  items-values, values,
}
use async_graphql.Validation.Scope.{
  operation, fragment, scope_discrete, named_discrete, name_discrete, Named,
}
use async_graphql.Validation.Graph.{Reach, walk_each}
use async_graphql.Validation.Graph.Reached.{walk_each-Reached}
use async_graphql.Validation.UnusedFragments.{
  NoUnusedFragments, next_fragments, first_fragments, Found, find_from_fragment,
  find_reachable_fragments, find_all, unused_of,
}

-- A walk that goes on when the one before it ended.
abbrev and_then : {St : Type 0} → Option St → (St → Option St) → Option St
and_then run go = elim run [ none ↦ none | some st ↦ go st ]

walk_each-append :
    {K St : Type 0}
    → (rec : K → St → Option St) (ks js : List K) (st : St)
    → walk_each rec (ks ++ js) st ≡ and_then (walk_each rec ks st) (walk_each rec js)
unfolding walk_each
walk_each-append rec [] js st = refl
walk_each-append rec (k ∷ ks) js st =
    elim (rec k st)
      as (λ r.
        and_then r (walk_each rec (ks ++ js))
        ≡ and_then (and_then r (walk_each rec ks)) (walk_each rec js)) [
          | none ↦ refl
          | some st' ↦ walk_each-append rec ks js st'
        ]

module _ (rule : NoUnusedFragments) where
  -- The fragments spread in the operations.
  all_first : List (Option Text) → List Text
  all_first [] = []
  all_first (name ∷ names) = first_fragments rule name ++ all_first names

  find_all-walk_each :
      (f : ℕ) (operations : List (Option Text)) (found : Found rule)
      → find_all rule f operations found
        ≡ walk_each (find_from_fragment rule f) (all_first operations) found
  unfolding find_all find_reachable_fragments all_first walk_each
  find_all-walk_each f [] found = refl
  find_all-walk_each f (name ∷ names) found =
      rw
        (walk_each-append (find_from_fragment rule f) (first_fragments rule name) (all_first names)
          found)
        (elim (walk_each (find_from_fragment rule f) (first_fragments rule name) found)
          as (λ r.
            and_then r (find_all rule f names)
            ≡ and_then r (walk_each (find_from_fragment rule f) (all_first names))) [
              | none ↦ refl
              | some found' ↦ find_all-walk_each f names found'
            ])

  all_first_sound :
      (operations : List (Option Text)) (t : Text)
      → contains text_discrete t (all_first operations) ≡ true
      → (op : Option Text) × (contains name_discrete op operations ≡ true)
        × (contains text_discrete t (first_fragments rule op) ≡ true)
  unfolding all_first contains
  all_first_sound [] t h = cc
  all_first_sound (name ∷ names) t h =
      elim (contains-append_cases text_discrete t (first_fragments rule name) (all_first names) h) [
        | inl now ↦ (name, contains-cons_self name_discrete name names, now)
        | inr later ↦
            let (op, known, spread) = all_first_sound names t later in
            (op, contains-cons_of name_discrete op name names known, spread)
      ]

  all_first_complete :
      (operations : List (Option Text)) (op : Option Text) (t : Text)
      → contains name_discrete op operations ≡ true
      → contains text_discrete t (first_fragments rule op) ≡ true
      → contains text_discrete t (all_first operations) ≡ true
  unfolding all_first contains
  all_first_complete [] op t h k = cc
  all_first_complete (name ∷ names) op t h k = elim (contains-cons name_discrete op name names h) [
    | inl e ↦
        contains-append_left text_discrete t (first_fragments rule name) (all_first names) (rw e k)
    | inr later ↦
        contains-append_right text_discrete t (first_fragments rule name) _
          (all_first_complete names op t later k)
  ]

  -- A fragment that one of the operations spreads, directly or not.
  abbrev pub Used : List (Option Text) → Text → Type 0
  Used operations name =
      (op : Option Text) × (first : Text) × (contains name_discrete op operations ≡ true)
      × (contains text_discrete first (first_fragments rule op) ≡ true)
      × Reach text_discrete (next_fragments rule) first name

  not_of : (b : Bool) → ¬ (b ≡ true) → not b ≡ true
  not_of true h = absurd (h refl)
  not_of false h = refl

  -- The rule comes to an answer, and it reports exactly those fragments of the document that no
  -- operation spreads, neither itself nor by a fragment that can be reached from it.
  pub unused_fragments_iff :
      (operations : List (Option Text))
      → (unused : List Named) × (unused_of rule operations ≡ some unused)
        × ((v : Named)
            → (contains named_discrete v unused ≡ true) ↔ (
                (contains named_discrete v rule.defined_fragments ≡ true)
                × ¬ (Used operations v.0)))
  unfolding unused_of find_from_fragment
  unused_fragments_iff operations =
      let scopes = values scope_discrete rule.spreads in
      let (r, run, answer) =
        walk_each-Reached text_discrete (next_fragments rule) (λ name done. done) scopes
          (suc (length scopes)) (all_first operations) tt
          (λ a b h. items-values scope_discrete text_discrete (fragment a) b rule.spreads h)
          (λ a h.
            let (op, known, spread) = all_first_sound operations a h in
            items-values scope_discrete text_discrete (operation op) a rule.spreads spread)
          (omega arith) in
      (
        keep (λ v. not (contains text_discrete v.0 r.0)) rule.defined_fragments,
        rw (find_all-walk_each (suc (length scopes)) operations ([], tt), run),
        λ v. (
          λ h.
              let (k, absent) = (contains-keep named_discrete _ v rule.defined_fragments).0 h in
              (
                k,
                λ (op, first, known, spread, reach).
                    let found =
                      (answer v.0).1
                        (first, all_first_complete operations op first known spread, reach) in
                    ground arith,
              ),
          λ (k, no_use).
              (contains-keep named_discrete (λ w. not (contains text_discrete w.0 r.0)) v
                  rule.defined_fragments).1
                (
                  k,
                  not_of _ (λ found.
                      let (first, known, reach) = (answer v.0).0 found in
                      let (op, of, spread) = all_first_sound operations first known in
                      no_use (op, first, of, spread, reach)),
                ),
        ),
      )

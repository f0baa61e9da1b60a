-- ===== src/Schema/Limits/Decides.antt =====
-- The loops of the limits of src/schema.rs come to a result if the checks of the items do.
use async_graphql.Prelude.{
  List, [], ◌∷◌, Text, Option, none, some, ◌≡◌, refl, ◌↔◌, Result, ok, err, subst, some-injective,
}
use async_graphql.Document.{Selection, SelectionSet, Selections, nil, cons, ExecutableDocument}
use async_graphql.Schema.Limits.{ServerError, Checked, passed, each, each_operation}
use async_graphql.Schema.Limits.Nested.{Among, first, later}

-- A check that comes to a result, which is good exactly under a condition.
abbrev pub Decides : Checked → Type 0 → Type 0
Decides check P = (r : Result ServerError (Unit {0})) × (check ≡ some r) × ((r ≡ ok tt) ↔ P)

abbrev stopped : ServerError → Result ServerError (Unit {0})
stopped e = err e

module _ {Number : Type 0} (P : Selection Number → Type 0) where
  -- A condition on all items.
  abbrev pub All : Selections Number → Type 0
  All selections = (s : Selection Number) → Among s selections → P s

  All-nil : All nil
  All-nil s k = elim k [ ]

  All-cons : (s : Selection Number) (rest : Selections Number) → P s → All rest → All (cons s rest)
  All-cons s rest here others t first = here
  All-cons s rest here others t (later k) = others t k

  each-error :
      (check : Selection Number → Checked) (s : Selection Number) (rest : Selections Number)
      (e : ServerError)
      → check s ≡ some (err e)
      → (stopped e ≡ ok tt) ↔ P s
      → Decides (each check (cons s rest)) (All (cons s rest))
  unfolding each
  each-error check s rest e run iff =
      (err e, rw (run, each) refl, (λ h. cc, λ h. iff.1 (h s first)))

  each-passed :
      (check : Selection Number → Checked) (s : Selection Number) (rest : Selections Number)
      → check s ≡ passed
      → P s
      → Decides (each check rest) (All rest)
      → Decides (each check (cons s rest)) (All (cons s rest))
  unfolding each
  each-passed check s rest run here (q, more, others) = (
    q,
    rw (run, each) more,
    (λ h. All-cons s rest here (others.0 h), λ h. others.1 (λ t k. h t (later k))),
  )

  each-cons :
      (check : Selection Number → Checked) (s : Selection Number) (rest : Selections Number)
      → (r : Result ServerError (Unit {0})) → check s ≡ some r
      → (r ≡ ok tt) ↔ P s
      → Decides (each check rest) (All rest)
      → Decides (each check (cons s rest)) (All (cons s rest))
  each-cons check s rest (err e) run iff others = each-error check s rest e run iff
  each-cons check s rest (ok tt) run iff others = each-passed check s rest run (iff.0 refl) others

  pub each-Decides :
      (check : Selection Number → Checked) (selections : Selections Number)
      → ((s : Selection Number) → Among s selections → Decides (check s) (P s))
      → Decides (each check selections) (All selections)
  unfolding each
  each-Decides check nil decides = (ok tt, refl, (λ h. All-nil, λ h. refl))
  each-Decides check (cons s rest) decides =
      let (r, run, iff) = decides s first in
      each-cons check s rest r run iff (each-Decides check rest (λ t k. decides t (later k)))

module _ {Number : Type 0} (doc : ExecutableDocument Number) where
  -- The check of what a selection leads to, if it leads to a set.
  abbrev pub follow : Option (SelectionSet Number) → (SelectionSet Number → Checked) → Checked
  follow lead rec = elim lead [ none ↦ passed | some set ↦ rec set ]

  pub follow-Decides :
      (Q : SelectionSet Number → Type 0) (rec : SelectionSet Number → Checked)
      → (lead : Option (SelectionSet Number))
      → ((set : SelectionSet Number) → lead ≡ some set → Decides (rec set) (Q set))
      → Decides (follow lead rec) ((set : SelectionSet Number) → lead ≡ some set → Q set)
  follow-Decides Q rec none decides = (ok tt, refl, (λ h set e. cc, λ h. refl))
  follow-Decides Q rec (some a) decides =
      let (r, run, iff) = decides a refl in
      (r, run, (λ h set e. subst Q (some-injective a set e) (iff.0 h), λ h. iff.1 (h a refl)))

module _ {Number : Type 0} (Q : SelectionSet Number → Type 0) where
  -- A condition on the selection sets of all operations.
  unfoldable pub AllOperations : List (Option Text × SelectionSet Number) → Type 0
  AllOperations [] = Unit {0}
  AllOperations ((name, set) ∷ operations) = Q set × AllOperations operations

  pub operation-cons :
      (check : SelectionSet Number → Checked) (name : Option Text) (set : SelectionSet Number)
      → (operations : List (Option Text × SelectionSet Number)) (r : Result ServerError (Unit {0}))
      → check set ≡ some r
      → (r ≡ ok tt) ↔ Q set
      → Decides (each_operation check operations) (AllOperations operations)
      → Decides
          (each_operation check ((name, set) ∷ operations))
          (AllOperations ((name, set) ∷ operations))
  unfolding each_operation AllOperations
  operation-cons check name set operations (err e) run iff others =
      (err e, rw (run, each_operation) refl, (λ h. cc, λ h. iff.1 h.0))
  operation-cons check name set operations (ok tt) run iff (q, more, rest) =
      (q, rw (run, each_operation) more, (λ h. (iff.0 refl, rest.0 h), λ h. rest.1 h.1))

module _ {Number : Type 0} (Known Q : SelectionSet Number → Type 0) where
  -- The operations' check, where something is known of each of them.
  pub each_operation-Decides :
      (check : SelectionSet Number → Checked)
      → (operations : List (Option Text × SelectionSet Number)) → AllOperations Known operations
      → ((set : SelectionSet Number) → Known set → Decides (check set) (Q set))
      → Decides (each_operation check operations) (AllOperations Q operations)
  unfolding each_operation AllOperations
  each_operation-Decides check [] known decides = (ok tt, refl, (λ h. tt, λ h. refl))
  each_operation-Decides check ((name, set) ∷ operations) known decides =
      let (r, run, iff) = decides set known.0 in
      operation-cons Q check name set operations r run iff
        (each_operation-Decides check operations known.1 decides)

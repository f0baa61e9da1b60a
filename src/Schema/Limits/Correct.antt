-- ===== src/Schema/Limits/Correct.antt =====
-- What the limits of src/schema.rs come to for a whole document.
use async_graphql.Prelude.{
  ℕ, suc, List, [], ◌∷◌, Text, Option, some, ◌≡◌, refl, ◌↔◌, arith, Result, ok, err,
}
use async_graphql.Document.{SelectionSet, ExecutableDocument, operation_sets}
use async_graphql.Schema.Limits.{
  ServerError, check_set_depth, check_recursive_depth, check_set_directives, check_max_directives,
  check_limits,
}
use async_graphql.Schema.Limits.Decides.{Decides, AllOperations, each_operation-Decides}
use async_graphql.Schema.Limits.Depth.{Fits, check_set_depth-Decides}
use async_graphql.Schema.Limits.Directives.{AllFew, check_set_directives-Decides}

all_known :
    {Number : Type 0}
    → (operations : List (Option Text × SelectionSet Number))
    → AllOperations (λ set. Unit {0}) operations
unfolding AllOperations
all_known [] = tt
all_known ((name, set) ∷ operations) = (tt, all_known operations)

module _ {Number : Type 0} (doc : ExecutableDocument Number) where
  -- The check of the depth comes to a result for each document, also if fragments spread each other
  -- in a circle, and it passes exactly the documents in which each selection set that is inside of
  -- an operation, along fields, inline fragments and spreads, is inside by no more steps than the
  -- limit.
  pub check_recursive_depth-Decides :
      (max_depth : ℕ)
      → Decides
          (check_recursive_depth doc max_depth)
          (AllOperations (λ set. Fits doc max_depth set 0) (operation_sets doc))
  unfolding check_recursive_depth
  check_recursive_depth-Decides max_depth =
      each_operation-Decides (λ set. Unit {0}) (λ set. Fits doc max_depth set 0)
        (λ set. check_set_depth doc max_depth (suc (suc max_depth)) set 0) (operation_sets doc)
        (all_known (operation_sets doc))
        (λ set known.
          check_set_depth-Decides doc max_depth (suc (suc max_depth)) set 0 (omega arith)
            (omega arith))

  -- What both checks ask for.
  abbrev pub KeepsLimits : ℕ → ℕ → Type 0
  KeepsLimits max_depth limit =
      AllOperations (λ set. Fits doc max_depth set 0) (operation_sets doc)
      × AllOperations (AllFew doc limit) (operation_sets doc)

  limits_of :
      (max_depth limit : ℕ) (r : Result ServerError (Unit {0}))
      → check_recursive_depth doc max_depth ≡ some r
      → (r ≡ ok tt) ↔ AllOperations (λ set. Fits doc max_depth set 0) (operation_sets doc)
      → Decides (check_limits doc max_depth (some limit)) (KeepsLimits max_depth limit)
  unfolding check_limits check_max_directives
  limits_of max_depth limit (err e) run iff =
      (err e, rw (run, check_limits) refl, (λ h. cc, λ h. iff.1 h.0))
  limits_of max_depth limit (ok tt) run iff =
      let (q, more, few) =
        each_operation-Decides (λ set. Fits doc max_depth set 0) (AllFew doc limit)
          (check_set_directives doc limit (suc (suc max_depth))) (operation_sets doc) (iff.0 refl)
          (λ set fits.
            check_set_directives-Decides doc limit (suc (suc max_depth)) set
              (λ c n nested. omega (arith, fits c n nested))) in
      (q, rw (run, check_limits) more, (λ h. (iff.0 refl, few.0 h), λ h. few.1 h.1))

  -- With a limit of directives too, the two checks together come to a result for each document:
  -- the first protects the second from fragments that spread each other in a circle. They pass
  -- exactly the documents that are not too deep and in which no field that an operation comes to has
  -- more directives than the limit.
  pub check_limits-Decides :
      (max_depth limit : ℕ)
      → Decides (check_limits doc max_depth (some limit)) (KeepsLimits max_depth limit)
  check_limits-Decides max_depth limit =
      let (r, run, iff) = check_recursive_depth-Decides max_depth in
      limits_of max_depth limit r run iff

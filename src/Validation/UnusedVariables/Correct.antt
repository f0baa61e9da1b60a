-- ===== src/Validation/UnusedVariables/Correct.antt =====
-- What the rule of src/validation/rules/no_unused_variables.rs reports.
use async_graphql.Prelude.{
  suc, List, [], ◌∷◌, Text, text_discrete, Bool, true, false, not, Option, some, ◌≡◌, refl, ◌↔◌,
  arith, length, contains, insert, contains-insert, contains-cons_self, contains-cons_of,
  contains-keep, keep, ap, ◌&&◌, contains-map_of, contains-map_mono, items, items-values, values,
  if◌then◌else◌,
}
use async_graphql.Validation.Scope.{
  Scope, operation, fragment, scope_discrete, named_discrete, Named, fragments,
}
use async_graphql.Validation.Graph.{Reach}
use async_graphql.Validation.Graph.Collected.{Gathers, walk-Gathers}
use async_graphql.Validation.UnusedVariables.{
  NoUnusedVariables, names, next_scopes, known_scopes, use_all, find_used_vars, unused_of,
}

module _ (rule : NoUnusedVariables) where
  use_all-contains :
      (defined vars used : List Text) (x : Text)
      → contains text_discrete x (use_all rule defined vars used) ≡ (
          if contains text_discrete x used
          then true
          else contains text_discrete x vars && contains text_discrete x defined)
  unfolding use_all contains
  use_all-contains defined [] used x = ground arith
  use_all-contains defined (var ∷ vars) used x = elim (text_discrete var x) [
    | yes e ↦ ground (
      arith,
      use_all-contains defined vars
          (if contains text_discrete var defined then insert text_discrete var used else used) x,
      contains-insert text_discrete x var used,
      ap (λ v. contains text_discrete v defined) e,
    )
    | no ne ↦ ground (
      arith,
      use_all-contains defined vars
          (if contains text_discrete var defined then insert text_discrete var used else used) x,
      contains-insert text_discrete x var used,
    )
  ]

  not_of : (b : Bool) → ¬ (b ≡ true) → not b ≡ true
  not_of true h = absurd (h refl)
  not_of false h = refl

  -- A variable that a scope uses.
  abbrev pub Uses : Scope → Text → Type 0
  Uses scope x = contains text_discrete x (items scope_discrete scope rule.used_variables) ≡ true

  gathers-Uses :
      (defined : List Text)
      → Gathers scope_discrete text_discrete
          (next_scopes rule)
          (λ scope used. use_all rule defined (items scope_discrete scope rule.used_variables) used)
          (λ scope x. Uses scope x × (contains text_discrete x defined ≡ true))
  gathers-Uses defined = record {
    gathered = λ scope x used h.
        ground
          (arith, use_all-contains defined (items scope_discrete scope rule.used_variables) used x);
    gathers = λ scope x used h.
        ground
          (arith, use_all-contains defined (items scope_discrete scope rule.used_variables) used x);
    keeps = λ scope x used h.
        ground
          (arith, use_all-contains defined (items scope_discrete scope rule.used_variables) used x);
  }

  spreads_known :
      (from a b : Scope)
      → contains scope_discrete b (next_scopes rule a) ≡ true
      → contains scope_discrete b (known_scopes rule from) ≡ true
  spreads_known from a b h = contains-cons_of scope_discrete b from _ (
      contains-map_mono text_discrete scope_discrete fragment b _ _
        (λ v k. items-values scope_discrete text_discrete a v rule.spreads k) h)

  -- For each operation the rule comes to an answer, and it reports exactly those of the operation's
  -- variables that neither the operation nor a fragment that can be reached from it along spreads
  -- uses.
  pub unused_of_iff :
      (op_name : Option Text) (def_vars : List Named)
      → (vars : List Named) × (unused_of rule op_name def_vars ≡ some vars)
        × ((v : Named)
            → (contains named_discrete v vars ≡ true) ↔ (
                (contains named_discrete v def_vars ≡ true)
                × ¬ (
                    (scope : Scope) × Reach scope_discrete
                      (next_scopes rule)
                      (operation op_name)
                      scope
                    × Uses scope v.0)))
  unfolding unused_of find_used_vars
  unused_of_iff op_name def_vars =
      let from = operation op_name in
      let (r, run, answer) =
        walk-Gathers scope_discrete text_discrete (next_scopes rule) _ _
          (gathers-Uses (names def_vars)) (known_scopes rule from)
          (suc (length (known_scopes rule from))) from (spreads_known from)
          (contains-cons_self scope_discrete from (fragments (values scope_discrete rule.spreads)))
          (omega arith) in
      (
        keep (λ v. not (contains text_discrete v.0 r.1)) def_vars,
        rw run,
        λ v. (
          λ h.
              let (k, absent) = (contains-keep named_discrete _ v def_vars).0 h in
              let known = contains-map_of named_discrete text_discrete (λ w. w.0) v def_vars k in
              (
                k,
                λ (scope, reach, uses).
                    let used = (answer v.0).1 (scope, reach, (uses, known)) in ground arith,
              ),
          λ (k, no_use).
              (contains-keep named_discrete (λ w. not (contains text_discrete w.0 r.1)) v
                  def_vars).1
                (
                  k,
                  not_of _ (λ used.
                      let (scope, reach, item) = (answer v.0).0 used in
                      no_use (scope, reach, item.0)),
                ),
        ),
      )

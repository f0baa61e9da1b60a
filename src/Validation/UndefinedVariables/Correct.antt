-- ===== src/Validation/UndefinedVariables/Correct.antt =====
-- What the rule of src/validation/rules/no_undefined_variables.rs reports.
use async_graphql.Prelude.{
  suc, List, [], ◌∷◌, ◌++◌, Text, text_discrete, true, false, not, Option, some, ◌≡◌, ◌↔◌, arith,
  length, contains, contains-append, contains-cons_self, contains-cons_of, ap, ◌&&◌,
  contains-map_mono, items-values, values, if◌then◌else◌,
}
use async_graphql.Validation.Scope.{
  Scope, operation, fragment, scope_discrete, named_discrete, Named, fragments,
}
use async_graphql.Validation.Graph.{Reach}
use async_graphql.Validation.Graph.Collected.{Gathers, walk-Gathers}
use async_graphql.Validation.UndefinedVariables.{
  NoUndefinedVariables, next_scopes, known_scopes, used_in, push_undefined, find_undef_vars,
  undefined_of,
}

module _ (rule : NoUndefinedVariables) where
  push_undefined-contains :
      (defined : List Text) (vars undef : List Named) (v : Named)
      → contains named_discrete v (push_undefined rule defined vars undef) ≡ (
          if contains named_discrete v undef
          then true
          else contains named_discrete v vars && not (contains text_discrete v.0 defined))
  unfolding push_undefined contains
  push_undefined-contains defined [] undef v = ground arith
  push_undefined-contains defined (var ∷ vars) undef v = elim (named_discrete var v) [
    | yes e ↦ ground (
      arith,
      push_undefined-contains defined vars
          (if contains text_discrete var.0 defined then undef else undef ++ var ∷ []) v,
      contains-append named_discrete v undef (var ∷ []),
      ap (λ w. contains text_discrete w.0 defined) e,
    )
    | no ne ↦ ground (
      arith,
      push_undefined-contains defined vars
          (if contains text_discrete var.0 defined then undef else undef ++ var ∷ []) v,
      contains-append named_discrete v undef (var ∷ []),
    )
  ]

  -- A use of a variable in a scope that is not among the variables `defined`.
  abbrev pub UsesUndefined : List Text → Scope → Named → Type 0
  UsesUndefined defined scope v =
      (contains named_discrete v (used_in scope rule.used_variables) ≡ true)
      × (contains text_discrete v.0 defined ≡ false)

  gathers-UsesUndefined :
      (defined : List Text)
      → Gathers scope_discrete named_discrete
          (next_scopes rule)
          (λ scope undef. push_undefined rule defined (used_in scope rule.used_variables) undef)
          (UsesUndefined defined)
  gathers-UsesUndefined defined = record {
    gathered = λ scope v undef h.
        ground (arith, push_undefined-contains defined (used_in scope rule.used_variables) undef v);
    gathers = λ scope v undef h.
        ground (arith, push_undefined-contains defined (used_in scope rule.used_variables) undef v);
    keeps = λ scope v undef h.
        ground (arith, push_undefined-contains defined (used_in scope rule.used_variables) undef v);
  }

  spreads_known :
      (from a b : Scope)
      → contains scope_discrete b (next_scopes rule a) ≡ true
      → contains scope_discrete b (known_scopes rule from) ≡ true
  spreads_known from a b h = contains-cons_of scope_discrete b from _ (
      contains-map_mono text_discrete scope_discrete fragment b _ _
        (λ v k. items-values scope_discrete text_discrete a v rule.spreads k) h)

  -- For each operation the rule comes to an answer, and it reports exactly the uses of a variable
  -- that the operation does not define, in the operation or in a fragment that can be reached from
  -- it along spreads.
  pub undefined_of_iff :
      (op_name : Option Text) (def_vars : List Text)
      → (undef : List Named) × (undefined_of rule op_name def_vars ≡ some undef)
        × ((v : Named)
            → (contains named_discrete v undef ≡ true) ↔ (
                (scope : Scope) × Reach scope_discrete (next_scopes rule) (operation op_name) scope
                × UsesUndefined def_vars scope v))
  unfolding undefined_of find_undef_vars
  undefined_of_iff op_name def_vars =
      let from = operation op_name in
      let (r, run, answer) =
        walk-Gathers scope_discrete named_discrete (next_scopes rule) _ _
          (gathers-UsesUndefined def_vars) (known_scopes rule from)
          (suc (length (known_scopes rule from))) from (spreads_known from)
          (contains-cons_self scope_discrete from (fragments (values scope_discrete rule.spreads)))
          (omega arith) in
      (r.1, rw run, answer)

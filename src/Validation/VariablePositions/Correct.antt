-- ===== src/Validation/VariablePositions/Correct.antt =====
-- When the rule of src/validation/rules/variables_in_allowed_position.rs reports nothing.
use mathlib.Core.List.{Memᴰ}
use mathlib.Core.List.Memᴰ
use mathlib.Core.Option
use async_graphql.Prelude.{
  suc, List, [], ◌∷◌, ◌++◌, text_discrete, true, some, ◌≡◌, refl, ◌↔◌, inl, inr, arith, length,
  contains, contains-cons, contains-cons_self, contains-cons_of, contains-map_mono, items,
  items-values, values, ◌∙◌, subst,
}
use async_graphql.Validation.Scope.{Scope, fragment, fragments, scope_discrete, RuleError}
use async_graphql.Validation.Graph.{Reach, enter_all}
use async_graphql.Validation.Graph.Reached.{walk-Reached}
use async_graphql.Validation.VariablePositions.{
  VariableDefinition, VariableInAllowedPosition, Usage, next_scopes, known_scopes, check_scope,
  collect_incorrect_usages, errors_of,
}
use async_graphql.Validation.VariablePositions.Allowed.{AllowedUse, HasType, WellNamed}
use async_graphql.Validation.VariablePositions.Settled.{Settles, append-eq-nil, check_all-Settles}

items-Memᴰ :
    (scope : Scope) (usage : Usage) (m : List (Scope × List Usage))
    → Memᴰ usage (items scope_discrete scope m)
    → Memᴰ usage (values scope_discrete m)
unfolding items values
items-Memᴰ scope usage [] h = h
items-Memᴰ scope usage ((other, usages) ∷ m) h = elim (scope_discrete other scope) [
  | yes e ↦ Memᴰ.append_left (values scope_discrete m) (subst (Memᴰ usage) (here e) h)
  | no ne ↦ Memᴰ.append_right usages (items-Memᴰ scope usage m (subst (Memᴰ usage) (later ne) h))
]
  where
    here : other ≡ scope → items scope_discrete scope ((other, usages) ∷ m) ≡ usages
    here e = ground arith

    later :
        ¬ (other ≡ scope)
        → items scope_discrete scope ((other, usages) ∷ m) ≡ items scope_discrete scope m
    later ne = ground arith

-- All uses are at places that have types.
abbrev pub Typed : VariableInAllowedPosition → Type 0
Typed rule =
    (usage : Usage) → Memᴰ usage (values scope_discrete rule.variable_usages) → HasType usage

module _ (rule : VariableInAllowedPosition) (defs : List VariableDefinition) where
  -- The uses in a scope are all allowed.
  abbrev pub Allowed : Scope → Type 0
  Allowed scope =
      (usage : Usage)
      → Memᴰ usage (items scope_discrete scope rule.variable_usages)
      → AllowedUse defs usage

  check_scope-Settles :
      (scope : Scope) (errors : List RuleError)
      → WellNamed defs
      → Typed rule
      → Settles (check_scope rule defs scope (some errors)) ((errors ≡ []) × Allowed scope)
  unfolding check_scope
  check_scope-Settles scope errors named typed =
      let (more, run, iff) =
        check_all-Settles defs (items scope_discrete scope rule.variable_usages) named
          (λ usage m. typed usage (items-Memᴰ scope usage rule.variable_usages m)) in
      (
        errors ++ more,
        rw (run, Option.map) refl,
        (
          λ h. let (clean, clean') = (append-eq-nil errors more).0 h in (clean, iff.0 clean'),
          λ (clean, here). (append-eq-nil errors more).1 (clean, iff.1 here),
        ),
      )

  enter_all-Settles :
      (scopes : List Scope)
      → WellNamed defs
      → Typed rule
      → Settles
          (enter_all scope_discrete (next_scopes rule) (check_scope rule defs) scopes (some []))
          ((scope : Scope) → contains scope_discrete scope scopes ≡ true → Allowed scope)
  unfolding enter_all contains
  enter_all-Settles [] named typed = ([], refl, (λ h scope k. cc, λ h. refl))
  enter_all-Settles (scope ∷ scopes) named typed =
      let (errors, run, iff) = enter_all-Settles scopes named typed in
      let (more, run', iff') = check_scope-Settles scope errors named typed in
      (
        more,
        rw (run, enter_all) run',
        (
          λ h other k.
              let (clean, here) = iff'.0 h in
              elim (contains-cons scope_discrete other scope scopes k) [
                | inl e ↦ subst Allowed e here
                | inr later ↦ iff.0 clean other later
              ],
          λ h. iff'.1 (
            iff.1 (λ other k. h other (contains-cons_of scope_discrete other scope scopes k)),
            h scope (contains-cons_self scope_discrete scope scopes),
          ),
        ),
      )

  spreads_known :
      (from a b : Scope)
      → contains scope_discrete b (next_scopes rule a) ≡ true
      → contains scope_discrete b (known_scopes rule from) ≡ true
  spreads_known from a b h = contains-cons_of scope_discrete b from _ (
      contains-map_mono text_discrete scope_discrete fragment b _ _
        (λ v k. items-values scope_discrete text_discrete a v rule.spreads k) h)

  -- When the names in the types of an operation's variables are names, and the places where variables
  -- are used have types, then the rule comes to its errors for the operation. There are none exactly
  -- if in the operation, and in each fragment that can be reached from it along spreads, each use of
  -- a variable that the operation defines is allowed: the type of the variable, non-null if it has a
  -- default value, is compatible with the type of the place by the rules of the specification, and
  -- besides at no depth gives a non-null list where a nullable list is expected.
  pub errors_of_iff :
      (from : Scope)
      → WellNamed defs
      → Typed rule
      → (errors : List RuleError) × (errors_of rule defs from ≡ some errors)
        × ((errors ≡ []) ↔ (
            (scope : Scope) → Reach scope_discrete (next_scopes rule) from scope → Allowed scope))
  unfolding errors_of collect_incorrect_usages
  errors_of_iff from named typed =
      let scopes = known_scopes rule from in
      let (r, run, reached) =
        walk-Reached scope_discrete (next_scopes rule) (check_scope rule defs) scopes
          (suc (length scopes)) from (some []) (spreads_known from)
          (contains-cons_self scope_discrete from (fragments (values scope_discrete rule.spreads)))
          (omega arith) in
      let (errors, all, iff) = enter_all-Settles r.0 named typed in
      (
        errors,
        rw (run, errors_of) (reached.collected ∙ all),
        (
          λ h scope reach. iff.0 h scope (reached.complete scope reach),
          λ h. iff.1 (λ scope k. h scope (reached.sound scope k)),
        ),
      )

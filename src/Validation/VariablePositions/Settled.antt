-- ===== src/Validation/VariablePositions/Settled.antt =====
-- The loop of src/validation/rules/variables_in_allowed_position.rs over the uses in a scope reports
-- those that are not allowed.
use mathlib.Core.List.{Memᴰ}
use mathlib.Core.Option
use async_graphql.Prelude.{
  List, [], ◌∷◌, ◌++◌, Bool, true, false, not, ◌&&◌, Option, none, some, some-injective, ◌≡◌, refl,
  sym, ◌∙◌, ap, subst, ◌↔◌, inl, inr, if◌then◌else◌, Option-cases,
}
use async_graphql.Parser.TypeNames.RoundTrip.{display-injective}
use async_graphql.Registry.TypeNames.{accepts}
use async_graphql.Registry.TypeNames.Subtype.{compatible, gives_non_null_list}
use async_graphql.Validation.Scope.{RuleError}
use async_graphql.Validation.VariablePositions.{
  VariableDefinition, Usage, find_definition, expected_type, error_of, check_usage, check_all,
}
use async_graphql.Validation.VariablePositions.Allowed.{
  given_type, AllowedUse, HasType, WellNamed, find_definition-Defines, Defines-find_definition,
  Defines-Memᴰ, accepts-given,
}

-- A check that comes to its errors, which are none exactly if a condition holds.
abbrev pub Settles : Option (List RuleError) → Type 0 → Type 0
Settles run P = (errors : List RuleError) × (run ≡ some errors) × ((errors ≡ []) ↔ P)

check_usage-fits :
    (defs : List VariableDefinition) (usage : Usage) (def : VariableDefinition) (fits : Bool)
    → find_definition usage.name defs ≡ some def
    → accepts usage.type_name (expected_type def) ≡ some fits
    → check_usage defs usage ≡ some (if fits then [] else error_of def usage ∷ [])
unfolding check_usage
check_usage-fits defs usage def fits found answer =
    rw (found, check_usage, answer, check_usage) refl

no_error :
    (fits : Bool) (def : VariableDefinition) (usage : Usage)
    → ((if fits then [] else error_of def usage ∷ []) ≡ []) ↔ (fits ≡ true)
no_error true def usage = (λ h. refl, λ h. refl)
no_error false def usage = (λ h. cc, λ h. cc)

both_tests : (a b : Bool) → ((a && not b) ≡ true) ↔ ((a ≡ true) × (b ≡ false))
both_tests true true = (λ h. cc, λ h. cc)
both_tests true false = (λ h. (refl, refl), λ h. refl)
both_tests false b = (λ h. cc, λ h. cc)

check_usage-Settles :
    (defs : List VariableDefinition) (usage : Usage)
    → WellNamed defs
    → HasType usage
    → Settles (check_usage defs usage) (AllowedUse defs usage)
unfolding check_usage
check_usage-Settles defs usage named (place, shown, named_place) =
    elim (Option-cases (find_definition usage.name defs)) [
      | inl e ↦ (
        [],
        rw (e, check_usage) refl,
        (λ h def d. undefined e (Defines-find_definition usage.name defs def d), λ h. refl),
      )
      | inr (def, e) ↦
          let d = find_definition-Defines usage.name defs def e in
          let fits =
            compatible place (given_type def) && not (gives_non_null_list place (given_type def)) in
          let answer : accepts usage.type_name (expected_type def) ≡ some fits =
            ap (λ t. accepts t (expected_type def)) (sym shown)
            ∙ accepts-given place def named_place
                (named def (Defines-Memᴰ usage.name defs def d)) in
          (
            if fits then [] else error_of def usage ∷ [],
            check_usage-fits defs usage def fits e answer,
            (
              λ h def' d'.
                  let same : def ≡ def' =
                    some-injective def def'
                      (sym e ∙ Defines-find_definition usage.name defs def' d') in
                  let (fit, no_list) =
                    (both_tests (compatible place (given_type def))
                        (gives_non_null_list place (given_type def))).0
                      ((no_error fits def usage).0 h) in
                  (
                    place,
                    shown,
                    named_place,
                    subst (λ x. compatible place (given_type x) ≡ true) same fit,
                    subst (λ x. gives_non_null_list place (given_type x) ≡ false) same no_list,
                  ),
              λ allowed.
                  let (place', shown', named', fit, no_list) = allowed def d in
                  (no_error fits def usage).1 (
                    subst
                      (λ p.
                        (compatible p (given_type def)
                          && not (gives_non_null_list p (given_type def)))
                        ≡ true)
                      (display-injective place' place named' named_place (shown' ∙ sym shown))
                      ((both_tests (compatible place' (given_type def))
                          (gives_non_null_list place' (given_type def))).1
                        (fit, no_list))),
            ),
          )
    ]
  where
    undefined :
        {B : Type 0} {o : Option VariableDefinition} {def : VariableDefinition}
        → o ≡ none
        → o ≡ some def
        → B
    undefined e f = cc

pub append-eq-nil : (xs ys : List RuleError) → (xs ++ ys ≡ []) ↔ ((xs ≡ []) × (ys ≡ []))
append-eq-nil [] ys = (λ h. (refl, h), λ h. h.1)
append-eq-nil (x ∷ xs) ys = (λ h. cc, λ h. cc)

-- The loop over uses settles if each use does.
pub check_all-Settles :
    (defs : List VariableDefinition) (usages : List Usage)
    → WellNamed defs
    → ((usage : Usage) → Memᴰ usage usages → HasType usage)
    → Settles (check_all defs usages) ((usage : Usage) → Memᴰ usage usages → AllowedUse defs usage)
unfolding check_all
check_all-Settles defs [] named typed = ([], refl, (λ h usage m. elim m [ ], λ h. refl))
check_all-Settles defs (usage ∷ usages) named typed =
    let (errors, run, iff) = check_usage-Settles defs usage named (typed usage (Memᴰ.head refl)) in
    let (more, run', iff') =
      check_all-Settles defs usages named (λ other m. typed other (Memᴰ.tail m)) in
    (
      errors ++ more,
      rw (run, check_all, run', Option.map) refl,
      (
        λ h other m.
            let (clean, clean') = (append-eq-nil errors more).0 h in
            elim m [
              | Memᴰ.head e ↦ subst (AllowedUse defs) (sym e) (iff.0 clean)
              | Memᴰ.tail later ↦ iff'.0 clean' other later
            ],
        λ h.
            (append-eq-nil errors more).1
              (iff.1 (h usage (Memᴰ.head refl)), iff'.1 (λ other m. h other (Memᴰ.tail m))),
      ),
    )

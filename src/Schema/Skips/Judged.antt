-- ===== src/Schema/Skips/Judged.antt =====
-- The test of `remove_skipped_selection` in src/schema.rs answers whether a selection is excluded.
use mathlib.Core.List.{Memᴰ}
use async_graphql.Prelude.{
  List, [], ◌∷◌, Text, codes, text_discrete, text_eq, Bool, true, false, Option, none, some,
  some-injective, ◌≡◌, ◌≢◌, refl, sym, ◌∙◌, ap, subst, ◌⊎◌, inl, inr, Bool-cases, Option-cases,
}
use async_graphql.Value.{ConstValue, Value}
use async_graphql.Document.{Directive, find_argument, get_argument}
use async_graphql.Schema.Skips.{include_of, condition_value, is_skipped}
use async_graphql.Schema.Skips.Excluded.{
  FirstArgument, Truth, Excludes, skips, includes_not, Excluded, text_ne,
  FirstArgument-find_argument, find_argument-FirstArgument, condition_value-Truth,
  Truth-condition_value,
}

skip_ne_include : codes "skip" ≢ codes "include"
skip_ne_include e = cc

include_of-skip : (name : Text) → name ≡ codes "skip" → include_of name ≡ some false
unfolding include_of text_eq
include_of-skip name e = ap include_of e

include_of-include : (name : Text) → name ≡ codes "include" → include_of name ≡ some true
unfolding include_of text_eq
include_of-include name e = ap include_of e

module _ {Number : Type 0} (variables : List (Text × ConstValue Number)) where
  -- What one directive does to the test of a list.
  Judged : Directive Number → List (Directive Number) → Type 0
  Judged directive directives =
      (Excludes variables directive × (is_skipped variables (directive ∷ directives) ≡ true))
      ⊎ (¬ Excludes variables directive
          × (is_skipped variables (directive ∷ directives) ≡ is_skipped variables directives))

  -- A directive that is neither `@skip` nor `@include` excludes nothing.
  judge_other :
      (directive : Directive Number) (directives : List (Directive Number))
      → directive.name ≢ codes "skip"
      → directive.name ≢ codes "include"
      → Judged directive directives
  unfolding Judged is_skipped include_of
  judge_other directive directives no_skip no_include = inr (
    λ excludes. elim excludes [
      | skips e first true_here ↦ no_skip e
      | includes_not e first not_true ↦ no_include e
    ],
    rw
        (
          text_ne directive.name (codes "skip") no_skip,
          is_skipped,
          text_ne directive.name (codes "include") no_include,
          is_skipped,
        )
        refl,
  )

  -- So does one without a condition.
  judge_bare :
      (directive : Directive Number) (directives : List (Directive Number)) (include : Bool)
      → include_of directive.name ≡ some include
      → find_argument (codes "if") directive.arguments ≡ none
      → Judged directive directives
  unfolding Judged is_skipped get_argument
  judge_bare directive directives include e none_there = inr (
    λ excludes. elim excludes [
      | skips e' first true_here ↦
          clash none_there (FirstArgument-find_argument _ _ directive.arguments first)
      | includes_not e' first not_true ↦
          clash none_there (FirstArgument-find_argument _ _ directive.arguments first)
    ],
    rw (e, is_skipped, none_there, is_skipped) refl,
  )
    where
      clash : {o : Option (Value Number)} {v : Value Number} → o ≡ none → o ≡ some v → ⊥
      clash e f = cc

  -- The condition that a directive has is the only one.
  same_condition :
      (directive : Directive Number) (condition other : Value Number)
      → find_argument (codes "if") directive.arguments ≡ some condition
      → FirstArgument (codes "if") other directive.arguments
      → other ≡ condition
  same_condition directive condition other e first =
      some-injective other condition
        (sym (FirstArgument-find_argument (codes "if") other directive.arguments first) ∙ e)

  judge_skip :
      (directive : Directive Number) (directives : List (Directive Number))
      → (condition : Value Number) → directive.name ≡ codes "skip"
      → find_argument (codes "if") directive.arguments ≡ some condition
      → Judged directive directives
  unfolding Judged is_skipped get_argument
  judge_skip directive directives condition name e =
      elim (Bool-cases (condition_value variables condition)) [
        | inl holds ↦ inl (
          skips name (find_argument-FirstArgument (codes "if") condition directive.arguments e)
              (condition_value-Truth variables condition holds),
          rw (include_of-skip directive.name name, is_skipped, e, is_skipped, holds, is_skipped)
              refl,
        )
        | inr fails ↦ inr (
          λ excludes. elim excludes [
            | skips {condition = other} name' first true_here ↦ cc (
              fails,
              Truth-condition_value variables condition (
                  subst (Truth variables) (same_condition directive condition other e first)
                    true_here),
            )
            | includes_not name' first not_true ↦ skip_ne_include (sym name ∙ name')
          ],
          rw (include_of-skip directive.name name, is_skipped, e, is_skipped, fails, is_skipped)
              refl,
        )
      ]

  judge_include :
      (directive : Directive Number) (directives : List (Directive Number))
      → (condition : Value Number) → directive.name ≡ codes "include"
      → find_argument (codes "if") directive.arguments ≡ some condition
      → Judged directive directives
  unfolding Judged is_skipped get_argument
  judge_include directive directives condition name e =
      elim (Bool-cases (condition_value variables condition)) [
        | inr fails ↦ inl (
          includes_not name
              (find_argument-FirstArgument (codes "if") condition directive.arguments e)
              (λ holds. cc (fails, Truth-condition_value variables condition holds)),
          rw (include_of-include directive.name name, is_skipped, e, is_skipped, fails, is_skipped)
              refl,
        )
        | inl holds ↦ inr (
          λ excludes. elim excludes [
            | skips name' first true_here ↦ skip_ne_include (sym name' ∙ name)
            | includes_not {condition = other} name' first not_true ↦ not_true (
                subst (Truth variables) (sym (same_condition directive condition other e first))
                  (condition_value-Truth variables condition holds))
          ],
          rw (include_of-include directive.name name, is_skipped, e, is_skipped, holds, is_skipped)
              refl,
        )
      ]

  judge :
      (directive : Directive Number) (directives : List (Directive Number))
      → Judged directive directives
  judge directive directives = elim (text_discrete directive.name (codes "skip")) [
    | yes name ↦ elim (Option-cases (find_argument (codes "if") directive.arguments)) [
      | inl e ↦ judge_bare directive directives false (include_of-skip directive.name name) e
      | inr (condition, e) ↦ judge_skip directive directives condition name e
    ]
    | no no_skip ↦ elim (text_discrete directive.name (codes "include")) [
      | no no_include ↦ judge_other directive directives no_skip no_include
      | yes name ↦ elim (Option-cases (find_argument (codes "if") directive.arguments)) [
        | inl e ↦ judge_bare directive directives true (include_of-include directive.name name) e
        | inr (condition, e) ↦ judge_include directive directives condition name e
      ]
    ]
  ]

  pub is_skipped_sound :
      (directives : List (Directive Number))
      → is_skipped variables directives ≡ true
      → Excluded variables directives
  unfolding is_skipped Judged
  is_skipped_sound [] h = cc
  is_skipped_sound (directive ∷ directives) h = elim (judge directive directives) [
    | inl (excludes, e) ↦ (directive, Memᴰ.head refl, excludes)
    | inr (passes, e) ↦
        let (other, listed, excludes) = is_skipped_sound directives (sym e ∙ h) in
        (other, Memᴰ.tail listed, excludes)
  ]

  pub is_skipped_complete :
      (directives : List (Directive Number)) (directive : Directive Number)
      → Memᴰ directive directives
      → Excludes variables directive
      → is_skipped variables directives ≡ true
  unfolding is_skipped Judged
  is_skipped_complete [] directive listed excludes = elim listed [ ]
  is_skipped_complete (first ∷ directives) directive (Memᴰ.head e) excludes =
      elim (judge first directives) [
        | inl (excludes', e') ↦ e'
        | inr (passes, e') ↦ absurd (passes (subst (Excludes variables) e excludes))
      ]
  is_skipped_complete (first ∷ directives) directive (Memᴰ.tail listed) excludes =
      let later = is_skipped_complete directives directive listed excludes in
      elim (judge first directives) [ inl (excludes', e') ↦ e' | inr (passes, e') ↦ e' ∙ later ]

-- ===== src/Schema/Skips/Tests.antt =====
-- Runs of `remove_skipped_selection`, and its theorem there.
use async_graphql.Prelude.{List, ℕ, [], ◌∷◌, codes, true, none, ◌≡◌, refl, ◌↔◌}
use async_graphql.Value.{ConstValue, Value, variable, boolean}
use async_graphql.Validation.Scope.{Pos}
use async_graphql.Document.{Directive, Field, Selection, field, nil, cons, selection_set}
use async_graphql.Schema.Skips.{is_skipped, remove_skipped_selection}
use async_graphql.Schema.Skips.Kept.{remove_skipped_selection_iff}
use async_graphql.Schema.Skips.Left.{LeftSet}
use async_graphql.Schema.Skips.Again.{remove_skipped_selection_twice}

abbrev at : Pos
at = record { line = 1; column = 1 }

abbrev condition : Value ℕ
condition = variable (codes "a")

-- @include(if: $a)
abbrev include_a : Directive ℕ
include_a = record {
  name = codes "include";
  pos = at;
  arguments = record { name = codes "if"; pos = at; value = condition } ∷ [];
}

abbrev x_field : List (Directive ℕ) → Field ℕ
x_field directives = record {
  alias = none;
  name = codes "x";
  pos = at;
  arguments = [];
  directives = directives;
}

abbrev x : Selection ℕ
x = field (x_field (include_a ∷ [])) (selection_set at nil)

abbrev x_plain : Selection ℕ
x_plain = field (x_field []) (selection_set at nil)

abbrev truth : ConstValue ℕ
truth = boolean true

includes :
    remove_skipped_selection ((codes "a", truth) ∷ []) (selection_set at (cons x nil))
    ≡ selection_set at (cons x_plain nil)
unfolding remove_skipped_selection
includes = refl

-- A variable without a value in the request skips the field, whatever default its definition has.
missing_skips : is_skipped {Number = ℕ} [] (include_a ∷ []) ≡ true
unfolding is_skipped
missing_skips = refl

remove_skipped_selection_twice_example :
    remove_skipped_selection []
      (remove_skipped_selection ((codes "a", truth) ∷ []) (selection_set at (cons x nil)))
    ≡ remove_skipped_selection ((codes "a", truth) ∷ []) (selection_set at (cons x nil))
remove_skipped_selection_twice_example =
    remove_skipped_selection_twice ((codes "a", truth) ∷ []) [] (selection_set at (cons x nil))

remove_skipped_selection_iff_example :
    (remove_skipped_selection ((codes "a", truth) ∷ []) (selection_set at (cons x nil))
      ≡ selection_set at (cons x_plain nil))
    ↔ LeftSet
        ((codes "a", truth) ∷ [])
        (selection_set at (cons x nil))
        (selection_set at (cons x_plain nil))
remove_skipped_selection_iff_example =
    remove_skipped_selection_iff ((codes "a", truth) ∷ []) (selection_set at (cons x nil))
      (selection_set at (cons x_plain nil))

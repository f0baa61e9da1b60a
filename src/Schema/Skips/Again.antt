-- ===== src/Schema/Skips/Again.antt =====
-- `remove_skipped_selection` of src/schema.rs leaves nothing that depends on variables.
use async_graphql.Prelude.{
  List, [], ◌∷◌, Text, true, false, none, ◌≡◌, refl, arith, keep, Bool-cases, inl, inr, ap,
}
use async_graphql.Value.{ConstValue}
use async_graphql.Document.{
  Directive, Selection, SelectionSet, Selections, field, fragment_spread, inline_fragment,
  selection_set, nil, cons,
}
use async_graphql.Schema.Skips.{
  include_of, is_other, is_skipped, directives_of, remove_skipped_selection, retain_items,
  enter_item,
}

module _ {Number : Type 0} where
  include_of-is_other :
      (directive : Directive Number) → is_other directive ≡ true → include_of directive.name ≡ none
  unfolding is_other include_of
  include_of-is_other directive h = ground arith

  keep_again :
      (directives : List (Directive Number))
      → keep is_other (keep is_other directives) ≡ keep is_other directives
  unfolding keep
  keep_again [] = refl
  keep_again (directive ∷ directives) = ground (arith, keep_again directives)

  module _ (variables : List (Text × ConstValue Number)) where
    is_skipped-keep :
        (directives : List (Directive Number))
        → is_skipped variables (keep is_other directives) ≡ false
    unfolding keep is_skipped
    is_skipped-keep [] = refl
    is_skipped-keep (directive ∷ directives) = elim (Bool-cases (is_other directive)) [
      | inl other ↦
          rw (other, keep, is_skipped, include_of-is_other directive other)
            (is_skipped-keep directives)
      | inr own ↦ rw (own, keep) (is_skipped-keep directives)
    ]

    entered_stays :
        (first : List (Text × ConstValue Number)) (selection : Selection Number)
        → is_skipped variables (directives_of variables (enter_item first selection)) ≡ false
    unfolding enter_item
    entered_stays first (field node set) = is_skipped-keep node.directives
    entered_stays first (fragment_spread node) = is_skipped-keep node.directives
    entered_stays first (inline_fragment node set) = is_skipped-keep node.directives

  module _ (first second : List (Text × ConstValue Number)) where
    mutual
      unfolding remove_skipped_selection

      remove_twice :
          (set : SelectionSet Number)
          → remove_skipped_selection second (remove_skipped_selection first set)
            ≡ remove_skipped_selection first set
      remove_twice (selection_set pos selections) = ap (selection_set pos) (retain_twice selections)

      retain_twice :
          (selections : Selections Number)
          → retain_items second (retain_items first selections) ≡ retain_items first selections
      retain_twice nil = refl
      retain_twice (cons selection selections) =
          elim (Bool-cases (is_skipped first (directives_of first selection))) [
            | inl skipped ↦ rw skipped (retain_twice selections)
            | inr kept ↦
                rw
                  (
                    kept,
                    entered_stays second first selection,
                    enter_twice selection,
                    retain_twice selections,
                  )
                  refl
          ]

      enter_twice :
          (selection : Selection Number)
          → enter_item second (enter_item first selection) ≡ enter_item first selection
      enter_twice (field node set) = rw (keep_again node.directives, remove_twice set) refl
      enter_twice (fragment_spread node) = rw (keep_again node.directives) refl
      enter_twice (inline_fragment node set) =
          rw (keep_again node.directives, remove_twice set) refl

    -- What is left of a selection set is final: to remove skipped selections from it once more, with
    -- whatever variables, changes nothing.
    pub remove_skipped_selection_twice :
        (set : SelectionSet Number)
        → remove_skipped_selection second (remove_skipped_selection first set)
          ≡ remove_skipped_selection first set
    remove_skipped_selection_twice set = remove_twice set

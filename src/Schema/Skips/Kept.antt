-- ===== src/Schema/Skips/Kept.antt =====
-- What `remove_skipped_selection` of src/schema.rs makes of a selection set.
use async_graphql.Prelude.{
  List, [], ◌∷◌, Text, codes, text_discrete, text_eq_iff, true, false, ◌≡◌, refl, sym, ◌∙◌, ap,
  subst, ◌↔◌, inl, inr, keep, arith, Bool-cases,
}
use async_graphql.Value.{ConstValue}
use async_graphql.Document.{
  Directive, Selection, SelectionSet, Selections, field, fragment_spread, inline_fragment,
  selection_set, nil, cons,
}
use async_graphql.Schema.Skips.{
  is_other, is_skipped, directives_of, remove_skipped_selection, retain_items, enter_item,
}
use async_graphql.Schema.Skips.Excluded.{Excluded, text_ne}
use async_graphql.Schema.Skips.Judged.{is_skipped_sound, is_skipped_complete}
use async_graphql.Schema.Skips.Left.{
  Conditional, Stripped, stripped_all, drops, stays, carried, LeftSet, left_set, LeftItems,
  left_nil, excluded, left_cons, LeftItem, left_field, left_spread, left_inline,
}

module _ {Number : Type 0} where
  is_other-Conditional :
      (directive : Directive Number) → is_other directive ≡ false → Conditional directive
  unfolding is_other
  is_other-Conditional directive h = elim (text_discrete directive.name (codes "skip")) [
    | yes e ↦ inl e
    | no ne ↦ elim (text_discrete directive.name (codes "include")) [
      | yes e ↦ inr e
      | no ne' ↦ absurd (
          ground (
            arith,
            h,
            text_ne directive.name (codes "skip") ne,
            text_ne directive.name (codes "include") ne',
          ))
    ]
  ]

  Conditional-is_other :
      (directive : Directive Number) → is_other directive ≡ true → ¬ Conditional directive
  unfolding is_other
  Conditional-is_other directive h (inl e) =
      ground (arith, h, (text_eq_iff directive.name (codes "skip")).1 e)
  Conditional-is_other directive h (inr e) =
      ground (arith, h, (text_eq_iff directive.name (codes "include")).1 e)

  -- The second `retain` strips a list of directives, and only so can it be stripped.
  keep-Stripped :
      (directives : List (Directive Number)) → Stripped directives (keep is_other directives)
  unfolding keep
  keep-Stripped [] = stripped_all
  keep-Stripped (directive ∷ directives) = elim (Bool-cases (is_other directive)) [
    | inl other ↦
        rw (other, keep) (stays (Conditional-is_other directive other) (keep-Stripped directives))
    | inr own ↦
        rw (own, keep) (drops (is_other-Conditional directive own) (keep-Stripped directives))
  ]

  Stripped-keep :
      (directives left : List (Directive Number))
      → Stripped directives left
      → keep is_other directives ≡ left
  unfolding keep
  Stripped-keep directives left stripped_all = refl
  Stripped-keep directives left (drops {directive} {directives = others} conditional rest) =
      elim (Bool-cases (is_other directive)) [
        | inl other ↦ absurd (Conditional-is_other directive other conditional)
        | inr own ↦ rw (own, keep) (Stripped-keep others left rest)
      ]
  Stripped-keep directives left (stays {directive} {directives = others} {left = kept} plain rest) =
      elim (Bool-cases (is_other directive)) [
        | inl other ↦ rw (other, keep) (ap (λ ds. directive ∷ ds) (Stripped-keep others kept rest))
        | inr own ↦ absurd (plain (is_other-Conditional directive own))
      ]

module _ {Number : Type 0} (variables : List (Text × ConstValue Number)) where
  carried-is_skipped :
      (selection : Selection Number)
      → is_skipped variables (carried selection)
        ≡ is_skipped variables (directives_of variables selection)
  carried-is_skipped (field node set) = refl
  carried-is_skipped (fragment_spread node) = refl
  carried-is_skipped (inline_fragment node set) = refl

  is_skipped-not-Excluded :
      (selection : Selection Number)
      → is_skipped variables (directives_of variables selection) ≡ false
      → ¬ Excluded variables (carried selection)
  is_skipped-not-Excluded selection h (directive, listed, excludes) = cc (
    h,
    carried-is_skipped selection,
    is_skipped_complete variables (carried selection) directive listed excludes,
  )

  mutual
    unfolding remove_skipped_selection

    set-Left :
        (set : SelectionSet Number) → LeftSet variables set (remove_skipped_selection variables set)
    set-Left (selection_set pos selections) = left_set (items-Left selections)

    items-Left :
        (selections : Selections Number)
        → LeftItems variables selections (retain_items variables selections)
    items-Left nil = left_nil
    items-Left (cons selection selections) =
        elim (Bool-cases (is_skipped variables (directives_of variables selection))) [
          | inl skipped ↦ rw skipped (
              excluded
                (is_skipped_sound variables (carried selection)
                  (carried-is_skipped selection ∙ skipped))
                (items-Left selections))
          | inr kept ↦ rw kept (
              left_cons (is_skipped-not-Excluded selection kept) (item-Left selection)
                (items-Left selections))
        ]

    item-Left :
        (selection : Selection Number)
        → LeftItem variables selection (enter_item variables selection)
    item-Left (field node set) = left_field (keep-Stripped node.directives) (set-Left set)
    item-Left (fragment_spread node) = left_spread (keep-Stripped node.directives)
    item-Left (inline_fragment node set) =
        left_inline (keep-Stripped node.directives) (set-Left set)

  is_skipped-Excluded :
      (selection : Selection Number)
      → Excluded variables (carried selection)
      → is_skipped variables (directives_of variables selection) ≡ true
  is_skipped-Excluded selection (directive, listed, excludes) =
      sym (carried-is_skipped selection)
      ∙ is_skipped_complete variables (carried selection) directive listed excludes

  mutual
    unfolding remove_skipped_selection

    Left-set :
        (set left : SelectionSet Number)
        → LeftSet variables set left
        → remove_skipped_selection variables set ≡ left
    Left-set set left (left_set {pos} {selections} {left = items} h) =
        ap (selection_set pos) (Left-items selections items h)

    Left-items :
        (selections left : Selections Number)
        → LeftItems variables selections left
        → retain_items variables selections ≡ left
    Left-items selections left left_nil = refl
    Left-items selections left (excluded {selection} {selections = others} h rest) =
        rw (is_skipped-Excluded selection h) (Left-items others left rest)
    Left-items selections left
          (left_cons {selection} {kept} {selections = others} {left = items} h item rest) =
        elim (Bool-cases (is_skipped variables (directives_of variables selection))) [
          | inl skipped ↦ absurd (
              h (
                is_skipped_sound variables (carried selection)
                  (carried-is_skipped selection ∙ skipped)))
          | inr stays_here ↦
              rw (stays_here, Left-item selection kept item, Left-items others items rest) refl
        ]

    Left-item :
        (selection left : Selection Number)
        → LeftItem variables selection left
        → enter_item variables selection ≡ left
    Left-item selection left (left_field {node} {directives} {set} {left = inner} h rest) =
        rw (Stripped-keep node.directives directives h, Left-set set inner rest) refl
    Left-item selection left (left_spread {node} {directives} h) =
        rw (Stripped-keep node.directives directives h) refl
    Left-item selection left (left_inline {node} {directives} {set} {left = inner} h rest) =
        rw (Stripped-keep node.directives directives h, Left-set set inner rest) refl

  -- What `remove_skipped_selection` makes of a selection set is exactly what is left of it: in
  -- order, the selections at which there is no `@skip` whose condition is true and no `@include`
  -- whose condition is not true, a variable being true only if the request gives it this value; each
  -- without its directives `@skip` and `@include`, and a field or inline fragment with what is left
  -- of its own selection set.
  pub remove_skipped_selection_iff :
      (set left : SelectionSet Number)
      → (remove_skipped_selection variables set ≡ left) ↔ LeftSet variables set left
  remove_skipped_selection_iff set left =
      (λ e. subst (LeftSet variables set) e (set-Left set), Left-set set left)

-- ===== src/Schema/Limits.antt =====
-- The limits that src/schema.rs sets to a document before it is validated: `check_recursive_depth`
-- and `check_max_directives`.
pub mod Nested
pub mod Decides
pub mod Depth
pub mod Directives
pub mod Correct
mod Tests
use async_graphql.Prelude.{
  ℕ, zero, suc, List, [], ◌∷◌, ◌++◌, Text, codes, text_discrete, Option, none, some, if◌then◌else◌,
  ltb, length, get, Result, ok, err,
}
use async_graphql.Validation.Scope.{Pos}
use async_graphql.Value.Print.{decimal}
use async_graphql.Document.{
  Selection, SelectionSet, Selections, field, fragment_spread, inline_fragment, nil, cons, items,
  pos_of, is_empty, ExecutableDocument, operation_sets, fragment_set,
}

pub record ServerError : Type 0 where
  pub message : Text
  pub location : Option Pos

-- The result of a check; `none` is too little fuel.
abbrev pub Checked : Type 0
Checked = Option (Result ServerError (Unit {0}))

abbrev pub passed : Checked
passed = some (ok tt)

-- The loop over the items of a selection set, which the first error ends.
unfoldable pub each : {Number : Type 0} → (Selection Number → Checked) → Selections Number → Checked
each check nil = passed
each check (cons selection selections) = elim (check selection) [
  | none ↦ none
  | some result ↦ elim result [ err e ↦ some (err e) | ok done ↦ each check selections ]
]

-- The loop over the operations.
unfoldable pub each_operation :
    {Number : Type 0}
    → (SelectionSet Number → Checked)
    → List (Option Text × SelectionSet Number)
    → Checked
each_operation check [] = passed
each_operation check ((name, set) ∷ operations) = elim (check set) [
  | none ↦ none
  | some result ↦ elim result [ err e ↦ some (err e) | ok done ↦ each_operation check operations ]
]

module _ {Number : Type 0} (doc : ExecutableDocument Number) where
  module _ (max_depth : ℕ) where
    unfoldable pub too_deep : SelectionSet Number → ServerError
    too_deep set = record {
      message =
          codes "The recursion depth of the query cannot be greater than `"
          ++ (decimal max_depth ++ codes "`");
      location = some (pos_of set);
    }

    -- One selection of a set at a depth.
    unfoldable pub check_selection_depth :
        (SelectionSet Number → ℕ → Checked) → ℕ → Selection Number → Checked
    unfolding fragment_set
    check_selection_depth rec depth (field node set) =
        if is_empty (items set) then passed else rec set (suc depth)
    check_selection_depth rec depth (fragment_spread node) =
        elim (fragment_set doc node.fragment_name) [
          | none ↦ passed
          | some set ↦ rec set (suc depth)
        ]
    check_selection_depth rec depth (inline_fragment node set) = rec set (suc depth)

    -- `check_selection_set` of `check_recursive_depth`
    unfoldable pub check_set_depth : ℕ → SelectionSet Number → ℕ → Checked
    unfolding too_deep each check_selection_depth
    check_set_depth zero set depth = none
    check_set_depth (suc f) set depth =
        if ltb max_depth depth
        then some (err (too_deep set))
        else each (check_selection_depth (check_set_depth f) depth) (items set)

    -- `check_recursive_depth`. The depth goes up with each call and is checked, so that fuel for the
    -- depths from 0 to one above the limit is enough.
    unfoldable pub check_recursive_depth : Checked
    unfolding each_operation check_set_depth
    check_recursive_depth =
        each_operation (λ set. check_set_depth (suc (suc max_depth)) set 0) (operation_sets doc)

  module _ (limit_directives : ℕ) where
    unfoldable pub too_many : Text → Pos → ServerError
    too_many name pos = record {
      message =
          codes "The number of directives on the field `"
          ++ (name
              ++ (codes "` cannot be greater than `" ++ (decimal limit_directives ++ codes "`")));
      location = some pos;
    }

    unfoldable pub check_selection_directives :
        (SelectionSet Number → Checked) → Selection Number → Checked
    unfolding too_many fragment_set
    check_selection_directives rec (field node set) =
        if ltb limit_directives (length node.directives)
        then some (err (too_many node.name node.pos))
        else rec set
    check_selection_directives rec (fragment_spread node) =
        elim (fragment_set doc node.fragment_name) [ none ↦ passed | some set ↦ rec set ]
    check_selection_directives rec (inline_fragment node set) = rec set

    -- `check_selection_set` of `check_max_directives`. A fragment that spreads itself takes any fuel.
    unfoldable pub check_set_directives : ℕ → SelectionSet Number → Checked
    unfolding each check_selection_directives
    check_set_directives zero set = none
    check_set_directives (suc f) set =
        each (check_selection_directives (check_set_directives f)) (items set)

    unfoldable pub check_max_directives : ℕ → Checked
    unfolding each_operation check_set_directives
    check_max_directives f = each_operation (check_set_directives f) (operation_sets doc)

  -- The two checks as `prepare_request` makes them: `check_max_directives` only of a document that
  -- passed `check_recursive_depth`.
  unfoldable pub check_limits : ℕ → Option ℕ → Checked
  unfolding check_recursive_depth check_max_directives
  check_limits recursive_depth max_directives = elim (check_recursive_depth recursive_depth) [
    | none ↦ none
    | some result ↦ elim result [
      | err e ↦ some (err e)
      | ok done ↦ elim max_directives [
        | none ↦ passed
        | some limit ↦ check_max_directives limit (suc (suc recursive_depth))
      ]
    ]
  ]

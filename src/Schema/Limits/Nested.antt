-- ===== src/Schema/Limits/Nested.antt =====
-- The selection sets that stand in a selection set or in the fragments that it spreads
-- (src/schema.rs).
use async_graphql.Prelude.{ℕ, suc, Option, none, some, ◌≡◌, if◌then◌else◌, length, ◌≤◌}
use async_graphql.Document.{
  Selection, SelectionSet, Selections, field, fragment_spread, inline_fragment, cons, items,
  is_empty, ExecutableDocument, fragment_set,
}

-- A selection is one of the items.
pub data Among {Number : Type 0} (s : Selection Number) : Selections Number → Type 0 where
  first : {rest : Selections Number} → Among s (cons s rest)
  later : {t : Selection Number} {rest : Selections Number} → Among s rest → Among s (cons t rest)

module _ {Number : Type 0} (doc : ExecutableDocument Number) where
  -- The set that a selection leads to: a field's, if it has items, a fragment's, if there is one.
  unfoldable pub leads_to : Selection Number → Option (SelectionSet Number)
  unfolding fragment_set
  leads_to (field node set) = if is_empty (items set) then none else some set
  leads_to (fragment_spread node) = fragment_set doc node.fragment_name
  leads_to (inline_fragment node set) = some set

  -- A set that is a number of steps inside of another.
  pub data Nested : SelectionSet Number → ℕ → SelectionSet Number → Type 0 where
    self : {a : SelectionSet Number} → Nested a 0 a
    inside :
        {a b c : SelectionSet Number} {n : ℕ} {s : Selection Number}
        → Among s (items a)
        → leads_to s ≡ some b
        → Nested b n c
        → Nested a (suc n) c

-- A field has no more directives than the limit.
unfoldable pub Few : {Number : Type 0} → ℕ → Selection Number → Type 0
Few limit (field node set) = length node.directives ≤ limit
Few limit (fragment_spread node) = Unit {0}
Few limit (inline_fragment node set) = Unit {0}

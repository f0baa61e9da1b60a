-- ===== src/Schema/Limits/Directives.antt =====
-- `check_max_directives` of src/schema.rs ends on a document that is not too deep, and passes exactly
-- what has no field with too many directives.
use async_graphql.Prelude.{
  ℕ, zero, suc, ◌<◌, true, some, ◌≡◌, refl, inl, inr, arith, ltb, length, err, Bool-cases, ◌∙◌,
}
use async_graphql.Document.{
  Selection, SelectionSet, field, fragment_spread, inline_fragment, nil, cons, selection_set, Field,
  items, is_empty, ExecutableDocument,
}
use async_graphql.Schema.Limits.{
  Checked, passed, each, check_selection_directives, check_set_directives, too_many,
}
use async_graphql.Schema.Limits.Nested.{Among, leads_to, Nested, self, inside, Few}
use async_graphql.Schema.Limits.Decides.{Decides, All, each-Decides, follow, follow-Decides}

module _ {Number : Type 0} (doc : ExecutableDocument Number) (limit : ℕ) where
  -- No field that stands in a set, or in what it leads to, has too many directives.
  abbrev pub AllFew : SelectionSet Number → Type 0
  AllFew set =
      (c : SelectionSet Number) (n : ℕ) (s : Selection Number)
      → Nested doc set n c
      → Among s (items c)
      → Few limit s

  -- One selection and what it leads to.
  abbrev FewBelow : Selection Number → Type 0
  FewBelow s = Few limit s × ((b : SelectionSet Number) → leads_to doc s ≡ some b → AllFew b)

  AllFew-of : (set : SelectionSet Number) → All FewBelow (items set) → AllFew set
  AllFew-of set below c n s self k = (below s k).0
  AllFew-of set below c n s (inside {b = b} {s = t} k e nested) among =
      (below t k).1 b e c _ s nested among

  AllFew-inside : (set : SelectionSet Number) → AllFew set → All FewBelow (items set)
  AllFew-inside set few s k =
      (few set 0 s self k, λ b e c n t nested among. few c (suc n) t (inside k e nested) among)

  -- A set is checked with fuel above its depth.
  abbrev pub Shallow : SelectionSet Number → ℕ → Type 0
  Shallow set f = (c : SelectionSet Number) (n : ℕ) → Nested doc set n c → suc n < f

  module _ (rec : SelectionSet Number → Checked)
      (empty : (set : SelectionSet Number) → is_empty (items set) ≡ true → rec set ≡ passed) where
    field-lead :
        (node : Field Number) (set : SelectionSet Number)
        → rec set ≡ follow doc (leads_to doc (field node set)) rec
    unfolding leads_to
    field-lead node set = elim (Bool-cases (is_empty (items set))) [
      | inl e ↦ ground (arith, e, empty set e)
      | inr e ↦ ground (arith, e)
    ]

    selection-FewBelow :
        (s : Selection Number)
        → Decides
            (follow doc (leads_to doc s) rec)
            ((b : SelectionSet Number) → leads_to doc s ≡ some b → AllFew b)
        → Decides (check_selection_directives doc limit rec s) (FewBelow s)
    unfolding check_selection_directives leads_to Few
    selection-FewBelow (field node set) (r, run, iff) =
        elim (Bool-cases (ltb limit (length node.directives))) [
          | inl many ↦ (
            err (too_many doc limit node.name node.pos),
            rw (many, check_selection_directives) refl,
            (λ h. cc, λ h. absurd (ground (arith, h.0))),
          )
          | inr few ↦ (
            r,
            rw (few, check_selection_directives) (field-lead node set ∙ run),
            (λ h. (ground arith, iff.0 h), λ h. iff.1 h.1),
          )
        ]
    selection-FewBelow (fragment_spread node) (r, run, iff) =
        (r, run, (λ h. (tt, iff.0 h), λ h. iff.1 h.1))
    selection-FewBelow (inline_fragment node set) (r, run, iff) =
        (r, run, (λ h. (tt, iff.0 h), λ h. iff.1 h.1))

  empty_passes :
      (f : ℕ) (set : SelectionSet Number)
      → is_empty (items set) ≡ true
      → check_set_directives doc limit (suc f) set ≡ passed
  unfolding check_set_directives each
  empty_passes f (selection_set pos nil) e = refl
  empty_passes f (selection_set pos (cons s rest)) e = cc

  pub check_set_directives-Decides :
      (f : ℕ) (set : SelectionSet Number)
      → Shallow set f
      → Decides (check_set_directives doc limit f set) (AllFew set)
  unfolding check_set_directives
  check_set_directives-Decides zero set shallow =
      absurd (let here = shallow set 0 self in omega arith)
  check_set_directives-Decides (suc zero) set shallow =
      absurd (let here = shallow set 0 self in omega arith)
  check_set_directives-Decides (suc (suc f)) set shallow =
      let (r, run, iff) =
        each-Decides FewBelow
          (check_selection_directives doc limit (check_set_directives doc limit (suc f)))
          (items set)
          (λ s k. selection-FewBelow (check_set_directives doc limit (suc f)) (empty_passes f) s (
            follow-Decides doc AllFew (check_set_directives doc limit (suc f)) (leads_to doc s)
              (λ b e.
                check_set_directives-Decides (suc f) b
                  (λ c n nested. omega (arith, shallow c (suc n) (inside k e nested)))))) in
      (r, run, (λ h. AllFew-of set (iff.0 h), λ h. iff.1 (AllFew-inside set h)))

-- ===== src/Schema/Limits/Depth.antt =====
-- `check_recursive_depth` of src/schema.rs ends, even if fragments spread each other in a circle, and
-- passes exactly what is not too deep.
use async_graphql.Prelude.{
  ℕ, zero, suc, ◌+◌, ◌≤◌, ◌<◌, some, ◌≡◌, refl, inl, inr, arith, ltb, err, Bool-cases, ◌∙◌,
}
use async_graphql.Document.{
  Selection, SelectionSet, field, fragment_spread, inline_fragment, items, ExecutableDocument,
}
use async_graphql.Schema.Limits.{Checked, check_selection_depth, check_set_depth, too_deep}
use async_graphql.Schema.Limits.Nested.{Among, leads_to, Nested, self, inside}
use async_graphql.Schema.Limits.Decides.{Decides, each-Decides, follow, follow-Decides}

module _ {Number : Type 0} (doc : ExecutableDocument Number) where
  module _ (max_depth : ℕ) where
    abbrev pub Fits : SelectionSet Number → ℕ → Type 0
    Fits set depth = (c : SelectionSet Number) (n : ℕ) → Nested doc set n c → depth + n ≤ max_depth

    selection-follow :
        (rec : SelectionSet Number → ℕ → Checked) (depth : ℕ) (s : Selection Number)
        → check_selection_depth doc max_depth rec depth s
          ≡ follow doc (leads_to doc s) (λ set. rec set (suc depth))
    unfolding check_selection_depth leads_to
    selection-follow rec depth (field node set) = ground arith
    selection-follow rec depth (fragment_spread node) = refl
    selection-follow rec depth (inline_fragment node set) = refl

    -- The sets that the items of a set lead to fit one step deeper.
    abbrev FitBelow : SelectionSet Number → ℕ → Type 0
    FitBelow set depth =
        (s : Selection Number)
        → Among s (items set)
        → (b : SelectionSet Number) → leads_to doc s ≡ some b
        → Fits b (suc depth)

    Fits-inside : (set : SelectionSet Number) (depth : ℕ) → Fits set depth → FitBelow set depth
    Fits-inside set depth fits s k b e c n nested =
        omega (arith, fits c (suc n) (inside k e nested))

    Fits-of :
        (set : SelectionSet Number) (depth : ℕ)
        → depth ≤ max_depth
        → FitBelow set depth
        → Fits set depth
    Fits-of set depth here below c n self = omega arith
    Fits-of set depth here below c (suc n) (inside {b = b} {s = s} k e nested) =
        omega (arith, below s k b e c n nested)

    Fits-deep : (set : SelectionSet Number) (depth : ℕ) → max_depth < depth → ¬ Fits set depth
    Fits-deep set depth lt fits = let here = fits set 0 self in omega arith

    some_selection-Decides :
        (rec : SelectionSet Number → ℕ → Checked) (depth : ℕ) (s : Selection Number)
        → ((set : SelectionSet Number) → Decides (rec set (suc depth)) (Fits set (suc depth)))
        → Decides
            (check_selection_depth doc max_depth rec depth s)
            ((b : SelectionSet Number) → leads_to doc s ≡ some b → Fits b (suc depth))
    some_selection-Decides rec depth s decides =
        let (r, run, iff) =
          follow-Decides doc (λ b. Fits b (suc depth)) (λ set. rec set (suc depth)) (leads_to doc s)
            (λ set e. decides set) in
        (r, selection-follow rec depth s ∙ run, iff)

    pub check_set_depth-Decides :
        (f : ℕ) (set : SelectionSet Number) (depth : ℕ)
        → depth ≤ suc max_depth
        → suc max_depth < f + depth
        → Decides (check_set_depth doc max_depth f set depth) (Fits set depth)
    unfolding check_set_depth
    check_set_depth-Decides zero set depth low enough = absurd (omega (arith, low, enough))
    check_set_depth-Decides (suc f) set depth low enough = elim (Bool-cases (ltb max_depth depth)) [
      | inl deep ↦ (
        err (too_deep doc max_depth set),
        rw (deep, check_set_depth) refl,
        (λ h. cc, λ h. absurd (Fits-deep set depth (ground arith) h)),
      )
      | inr fine ↦
          let (r, run, iff) =
            each-Decides
              (λ s. (b : SelectionSet Number) → leads_to doc s ≡ some b → Fits b (suc depth))
              (check_selection_depth doc max_depth (check_set_depth doc max_depth f) depth)
              (items set)
              (λ s k. some_selection-Decides (check_set_depth doc max_depth f) depth s (λ b.
                check_set_depth-Decides f b (suc depth) (ground arith) (omega (arith, enough)))) in
          (
            r,
            rw (fine, check_set_depth) run,
            (
              λ h. Fits-of set depth (ground arith) (λ s k b e. iff.0 h s k b e),
              λ h. iff.1 (λ s k b e. Fits-inside set depth h s k b e),
            ),
          )
    ]

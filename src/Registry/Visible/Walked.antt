-- ===== src/Registry/Visible/Walked.antt =====
-- `traverse_type` of src/registry/mod.rs is the walk of Validation.Graph, but that it marks no name
-- that is unknown or hidden.
use mathlib.Core.Option
use async_graphql.Prelude.{
  ℕ, zero, suc, List, [], ◌∷◌, Text, text_discrete, Bool, true, false, Option, none, some, ◌≡◌,
  refl, sym, ◌∙◌, ap, get, arith, contains, keep, contains-keep, if◌then◌else◌, Bool-cases,
  Option-cases, inl, inr,
}
use async_graphql.Registry.Types.{MetaType, visible_of}
use async_graphql.Registry.Visible.{traverse_type}
use async_graphql.Registry.Visible.Mentions.{in_type, reads_type, traverse_parts-names}
use async_graphql.Validation.Graph.{walk_each, walk}

module _ {Context Number : Type 0} (shown : Option (Context → Bool) → Bool)
    (types : List (Text × MetaType Context Number)) where
  -- Whether a name is that of a type that may be seen.
  unfoldable pub is_known : Text → Bool
  unfolding get text_discrete visible_of
  is_known name = elim (get text_discrete name types) [
    | none ↦ false
    | some ty ↦ shown (visible_of ty)
  ]

  -- The names that the type of a name mentions.
  unfoldable pub mentions : Text → List Text
  unfolding get text_discrete visible_of in_type
  mentions name = elim (get text_discrete name types) [
    | none ↦ []
    | some ty ↦ if shown (visible_of ty) then in_type shown ty else []
  ]

  abbrev pub enter : Text → Unit {0} → Unit {0}
  enter name s = s

  abbrev pub known : List Text × Unit {0} → List Text
  known r = keep is_known r.0

  after_step :
      (rec : List Text → Option (List Text))
      (rec' : List Text × Unit {0} → Option (List Text × Unit {0}))
      → ((r : List Text × Unit {0}) → rec (known r) ≡ Option.map known (rec' r))
      → (o : Option (List Text × Unit {0}))
      → elim (Option.map known o) [ none ↦ none | some used ↦ rec used ]
        ≡ Option.map known (elim o [ none ↦ none | some r ↦ rec' r ])
  after_step rec rec' same none = refl
  after_step rec rec' same (some r) = same r

  walk_each-known :
      (rec : Text → List Text → Option (List Text))
      (rec' : Text → List Text × Unit {0} → Option (List Text × Unit {0}))
      → ((name : Text) (r : List Text × Unit {0})
          → rec name (known r) ≡ Option.map known (rec' name r))
      → (names : List Text) (r : List Text × Unit {0})
      → walk_each rec names (known r) ≡ Option.map known (walk_each rec' names r)
  unfolding walk_each
  walk_each-known rec rec' same [] r = refl
  walk_each-known rec rec' same (name ∷ names) r =
      rw (same name r, walk_each)
        (after_step (walk_each rec names) (walk_each rec' names)
          (walk_each-known rec rec' same names) (rec' name r))

  hidden-visible_of :
      (name : Text) (ty : MetaType Context Number)
      → is_known name ≡ false
      → get text_discrete name types ≡ some ty
      → shown (visible_of ty) ≡ false
  unfolding is_known
  hidden-visible_of name ty h e = sym (rw (e, is_known) refl) ∙ h

  -- A name that is unknown or hidden is passed by.
  traverse_type-hidden :
      (f : ℕ) (name : Text) (used : List Text)
      → is_known name ≡ false
      → traverse_type shown types (suc f) name used ≡ some used
  unfolding traverse_type is_known
  traverse_type-hidden f name used h = elim (Bool-cases (contains text_discrete name used)) [
    | inl e ↦ rw (e, traverse_type) refl
    | inr e ↦ elim (Option-cases (get text_discrete name types)) [
      | inl e' ↦ rw (e, traverse_type, e', traverse_type) refl
      | inr (ty, e') ↦
          rw (e, traverse_type, e', traverse_type, hidden-visible_of name ty h e', traverse_type)
            refl
    ]
  ]

  pub mentions-hidden : (name : Text) → is_known name ≡ false → mentions name ≡ []
  unfolding is_known mentions
  mentions-hidden name h = elim (Option-cases (get text_discrete name types)) [
    | inl e ↦ rw (e, mentions) refl
    | inr (ty, e) ↦ rw (e, mentions) rw (hidden-visible_of name ty h e) refl
  ]

  walk-hidden :
      (f : ℕ) (name : Text) (r : List Text × Unit {0})
      → is_known name ≡ false
      → Option.map known (walk text_discrete mentions enter (suc f) name r) ≡ some (known r)
  unfolding walk walk_each keep
  walk-hidden f name r h = elim (Bool-cases (contains text_discrete name r.0)) [
    | inl e ↦ rw (e, walk) refl
    | inr e ↦ rw (e, walk, mentions-hidden name h, walk_each, h) refl
  ]

  -- A name that is known has a type that may be seen.
  pub known_type :
      (name : Text)
      → is_known name ≡ true
      → (ty : MetaType Context Number) × (get text_discrete name types ≡ some ty)
        × (shown (visible_of ty) ≡ true)
  unfolding is_known
  known_type name h = elim (Option-cases (get text_discrete name types)) [
    | inl e ↦ none_absurd (sym (rw (e, is_known) refl) ∙ h)
    | inr (ty, e) ↦ (ty, e, sym (rw (e, is_known) refl) ∙ h)
  ]
    where
      none_absurd :
          false ≡ true
          → (ty : MetaType Context Number) × (get text_discrete name types ≡ some ty)
            × (shown (visible_of ty) ≡ true)
      none_absurd e = cc

  pub mentions-known :
      (name : Text) (ty : MetaType Context Number)
      → get text_discrete name types ≡ some ty
      → shown (visible_of ty) ≡ true
      → mentions name ≡ in_type shown ty
  unfolding mentions
  mentions-known name ty e visible = rw (e, mentions) rw visible refl

  keep-known :
      (name : Text) (visited : List Text)
      → is_known name ≡ true
      → contains text_discrete name (keep is_known visited) ≡ contains text_discrete name visited
  keep-known name visited h = ground (arith, contains-keep text_discrete is_known name visited)

  module _
      (reads : (name : Text) (ty : MetaType Context Number)
        → get text_discrete name types ≡ some ty
        → reads_type ty ≡ true) where
    -- From a name that is known and not marked, both go on with the names of its type.
    traverse_type-enter :
        (f : ℕ) (name : Text) (r : List Text × Unit {0})
        → ((name : Text) (r : List Text × Unit {0})
            → traverse_type shown types f name (known r)
              ≡ Option.map known (walk text_discrete mentions enter f name r))
        → is_known name ≡ true
        → contains text_discrete name r.0 ≡ false
        → traverse_type shown types (suc f) name (known r)
          ≡ Option.map known (walk text_discrete mentions enter (suc f) name r)
    unfolding walk traverse_type keep
    traverse_type-enter f name r later h fresh =
        let (ty, e, visible) = known_type name h in
        let st : List Text × Unit {0} = (name ∷ r.0, r.1) in
        let same : known st ≡ name ∷ known r = rw (h, keep) refl in
        rw (keep-known name r.0 h ∙ fresh, traverse_type, e, traverse_type, visible, traverse_type)
          rw (fresh, walk, mentions-known name ty e visible)
          (traverse_parts-names shown (traverse_type shown types f) ty (name ∷ known r)
              (reads name ty e)
            ∙ (ap (λ used. walk_each (traverse_type shown types f) (in_type shown ty) used)
                  (sym same)
                ∙ walk_each-known (traverse_type shown types f)
                    (walk text_discrete mentions enter f) later (in_type shown ty) st))

    pub traverse_type-walk :
        (f : ℕ) (name : Text) (r : List Text × Unit {0})
        → traverse_type shown types f name (known r)
          ≡ Option.map known (walk text_discrete mentions enter f name r)
    unfolding walk traverse_type
    traverse_type-walk zero name r = refl
    traverse_type-walk (suc f) name r = elim (Bool-cases (is_known name)) [
      | inr h ↦ traverse_type-hidden f name (known r) h ∙ sym (walk-hidden f name r h)
      | inl h ↦ elim (Bool-cases (contains text_discrete name r.0)) [
        | inl old ↦ rw (keep-known name r.0 h ∙ old, traverse_type) rw (old, walk) refl
        | inr fresh ↦ traverse_type-enter f name r (traverse_type-walk f) h fresh
      ]
    ]

    pub each-walk :
        (f : ℕ) (names : List Text) (r : List Text × Unit {0})
        → walk_each (traverse_type shown types f) names (known r)
          ≡ Option.map known (walk_each (walk text_discrete mentions enter f) names r)
    each-walk f =
        walk_each-known (traverse_type shown types f) (walk text_discrete mentions enter f)
          (traverse_type-walk f)

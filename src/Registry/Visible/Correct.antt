-- ===== src/Registry/Visible/Correct.antt =====
-- What `remove_unused_types` and `find_visible_types` of src/registry/mod.rs leave.
use async_graphql.Prelude.{
  ℕ, ◌<◌, List, [], ◌∷◌, Text, text_discrete, text_eq, text_eq_iff, Bool, true, false, not, Option,
  none, some, ◌≡◌, refl, sym, ◌∙◌, ap, ◌↔◌, ◌⊎◌, inl, inr, get, all, arith, contains, keep, length,
  if◌then◌else◌, Bool-cases,
}
use async_graphql.Registry.Types.{MetaType, Registry, values, is_system_type, name_of}
use async_graphql.Registry.Visible.{remove_all, unused_types, remove_unused_types}
use async_graphql.Registry.Visible.Schema.{is_legible, mentioned, Found, traverse_schema-Found}

-- Whether each type stands under its own name.
unfoldable pub is_keyed : {Context Number : Type 0} → List (Text × MetaType Context Number) → Bool
unfolding all text_eq name_of
is_keyed types = all (λ p. text_eq p.0 (name_of p.1)) types

get-keep :
    {V : Type 0} (p : Text → Bool) (k : Text) (m : List (Text × V))
    → get text_discrete k (keep (λ e. p e.0) m) ≡ (if p k then get text_discrete k m else none)
unfolding get keep
get-keep p k [] = ground arith
get-keep p k ((j, v) ∷ m) = elim (text_discrete j k) [
  | yes same ↦ ground (arith, get-keep p k m, ap p same)
  | no ne ↦ ground (arith, get-keep p k m)
]

-- Whether a name is kept.
unfoldable pub is_kept : List Text → Text → Bool
unfolding is_system_type contains text_discrete
is_kept used name = if is_system_type name then true else contains text_discrete name used

pub is_kept_iff :
    (used : List Text) (name : Text)
    → (is_kept used name ≡ true)
      ↔ ((is_system_type name ≡ true) ⊎ (contains text_discrete name used ≡ true))
unfolding is_kept
is_kept_iff used name = elim (Bool-cases (is_system_type name)) [
  | inl e ↦ ground arith
  | inr e ↦ ground arith
]

module _ {Context Number : Type 0} (used : List Text) where
  -- `unused_types` on one type more.
  unused_types-cons :
      (ty : MetaType Context Number) (types : List (MetaType Context Number))
      → unused_types used (ty ∷ types) ≡ (
          if is_kept used (name_of ty)
          then unused_types used types
          else name_of ty ∷ unused_types used types)
  unfolding unused_types is_kept
  unused_types-cons ty types = elim (Bool-cases (is_system_type (name_of ty))) [
    | inl e ↦ ground arith
    | inr e ↦ ground arith
  ]

  unused_types-dropped :
      (name : Text) (types : List (MetaType Context Number))
      → is_kept used name ≡ true
      → contains text_discrete name (unused_types used types) ≡ false
  unfolding contains
  unused_types-dropped name [] h = unfold unused_types in refl
  unused_types-dropped name (ty ∷ types) h = elim (text_discrete (name_of ty) name) [
    | yes e ↦
        ground (
          arith,
          unused_types-cons ty types,
          unused_types-dropped name types h,
          ap (is_kept used) e,
        )
    | no ne ↦ ground (arith, unused_types-cons ty types, unused_types-dropped name types h)
  ]

  unused_types-found :
      (name : Text) (ty : MetaType Context Number) (types : List (Text × MetaType Context Number))
      → is_keyed types ≡ true
      → get text_discrete name types ≡ some ty
      → is_kept used name ≡ false
      → contains text_discrete name (unused_types used (values types)) ≡ true
  unfolding contains get is_keyed all
  unused_types-found name ty [] keyed e h = cc
  unused_types-found name ty ((key, first) ∷ types) keyed e h = elim (text_discrete key name) [
    | yes same ↦
        let own : name_of first ≡ name =
          sym ((text_eq_iff key (name_of first)).0 (ground arith)) ∙ same in
        ground (arith, unused_types-cons first (values types), own, ap (is_kept used) own)
    | no ne ↦
        ground (arith, unused_types-cons first (values types), unused_types-found name ty types)
  ]

  get-remove_all :
      (name : Text) (ty : MetaType Context Number) (types : List (Text × MetaType Context Number))
      → is_keyed types ≡ true
      → (get text_discrete name (remove_all (unused_types used (values types)) types) ≡ some ty)
        ↔ ((get text_discrete name types ≡ some ty) × (is_kept used name ≡ true))
  unfolding remove_all
  get-remove_all name ty types keyed = elim (Bool-cases (is_kept used name)) [
    | inl h ↦ ground (
      arith,
      get-keep (λ n. not (contains text_discrete n (unused_types used (values types)))) name types,
      unused_types-dropped name (values types) h,
    )
    | inr h ↦ ground (
      arith,
      get-keep (λ n. not (contains text_discrete n (unused_types used (values types)))) name types,
      unused_types-found name ty types keyed,
    )
  ]

module _ {Context Number : Type 0} (registry : Registry Context Number) where
  -- All types count as visible to `remove_unused_types`.
  abbrev pub all_shown : Option (Context → Bool) → Bool
  all_shown visible = true

  -- For a registry whose types stand under their own names and whose types' texts can be read, and
  -- with more fuel than it mentions names, `remove_unused_types` comes to an answer. What a name
  -- stands for then is what it stood for before, and the names left are exactly those of the system
  -- types and of the types that can be reached, over fields, arguments, input fields and possible
  -- types, from the directives' arguments, the types of the operations, and the types with keys.
  pub remove_unused_types_iff :
      (f : ℕ)
      → is_keyed registry.types ≡ true
      → is_legible registry ≡ true
      → length (mentioned all_shown registry) < f
      → (left : Registry Context Number) × (remove_unused_types f registry ≡ some left)
        × ((name : Text) (ty : MetaType Context Number)
            → (get text_discrete name left.types ≡ some ty) ↔ (
                (get text_discrete name registry.types ≡ some ty)
                × ((is_system_type name ≡ true) ⊎ Found all_shown registry name)))
  unfolding remove_unused_types
  remove_unused_types_iff f keyed legible enough =
      let (used, run, found) = traverse_schema-Found all_shown registry f legible enough in
      (
        record {
          types = remove_all (unused_types used (values registry.types)) registry.types;
          directives = registry.directives;
          implements = registry.implements;
          query_type = registry.query_type;
          mutation_type = registry.mutation_type;
          subscription_type = registry.subscription_type;
        },
        rw (run, remove_unused_types) refl,
        λ name ty. ground (
          arith,
          get-remove_all used name ty registry.types keyed,
          is_kept_iff used name,
          found name,
        ),
      )

-- ===== src/Registry/Visible/Schema.antt =====
-- The walk over all types of a schema (src/registry/mod.rs) ends, and what it has found.
use mathlib.Core.Option
use async_graphql.Prelude.{
  ℕ, ◌<◌, List, [], ◌∷◌, ◌++◌, Text, text_discrete, Bool, true, false, Option, none, some, ◌≡◌, sym,
  ◌∙◌, ap, subst, ◌↔◌, get, all, arith, contains, contains-append_left, contains-append_right,
  contains-keep, length, if◌then◌else◌, Bool-cases, ◌⊎◌, inl, inr,
}
use async_graphql.Registry.TypeNames.{◌>>=◌}
use async_graphql.Registry.Types.{MetaType, Registry, values}
use async_graphql.Registry.Visible.{
  traverse_type, traverse_directive, traverse_schema, root_types, entities,
}
use async_graphql.Registry.Visible.Mentions.{
  concat_map, in_type, in_directive, reads_type, reads_directive, walk_each-append,
  walk_each-concat_map, traverse_directive-names, then_same, both_true,
}
use async_graphql.Registry.Visible.Walked.{
  is_known, mentions, enter, known, each-walk, known_type, mentions-known, mentions-hidden,
}
use async_graphql.Validation.Graph.{walk_each, Reach}
use async_graphql.Validation.Graph.Reached.{walk_each-Reached}

-- Whether the texts of all types in a registry can be read.
unfoldable pub is_legible : {Context Number : Type 0} → Registry Context Number → Bool
unfolding all reads_type reads_directive
is_legible registry =
    if all reads_directive (values registry.directives)
    then all reads_type (values registry.types)
    else false

pub get-all :
    {V : Type 0} (p : V → Bool) (m : List (Text × V)) (k : Text) (v : V)
    → all p (values m) ≡ true
    → get text_discrete k m ≡ some v
    → p v ≡ true
unfolding get all
get-all p [] k v h e = cc
get-all p ((j, w) ∷ m) k v h e = elim (text_discrete j k) [
  | yes same ↦ ground arith
  | no ne ↦ ground (arith, get-all p m k v)
]

get-cases :
    {V : Type 0} (k j : Text) (w v : V) (m : List (Text × V))
    → get text_discrete k ((j, w) ∷ m) ≡ some v
    → (w ≡ v) ⊎ (get text_discrete k m ≡ some v)
unfolding get
get-cases k j w v m e = elim (text_discrete j k) [
  | yes same ↦
      let found : get text_discrete k ((j, w) ∷ m) ≡ some w = ground arith in
      inl (ap (λ o. elim o [ none ↦ w | some u ↦ u ]) (sym found ∙ e))
  | no ne ↦ inr (ground arith)
]

get-concat_map :
    {V : Type 0} (names : V → List Text) (m : List (Text × V)) (k name : Text) (v : V)
    → get text_discrete k m ≡ some v
    → contains text_discrete name (names v) ≡ true
    → contains text_discrete name (concat_map names (values m)) ≡ true
unfolding get concat_map
get-concat_map names [] k name v e h = cc
get-concat_map names ((j, w) ∷ m) k name v e h = elim (get-cases k j w v m e) [
  | inl same ↦
      contains-append_left text_discrete name (names w) (concat_map names (values m))
        (subst (λ u. contains text_discrete name (names u) ≡ true) (sym same) h)
  | inr later ↦
      contains-append_right text_discrete name (names w) (concat_map names (values m))
        (get-concat_map names m k name v later h)
]

pub legible_types :
    {Context Number : Type 0} (registry : Registry Context Number)
    → is_legible registry ≡ true
    → (name : Text) (ty : MetaType Context Number) → get text_discrete name registry.types ≡ some ty
    → reads_type ty ≡ true
unfolding is_legible
legible_types registry legible name ty e =
    get-all reads_type registry.types name ty
      (both_true (all reads_directive (values registry.directives))
        (all reads_type (values registry.types)) legible).1
      e

module _ {Context Number : Type 0} (shown : Option (Context → Bool) → Bool)
    (registry : Registry Context Number) where
  -- The names from which the walk starts: those in the directives' arguments, the types of the
  -- operations, and the types that have keys.
  unfoldable pub starts : List Text
  unfolding concat_map in_directive root_types entities
  starts =
      concat_map (in_directive shown) (values registry.directives)
      ++ (root_types registry ++ entities (values registry.types))

  -- The names that the schema mentions.
  unfoldable pub mentioned : List Text
  unfolding starts concat_map in_type
  mentioned = starts ++ concat_map (in_type shown) (values registry.types)

  -- A type that may be seen, and that can be reached from where the walk starts.
  abbrev pub Found : Text → Type 0
  Found name =
      (is_known shown registry.types name ≡ true)
      × ((start : Text) × (contains text_discrete start starts ≡ true)
          × Reach text_discrete (mentions shown registry.types) start name)

  traverse_schema-starts :
      (f : ℕ)
      → all reads_directive (values registry.directives) ≡ true
      → traverse_schema shown f registry
        ≡ walk_each (traverse_type shown registry.types f) starts []
  unfolding traverse_schema starts
  traverse_schema-starts f h =
      let rec = traverse_type shown registry.types f in
      let names = concat_map (in_directive shown) (values registry.directives) in
      let others = root_types registry ++ entities (values registry.types) in
      ap
        (λ o. o >>= λ used. walk_each rec (root_types registry) used >>= λ used'.
          walk_each rec (entities (values registry.types)) used')
        (walk_each-concat_map rec (traverse_directive shown rec) (in_directive shown)
          reads_directive (traverse_directive-names shown rec) (values registry.directives) [] h)
      ∙ (then_same (walk_each rec names [])
            (λ used. walk_each rec (root_types registry) used >>= λ used'.
              walk_each rec (entities (values registry.types)) used')
            (walk_each rec others)
            (λ used.
              sym (
                walk_each-append rec (root_types registry) (entities (values registry.types)) used))
          ∙ sym (walk_each-append rec names others []))

  pub mentions-mentioned :
      (a b : Text)
      → contains text_discrete b (mentions shown registry.types a) ≡ true
      → contains text_discrete b mentioned ≡ true
  unfolding mentioned contains
  mentions-mentioned a b h = elim (Bool-cases (is_known shown registry.types a)) [
    | inl e ↦
        let (ty, got, visible) = known_type shown registry.types a e in
        contains-append_right text_discrete b starts
          (concat_map (in_type shown) (values registry.types))
          (get-concat_map (in_type shown) registry.types a b ty got (
            subst (λ names. contains text_discrete b names ≡ true)
              (mentions-known shown registry.types a ty got visible) h))
    | inr e ↦
        nothing (sym (ap (contains text_discrete b) (mentions-hidden shown registry.types a e)) ∙ h)
  ]
    where
      nothing : false ≡ true → contains text_discrete b mentioned ≡ true
      nothing e = cc

  pub traverse_schema-Found :
      (f : ℕ)
      → is_legible registry ≡ true
      → length mentioned < f
      → (used : List Text) × (traverse_schema shown f registry ≡ some used)
        × ((name : Text) → (contains text_discrete name used ≡ true) ↔ Found name)
  unfolding all is_legible mentioned starts
  traverse_schema-Found f legible enough =
      let directives =
        (both_true (all reads_directive (values registry.directives))
          (all reads_type (values registry.types)) legible).0 in
      let (r, run, reached) =
        walk_each-Reached text_discrete (mentions shown registry.types) (enter shown registry.types)
          mentioned f starts tt mentions-mentioned
          (λ a h.
            contains-append_left text_discrete a starts
              (concat_map (in_type shown) (values registry.types)) h)
          enough in
      let seen_iff = contains-keep text_discrete (is_known shown registry.types) in
      (
        known shown registry.types r,
        traverse_schema-starts f directives
            ∙ (each-walk shown registry.types (legible_types registry legible) f starts ([], tt)
                ∙ ap (Option.map (known shown registry.types)) run),
        λ name. (
          λ h. let (old, seen) = (seen_iff name r.0).0 h in (seen, (reached name).0 old),
          λ h. (seen_iff name r.0).1 ((reached name).1 h.1, h.0),
        ),
      )

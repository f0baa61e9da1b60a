-- ===== src/Registry/Visible/Shown.antt =====
-- `find_visible_types` of src/registry/mod.rs: what a request may see.
use mathlib.Core.Option
use mathlib.Core.List.{Memᴰ}
use async_graphql.Prelude.{
  ℕ, ◌+◌, ◌<◌, List, [], ◌∷◌, ◌++◌, map, Text, text_discrete, Bool, true, Option, some, ◌≡◌, refl,
  sym, ◌∙◌, ap, subst, ◌⊎◌, inl, inr, any, any-contains, arith, contains, contains-append_left,
  contains-append_right, contains-keep, contains-cons_self, contains-cons_of, keep, length,
  length-append, Bool-cases,
}
use async_graphql.Registry.Types.{
  MetaType, interface, Registry, values, is_shown, is_system_type, name_of,
}
use async_graphql.Registry.Visible.{
  traverse_type, traverse_interface, found_types, find_visible_types,
}
use async_graphql.Registry.Visible.Walked.{is_known, mentions, enter, traverse_type-walk}
use async_graphql.Registry.Visible.Schema.{
  mentioned, Found, mentions-mentioned, is_legible, legible_types, traverse_schema-Found,
}
use async_graphql.Registry.Visible.Correct.{is_kept, is_kept_iff}
use async_graphql.Validation.Graph.{walk_each}
use async_graphql.Validation.Graph.Total.{unvisited-le, Walked}
use async_graphql.Validation.Graph.Reached.{walk-Ends}
use async_graphql.Registry.Visible.Interfaces.{
  Shown, walked, State, own_names, length-own_names, seen, AllShown, from_interface, from_grows,
}

keep-every :
    (p : Text → Bool) (xs : List Text)
    → ((x : Text) → contains text_discrete x xs ≡ true → p x ≡ true)
    → keep p xs ≡ xs
unfolding keep
keep-every p [] h = refl
keep-every p (x ∷ xs) h =
    rw (h x (contains-cons_self text_discrete x xs), keep)
      (ap (λ ys. x ∷ ys)
        (keep-every p xs (λ y later. h y (contains-cons_of text_discrete y x xs later))))

module _ {Context Number : Type 0} (ctx : Context) (registry : Registry Context Number) (f : ℕ)
    (legible : is_legible registry ≡ true)
    (enough : length (mentioned (is_shown ctx) registry) + length registry.types < f) where
  traverse_type-Walked :
      (name : Text) (r : State)
      → contains text_discrete name (own_names registry) ≡ true
      → (r' : State) × (traverse_type (is_shown ctx) registry.types f name (seen ctx registry r)
          ≡ some (seen ctx registry r'))
        × Walked text_discrete
            (mentions (is_shown ctx) registry.types)
            (enter (is_shown ctx) registry.types)
            (name ∷ [])
            r.0
            r.1
            r'
  traverse_type-Walked name r own =
      let scopes = mentioned (is_shown ctx) registry ++ (own_names registry) in
      let (r', run, w) =
        walk-Ends text_discrete (mentions (is_shown ctx) registry.types)
          (enter (is_shown ctx) registry.types) scopes
          (λ a b h.
            contains-append_left text_discrete b (mentioned (is_shown ctx) registry)
              (own_names registry) (mentions-mentioned (is_shown ctx) registry a b h))
          f name r.0 r.1
          (contains-append_right text_discrete name (mentioned (is_shown ctx) registry)
            (own_names registry) own)
          (omega (
            arith,
            unvisited-le text_discrete scopes r.0,
            length-append (mentioned (is_shown ctx) registry) (own_names registry),
            length-own_names registry.types,
          )) in
      (
        r',
        traverse_type-walk (is_shown ctx) registry.types (legible_types registry legible) f name r
            ∙ ap (Option.map (seen ctx registry)) run,
        w,
      )

  -- A run from a state, which only adds names.
  abbrev Ends : State → Option (List Text) → Type 0
  Ends r run =
      (r' : State) × (run ≡ some (seen ctx registry r'))
      × AllShown ctx registry (seen ctx registry r')
      × ((name : Text)
          → contains text_discrete name (seen ctx registry r) ≡ true
          → contains text_discrete name (seen ctx registry r') ≡ true)

  traverse_interface-Ends :
      (ty : MetaType Context Number) (r : State)
      → Memᴰ ty (values registry.types)
      → contains text_discrete (name_of ty) (own_names registry) ≡ true
      → AllShown ctx registry (seen ctx registry r)
      → Ends r (
          traverse_interface ctx
            (traverse_type (is_shown ctx) registry.types f)
            ty
            (seen ctx registry r))
  unfolding traverse_interface name_of
  traverse_interface-Ends (MetaType.scalar ty) r listed own shown = (r, refl, shown, λ name h. h)
  traverse_interface-Ends (MetaType.object ty) r listed own shown = (r, refl, shown, λ name h. h)
  traverse_interface-Ends (MetaType.union ty) r listed own shown = (r, refl, shown, λ name h. h)
  traverse_interface-Ends (MetaType.enum ty) r listed own shown = (r, refl, shown, λ name h. h)
  traverse_interface-Ends (MetaType.input_object ty) r listed own shown =
      (r, refl, shown, λ name h. h)
  traverse_interface-Ends (interface ty) r listed own shown =
      elim (Bool-cases (is_shown ctx ty.visible)) [
        | inr e ↦ (r, ground (arith, e), shown, λ name h. h)
        | inl e ↦ elim (Bool-cases (contains text_discrete ty.name (seen ctx registry r))) [
          | inl e' ↦ (r, ground (arith, e, e'), shown, λ name h. h)
          | inr e' ↦
              elim (Bool-cases (
                any (λ name. contains text_discrete name (seen ctx registry r))
                  ty.possible_types)) [
                    | inr e'' ↦ (r, ground (arith, e, e', e''), shown, λ name h. h)
                    | inl e'' ↦
                        let (possible, among, old) =
                          any-contains text_discrete
                            (λ name. contains text_discrete name (seen ctx registry r))
                            ty.possible_types e'' in
                        let (r', run, w) = traverse_type-Walked ty.name r own in
                        (
                          r',
                          ground (arith, e, e', e'', run),
                          from_interface ctx registry ty possible r r' listed e among old shown w,
                          from_grows ctx registry ty.name r r' w,
                        )
                  ]
        ]
      ]

  each-Ends :
      (types : List (MetaType Context Number)) (r : State)
      → ((ty : MetaType Context Number) → Memᴰ ty types → Memᴰ ty (values registry.types))
      → ((name : Text)
          → contains text_discrete name (map name_of types) ≡ true
          → contains text_discrete name (own_names registry) ≡ true)
      → AllShown ctx registry (seen ctx registry r)
      → Ends r (
          walk_each
            (traverse_interface ctx (traverse_type (is_shown ctx) registry.types f))
            types
            (seen ctx registry r))
  unfolding walk_each
  each-Ends [] r listed own shown = (r, refl, shown, λ name h. h)
  each-Ends (ty ∷ types) r listed own shown =
      let (r', run, shown', grows) =
        traverse_interface-Ends ty r (listed ty (Memᴰ.head refl))
          (own (name_of ty) (contains-cons_self text_discrete (name_of ty) (map name_of types)))
          shown in
      let (r'', run', shown'', grows') =
        each-Ends types r' (λ other later. listed other (Memᴰ.tail later))
          (λ name h.
            own name (contains-cons_of text_discrete name (name_of ty) (map name_of types) h))
          shown' in
      (r'', rw (run, walk_each) run', shown'', λ name h. grows' name (grows name h))

  found_types-Shown :
      (names : List Text) × (found_types ctx f registry ≡ some names)
      × AllShown ctx registry names
      × ((name : Text)
          → Found (is_shown ctx) registry name
          → contains text_discrete name names ≡ true)
  unfolding found_types
  found_types-Shown =
      let (used, run, found) =
        traverse_schema-Found (is_shown ctx) registry f legible (omega (arith, enough)) in
      let start : State = (used, tt) in
      let same : seen ctx registry start ≡ used =
        keep-every (is_known (is_shown ctx) registry.types) used (λ name h. ((found name).0 h).0) in
      let (r', run', shown, grows) =
        each-Ends (values registry.types) start (λ ty h. h) (λ name h. h)
          (λ name h.
            walked ((found name).0 (subst (λ l. contains text_discrete name l ≡ true) same h))) in
      (
        seen ctx registry r',
        rw (run, found_types)
            (subst
              (λ l.
                walk_each (traverse_interface ctx (traverse_type (is_shown ctx) registry.types f))
                  (values registry.types) l
                ≡ some (seen ctx registry r'))
              same run'),
        shown,
        λ name h.
            grows name
              (subst (λ l. contains text_discrete name l ≡ true) (sym same) ((found name).1 h)),
      )

  -- For a registry whose types' texts can be read, and with more fuel than it mentions names and
  -- has types, `find_visible_types` comes to an answer. Each name in it is that of a system type
  -- or of a visible type that is reached, over visible types, fields and arguments only, from the
  -- directives, the types of the operations and the types with keys, or from a visible interface
  -- of the registry one of whose possible types is itself a type of this kind; and the names of
  -- all types of the registry that can be reached from the directives, the types of the
  -- operations and the types with keys over visible ones are in it.
  pub find_visible_types-Shown :
      (names : List Text) × (find_visible_types ctx f registry ≡ some names)
      × ((name : Text)
          → contains text_discrete name names ≡ true
          → (is_system_type name ≡ true) ⊎ Shown ctx registry name)
      × ((name : Text)
          → contains text_discrete name (own_names registry) ≡ true
          → (is_system_type name ≡ true) ⊎ Found (is_shown ctx) registry name
          → contains text_discrete name names ≡ true)
  unfolding find_visible_types is_kept
  find_visible_types-Shown =
      let (found, run, shown, complete) = found_types-Shown in
      let listed_iff = contains-keep text_discrete (is_kept found) in
      (
        keep (is_kept found) (own_names registry),
        rw (run, find_visible_types) refl,
        λ name h. elim ((is_kept_iff found name).0 ((listed_iff name (own_names registry)).0 h).1) [
          | inl system ↦ inl system
          | inr old ↦ inr (shown name old)
        ],
        λ name own h. (listed_iff name (own_names registry)).1 (
          own,
          (is_kept_iff found name).1
              (elim h [ inl system ↦ inl system | inr new ↦ inr (complete name new) ]),
        ),
      )

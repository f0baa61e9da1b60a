-- ===== src/Registry/Visible/Interfaces.antt =====
-- `find_visible_types` of src/registry/mod.rs: what a request may see, and what a walk from an
-- interface adds to it.
use mathlib.Core.List.{Memᴰ}
use async_graphql.Prelude.{
  List, [], ◌∷◌, map, Text, text_discrete, true, ◌≡◌, refl, sym, ap, subst, inl, inr, contains,
  contains-keep, contains-append_cases, length, suc,
}
use async_graphql.Registry.Types.{
  MetaType, interface, InterfaceType, Registry, values, is_shown, name_of,
}
use async_graphql.Registry.Visible.Walked.{is_known, mentions, enter, known}
use async_graphql.Registry.Visible.Schema.{Found}
use async_graphql.Validation.Graph.{Reach}
use async_graphql.Validation.Graph.Total.{Walked, Walked-keeps, contains-single}

-- What a request may see: what the walk finds, and, with an interface of the registry that may be
-- seen and of which a possible type may be seen, whatever can be reached from the interface. What is hidden itself is left out.
pub data Shown {Context Number : Type 0} (ctx : Context) (registry : Registry Context Number)
    : Text → Type 0 where
  walked : {name : Text} → Found (is_shown ctx) registry name → Shown ctx registry name
  implemented :
      {possible name : Text} (ty : InterfaceType Context)
      → Memᴰ (interface ty) (values registry.types)
      → is_shown ctx ty.visible ≡ true
      → contains text_discrete possible ty.possible_types ≡ true
      → Shown ctx registry possible
      → Reach text_discrete (mentions (is_shown ctx) registry.types) ty.name name
      → is_known (is_shown ctx) registry.types name ≡ true
      → Shown ctx registry name

abbrev pub State : Type 0
State = List Text × Unit {0}

abbrev pub own_names : {Context Number : Type 0} → Registry Context Number → List Text
own_names registry = map name_of (values registry.types)

pub length-own_names :
    {Context Number : Type 0} (types : List (Text × MetaType Context Number))
    → length (map name_of (values types)) ≡ length types
length-own_names [] = refl
length-own_names (p ∷ types) = ap suc (length-own_names types)

module _ {Context Number : Type 0} (ctx : Context) (registry : Registry Context Number) where
  abbrev pub seen : State → List Text
  seen = known (is_shown ctx) registry.types

  -- A set of names that a request may see.
  abbrev pub AllShown : List Text → Type 0
  AllShown names =
      (name : Text) → contains text_discrete name names ≡ true → Shown ctx registry name

  -- What a walk from an interface adds, when one of its possible types may be seen.
  pub from_interface :
      (ty : InterfaceType Context) (possible : Text) (r r' : State)
      → Memᴰ (interface ty) (values registry.types)
      → is_shown ctx ty.visible ≡ true
      → contains text_discrete possible ty.possible_types ≡ true
      → contains text_discrete possible (seen r) ≡ true
      → AllShown (seen r)
      → Walked text_discrete
          (mentions (is_shown ctx) registry.types)
          (enter (is_shown ctx) registry.types)
          (ty.name ∷ [])
          r.0
          r.1
          r'
      → AllShown (seen r')
  from_interface ty possible r r' listed legal among old shown w name h =
      let seen_iff = contains-keep text_discrete (is_known (is_shown ctx) registry.types) name in
      let (visited, visible) = (seen_iff r'.0).0 h in
      elim (contains-append_cases text_discrete name w.new r.0
        (subst (λ l. contains text_discrete name l ≡ true) w.marks visited)) [
          | inr before ↦ shown name ((seen_iff r.0).1 (before, visible))
          | inl new ↦
              let (start, h', reach) = w.reachable name new in
              implemented ty listed legal among (shown possible old)
                (subst (λ s. Reach text_discrete (mentions (is_shown ctx) registry.types) s name)
                  (sym (contains-single text_discrete start ty.name h')) reach)
                visible
        ]

  pub from_grows :
      (start : Text) (r r' : State)
      → Walked text_discrete
          (mentions (is_shown ctx) registry.types)
          (enter (is_shown ctx) registry.types)
          (start ∷ [])
          r.0
          r.1
          r'
      → (name : Text) → contains text_discrete name (seen r) ≡ true
      → contains text_discrete name (seen r') ≡ true
  from_grows start r r' w name h =
      let seen_iff = contains-keep text_discrete (is_known (is_shown ctx) registry.types) name in
      let (visited, visible) = (seen_iff r.0).0 h in
      (seen_iff r'.0).1 (
        Walked-keeps text_discrete (mentions (is_shown ctx) registry.types)
            (enter (is_shown ctx) registry.types) name w visited,
        visible,
      )

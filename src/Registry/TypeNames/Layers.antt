-- ===== src/Registry/TypeNames/Layers.antt =====
-- `MetaTypeName` on the texts of types (src/registry/mod.rs), against the types themselves.
use async_graphql.Prelude.{
  ℕ, zero, suc, ◌<◌, [], ◌∷◌, ◌++◌, Text, true, false, none, some, ◌≡◌, refl, arith, ltb,
  append-nil, strip_prefix, strip_suffix, strip_suffix-append, strip_suffix-append_ne,
  strip_suffix-all, strip_prefix-all, all,
}
use async_graphql.Parser.TypeNames.{Type_, BaseType, type_, display, display_base, is_name_char}
use async_graphql.Parser.TypeNames
use async_graphql.Parser.TypeNames.RoundTrip.{is_well_named, is_well_named_base}
use async_graphql.Registry.TypeNames.{
  MetaTypeName, list, non_null, named, drop_last_byte, strip_brackets, create, concrete_typename,
}

-- The layer of a type that `create` should find.
unfoldable pub meta : Type_ → MetaTypeName
meta (type_ base false) = non_null (display_base base)
meta (type_ (TypeNames.named name) true) = named name
meta (type_ (TypeNames.list ty) true) = list (display ty)

drop_last_byte-append :
    (s : Text) (c : ℕ) → ltb c 128 ≡ true → drop_last_byte (s ++ c ∷ []) ≡ some s
unfolding drop_last_byte
drop_last_byte-append [] c h = rw h
drop_last_byte-append (x ∷ []) c h = rw h
drop_last_byte-append (x ∷ y ∷ s) c h = rw (drop_last_byte-append (y ∷ s) c h)

strip_brackets-named :
    (name : Text) → all is_name_char name ≡ true → strip_brackets name ≡ some none
unfolding strip_brackets
strip_brackets-named name h =
    rw (strip_prefix-all is_name_char b'[' name (unfold is_name_char in refl) h, strip_brackets)

strip_brackets-list :
    (ty : Type_) → strip_brackets (display_base (TypeNames.list ty)) ≡ some (some (display ty))
unfolding strip_brackets display strip_prefix
strip_brackets-list ty = rw (drop_last_byte-append (display ty) b']' refl, strip_brackets)

no_exclamation :
    (base : BaseType)
    → is_well_named_base base ≡ true
    → strip_suffix b'!' (display_base base) ≡ none
unfolding is_well_named display
no_exclamation (TypeNames.named name) h =
    strip_suffix-all is_name_char b'!' name (unfold is_name_char in refl) h
no_exclamation (TypeNames.list ty) h =
    strip_suffix-append_ne b'!' b']' (b'[' ∷ display ty) (omega arith)

pub create-base :
    (base : BaseType)
    → is_well_named_base base ≡ true
    → create (display_base base) ≡ some (meta (type_ base true))
unfolding create meta display is_well_named
create-base (TypeNames.named name) h =
    rw (no_exclamation (TypeNames.named name) h, create, strip_brackets-named name h)
create-base (TypeNames.list ty) h =
    rw (no_exclamation (TypeNames.list ty) h, create, strip_brackets-list ty)

-- On the text of a type, `create` finds the outermost layer of the type: a non-null type without
-- its mark, a list without its brackets, or a name.
pub create-display : (t : Type_) → is_well_named t ≡ true → create (display t) ≡ some (meta t)
unfolding is_well_named display
create-display (type_ base true) h = rw append-nil (create-base base h)
create-display (type_ base false) h =
    unfold create meta in rw (strip_suffix-append b'!' (display_base base), create)

-- The name inside of all lists.
unfoldable mutual
  pub base_name : Type_ → Text
  base_name (type_ base nullable) = base_name_base base

  pub base_name_base : BaseType → Text
  base_name_base (TypeNames.named name) = name
  base_name_base (TypeNames.list ty) = base_name ty

-- How many layers a type has.
unfoldable mutual
  pub weight : Type_ → ℕ
  weight (type_ base true) = weight_base base
  weight (type_ base false) = suc (weight_base base)

  pub weight_base : BaseType → ℕ
  weight_base (TypeNames.named name) = 0
  weight_base (TypeNames.list ty) = suc (weight ty)

pub display-nullable : (base : BaseType) → display (type_ base true) ≡ display_base base
unfolding display
display-nullable base = append-nil (display_base base)

concrete-display :
    (f : ℕ) (t : Type_)
    → is_well_named t ≡ true
    → weight t < f
    → concrete_typename f (display t) ≡ some (base_name t)
unfolding concrete_typename weight base_name is_well_named meta
concrete-display zero t h lt = elim lt [ ]
concrete-display (suc f) (type_ (TypeNames.named name) true) h lt =
    rw (create-display (type_ (TypeNames.named name) true) h)
concrete-display (suc f) (type_ (TypeNames.list ty) true) h lt =
    rw (create-display (type_ (TypeNames.list ty) true) h) (concrete-display f ty h (omega arith))
concrete-display (suc f) (type_ base false) h lt =
    rw (create-display (type_ base false) h)
      (rw (display-nullable base) at (concrete-display f (type_ base true) h (omega arith)))

-- If the names in a type are names, the name inside of its lists is found from its text, with fuel
-- for each of its layers.
pub concrete_typename-display :
    (t : Type_) (f : ℕ)
    → is_well_named t ≡ true
    → weight t < f
    → concrete_typename f (display t) ≡ some (base_name t)
concrete_typename-display t f = concrete-display f t

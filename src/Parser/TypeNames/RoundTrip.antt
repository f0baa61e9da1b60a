-- ===== src/Parser/TypeNames/RoundTrip.antt =====
-- A type that is printed is read back (parser/src/types/mod.rs).
use async_graphql.Prelude.{
  ℕ, zero, suc, ◌+◌, ◌<◌, [], ◌∷◌, ◌++◌, Text, Bool, true, false, Option, none, some, ◌≡◌, refl,
  arith, length, length-append, append-nil, strip_prefix, strip_suffix, strip_suffix-append,
  strip_suffix-append_ne, strip_suffix-all, strip_prefix-all, all,
}
use async_graphql.Parser.TypeNames.{
  Type_, BaseType, type_, named, list, display, display_base, split_nullable, new_base, new_with,
  new, is_name_char,
}

-- The names of a type are made of the characters of names.
unfoldable mutual
  pub is_well_named : Type_ → Bool
  is_well_named (type_ base nullable) = is_well_named_base base

  pub is_well_named_base : BaseType → Bool
  is_well_named_base (named name) = all is_name_char name
  is_well_named_base (list ty) = is_well_named ty

base-no_suffix :
    (base : BaseType)
    → is_well_named_base base ≡ true
    → strip_suffix b'!' (display_base base) ≡ none
unfolding is_well_named display
base-no_suffix (named name) h =
    strip_suffix-all is_name_char b'!' name (unfold is_name_char in refl) h
base-no_suffix (list ty) h = strip_suffix-append_ne b'!' b']' (b'[' ∷ display ty) (omega arith)

-- What `Type::new` splits off a printed type.
pub split_nullable-display :
    (base : BaseType) (nullable : Bool)
    → is_well_named_base base ≡ true
    → split_nullable (display (type_ base nullable)) ≡ (nullable, display_base base)
unfolding split_nullable display
split_nullable-display base true h =
    ground (arith, append-nil (display_base base), base-no_suffix base h)
split_nullable-display base false h =
    rw (strip_suffix-append b'!' (display_base base), split_nullable)

length-display_element :
    (ty : Type_) (nullable : Bool)
    → length (display ty) + 1 < length (display (type_ (list ty) nullable))
unfolding display
length-display_element ty true = omega (
  arith,
  length-append (display ty) (b']' ∷ []),
  length-append (b'[' ∷ (display ty ++ b']' ∷ [])) [],
)
length-display_element ty false = omega (
  arith,
  length-append (display ty) (b']' ∷ []),
  length-append (b'[' ∷ (display ty ++ b']' ∷ [])) (b'!' ∷ []),
)

new_base-named :
    (rec : Text → Option Type_) (name : Text)
    → all is_name_char name ≡ true
    → new_base rec (display_base (named name)) ≡ some (named name)
unfolding new_base display
new_base-named rec name h =
    rw (strip_prefix-all is_name_char b'[' name (unfold is_name_char in refl) h, new_base)

new_base-list :
    (rec : Text → Option Type_) (ty : Type_)
    → rec (display ty) ≡ some ty
    → new_base rec (display_base (list ty)) ≡ some (list ty)
unfolding new_base display strip_prefix
new_base-list rec ty h = rw (strip_suffix-append b']' (display ty), new_base, h)

new_with-display :
    (f : ℕ) (t : Type_)
    → is_well_named t ≡ true
    → length (display t) < f
    → new_with f (display t) ≡ some t
unfolding is_well_named new_with
new_with-display zero t h lt = elim lt [ ]
new_with-display (suc f) (type_ (named name) nullable) h lt =
    rw (split_nullable-display (named name) nullable h, new_base-named (new_with f) name h)
new_with-display (suc f) (type_ (list ty) nullable) h lt = rw (
  split_nullable-display (list ty) nullable h,
  new_base-list (new_with f) ty
      (new_with-display f ty h (omega (arith, length-display_element ty nullable))),
)

-- A printed type is read back as the type, if its names are names.
pub new-display : (t : Type_) → is_well_named t ≡ true → new (display t) ≡ some t
unfolding new
new-display t h = new_with-display (suc (length (display t))) t h (omega arith)

-- Types with the same text are the same type, if their names are names.
pub display-injective :
    (t u : Type_) → is_well_named t ≡ true → is_well_named u ≡ true → display t ≡ display u → t ≡ u
display-injective t u ht hu e = cc (new-display t ht, new-display u hu)

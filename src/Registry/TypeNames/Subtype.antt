-- ===== src/Registry/TypeNames/Subtype.antt =====
-- `MetaTypeName::is_subtype` on the texts of types (src/registry/mod.rs), against the rules of the
-- specification on the types themselves.
use async_graphql.Prelude.{
  ℕ, zero, suc, ◌+◌, ◌≤◌, ◌<◌, [], ◌∷◌, text_eq, text_eq_refl, Bool, true, false, not, ◌&&◌, ◌||◌,
  Option, some, ◌≡◌, refl, ◌∙◌, arith, length, length-append,
}
use async_graphql.Parser.TypeNames.{Type_, BaseType, type_, display, display_base, is_name_char}
use async_graphql.Parser.TypeNames
use async_graphql.Parser.TypeNames.RoundTrip.{is_well_named, is_well_named_base}
use async_graphql.Registry.TypeNames.{MetaTypeName, both, is_subtype, accepts}
use async_graphql.Registry.TypeNames.Layers.{meta, create-base, create-display, weight, weight_base}

-- Whether a variable of the second type may stand where the first type is expected, by the rules
-- of the GraphQL specification (AreTypesCompatible): a nullable place takes a non-null type too.
unfoldable mutual
  pub compatible : Type_ → Type_ → Bool
  compatible (type_ place n) (type_ given m) = (n || not m) && compatible_base place given

  pub compatible_base : BaseType → BaseType → Bool
  compatible_base (TypeNames.named a) (TypeNames.named b) = text_eq a b
  compatible_base (TypeNames.list s) (TypeNames.list t) = compatible s t
  compatible_base _ _ = false

-- Whether, at some depth, a non-null list is given where a nullable list is expected.
unfoldable mutual
  pub gives_non_null_list : Type_ → Type_ → Bool
  gives_non_null_list (type_ place n) (type_ given m) = gives_base (n && not m) place given

  pub gives_base : Bool → BaseType → BaseType → Bool
  gives_base here (TypeNames.list s) (TypeNames.list t) = here || gives_non_null_list s t
  gives_base here _ _ = false

expected : Type_ → Type_ → Bool
expected s t = compatible s t && not (gives_non_null_list s t)

both-display :
    (rec : MetaTypeName → MetaTypeName → Option Bool) (s t : Type_)
    → is_well_named s ≡ true
    → is_well_named t ≡ true
    → both rec (display s) (display t) ≡ rec (meta s) (meta t)
unfolding both
both-display rec s t hs ht = rw (create-display s hs, create-display t ht)

both-base :
    (rec : MetaTypeName → MetaTypeName → Option Bool) (s t : BaseType)
    → is_well_named_base s ≡ true
    → is_well_named_base t ≡ true
    → both rec (display_base s) (display_base t) ≡ rec (meta (type_ s true)) (meta (type_ t true))
unfolding both
both-base rec s t hs ht = rw (create-base s hs, create-base t ht)

is_subtype-meta :
    (f : ℕ) (s t : Type_)
    → is_well_named s ≡ true
    → is_well_named t ≡ true
    → weight s + weight t < f
    → is_subtype f (meta s) (meta t) ≡ some (expected s t)
unfolding is_subtype weight is_well_named meta expected compatible gives_non_null_list display
is_subtype-meta zero s t hs ht lt = elim lt [ ]
is_subtype-meta (suc f) (type_ p false) (type_ q false) hs ht lt =
    both-base (is_subtype f) p q hs ht
    ∙ is_subtype-meta f (type_ p true) (type_ q true) hs ht (omega arith)
is_subtype-meta (suc f) (type_ (TypeNames.named a) true) (type_ q false) hs ht lt =
    both-base (is_subtype f) (TypeNames.named a) q hs ht
    ∙ is_subtype-meta f (type_ (TypeNames.named a) true) (type_ q true) hs ht (omega arith)
is_subtype-meta (suc f) (type_ (TypeNames.named a) true) (type_ (TypeNames.named b) true) hs ht lt =
    ground arith
is_subtype-meta (suc f) (type_ (TypeNames.list s) true) (type_ (TypeNames.list t) true) hs ht lt =
    both-display (is_subtype f) s t hs ht ∙ is_subtype-meta f s t hs ht (omega arith)
is_subtype-meta (suc f) (type_ p false) (type_ (TypeNames.named b) true) hs ht lt = refl
is_subtype-meta (suc f) (type_ p false) (type_ (TypeNames.list t) true) hs ht lt = refl
is_subtype-meta (suc f) (type_ (TypeNames.named a) true) (type_ (TypeNames.list t) true) hs ht lt =
    refl
is_subtype-meta (suc f) (type_ (TypeNames.list s) true) (type_ (TypeNames.named b) true) hs ht lt =
    refl
is_subtype-meta (suc f) (type_ (TypeNames.list s) true) (type_ (TypeNames.named b) false) hs ht lt =
    refl
is_subtype-meta (suc f) (type_ (TypeNames.list s) true) (type_ (TypeNames.list t) false) hs ht lt =
    ground arith

-- Fuel of a text's length is enough for its layers.
mutual
  unfolding weight display

  weight-le : (t : Type_) → weight t ≤ length (display t)
  weight-le (type_ base true) =
      omega (arith, weight_base-le base, length-append (display_base base) [])
  weight-le (type_ base false) =
      omega (arith, weight_base-le base, length-append (display_base base) (b'!' ∷ []))

  weight_base-le : (base : BaseType) → weight_base base ≤ length (display_base base)
  weight_base-le (TypeNames.named name) = omega arith
  weight_base-le (TypeNames.list ty) =
      omega (arith, weight-le ty, length-append (display ty) (b']' ∷ []))

-- If the names in two types are names, the subtype test on the texts of the types answers. It says
-- yes exactly if the types are compatible by the rules of the specification and, besides, at no
-- depth a non-null list is given where a nullable list is expected.
pub accepts-display :
    (s t : Type_)
    → is_well_named s ≡ true
    → is_well_named t ≡ true
    → accepts (display s) (display t) ≡ some (compatible s t && not (gives_non_null_list s t))
unfolding accepts expected
accepts-display s t hs ht =
    both-display _ s t hs ht
    ∙ is_subtype-meta (suc (length (display s) + length (display t))) s t hs ht
        (omega (arith, weight-le s, weight-le t))

mutual
  unfolding compatible

  compatible_refl : (t : Type_) → compatible t t ≡ true
  compatible_refl (type_ base true) = compatible_base_refl base
  compatible_refl (type_ base false) = compatible_base_refl base

  compatible_base_refl : (base : BaseType) → compatible_base base base ≡ true
  compatible_base_refl (TypeNames.named name) = text_eq_refl name
  compatible_base_refl (TypeNames.list ty) = compatible_refl ty

-- If the names in a type are names, a non-null list of the type is refused where the same list is
-- expected nullable, though by the rules of the specification it is compatible.
pub accepts-non_null_list :
    (t : Type_)
    → is_well_named t ≡ true
    → let place = type_ (TypeNames.list t) true in
      let given = type_ (TypeNames.list t) false in
      (accepts (display place) (display given) ≡ some false) × (compatible place given ≡ true)
unfolding is_well_named compatible gives_non_null_list
accepts-non_null_list t h =
    let e = accepts-display (type_ (TypeNames.list t) true) (type_ (TypeNames.list t) false) h h in
    (ground (arith, e), compatible_refl t)

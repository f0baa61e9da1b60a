-- ===== src/Validation/InputValues/Decides.antt =====
-- The loops of `is_valid_input_value` (src/validation/utils.rs) come to an answer if their steps do.
use async_graphql.Prelude.{
  List, [], ◌∷◌, map, Text, text_discrete, text_eq, text_eq_iff, true, false, not, Option, none,
  some, ◌≡◌, refl, sym, ◌∙◌, ap, subst, ◌↔◌, ◌⊎◌, inl, inr, contains, contains-cons,
  contains-cons_self, contains-cons_of, contains-keep, keep, arith, Bool-cases,
}
use async_graphql.Parser.TypeNames
use async_graphql.Parser.TypeNames.{Type_, type_, display}
use async_graphql.Parser.TypeNames.RoundTrip.{is_well_named}
use async_graphql.Value.{ConstValue, ConstMap}
use async_graphql.Registry.Types.{MetaInputValue}
use async_graphql.Registry.TypeNames.{create, is_non_null}
use async_graphql.Registry.TypeNames.Layers.{meta, create-display}
use async_graphql.Validation.InputValues.{
  QueryPathNode, name, Checked, valid, refused, find_value, check_missing, check_unknown,
  check_field, check_fields,
}
use async_graphql.Validation.InputValues.Accepts.{MissingOk, FieldOk, FieldsOk}

-- A check that comes to an answer, which is good exactly under a condition.
abbrev pub Decides : Checked → Type 0 → Type 0
Decides run P = (r : Option Text) × (run ≡ some r) × ((r ≡ none) ↔ P)

pub valid-Decides : (P : Type 0) → P → Decides valid P
valid-Decides P p = (none, refl, (λ h. p, λ h. refl))

pub refused-Decides :
    (path : QueryPathNode) (msg : Text) (P : Type 0) → (P → ⊥) → Decides (refused path msg) P
unfolding refused
refused-Decides path msg P never = (some _, refl, (λ h. cc, λ p. elim (never p) [ ]))

-- The same answer for a condition that says the same.
pub Decides_same : {P Q : Type 0} (run : Checked) → P ↔ Q → Decides run P → Decides run Q
Decides_same run iff (r, e, h) = (r, e, (λ n. iff.0 (h.0 n), λ q. h.1 (iff.1 q)))

regroup : {A B C D : Type 0} → C ↔ D → (A × (B × C)) ↔ ((A × B) × D)
regroup h = (λ (a, bc). ((a, bc.0), h.0 bc.1), λ (ab, d). (ab.0, (ab.1, h.1 d)))

pub then_Decides :
    {P Q : Type 0} (first rest : Checked)
    → Decides first P
    → Decides rest Q
    → Decides
        (elim first [ none ↦ none | some (some reason) ↦ some (some reason) | some none ↦ rest ])
        (P × Q)
then_Decides first rest (some reason, e, h) later =
    (some reason, rw e refl, (λ n. cc, λ p. h.1 p.0))
then_Decides first rest (none, e, h) (r, e', h') =
    (r, rw e e', (λ n. (h.0 refl, h'.0 n), λ p. h'.1 p.1))

module _ {Number : Type 0} where
  -- What is known of a field of the value: it is not given, or it has a value, of which the check
  -- decides whether it fits.
  abbrev pub At :
      (Text → ConstValue Number → QueryPathNode → Checked)
      → Option (ConstValue Number)
      → Option (Type_ → Type 0)
      → Type_
      → Type 1
  At rec found at ty =
      ((found ≡ none) × (at ≡ none))
      ⊎ ((value : ConstValue Number) × (fits : Type_ → Type 0) × (found ≡ some value)
          × (at ≡ some fits)
          × ((path : QueryPathNode) → Decides (rec (display ty) value path) (fits ty)))

check_missing-Decides :
    {Context : Type 0} (path : QueryPathNode) (field : MetaInputValue Context) (ty : Type_)
    → field.ty ≡ display ty
    → is_well_named ty ≡ true
    → Decides (check_missing path field) (MissingOk ty field.default_value)
unfolding check_missing MissingOk meta is_non_null
check_missing-Decides path field ty e named =
    go ty field.default_value refl (ap create e ∙ create-display ty named)
  where
    go :
        (t : Type_) (default : Option Text)
        → field.default_value ≡ default
        → create field.ty ≡ some (meta t)
        → Decides (check_missing path field) (MissingOk t default)
    go (type_ (TypeNames.named n) true) default same made =
        rw (made, check_missing) (valid-Decides (Unit {0}) tt)
    go (type_ (TypeNames.list t) true) default same made =
        rw (made, check_missing) (valid-Decides (Unit {0}) tt)
    go (type_ base false) (some v) same made =
        rw (made, check_missing, same, check_missing) (valid-Decides (Unit {0}) tt)
    go (type_ base false) none same made =
        rw (made, check_missing, same, check_missing) (refused-Decides path _ ⊥ (λ p. p))

module _ {Context Number : Type 0} (type_of : MetaInputValue Context → Type_)
    (rec : Text → ConstValue Number → QueryPathNode → Checked) where
  check_field-Decides :
      (path : QueryPathNode) (entries : ConstMap Number) (field : MetaInputValue Context)
      → (at : Option (Type_ → Type 0)) → field.ty ≡ display (type_of field)
      → is_well_named (type_of field) ≡ true
      → At rec (find_value field.name entries) at (type_of field)
      → Decides (check_field rec path entries field) (FieldOk type_of at field)
  unfolding check_field FieldOk
  check_field-Decides path entries field at e named (inr (value, fits, found, same, decides)) =
      subst (λ o. Decides (check_field rec path entries field) (FieldOk type_of o field)) (sym same)
        (rw (found, check_field)
          (subst (λ t. Decides (rec t value (name path field.name)) (fits (type_of field))) (sym e)
            (decides (name path field.name))))
  check_field-Decides path entries field at e named (inl (found, same)) =
      subst (λ o. Decides (check_field rec path entries field) (FieldOk type_of o field)) (sym same)
        (rw (found, check_field) (check_missing-Decides path field (type_of field) e named))

  -- What is to be known of the fields of an object type.
  unfoldable pub Known :
      ConstMap Number → (Text → Option (Type_ → Type 0)) → List (MetaInputValue Context) → Type 1
  unfolding find_value
  Known entries at [] = Unit {1}
  Known entries at (field ∷ fields) =
      (field.ty ≡ display (type_of field))
      × (is_well_named (type_of field) ≡ true)
      × At rec (find_value field.name entries) (at field.name) (type_of field)
      × Known entries at fields

  abbrev names_of : List (MetaInputValue Context) → List Text
  names_of fields = map (λ field. field.name) fields

  -- The keys of an object are names of its type's fields.
  abbrev pub Covers : List Text → List (MetaInputValue Context) → Type 0
  Covers keys fields =
      (key : Text)
      → contains text_discrete key keys ≡ true
      → contains text_discrete key (names_of fields) ≡ true

  Covers-keep :
      (keys : List Text) (field : MetaInputValue Context) (fields : List (MetaInputValue Context))
      → Covers (keep (λ key. not (text_eq key field.name)) keys) fields
        ↔ Covers keys (field ∷ fields)
  Covers-keep keys field fields = (
    λ cover key h. elim (Bool-cases (text_eq key field.name)) [
      | inl agree ↦
          subst (λ k. contains text_discrete k (field.name ∷ names_of fields) ≡ true)
            (sym ((text_eq_iff key field.name).0 agree))
            (contains-cons_self text_discrete field.name (names_of fields))
      | inr differ ↦
          contains-cons_of text_discrete key field.name (names_of fields)
            (cover key ((kept key).1 (h, ap not differ)))
    ],
    λ cover key h.
        let (old, ne) = (kept key).0 h in
        elim (contains-cons text_discrete key field.name (names_of fields) (cover key old)) [
          | inl same ↦ elim (clash key field.name ne (sym same)) [ ]
          | inr later ↦ later
        ],
  )
    where
      kept :
          (key : Text)
          → (contains text_discrete key (keep (λ k. not (text_eq k field.name)) keys) ≡ true)
            ↔ ((contains text_discrete key keys ≡ true) × (not (text_eq key field.name) ≡ true))
      kept key = contains-keep text_discrete (λ k. not (text_eq k field.name)) key keys

      clash : (a b : Text) → not (text_eq a b) ≡ true → a ≡ b → ⊥
      clash a b ne same = ground (arith, (text_eq_iff a b).1 same)

  uncovered : (key : Text) (keys : List Text) → Covers (key ∷ keys) [] → ⊥
  unfolding contains
  uncovered key keys cover =
      let h : false ≡ true = cover key (contains-cons_self text_discrete key keys) in cc

  pub check_fields-Decides :
      (path : QueryPathNode) (object_name : Text) (entries : ConstMap Number)
      → (at : Text → Option (Type_ → Type 0)) (fields : List (MetaInputValue Context))
      → (keys : List Text) → Known entries at fields
      → Decides
          (check_fields rec path object_name entries fields keys)
          (FieldsOk type_of at fields × Covers keys fields)
  unfolding check_fields FieldsOk Known contains check_unknown
  check_fields-Decides path object_name entries at [] [] known = valid-Decides _ (tt, λ key h. cc)
  check_fields-Decides path object_name entries at [] (key ∷ keys) known =
      refused-Decides path _ _ (λ p. uncovered key keys p.1)
  check_fields-Decides path object_name entries at (field ∷ fields) keys (e, named, asked, known) =
      let first = check_field-Decides path entries field (at field.name) e named asked in
      let rest =
        check_fields-Decides path object_name entries at fields
          (keep (λ key. not (text_eq key field.name)) keys) known in
      Decides_same _ (regroup (Covers-keep keys field fields))
        (then_Decides (check_field rec path entries field) _ first rest)

-- ===== src/Validation/VariablePositions/Allowed.antt =====
-- When src/validation/rules/variables_in_allowed_position.rs has nothing against a use of a variable,
-- on the types themselves instead of their texts.
use mathlib.Core.List.{Memᴰ}
use async_graphql.Prelude.{
  List, [], ◌∷◌, ◌++◌, Text, text_eq, text_eq_iff, Bool, true, false, not, ◌&&◌, some,
  some-injective, ◌≡◌, ◌≢◌, refl, sym, ◌∙◌, ap, subst, inl, inr, arith, if◌then◌else◌, Bool-cases,
  append-nil,
}
use async_graphql.Parser.TypeNames.{Type_, type_, display}
use async_graphql.Parser.TypeNames.RoundTrip.{is_well_named}
use async_graphql.Registry.TypeNames.{accepts}
use async_graphql.Registry.TypeNames.Subtype.{compatible, gives_non_null_list, accepts-display}
use async_graphql.Validation.VariablePositions.{
  VariableDefinition, Usage, find_definition, is_nullable, expected_type,
}

-- The first definition of a variable's name in an operation.
pub data Defines (name : Text) (def : VariableDefinition) : List VariableDefinition → Type 0 where
  here : {defs : List VariableDefinition} → def.name ≡ name → Defines name def (def ∷ defs)
  there :
      {other : VariableDefinition} {defs : List VariableDefinition}
      → other.name ≢ name
      → Defines name def defs
      → Defines name def (other ∷ defs)

-- The type whose values a variable has: with a default value never null.
abbrev pub with_default : Type_ → Bool → Type_
with_default (type_ base nullable) has_default = type_ base (nullable && not has_default)

abbrev pub given_type : VariableDefinition → Type_
given_type def = with_default def.var_type def.has_default

-- A use of a variable is allowed in an operation: if the operation defines the variable, the place
-- has a type with which the variable's type is compatible by the rules of the specification, and at
-- no depth a non-null list is given where a nullable list is expected.
abbrev pub AllowedUse : List VariableDefinition → Usage → Type 0
AllowedUse defs usage =
    (def : VariableDefinition)
    → Defines usage.name def defs
    → (place : Type_) × (display place ≡ usage.type_name)
      × (is_well_named place ≡ true)
      × (compatible place (given_type def) ≡ true)
      × (gives_non_null_list place (given_type def) ≡ false)

-- The place of a use has the text of a type.
abbrev pub HasType : Usage → Type 0
HasType usage = (place : Type_) × (display place ≡ usage.type_name) × (is_well_named place ≡ true)

-- The types of the definitions are made of names.
abbrev pub WellNamed : List VariableDefinition → Type 0
WellNamed defs = (def : VariableDefinition) → Memᴰ def defs → is_well_named def.var_type ≡ true

expected-display :
    (ty : Type_) (has_default : Bool)
    → (if is_nullable ty && has_default then display ty ++ b'!' ∷ [] else display ty)
      ≡ display (with_default ty has_default)
unfolding display
expected-display (type_ base true) true = rw append-nil
expected-display (type_ base true) false = refl
expected-display (type_ base false) has_default = refl

with_default-is_well_named :
    (ty : Type_) (has_default : Bool)
    → is_well_named ty ≡ true
    → is_well_named (with_default ty has_default) ≡ true
unfolding is_well_named
with_default-is_well_named (type_ base nullable) has_default h = h

pub find_definition-Defines :
    (name : Text) (defs : List VariableDefinition) (def : VariableDefinition)
    → find_definition name defs ≡ some def
    → Defines name def defs
unfolding find_definition
find_definition-Defines name [] def e = cc
find_definition-Defines name (first ∷ defs) def e = elim (Bool-cases (text_eq first.name name)) [
  | inl agree ↦
      let found : find_definition name (first ∷ defs) ≡ some first =
        rw (agree, find_definition) refl in
      subst (λ d. Defines name d (first ∷ defs)) (some-injective first def (sym found ∙ e))
        (here ((text_eq_iff first.name name).0 agree))
  | inr differ ↦
      let passed_by : find_definition name (first ∷ defs) ≡ find_definition name defs =
        rw (differ, find_definition) refl in
      there (λ same. differs first.name differ same)
        (find_definition-Defines name defs def (sym passed_by ∙ e))
]
  where
    differs : (a : Text) → text_eq a name ≡ false → a ≡ name → ⊥
    differs a h same = ground (arith, (text_eq_iff a name).1 same)

pub Defines-find_definition :
    (name : Text) (defs : List VariableDefinition) (def : VariableDefinition)
    → Defines name def defs
    → find_definition name defs ≡ some def
unfolding find_definition
Defines-find_definition name [] def d = elim d [ ]
Defines-find_definition name (first ∷ defs) def (here e) =
    rw ((text_eq_iff first.name name).1 e, find_definition) refl
Defines-find_definition name (first ∷ defs) def (there ne d) =
    elim (Bool-cases (text_eq first.name name)) [
      | inl agree ↦ absurd (ne ((text_eq_iff first.name name).0 agree))
      | inr differ ↦ rw (differ, find_definition) (Defines-find_definition name defs def d)
    ]

pub Defines-Memᴰ :
    (name : Text) (defs : List VariableDefinition) (def : VariableDefinition)
    → Defines name def defs
    → Memᴰ def defs
Defines-Memᴰ name [] def d = elim d [ ]
Defines-Memᴰ name (first ∷ defs) def (here e) = Memᴰ.head refl
Defines-Memᴰ name (first ∷ defs) def (there ne d) = Memᴰ.tail (Defines-Memᴰ name defs def d)

-- What the subtype test says of a place and of a variable's definition.
pub accepts-given :
    (place : Type_) (def : VariableDefinition)
    → is_well_named place ≡ true
    → is_well_named def.var_type ≡ true
    → accepts (display place) (expected_type def)
      ≡ some (compatible place (given_type def) && not (gives_non_null_list place (given_type def)))
unfolding expected_type
accepts-given place def named_place named =
    ap (accepts (display place)) (expected-display def.var_type def.has_default)
    ∙ accepts-display place (given_type def) named_place
        (with_default-is_well_named def.var_type def.has_default named)

-- ===== src/Validation/InputValues/Tests.antt =====
-- Runs of `is_valid_input_value`, and its theorem there.
use async_graphql.Prelude.{
  ℕ, ◌+◌, ◌<◌, [], ◌∷◌, Text, text_discrete, codes, false, Option, none, some, ◌≡◌, refl, arith,
  get, all, sym, ◌∙◌, subst,
}
use async_graphql.Parser.TypeNames
use async_graphql.Parser.TypeNames.{Type_, type_, display, is_name_char}
use async_graphql.Value.{ConstValue, null, number, object, end, entry}
use async_graphql.Registry.Types.{MetaInputValue, MetaType, InputObjectType, Registry, values}
use async_graphql.Registry.TypeNames.{create}
use async_graphql.Registry.TypeNames.Layers.{weight, base_name}
use async_graphql.Parser.TypeNames.RoundTrip.{is_well_named}
use async_graphql.Validation.InputValues.{
  root, name, valid, expected_type, is_valid_input_value, QueryPathNode,
}
use async_graphql.Validation.InputValues.Accepts.{Accepts}
use async_graphql.Validation.InputValues.Decides.{Decides}
use async_graphql.Validation.InputValues.Layered.{Fine}
use async_graphql.Validation.InputValues.Objects.{AllFine, WellTyped}
use async_graphql.Validation.InputValues.Correct.{cost, is_valid_input_value-Accepts}

abbrev non_null_p : Type_
non_null_p = type_ (TypeNames.named (codes "P")) false

-- input P { x: P! }
abbrev field_of : Text → Text → Option Text → Text × MetaInputValue ℕ
field_of field_name ty default =
    (field_name, record { name = field_name; ty = ty; default_value = default; visible = none })

abbrev input_p : MetaType ℕ ℕ
input_p = MetaType.input_object (record {
  name = codes "P";
  input_fields = field_of (codes "x") (codes "P!") none ∷ [];
  visible = none;
  rust_typename = none;
  oneof = false;
})

abbrev registry : Registry ℕ ℕ
registry = record {
  types = (codes "P", input_p) ∷ [];
  directives = [];
  implements = [];
  query_type = codes "Q";
  mutation_type = none;
  subscription_type = none;
}

abbrev here : QueryPathNode
here = root (codes "p")

-- A number passes where the input object is asked for.
number_passes : is_valid_input_value registry 9 (codes "P!") (number 7) here ≡ valid
unfolding is_valid_input_value create
number_passes = refl

null_refused :
    is_valid_input_value registry 9 (codes "P!") null here ≡ expected_type here (codes "P")
unfolding is_valid_input_value create
null_refused = refl

nested_null :
    is_valid_input_value registry 9 (codes "P") (object (entry (codes "x") null end)) here
    ≡ expected_type (name here (codes "x")) (codes "P")
unfolding is_valid_input_value create
nested_null = refl

abbrev type_of : MetaInputValue ℕ → Type_
type_of field = non_null_p

Fine-p : Fine registry non_null_p
unfolding is_well_named base_name get text_discrete all is_name_char
Fine-p = (refl, (input_p, refl))

-- What `WellTyped` asks of a type.
abbrev FieldsFine : Option (MetaType ℕ ℕ) → Type 0
FieldsFine (some (MetaType.input_object ty)) = AllFine registry type_of 1 (values ty.input_fields)
FieldsFine found = Unit {0}

input_p-FieldsFine : FieldsFine (some input_p)
unfolding AllFine display weight
input_p-FieldsFine = (refl, Fine-p, omega arith, tt)

registry-WellTyped : WellTyped registry type_of 1
unfolding get
registry-WellTyped type_name ty e = elim (text_discrete (codes "P") type_name) [
  | yes same ↦
      let found : get text_discrete type_name registry.types ≡ some input_p =
        ground (arith, same) in
      subst FieldsFine (sym found ∙ e) input_p-FieldsFine
  | no ne ↦
      let missing : get text_discrete type_name registry.types ≡ none = ground (arith, ne) in
      elim (nothing ty (sym missing ∙ e)) [ ]
]
  where
    nothing :
        (ty : InputObjectType ℕ)
        → Path (Option (MetaType ℕ ℕ)) none (some (MetaType.input_object ty))
        → ⊥
    nothing ty e = cc

-- { "x": null }
abbrev with_null : ConstValue ℕ
with_null = object (entry (codes "x") null end)

enough : cost 1 with_null + weight non_null_p < 5
unfolding cost weight
enough = omega arith

is_valid_input_value-Accepts_example :
    Decides
      (is_valid_input_value registry 5 (display non_null_p) with_null here)
      (Accepts registry type_of with_null non_null_p)
is_valid_input_value-Accepts_example =
    is_valid_input_value-Accepts registry type_of 1 registry-WellTyped with_null non_null_p 5 here
      Fine-p enough

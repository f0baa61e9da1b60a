-- ===== src/Schema/Skips/Excluded.antt =====
-- When `@skip` and `@include` exclude a selection, by the rules of the specification, and the lookups
-- of src/schema.rs that find it out.
use mathlib.Core.List.{Memᴰ}
use async_graphql.Prelude.{
  List, [], ◌∷◌, Text, codes, text_discrete, text_eq, text_eq_iff, true, false, none, some,
  some-injective, ◌≡◌, ◌≢◌, refl, sym, ◌∙◌, ap, inl, inr, get, arith, Bool-cases, Option-cases,
  Result-cases,
}
use async_graphql.Value.{
  ConstValue, Value, ValueList, ValueMap, into_const_with, into_const_items, into_const_entries,
}
use async_graphql.Document.{Argument, Directive, find_argument}
use async_graphql.Schema.Skips.{look_up, parse_bool, condition_value}

-- The value of the first argument of a name.
pub data FirstArgument {Number : Type 0} (name : Text) (value : Value Number)
    : List (Argument Number) → Type 0 where
  here :
      {argument : Argument Number} {arguments : List (Argument Number)}
      → argument.name ≡ name
      → argument.value ≡ value
      → FirstArgument name value (argument ∷ arguments)
  there :
      {argument : Argument Number} {arguments : List (Argument Number)}
      → argument.name ≢ name
      → FirstArgument name value arguments
      → FirstArgument name value (argument ∷ arguments)

-- A condition that is true: written out, or the value that the request gives to a variable.
pub data Truth {Number : Type 0} (variables : List (Text × ConstValue Number))
    : Value Number → Type 0 where
  literal : Truth variables (Value.boolean true)
  bound :
      {name : Text}
      → get text_discrete name variables ≡ some (ConstValue.boolean true)
      → Truth variables (Value.variable name)

-- A directive that excludes what carries it: `@skip` with a true condition, or `@include` with one
-- that is not true.
pub data Excludes {Number : Type 0} (variables : List (Text × ConstValue Number))
    (directive : Directive Number) : Type 0 where
  skips :
      {condition : Value Number}
      → directive.name ≡ codes "skip"
      → FirstArgument (codes "if") condition directive.arguments
      → Truth variables condition
      → Excludes variables directive
  includes_not :
      {condition : Value Number}
      → directive.name ≡ codes "include"
      → FirstArgument (codes "if") condition directive.arguments
      → ¬ Truth variables condition
      → Excludes variables directive

abbrev pub Excluded :
    {Number : Type 0} → List (Text × ConstValue Number) → List (Directive Number) → Type 0
Excluded {Number} variables directives =
    (directive : Directive Number) × Memᴰ directive directives × Excludes variables directive

pub text_ne : (a b : Text) → a ≢ b → text_eq a b ≡ false
text_ne a b ne = elim (Bool-cases (text_eq a b)) [
  | inl e ↦ absurd (ne ((text_eq_iff a b).0 e))
  | inr e ↦ e
]

text_eq-ne : (a b : Text) → text_eq a b ≡ false → a ≢ b
text_eq-ne a b e same = ground (arith, (text_eq_iff a b).1 same)

module _ {Number : Type 0} where
  pub FirstArgument-find_argument :
      (name : Text) (value : Value Number) (arguments : List (Argument Number))
      → FirstArgument name value arguments
      → find_argument name arguments ≡ some value
  unfolding find_argument
  FirstArgument-find_argument name value [] first = elim first [ ]
  FirstArgument-find_argument name value (argument ∷ arguments) (here e e') =
      rw ((text_eq_iff argument.name name).1 e, find_argument) (ap some e')
  FirstArgument-find_argument name value (argument ∷ arguments) (there ne first) =
      rw (text_ne argument.name name ne, find_argument)
        (FirstArgument-find_argument name value arguments first)

  pub find_argument-FirstArgument :
      (name : Text) (value : Value Number) (arguments : List (Argument Number))
      → find_argument name arguments ≡ some value
      → FirstArgument name value arguments
  unfolding find_argument
  find_argument-FirstArgument name value [] e = cc
  find_argument-FirstArgument name value (argument ∷ arguments) e =
      elim (Bool-cases (text_eq argument.name name)) [
        | inl agree ↦
            let found : find_argument name (argument ∷ arguments) ≡ some argument.value =
              rw (agree, find_argument) refl in
            here ((text_eq_iff argument.name name).0 agree)
              (some-injective argument.value value (sym found ∙ e))
        | inr differ ↦
            let passed_by : find_argument name (argument ∷ arguments)
                ≡ find_argument name arguments =
              rw (differ, find_argument) refl in
            there (text_eq-ne argument.name name differ)
              (find_argument-FirstArgument name value arguments (sym passed_by ∙ e))
      ]

  module _ (variables : List (Text × ConstValue Number)) where
    parse_bool-eq-true :
        (value : ConstValue Number) → parse_bool value ≡ true → value ≡ ConstValue.boolean true
    unfolding parse_bool
    parse_bool-eq-true (ConstValue.boolean true) h = refl
    parse_bool-eq-true (ConstValue.boolean false) h = cc
    parse_bool-eq-true ConstValue.null h = cc
    parse_bool-eq-true (ConstValue.number n) h = cc
    parse_bool-eq-true (ConstValue.string s) h = cc
    parse_bool-eq-true (ConstValue.binary bytes) h = cc
    parse_bool-eq-true (ConstValue.enum v) h = cc
    parse_bool-eq-true (ConstValue.list items) h = cc
    parse_bool-eq-true (ConstValue.object map) h = cc

    list_false : (items : ValueList Number) → condition_value variables (Value.list items) ≡ false
    unfolding condition_value into_const_with parse_bool
    list_false items = elim (Result-cases (into_const_items (look_up variables) items)) [
      | inl (values, e) ↦ rw (e, condition_value) refl
      | inr (error, e) ↦ rw (e, condition_value) refl
    ]

    object_false : (map : ValueMap Number) → condition_value variables (Value.object map) ≡ false
    unfolding condition_value into_const_with parse_bool
    object_false map = elim (Result-cases (into_const_entries (look_up variables) map)) [
      | inl (values, e) ↦ rw (e, condition_value) refl
      | inr (error, e) ↦ rw (e, condition_value) refl
    ]

    pub condition_value-Truth :
        (condition : Value Number)
        → condition_value variables condition ≡ true
        → Truth variables condition
    unfolding condition_value into_const_with look_up parse_bool
    condition_value-Truth (Value.variable name) h =
        elim (Option-cases (get text_discrete name variables)) [
          | inl e ↦ absurd (missing e)
          | inr (value, e) ↦
              bound (e ∙ ap some (parse_bool-eq-true value (sym (known value e) ∙ h)))
        ]
      where
        missing : get text_discrete name variables ≡ none → ⊥
        missing e = ground (arith, e)

        known :
            (value : ConstValue Number)
            → get text_discrete name variables ≡ some value
            → condition_value variables (Value.variable name) ≡ parse_bool value
        known value e = rw (e, condition_value) refl
    condition_value-Truth (Value.boolean true) h = literal
    condition_value-Truth (Value.boolean false) h = cc
    condition_value-Truth Value.null h = cc
    condition_value-Truth (Value.number n) h = cc
    condition_value-Truth (Value.string s) h = cc
    condition_value-Truth (Value.binary bytes) h = cc
    condition_value-Truth (Value.enum v) h = cc
    condition_value-Truth (Value.list items) h = cc (list_false items)
    condition_value-Truth (Value.object map) h = cc (object_false map)

    pub Truth-condition_value :
        (condition : Value Number)
        → Truth variables condition
        → condition_value variables condition ≡ true
    unfolding condition_value into_const_with look_up parse_bool
    Truth-condition_value condition literal = refl
    Truth-condition_value condition (bound e) = rw (e, condition_value) refl

-- ===== src/Value/Tests.antt =====
-- Runs of the conversions and of printing, and the theorems at a concrete value.
use async_graphql.Prelude.{
  ℕ, [], ◌∷◌, ◌++◌, Text, codes, some, ◌≡◌, refl, ◌↔◌, Result, ok, err, outcome,
}
use async_graphql.Value.{
  ConstValue, Value, variable, number, string, list, object, nil, cons, end, entry, into_value,
  into_const_with, into_const, referenced_variables,
}
use async_graphql.Value.Print.{decimal, display_const, display, write_char, write_quoted}
use async_graphql.Value.Convert.{
  look_up_all, into_const_with-into_value, into_const_with-referenced_variables,
  into_const-eq-some_iff,
}
use async_graphql.Value.Display.{display-into_value}

-- {a: [7, "x"]}
abbrev constant : ConstValue ℕ
constant = object (entry (codes "a") (list (cons (number 7) (cons (string (codes "x")) nil))) end)

-- {a: $v, b: [$w]}
abbrev open_value : Value ℕ
open_value = object (
    entry (codes "a") (variable (codes "v"))
      (entry (codes "b") (list (cons (variable (codes "w")) nil)) end))

abbrev missing : Text → Result Text (ConstValue ℕ)
missing name = err name

reads_variables : referenced_variables open_value ≡ codes "v" ∷ codes "w" ∷ []
unfolding referenced_variables
reads_variables = refl

first_error : into_const_with missing open_value ≡ err (codes "v")
unfolding into_const_with
first_error = refl

prints : display_const decimal constant ≡ codes "{a: [7, " ++ 34 ∷ b'x' ∷ 34 ∷ codes "]}"
unfolding display_const write_quoted write_char decimal
prints = refl

into_const_with-into_value_example : into_const_with missing (into_value constant) ≡ ok constant
into_const_with-into_value_example = into_const_with-into_value missing constant

into_const_with-referenced_variables_example :
    outcome (into_const_with missing open_value)
    ≡ look_up_all missing (referenced_variables open_value)
into_const_with-referenced_variables_example =
    into_const_with-referenced_variables missing open_value

into_const-eq-some_iff_example :
    (into_const (into_value constant) ≡ some constant) ↔ (into_value constant ≡ into_value constant)
into_const-eq-some_iff_example = into_const-eq-some_iff (into_value constant) constant

display-into_value_example : display decimal (into_value constant) ≡ display_const decimal constant
display-into_value_example = display-into_value decimal constant

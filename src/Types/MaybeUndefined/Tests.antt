-- ===== src/Types/MaybeUndefined/Tests.antt =====
-- Runs of `MaybeUndefined`, over texts and Booleans.
use async_graphql.Prelude.{
  ℕ, Text, codes, text_eq, Bool, true, Option, none, some, Result, ok, err, ◌≡◌, refl,
}
use async_graphql.Value.{ConstValue, number, boolean}
use async_graphql.Types.MaybeUndefined.{
  undefined, null, value, into_option, update_to, transpose, InputValueError, InputType, propagate,
  parse,
}
use async_graphql.Types.MaybeUndefined.Refines.{Simulates, into_option-Simulates}
use async_graphql.Types.MaybeUndefined.Parsed.{argument, parse-argument}

-- The Booleans as an input type.
abbrev parse_boolean : Option (ConstValue ℕ) → Result (InputValueError ℕ) Bool
parse_boolean (some (boolean b)) = ok b
parse_boolean given = err (record { message = codes "no Boolean"; extensions = none })

abbrev booleans : InputType ℕ ℕ Bool
booleans = record { type_name = codes "Boolean"; parse = parse_boolean; to_value = boolean }

updated : update_to null (some (codes "old")) ≡ none
unfolding update_to
updated = refl

kept : update_to undefined (some (codes "old")) ≡ some (codes "old")
unfolding update_to
kept = refl

failed : transpose {T = Bool} (value (err (codes "e"))) ≡ err (codes "e")
unfolding transpose
failed = refl

-- The type's name is that of the content, so that the message stays as it is.
number_fails :
    parse booleans (some (number 3))
    ≡ err (record { message = codes "no Boolean"; extensions = none })
unfolding parse propagate text_eq
number_fails = refl

not_null : (b : Bool) → ¬ (booleans.to_value b ≡ ConstValue.null)
not_null b e = cc (e)

parsed : (b : Bool) → booleans.parse (some (booleans.to_value b)) ≡ ok b
parsed b = refl

parse-argument_example : parse booleans (argument booleans (value true)) ≡ ok (value true)
parse-argument_example = parse-argument booleans not_null parsed (value true)

-- Clears a content, and turns nothing into a text.
abbrev swap : Option Text → Option Text
swap none = some (codes "new")
swap (some s) = none

into_option-Simulates_example :
    Simulates text_eq swap (λ s. s) (value (codes "a")) (into_option (value (codes "a")))
into_option-Simulates_example = into_option-Simulates text_eq swap (λ s. s) (value (codes "a"))

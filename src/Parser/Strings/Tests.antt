-- ===== src/Parser/Strings/Tests.antt =====
-- Runs of `string_value` and `write_quoted`: the source's own tests among them, and the theorems at
-- concrete strings.
use async_graphql.Prelude.{◌++◌, [], ◌∷◌, Text, codes, none, some, ◌≡◌, refl, ◌≢◌, arith, all}
use async_graphql.Value.Print.{is_control, write_char, write_quoted}
use async_graphql.Parser.Strings.{string_value}
use async_graphql.Parser.Strings.RoundTrip.{
  is_plain, string_value-write_quoted, string_value-write_char_control,
}

-- "\\n\\b\\u2a1A"
reads_unicode :
    string_value (92 ∷ b'n' ∷ 92 ∷ b'b' ∷ 92 ∷ codes "u2a1A") ≡ some (10 ∷ 8 ∷ 0x2a1a ∷ [])
unfolding string_value
reads_unicode = refl

reads_surrogate : string_value (92 ∷ codes "ud83d") ≡ none
unfolding string_value
reads_surrogate = refl

-- The control character 16 is written as `\u0016`.
writes_control : write_quoted (16 ∷ []) ≡ 34 ∷ 92 ∷ (codes "u0016" ++ 34 ∷ [])
unfolding write_quoted write_char
writes_control = refl

abbrev sample : Text
sample = codes "say " ++ 34 ∷ 10 ∷ 92 ∷ []

string_value-write_quoted_example :
    (t : Text) × (write_quoted sample ≡ 34 ∷ (t ++ 34 ∷ [])) × (string_value t ≡ some sample)
string_value-write_quoted_example = string_value-write_quoted sample (unfold all is_plain in refl)

string_value-write_char_control_example : string_value (write_char 16) ≢ some (16 ∷ [])
string_value-write_char_control_example =
    string_value-write_char_control 16 (unfold is_control in refl) (unfold is_plain in refl)
      (omega arith)

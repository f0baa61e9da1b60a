-- ===== src/Parser/Strings/RoundTrip.antt =====
-- Printing a string (value/src/lib.rs, `write_quoted`) and reading it back
-- (parser/src/parse/utils.rs, `string_value`).
use async_graphql.Prelude.{
  ℕ, zero, suc, ◌≤◌, ◌<◌, [], ◌∷◌, ◌++◌, Text, Bool, true, false, not, ◌||◌, Option, some, ◌≡◌,
  refl, ◌≢◌, arith, ltb, ◌==◌, ℕ_discrete, length, length-append, all, ap, ◌⊎◌, inl, inr,
}
use async_graphql.Value.Print.{is_control, write_char, write_chars, write_quoted}
use async_graphql.Parser.Strings.{◌>>=◌, next_char, take_escape, unescape, string_value}

-- A character that `write_quoted` does not have to write as a number.
unfoldable pub is_plain : ℕ → Bool
unfolding is_control
is_plain c = not (is_control c) || c == 9 || c == 10 || c == 13

-- A plain character is written as it is, or as a backslash and a letter that stands for it.
write_plain :
    (c : ℕ) (rest : Text)
    → is_plain c ≡ true
    → ((write_char c ≡ c ∷ []) × (next_char c rest ≡ some (c, rest)))
      ⊎ ((d : ℕ) × (write_char c ≡ 92 ∷ d ∷ []) × (take_escape (d ∷ rest) ≡ some (c, rest)))
unfolding is_plain next_char write_char
write_plain c rest h = elim (ℕ_discrete c 13) [
  | yes e ↦ inr (b'r', rw e refl, rw e refl)
  | no a13 ↦ elim (ℕ_discrete c 10) [
    | yes e ↦ inr (b'n', rw e refl, rw e refl)
    | no a10 ↦ elim (ℕ_discrete c 9) [
      | yes e ↦ inr (b't', rw e refl, rw e refl)
      | no a9 ↦ elim (ℕ_discrete c 34) [
        | yes e ↦ inr (34, rw e refl, rw e refl)
        | no a34 ↦ elim (ℕ_discrete c 92) [
          | yes e ↦ inr (92, rw e refl, rw e refl)
          | no a92 ↦ inl (ground arith, ground arith)
        ]
      ]
    ]
  ]
]

-- With fuel left over, one written character is read as itself.
unescape-write_char :
    (c f : ℕ) (rest : Text)
    → is_plain c ≡ true
    → unescape (suc f) (write_char c ++ rest) ≡ (unescape f rest >>= (λ xs. some (c ∷ xs)))
unfolding unescape
unescape-write_char c f rest h = elim (write_plain c rest h) [
  | inl (written, read) ↦ rw (written, read)
  | inr (d, written, read) ↦ rw (written, read)
]

length-write_char : (c : ℕ) → 0 < length (write_char c)
unfolding write_char
length-write_char c = ground arith

length-write_chars : (c : ℕ) (s : Text) → length (write_chars s) < length (write_chars (c ∷ s))
unfolding write_chars
length-write_chars c s =
    omega (arith, length-write_char c, length-append (write_char c) (write_chars s))

unescape-write_chars :
    (s : Text) (f : ℕ)
    → all is_plain s ≡ true
    → length (write_chars s) ≤ f
    → unescape f (write_chars s) ≡ some s
unfolding all write_chars unescape
unescape-write_chars [] f h le = refl
unescape-write_chars (c ∷ s) zero h le = absurd (omega (arith, length-write_chars c s))
unescape-write_chars (c ∷ s) (suc f) h le =
    let head : is_plain c ≡ true = ground arith in
    let rest : all is_plain s ≡ true = ground arith in
    rw (
      unescape-write_char c f (write_chars s) head,
      unescape-write_chars s f rest (omega (arith, length-write_chars c s)),
    )

-- A string with no control character but tab, line feed and carriage return is written as a quote,
-- a text, and a quote, and the parser reads the text between the quotes as the string.
pub string_value-write_quoted :
    (s : Text)
    → all is_plain s ≡ true
    → (t : Text) × (write_quoted s ≡ 34 ∷ (t ++ 34 ∷ [])) × (string_value t ≡ some s)
unfolding write_quoted string_value
string_value-write_quoted s h =
    (write_chars s, refl, unescape-write_chars s (length (write_chars s)) h (omega arith))

-- The codes before one, the highest first.
codes_under : ℕ → Text
codes_under zero = []
codes_under (suc bound) = bound ∷ codes_under bound

all-codes_under :
    (p : ℕ → Bool) (bound : ℕ) → all p (codes_under bound) ≡ true → (c : ℕ) → c < bound → p c ≡ true
unfolding codes_under all
all-codes_under p zero good c lt = elim lt [ ]
all-codes_under p (suc bound) good c lt = elim (ℕ_discrete bound c) [
  | yes same ↦ ground (arith, ap p same)
  | no other ↦ all-codes_under p bound (ground arith) c (ground arith)
]

-- Whether a control character is read back as another character.
reads_other : ℕ → Option Text → Bool
reads_other c (some (d ∷ [])) = not (d == c)
reads_other c _ = false

misread : ℕ → Bool
unfolding reads_other is_plain
misread c = is_plain c || ltb c 10 || reads_other c (string_value (write_char c))

misread_table : all misread (codes_under 160) ≡ true
unfolding all codes_under misread write_char string_value
misread_table = refl

misread_control : (c : ℕ) → is_control c ≡ true → misread c ≡ true
misread_control c h = all-codes_under misread 160 misread_table c (below c h)
  where
    below : (x : ℕ) → is_control x ≡ true → x < 160
    below x k = unfold is_control in ground arith

-- Any other control character from 10 on is written in decimal behind `\u`, where the parser reads
-- hexadecimal, so that it is not read back.
pub string_value-write_char_control :
    (c : ℕ)
    → is_control c ≡ true
    → is_plain c ≡ false
    → 10 ≤ c
    → string_value (write_char c) ≢ some (c ∷ [])
string_value-write_char_control c control odd high back =
    let e = misread_control c control in unfold misread in ground arith

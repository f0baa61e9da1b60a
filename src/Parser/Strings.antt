-- ===== src/Parser/Strings.antt =====
-- parser/src/parse/utils.rs: `string_value`, which undoes the escapes of a quoted string. `none` is
-- a panic of the program (`expect`, `unwrap`, `unreachable!`), which the grammar rules out.
pub mod RoundTrip
mod Tests
use async_graphql.Prelude.{
  ℕ, zero, suc, ◌+◌, ◌-◌, ◌*◌, List, [], ◌∷◌, Text, Bool, ◌&&◌, ◌||◌, Option, none, some, leb, ltb,
  ◌==◌, if◌then◌else◌, length,
}

-- `Option::and_then`
infixl 5 ◌>>=◌
abbrev pub ◌>>=◌ : {A B : Type 0} → Option A → (A → Option B) → Option B
some a >>= f = f a
none >>= f = none

-- `char::to_digit(16)`
unfoldable pub hex_digit : ℕ → Option ℕ
hex_digit c =
    if leb b'0' c && leb c b'9'
    then some (c - b'0')
    else if leb b'a' c && leb c b'f'
    then some (c - b'a' + 10)
    else if leb b'A' c && leb c b'F'
    then some (c - b'A' + 10)
    else none

-- `std::char::from_u32`: surrogates and what lies above the last code point are no characters.
unfoldable pub from_u32 : ℕ → Option ℕ
from_u32 n = if (leb 0xd800 n && leb n 0xdfff) || ltb 0x10ffff n then none else some n

-- `\u` and four digits
unfoldable pub take_unicode : Text → Option (ℕ × Text)
unfolding hex_digit from_u32
take_unicode (a ∷ b ∷ c ∷ d ∷ rest) = do
  w ← hex_digit a
  x ← hex_digit b
  y ← hex_digit c
  z ← hex_digit d
  u ← from_u32 (((w * 16 + x) * 16 + y) * 16 + z)
  some (u, rest)
take_unicode _ = none

-- What follows a backslash.
unfoldable pub take_escape : Text → Option (ℕ × Text)
unfolding take_unicode
take_escape [] = none
take_escape (c ∷ rest) =
    if c == 34 || c == 92 || c == b'/'
    then some (c, rest)
    else if c == b'b'
    then some (8, rest)
    else if c == b'f'
    then some (12, rest)
    else if c == b'n'
    then some (10, rest)
    else if c == b'r'
    then some (13, rest)
    else if c == b't'
    then some (9, rest)
    else if c == b'u'
    then take_unicode rest
    else none

-- One round of `from_fn`: the next character of the value, and the text after it.
unfoldable pub next_char : ℕ → Text → Option (ℕ × Text)
unfolding take_escape
next_char c rest = if c == 92 then take_escape rest else some (c, rest)

-- A round takes at least one character, so fuel for each is enough.
unfoldable pub unescape : ℕ → Text → Option Text
unfolding next_char
unescape f [] = some []
unescape zero (c ∷ s) = none
unescape (suc f) (c ∷ s) = do (x, rest) ← next_char c s; xs ← unescape f rest; some (x ∷ xs)

unfoldable pub string_value : Text → Option Text
unfolding unescape
string_value s = unescape (length s) s

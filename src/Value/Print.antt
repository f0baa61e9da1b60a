-- ===== src/Value/Print.antt =====
-- Values as text (value/src/lib.rs: the two `Display` implementations and the `write_` functions).
-- The text of a number is a parameter, since it is serde_json's.
use async_graphql.Prelude.{
  ℕ, zero, suc, ◌+◌, ◌-◌, ◌/◌, ◌%◌, List, [], ◌∷◌, ◌++◌, Text, codes, Bool, true, false, ◌&&◌, ◌||◌,
  leb, ltb, ◌==◌, if◌then◌else◌, length,
}
use async_graphql.Value.{
  ConstValue, ConstList, ConstMap, Value, ValueList, ValueMap, variable, null, number, string,
  boolean, binary, enum, list, object, nil, cons, end, entry,
}

abbrev pub quote : ℕ
quote = 34

abbrev pub backslash : ℕ
backslash = 92

-- A number in decimal. A number below 10 ^ n has at most n digits.
unfoldable pub digits : ℕ → ℕ → Text → Text
digits zero n rest = rest
digits (suc f) n rest =
    let d = (b'0' + n % 10) ∷ rest in let more = digits f (n / 10) d in if ltb n 10 then d else more

-- `{}` of an unsigned number of at most 32 bits, which has at most ten digits
unfoldable pub decimal : ℕ → Text
unfolding digits
decimal n = digits 10 n []

unfoldable pub pad : ℕ → Text → Text
pad zero s = s
pad (suc n) s = b'0' ∷ pad n s

-- `{:04}`
unfoldable pub decimal_04 : ℕ → Text
unfolding decimal pad
decimal_04 n = pad (4 - length (decimal n)) (decimal n)

-- `char::is_control`
unfoldable pub is_control : ℕ → Bool
is_control c = ltb c 0x20 || (leb 0x7f c && ltb c 0xa0)

-- What the loop of `write_quoted` writes for one character.
unfoldable pub write_char : ℕ → Text
unfolding is_control decimal_04
write_char c =
    if c == 13
    then backslash ∷ b'r' ∷ []
    else if c == 10
    then backslash ∷ b'n' ∷ []
    else if c == 9
    then backslash ∷ b't' ∷ []
    else if c == quote
    then backslash ∷ quote ∷ []
    else if c == backslash
    then backslash ∷ backslash ∷ []
    else if is_control c
    then backslash ∷ b'u' ∷ decimal_04 c
    else c ∷ []

unfoldable pub write_chars : Text → Text
write_chars [] = []
write_chars (c ∷ s) = write_char c ++ write_chars s

unfoldable pub write_quoted : Text → Text
unfolding write_chars
write_quoted s = quote ∷ (write_chars s ++ quote ∷ [])

abbrev pub comma : Text
comma = codes ", "

unfoldable pub write_bytes : List ℕ → Text
unfolding decimal
write_bytes [] = []
write_bytes (b ∷ bytes) = comma ++ (decimal b ++ write_bytes bytes)

unfoldable pub write_binary : List ℕ → Text
unfolding write_bytes
write_binary [] = codes "[]"
write_binary (b ∷ bytes) = b'[' ∷ (decimal b ++ (write_bytes bytes ++ codes "]"))

module _ {Number : Type 0} (show : Number → Text) where
  -- `Display for ConstValue`; the flag says that an item is not the first of its list or map.
  unfoldable mutual
    unfolding write_quoted write_binary

    pub display_const : ConstValue Number → Text
    display_const (number n) = show n
    display_const (string s) = write_quoted s
    display_const (boolean b) = if b then codes "true" else codes "false"
    display_const (binary bytes) = write_binary bytes
    display_const null = codes "null"
    display_const (enum name) = name
    display_const (list items) = b'[' ∷ (write_const_list false items ++ codes "]")
    display_const (object map) = b'{' ∷ (write_const_object false map ++ codes "}")

    pub write_const_list : Bool → ConstList Number → Text
    write_const_list later nil = []
    write_const_list later (cons v items) =
        (if later then comma else []) ++ (display_const v ++ write_const_list true items)

    pub write_const_object : Bool → ConstMap Number → Text
    write_const_object later end = []
    write_const_object later (entry k v map) =
        (if later then comma else [])
        ++ (k ++ (codes ": " ++ (display_const v ++ write_const_object true map)))

  -- `Display for Value`
  unfoldable mutual
    unfolding write_quoted write_binary

    pub display : Value Number → Text
    display (variable name) = b'$' ∷ name
    display (number n) = show n
    display (string s) = write_quoted s
    display (boolean b) = if b then codes "true" else codes "false"
    display (binary bytes) = write_binary bytes
    display null = codes "null"
    display (enum name) = name
    display (list items) = b'[' ∷ (write_list false items ++ codes "]")
    display (object map) = b'{' ∷ (write_object false map ++ codes "}")

    pub write_list : Bool → ValueList Number → Text
    write_list later nil = []
    write_list later (cons v items) =
        (if later then comma else []) ++ (display v ++ write_list true items)

    pub write_object : Bool → ValueMap Number → Text
    write_object later end = []
    write_object later (entry k v map) =
        (if later then comma else []) ++ (k ++ (codes ": " ++ (display v ++ write_object true map)))

-- ===== src/Scalars/Integers.antt =====
-- src/types/external/integers.rs: the integer types as the scalar `Int`. serde_json's number is a
-- parameter: `NumberOps` has what the code calls of it, `NumberLaws` what its documentation says.
pub mod Bounds
mod Tests
use async_graphql.Prelude.{
  ℕ, suc, ◌+◌, ◌-◌, ◌*◌, ◌%◌, [], ◌≤◌, List, ◌++◌, Text, codes, Bool, true, false, Option, none,
  some, ◌≡◌, Result, ok, err, ltb, leb, if◌then◌else◌,
}
use async_graphql.Prelude.Int.{ℤ, pos, negsuc, leb_ℤ}
use async_graphql.Value.{ConstValue, null, number, string, boolean, binary, enum, list, object}
use async_graphql.Value.Print.{digits}

-- The signed types; on the 64-bit machines modelled, `isize` is as wide as `i64`.
pub data Signed : Type 0 where
  i8 i16 i32 i64 isize : Signed

pub data Unsigned : Type 0 where
  u8 u16 u32 u64 usize : Unsigned

-- `Self::MAX` of the signed types; `Self::MIN` is `negsuc` of the same number.
abbrev pub max_of : Signed → ℕ
max_of i8 = 127
max_of i16 = 32767
max_of i32 = 2147483647
max_of i64 = 9223372036854775807
max_of isize = 9223372036854775807

-- `Self::MAX` of the unsigned types
abbrev pub max_of_unsigned : Unsigned → ℕ
max_of_unsigned u8 = 255
max_of_unsigned u16 = 65535
max_of_unsigned u32 = 4294967295
max_of_unsigned u64 = 18446744073709551615
max_of_unsigned usize = 18446744073709551615

-- What is called of a number.
pub record NumberOps (Number : Type 0) : Type 0 where
  pub as_i64 : Number → Option ℤ
  pub as_u64 : Number → Option ℕ
  pub from_i64 : ℤ → Number
  pub from_u64 : ℕ → Number

-- A number that fits into 64 bits is had back.
pub record NumberLaws {Number : Type 0} (ops : NumberOps Number) : Type 0 where
  pub as_i64-from_i64 :
      (v : ℤ)
      → leb_ℤ (negsuc 9223372036854775807) v ≡ true
      → leb_ℤ v (pos 9223372036854775807) ≡ true
      → ops.as_i64 (ops.from_i64 v) ≡ some v
  pub as_u64-from_u64 : (v : ℕ) → v ≤ 18446744073709551615 → ops.as_u64 (ops.from_u64 v) ≡ some v
  pub as_i64_range :
      (n : Number) (v : ℤ)
      → ops.as_i64 n ≡ some v
      → (leb_ℤ (negsuc 9223372036854775807) v ≡ true) × (leb_ℤ v (pos 9223372036854775807) ≡ true)
  pub as_u64_range : (n : Number) (v : ℕ) → ops.as_u64 n ≡ some v → v ≤ 18446744073709551615

-- `InputValueError`: a message of the code's, or a value that is not of the type.
pub data InputValueError (Number : Type 0) : Type 0 where
  custom : Text → InputValueError Number
  expected_type : ConstValue Number → InputValueError Number

-- `n as Self` from `i64`: the low bits, read as a signed number.
unfoldable pub wrap : Signed → ℤ → ℤ
wrap ty (pos n) =
    let low = n % (2 * suc (max_of ty)) in
    if leb low (max_of ty) then pos low else negsuc (2 * max_of ty + 1 - low)
wrap ty (negsuc n) =
    let low = n % (2 * suc (max_of ty)) in
    if leb low (max_of ty) then negsuc low else pos (2 * max_of ty + 1 - low)

-- `n as Self` from `u64`
unfoldable pub wrap_unsigned : Unsigned → ℕ → ℕ
wrap_unsigned ty n = n % suc (max_of_unsigned ty)

-- `{}` of an integer of at most 64 bits, which has at most 20 digits
unfoldable pub decimal_ℤ : ℤ → Text
unfolding digits
decimal_ℤ (pos n) = digits 20 n []
decimal_ℤ (negsuc n) = codes "-" ++ digits 20 (suc n) []

-- "Only integers from {} to {} are accepted."
unfoldable pub out_of_range : {Number : Type 0} → ℤ → ℕ → InputValueError Number
unfolding decimal_ℤ
out_of_range low high = custom (
    codes "Only integers from "
    ++ decimal_ℤ low
    ++ codes " to "
    ++ decimal_ℤ (pos high)
    ++ codes " are accepted.")

module _ {Number : Type 0} (ops : NumberOps Number) where
  -- After the number was read: `i64` asks for no range.
  unfoldable pub in_range : Signed → ℤ → Result (InputValueError Number) ℤ
  unfolding out_of_range wrap
  in_range i64 n = ok (wrap i64 n)
  in_range ty n =
      if leb_ℤ (negsuc (max_of ty)) n
      then if leb_ℤ n (pos (max_of ty))
        then ok (wrap ty n)
        else err (out_of_range (negsuc (max_of ty)) (max_of ty))
      else err (out_of_range (negsuc (max_of ty)) (max_of ty))

  unfoldable pub parse_signed : Signed → ConstValue Number → Result (InputValueError Number) ℤ
  unfolding in_range
  parse_signed ty (number n) = elim (ops.as_i64 n) [
    | none ↦ err (custom (codes "Invalid number"))
    | some n' ↦ in_range ty n'
  ]
  parse_signed ty value = err (expected_type value)

  unfoldable pub in_range_unsigned : Unsigned → ℕ → Result (InputValueError Number) ℕ
  unfolding out_of_range wrap_unsigned
  in_range_unsigned u64 n = ok (wrap_unsigned u64 n)
  in_range_unsigned ty n =
      if ltb (max_of_unsigned ty) n
      then err (out_of_range (pos 0) (max_of_unsigned ty))
      else ok (wrap_unsigned ty n)

  unfoldable pub parse_unsigned : Unsigned → ConstValue Number → Result (InputValueError Number) ℕ
  unfolding in_range_unsigned
  parse_unsigned ty (number n) = elim (ops.as_u64 n) [
    | none ↦ err (custom (codes "Invalid number"))
    | some n' ↦ in_range_unsigned ty n'
  ]
  parse_unsigned ty value = err (expected_type value)

  -- `is_valid` of the signed types
  unfoldable pub is_valid_signed : ConstValue Number → Bool
  is_valid_signed (number n) = elim (ops.as_i64 n) [ none ↦ false | some n' ↦ true ]
  is_valid_signed value = false

  unfoldable pub is_valid_unsigned : ConstValue Number → Bool
  is_valid_unsigned (number n) = elim (ops.as_u64 n) [ none ↦ false | some n' ↦ true ]
  is_valid_unsigned value = false

  unfoldable pub to_value_signed : ℤ → ConstValue Number
  to_value_signed v = number (ops.from_i64 v)

  unfoldable pub to_value_unsigned : ℕ → ConstValue Number
  to_value_unsigned v = number (ops.from_u64 v)

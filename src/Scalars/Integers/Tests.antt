-- ===== src/Scalars/Integers/Tests.antt =====
-- Runs of the integer scalars, over the integers for the numbers, and their theorems there.
use async_graphql.Prelude.{
  ℕ, ◌≤◌, codes, true, Option, none, some, ◌≡◌, refl, ◌↔◌, ok, err, arith, leb, if◌then◌else◌,
}
use async_graphql.Prelude.Int.{ℤ, pos, negsuc, leb_ℤ}
use async_graphql.Value.{number}
use async_graphql.Scalars.Integers.{
  i8, i64, u8, max_of_unsigned, NumberOps, NumberLaws, custom, parse_signed, parse_unsigned,
  to_value_signed,
}
use async_graphql.Scalars.Integers.Bounds.{
  is_in, parse_signed-eq-ok_iff, parse_signed-to_value_signed, parse_unsigned-eq-ok_iff,
}

unfoldable as_i64 : ℤ → Option ℤ
as_i64 n =
    if leb_ℤ (negsuc 9223372036854775807) n
    then if leb_ℤ n (pos 9223372036854775807) then some n else none
    else none

unfoldable as_u64 : ℤ → Option ℕ
as_u64 (pos n) = if leb n 18446744073709551615 then some n else none
as_u64 (negsuc n) = none

abbrev ops : NumberOps ℤ
ops = record { as_i64 = as_i64; as_u64 = as_u64; from_i64 = λ v. v; from_u64 = pos }

as_i64_range :
    (n v : ℤ)
    → as_i64 n ≡ some v
    → (leb_ℤ (negsuc 9223372036854775807) v ≡ true) × (leb_ℤ v (pos 9223372036854775807) ≡ true)
unfolding as_i64
as_i64_range n v e = ground arith

as_u64_range : (n : ℤ) (v : ℕ) → as_u64 n ≡ some v → v ≤ 18446744073709551615
unfolding as_u64
as_u64_range (pos n) v e = ground arith
as_u64_range (negsuc n) v e = cc

ops-NumberLaws : NumberLaws ops
unfolding as_i64 as_u64
ops-NumberLaws = record {
  as_i64-from_i64 = λ v low high. ground arith;
  as_u64-from_u64 = λ v high. ground arith;
  as_i64_range = λ n v e. as_i64_range n v e;
  as_u64_range = λ n v e. as_u64_range n v e;
}

-- 200 is no i8, though it is a valid `Int`.
refuses :
    parse_signed ops i8 (number (pos 200))
    ≡ err (custom (codes "Only integers from -128 to 127 are accepted."))
unfolding parse_signed as_i64
refuses = refl

least : parse_signed ops i8 (number (negsuc 127)) ≡ ok (negsuc 127)
unfolding parse_signed as_i64
least = refl

parse_signed-eq-ok_iff_example :
    (parse_signed ops i8 (number (negsuc 127)) ≡ ok (negsuc 127))
    ↔ ((as_i64 (negsuc 127) ≡ some (negsuc 127)) × (is_in i8 (negsuc 127) ≡ true))
parse_signed-eq-ok_iff_example =
    parse_signed-eq-ok_iff ops ops-NumberLaws i8 (negsuc 127) (negsuc 127)

parse_unsigned-eq-ok_iff_example :
    (parse_unsigned ops u8 (number (pos 255)) ≡ ok 255)
    ↔ ((as_u64 (pos 255) ≡ some 255) × (255 ≤ max_of_unsigned u8))
parse_unsigned-eq-ok_iff_example = parse_unsigned-eq-ok_iff ops ops-NumberLaws u8 (pos 255) 255

parse_signed-to_value_signed_example :
    parse_signed ops i64 (to_value_signed ops (negsuc 5)) ≡ ok (negsuc 5)
unfolding is_in
parse_signed-to_value_signed_example =
    parse_signed-to_value_signed ops ops-NumberLaws i64 (negsuc 5) refl

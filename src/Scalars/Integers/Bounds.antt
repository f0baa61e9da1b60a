-- ===== src/Scalars/Integers/Bounds.antt =====
-- The integers that src/types/external/integers.rs accepts.
use async_graphql.Prelude.{
  ℕ, ◌≤◌, Bool, true, false, some, ◌≡◌, sym, ◌∙◌, ap, ◌↔◌, ok, ok-injective, arith, Option-cases,
  some-injective, inl, inr, if◌then◌else◌,
}
use async_graphql.Prelude.Int.{ℤ, pos, negsuc, leb_ℤ}
use async_graphql.Value.{number}
use async_graphql.Scalars.Integers.{
  Signed, i8, i16, i32, i64, isize, Unsigned, u8, u16, u32, u64, usize, max_of, max_of_unsigned,
  NumberOps, NumberLaws, wrap, wrap_unsigned, in_range, in_range_unsigned, parse_signed,
  parse_unsigned, to_value_signed,
}

-- Whether a value is one of the type's.
unfoldable pub is_in : Signed → ℤ → Bool
is_in ty n = if leb_ℤ (negsuc (max_of ty)) n then leb_ℤ n (pos (max_of ty)) else false

-- A value of the type is what it was after the cast.
wrap-is_in : (ty : Signed) (n : ℤ) → is_in ty n ≡ true → wrap ty n ≡ n
unfolding is_in wrap
wrap-is_in i8 (pos n) h = ground arith
wrap-is_in i8 (negsuc n) h = ground arith
wrap-is_in i16 (pos n) h = ground arith
wrap-is_in i16 (negsuc n) h = ground arith
wrap-is_in i32 (pos n) h = ground arith
wrap-is_in i32 (negsuc n) h = ground arith
wrap-is_in i64 (pos n) h = ground arith
wrap-is_in i64 (negsuc n) h = ground arith
wrap-is_in isize (pos n) h = ground arith
wrap-is_in isize (negsuc n) h = ground arith

wrap_unsigned-le : (ty : Unsigned) (n : ℕ) → n ≤ max_of_unsigned ty → wrap_unsigned ty n ≡ n
unfolding wrap_unsigned
wrap_unsigned-le u8 n h = omega arith
wrap_unsigned-le u16 n h = omega arith
wrap_unsigned-le u32 n h = omega arith
wrap_unsigned-le u64 n h = omega arith
wrap_unsigned-le usize n h = omega arith

module _ {Number : Type 0} (ops : NumberOps Number) where
  in_range-is_in : (ty : Signed) (n : ℤ) → is_in ty n ≡ true → in_range ops ty n ≡ ok n
  unfolding in_range is_in
  in_range-is_in i8 n h = ground (arith, wrap-is_in i8 n)
  in_range-is_in i16 n h = ground (arith, wrap-is_in i16 n)
  in_range-is_in i32 n h = ground (arith, wrap-is_in i32 n)
  in_range-is_in i64 n h = ground (arith, wrap-is_in i64 n)
  in_range-is_in isize n h = ground (arith, wrap-is_in isize n)

  in_range-outside :
      (ty : Signed) (n v : ℤ) → is_in i64 n ≡ true → in_range ops ty n ≡ ok v → is_in ty n ≡ true
  unfolding in_range is_in
  in_range-outside i8 n v h e = ground arith
  in_range-outside i16 n v h e = ground arith
  in_range-outside i32 n v h e = ground arith
  in_range-outside i64 n v h e = h
  in_range-outside isize n v h e = h

  module _ (laws : NumberLaws ops) where
    as_i64-is_in : (n : Number) (v : ℤ) → ops.as_i64 n ≡ some v → is_in i64 v ≡ true
    unfolding is_in
    as_i64-is_in n v e = ground (arith, laws.as_i64_range n v e)

    in_range-eq-ok_iff :
        (ty : Signed) (w v : ℤ)
        → is_in i64 w ≡ true
        → (in_range ops ty w ≡ ok v) ↔ ((w ≡ v) × (is_in ty v ≡ true))
    in_range-eq-ok_iff ty w v wide = (
      λ e.
          let inside = in_range-outside ty w v wide e in
          let same : w ≡ v = ok-injective (sym (in_range-is_in ty w inside) ∙ e) in
          (same, sym (ap (is_in ty) same) ∙ inside),
      λ (same, inside). in_range-is_in ty w (ap (is_in ty) same ∙ inside) ∙ ap ok same,
    )

    -- A signed type accepts exactly those numbers that are integers from its least to its greatest
    -- value, and a number that it accepts becomes the integer that it is: the cast changes none.
    pub parse_signed-eq-ok_iff :
        (ty : Signed) (n : Number) (v : ℤ)
        → (parse_signed ops ty (number n) ≡ ok v) ↔ ((ops.as_i64 n ≡ some v) × (is_in ty v ≡ true))
    unfolding parse_signed
    parse_signed-eq-ok_iff ty n v = elim (Option-cases (ops.as_i64 n)) [
      | inl e ↦ rw (e, parse_signed) (λ h. cc, λ (h, inside). cc)
      | inr (w, e) ↦
          let asked = in_range-eq-ok_iff ty w v (as_i64-is_in n w e) in
          rw (e, parse_signed)
            (
              λ h. let (same, inside) = asked.0 h in (ap some same, inside),
              λ (h, inside). asked.1 (some-injective w v h, inside),
            )
    ]

    is_in-wide :
        (ty : Signed) (v : ℤ)
        → is_in ty v ≡ true
        → (leb_ℤ (negsuc 9223372036854775807) v ≡ true) × (leb_ℤ v (pos 9223372036854775807) ≡ true)
    unfolding is_in
    is_in-wide i8 (pos n) h = ground arith
    is_in-wide i8 (negsuc n) h = ground arith
    is_in-wide i16 (pos n) h = ground arith
    is_in-wide i16 (negsuc n) h = ground arith
    is_in-wide i32 (pos n) h = ground arith
    is_in-wide i32 (negsuc n) h = ground arith
    is_in-wide i64 v h = ground arith
    is_in-wide isize v h = ground arith

    -- What a signed type writes, it reads back.
    pub parse_signed-to_value_signed :
        (ty : Signed) (v : ℤ)
        → is_in ty v ≡ true
        → parse_signed ops ty (to_value_signed ops v) ≡ ok v
    unfolding to_value_signed is_in
    parse_signed-to_value_signed ty v h =
        (parse_signed-eq-ok_iff ty (ops.from_i64 v) v).1
          (laws.as_i64-from_i64 v (is_in-wide ty v h).0 (is_in-wide ty v h).1, h)

    in_range_unsigned-eq-ok_iff :
        (ty : Unsigned) (w v : ℕ)
        → w ≤ 18446744073709551615
        → (in_range_unsigned ops ty w ≡ ok v) ↔ ((w ≡ v) × (v ≤ max_of_unsigned ty))
    unfolding in_range_unsigned
    in_range_unsigned-eq-ok_iff u8 w v h = ground (arith, wrap_unsigned-le u8 w)
    in_range_unsigned-eq-ok_iff u16 w v h = ground (arith, wrap_unsigned-le u16 w)
    in_range_unsigned-eq-ok_iff u32 w v h = ground (arith, wrap_unsigned-le u32 w)
    in_range_unsigned-eq-ok_iff u64 w v h = ground (arith, wrap_unsigned-le u64 w)
    in_range_unsigned-eq-ok_iff usize w v h = ground (arith, wrap_unsigned-le usize w)

    -- An unsigned type accepts exactly those numbers that are natural numbers up to its greatest
    -- value, and a number that it accepts becomes the one that it is.
    pub parse_unsigned-eq-ok_iff :
        (ty : Unsigned) (n : Number) (v : ℕ)
        → (parse_unsigned ops ty (number n) ≡ ok v)
          ↔ ((ops.as_u64 n ≡ some v) × (v ≤ max_of_unsigned ty))
    unfolding parse_unsigned
    parse_unsigned-eq-ok_iff ty n v = elim (Option-cases (ops.as_u64 n)) [
      | inl e ↦ rw (e, parse_unsigned) (λ h. cc, λ (h, inside). cc)
      | inr (w, e) ↦
          let asked = in_range_unsigned-eq-ok_iff ty w v (laws.as_u64_range n w e) in
          rw (e, parse_unsigned)
            (
              λ h. let (same, inside) = asked.0 h in (ap some same, inside),
              λ (h, inside). asked.1 (some-injective w v h, inside),
            )
    ]

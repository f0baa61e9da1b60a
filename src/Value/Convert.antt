-- ===== src/Value/Convert.antt =====
-- The conversions between the two kinds of values (value/src/lib.rs), and the variables that a
-- value refers to (src/validation/utils.rs).
use async_graphql.Prelude.{
  List, [], ◌∷◌, ◌++◌, Text, some, ◌≡◌, refl, ◌∙◌, ◌↔◌, arith, Result, ok, err, ◌>>=◌, >>=-eq-ok,
  outcome, outcome->>=_ok, outcome->>=_two, to_option-eq-some,
}
use async_graphql.Value.{
  ConstValue, ConstList, ConstMap, Value, ValueList, ValueMap, variable, null, number, string,
  boolean, binary, enum, list, object, nil, cons, end, entry, into_value, into_values, into_entries,
  into_const_with, into_const_items, into_const_entries, into_const, referenced_variables,
  referenced_in_items, referenced_in_entries,
}

module _ {Number : Type 0} where
  module _ {E : Type 0} (f : Text → Result E (ConstValue Number)) where
    mutual
      unfolding into_value into_const_with

      convert_back : (c : ConstValue Number) → into_const_with f (into_value c) ≡ ok c
      convert_back (list items) = rw (convert_items_back items)
      convert_back (object map) = rw (convert_entries_back map)
      convert_back _ = refl

      convert_items_back : (cs : ConstList Number) → into_const_items f (into_values cs) ≡ ok cs
      convert_items_back nil = refl
      convert_items_back (cons c cs) = rw (convert_back c, convert_items_back cs)

      convert_entries_back : (m : ConstMap Number) → into_const_entries f (into_entries m) ≡ ok m
      convert_entries_back end = refl
      convert_entries_back (entry k c m) = rw (convert_back c, convert_entries_back m)

    -- A value with variables that was made of a constant one converts back to it, whatever the
    -- variables are set to.
    pub into_const_with-into_value :
        (c : ConstValue Number) → into_const_with f (into_value c) ≡ ok c
    into_const_with-into_value c = convert_back c

    -- What the conversion should come to: the variables are looked up in the order in which they
    -- stand in the value, and the first that fails gives the error.
    unfoldable pub look_up_all : List Text → Result E (Unit {0})
    look_up_all [] = ok tt
    look_up_all (x ∷ xs) = do c ← f x; look_up_all xs

    pub look_up_all-append :
        (xs ys : List Text) → look_up_all (xs ++ ys) ≡ (look_up_all xs >>= (λ u. look_up_all ys))
    unfolding look_up_all
    look_up_all-append [] ys = refl
    look_up_all-append (x ∷ xs) ys = ground (arith, look_up_all-append xs ys)

    mutual
      unfolding into_const_with referenced_variables look_up_all

      outcome_value :
          (v : Value Number) → outcome (into_const_with f v) ≡ look_up_all (referenced_variables v)
      outcome_value (variable name) = elim (f name) as (λ r. outcome r ≡ (r >>= (λ c. ok tt))) [
        | ok c ↦ refl
        | err e ↦ refl
      ]
      outcome_value (list items) =
          outcome->>=_ok (into_const_items f items) ConstValue.list ∙ outcome_items items
      outcome_value (object map) =
          outcome->>=_ok (into_const_entries f map) ConstValue.object ∙ outcome_entries map
      outcome_value _ = refl

      outcome_items :
          (vs : ValueList Number)
          → outcome (into_const_items f vs) ≡ look_up_all (referenced_in_items vs)
      outcome_items nil = refl
      outcome_items (cons v vs) = rw (
        outcome->>=_two (into_const_with f v) (into_const_items f vs) ConstList.cons,
        outcome_value v,
        outcome_items vs,
        look_up_all-append (referenced_variables v) (referenced_in_items vs),
      )

      outcome_entries :
          (m : ValueMap Number)
          → outcome (into_const_entries f m) ≡ look_up_all (referenced_in_entries m)
      outcome_entries end = refl
      outcome_entries (entry k v m) = rw (
        outcome->>=_two (into_const_with f v) (into_const_entries f m) (ConstMap.entry k),
        outcome_value v,
        outcome_entries m,
        look_up_all-append (referenced_variables v) (referenced_in_entries m),
      )

    -- The conversion succeeds or fails, and fails with the error, exactly as the lookups of the
    -- value's variables do when they are made one after the other and stop at the first failure.
    pub into_const_with-referenced_variables :
        (v : Value Number) → outcome (into_const_with f v) ≡ look_up_all (referenced_variables v)
    into_const_with-referenced_variables v = outcome_value v

  mutual
    unfolding into_value into_const_with

    const_only :
        (v : Value Number) (c : ConstValue Number)
        → into_const_with {E = Unit {0}} (λ name. err tt) v ≡ ok c
        → v ≡ into_value c
    const_only (variable name) c h = cc
    const_only (list items) c h =
        let (cs, good, made) = >>=-eq-ok (into_const_items _ items) _ h in
        ground (arith, const_only_items items cs good)
    const_only (object map) c h =
        let (m, good, made) = >>=-eq-ok (into_const_entries _ map) _ h in
        ground (arith, const_only_entries map m good)
    const_only null c h = ground arith
    const_only (number n) c h = ground arith
    const_only (string s) c h = ground arith
    const_only (boolean b) c h = ground arith
    const_only (binary b) c h = ground arith
    const_only (enum s) c h = ground arith

    const_only_items :
        (vs : ValueList Number) (cs : ConstList Number)
        → into_const_items {E = Unit {0}} (λ name. err tt) vs ≡ ok cs
        → vs ≡ into_values cs
    const_only_items nil cs h = ground arith
    const_only_items (cons v vs) cs h =
        let (c, good, more) = >>=-eq-ok (into_const_with _ v) _ h in
        let (ds, rest, made) = >>=-eq-ok (into_const_items _ vs) _ more in
        ground (arith, const_only v c good, const_only_items vs ds rest)

    const_only_entries :
        (m : ValueMap Number) (c : ConstMap Number)
        → into_const_entries {E = Unit {0}} (λ name. err tt) m ≡ ok c
        → m ≡ into_entries c
    const_only_entries end c h = ground arith
    const_only_entries (entry k v m) c h =
        let (d, good, more) = >>=-eq-ok (into_const_with _ v) _ h in
        let (n, rest, made) = >>=-eq-ok (into_const_entries _ m) _ more in
        ground (arith, const_only v d good, const_only_entries m n rest)

  -- A value converts to a constant exactly when it was made of that constant: it holds no variable
  -- and nothing else of it changes.
  pub into_const-eq-some_iff :
      (v : Value Number) (c : ConstValue Number) → (into_const v ≡ some c) ↔ (v ≡ into_value c)
  unfolding into_const
  into_const-eq-some_iff v c =
      (λ h. const_only v c (to_option-eq-some _ c h), λ h. rw (h, into_const_with-into_value))

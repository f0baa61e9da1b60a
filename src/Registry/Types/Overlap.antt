-- ===== src/Registry/Types/Overlap.antt =====
-- `MetaType::type_overlap` of src/registry/mod.rs.
use async_graphql.Prelude.{
  List, [], ◌∷◌, Text, text_discrete, Bool, true, false, ◌≡◌, refl, ap, any, any-contains, arith,
  contains,
}
use async_graphql.Registry.Types.{
  MetaType, scalar, object, interface, union, enum, input_object, type_overlap,
}

any_sound :
    (p : Text → Bool) (x : Text) (xs : List Text)
    → contains text_discrete x xs ≡ true
    → p x ≡ true
    → any p xs ≡ true
unfolding any contains
any_sound p x [] h e = cc
any_sound p x (y ∷ xs) h e = elim (text_discrete y x) [
  | yes same ↦ ground (arith, ap p same)
  | no ne ↦ ground (arith, any_sound p x xs)
]

-- Whether two sets of names have one in common.
meets_comm_le :
    (xs ys : List Text)
    → any (λ x. contains text_discrete x ys) xs ≡ true
    → any (λ y. contains text_discrete y xs) ys ≡ true
meets_comm_le xs ys h =
    let (x, among, also) = any-contains text_discrete (λ x. contains text_discrete x ys) xs h in
    any_sound (λ y. contains text_discrete y xs) x ys also among

same_truth : (a b : Bool) → (a ≡ true → b ≡ true) → (b ≡ true → a ≡ true) → a ≡ b
same_truth a b f g = ground arith

meets_comm :
    (xs ys : List Text)
    → any (λ x. contains text_discrete x ys) xs ≡ any (λ y. contains text_discrete y xs) ys
meets_comm xs ys =
    same_truth (any (λ x. contains text_discrete x ys) xs)
      (any (λ y. contains text_discrete y xs) ys) (meets_comm_le xs ys) (meets_comm_le ys xs)

module _ {Context Number : Type 0} where
  -- It does not matter which of two types is asked whether they overlap.
  pub type_overlap_comm :
      (same : Bool) (a b : MetaType Context Number) → type_overlap same a b ≡ type_overlap same b a
  unfolding type_overlap
  type_overlap_comm true a b = refl
  type_overlap_comm false (interface a) (interface b) = meets_comm a.possible_types b.possible_types
  type_overlap_comm false (interface a) (union b) = meets_comm a.possible_types b.possible_types
  type_overlap_comm false (union a) (interface b) = meets_comm a.possible_types b.possible_types
  type_overlap_comm false (union a) (union b) = meets_comm a.possible_types b.possible_types
  type_overlap_comm false (scalar a) (scalar b) = refl
  type_overlap_comm false (scalar a) (object b) = refl
  type_overlap_comm false (scalar a) (interface b) = refl
  type_overlap_comm false (scalar a) (union b) = refl
  type_overlap_comm false (scalar a) (enum b) = refl
  type_overlap_comm false (scalar a) (input_object b) = refl
  type_overlap_comm false (object a) (scalar b) = refl
  type_overlap_comm false (object a) (object b) = refl
  type_overlap_comm false (object a) (interface b) = refl
  type_overlap_comm false (object a) (union b) = refl
  type_overlap_comm false (object a) (enum b) = refl
  type_overlap_comm false (object a) (input_object b) = refl
  type_overlap_comm false (interface a) (scalar b) = refl
  type_overlap_comm false (interface a) (object b) = refl
  type_overlap_comm false (interface a) (enum b) = refl
  type_overlap_comm false (interface a) (input_object b) = refl
  type_overlap_comm false (union a) (scalar b) = refl
  type_overlap_comm false (union a) (object b) = refl
  type_overlap_comm false (union a) (enum b) = refl
  type_overlap_comm false (union a) (input_object b) = refl
  type_overlap_comm false (enum a) (scalar b) = refl
  type_overlap_comm false (enum a) (object b) = refl
  type_overlap_comm false (enum a) (interface b) = refl
  type_overlap_comm false (enum a) (union b) = refl
  type_overlap_comm false (enum a) (enum b) = refl
  type_overlap_comm false (enum a) (input_object b) = refl
  type_overlap_comm false (input_object a) (scalar b) = refl
  type_overlap_comm false (input_object a) (object b) = refl
  type_overlap_comm false (input_object a) (interface b) = refl
  type_overlap_comm false (input_object a) (union b) = refl
  type_overlap_comm false (input_object a) (enum b) = refl
  type_overlap_comm false (input_object a) (input_object b) = refl

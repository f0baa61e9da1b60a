-- ===== src/Registry/Visible/Mentions.antt =====
-- The names that a type mentions, in the order in which the walks of src/registry/mod.rs come to
-- them, and the loops over fields and arguments as one loop over these names.
use async_graphql.Prelude.{
  List, [], ◌∷◌, ◌++◌, Text, Bool, true, false, Option, none, some, ◌≡◌, refl, sym, ◌∙◌, ap, all,
  arith, if◌then◌else◌, Bool-cases, inl, inr,
}
use async_graphql.Registry.TypeNames.{◌>>=◌}
use async_graphql.Registry.Types.{
  MetaInputValue, MetaField, MetaType, scalar, object, interface, union, enum, input_object,
  MetaDirective, values,
}
use async_graphql.Registry.Visible.{
  concrete, traverse_input_value, traverse_field, traverse_directive, traverse_parts,
}
use async_graphql.Validation.Graph.{walk_each}

unfoldable pub concat_map : {A B : Type 0} → (A → List B) → List A → List B
concat_map f [] = []
concat_map f (x ∷ xs) = f x ++ concat_map f xs

-- Whether the name inside of a type's text can be read.
unfoldable pub is_readable : Text → Bool
unfolding concrete
is_readable ty = elim (concrete ty) [ none ↦ false | some name ↦ true ]

unfoldable pub name_in : Text → List Text
unfolding concrete
name_in ty = elim (concrete ty) [ none ↦ [] | some name ↦ name ∷ [] ]

module _ {Context : Type 0} where
  unfoldable pub reads_input : MetaInputValue Context → Bool
  unfolding is_readable
  reads_input v = is_readable v.ty

  unfoldable pub reads_field : MetaField Context → Bool
  unfolding is_readable all reads_input
  reads_field field = if is_readable field.ty then all reads_input (values field.args) else false

  unfoldable pub reads_directive : MetaDirective Context → Bool
  unfolding all reads_input
  reads_directive directive = all reads_input (values directive.args)

-- Whether the texts of all types that a type mentions can be read.
unfoldable pub reads_type : {Context Number : Type 0} → MetaType Context Number → Bool
unfolding all reads_field reads_input
reads_type (object ty) = all reads_field (values ty.fields)
reads_type (interface ty) = all reads_field (values ty.fields)
reads_type (input_object ty) = all reads_input (values ty.input_fields)
reads_type _ = true

module _ {Context : Type 0} (shown : Option (Context → Bool) → Bool) where
  unfoldable pub in_input : MetaInputValue Context → List Text
  unfolding name_in
  in_input v = if shown v.visible then name_in v.ty else []

  unfoldable pub in_field : MetaField Context → List Text
  unfolding name_in concat_map in_input
  in_field field =
      if shown field.visible
      then name_in field.ty ++ concat_map in_input (values field.args)
      else []

  unfoldable pub in_directive : MetaDirective Context → List Text
  unfolding concat_map in_input
  in_directive directive =
      if shown directive.visible then concat_map in_input (values directive.args) else []

  unfoldable pub in_type : {Number : Type 0} → MetaType Context Number → List Text
  unfolding concat_map in_field in_input
  in_type (object ty) = concat_map in_field (values ty.fields)
  in_type (interface ty) = concat_map in_field (values ty.fields) ++ ty.possible_types
  in_type (union ty) = ty.possible_types
  in_type (input_object ty) = concat_map in_input (values ty.input_fields)
  in_type _ = []

-- Two ways to go on after a step, which agree.
go_on :
    {A B : Type 0} (o : Option A) (f g : A → Option B)
    → ((a : A) → f a ≡ g a)
    → elim o [ none ↦ none | some a ↦ f a ] ≡ (o >>= g)
go_on none f g same = refl
go_on (some a) f g same = same a

go_on_twice :
    {A B C : Type 0} (o : Option A) (f : A → Option C) (g : A → Option B) (h : B → Option C)
    → ((a : A) → f a ≡ (g a >>= h))
    → elim o [ none ↦ none | some a ↦ f a ] ≡ (elim o [ none ↦ none | some a ↦ g a ] >>= h)
go_on_twice none f g h same = refl
go_on_twice (some a) f g h same = same a

go_on_id : {A : Type 0} (o : Option A) → o ≡ elim o [ none ↦ none | some a ↦ some a ]
go_on_id none = refl
go_on_id (some a) = refl

pub then_same :
    {A B : Type 0} (o : Option A) (f g : A → Option B)
    → ((a : A) → f a ≡ g a)
    → (o >>= f) ≡ (o >>= g)
then_same none f g same = refl
then_same (some a) f g same = same a

pub both_true : (a b : Bool) → (if a then b else false) ≡ true → (a ≡ true) × (b ≡ true)
both_true a b h = ground arith

module _ {K St : Type 0} (rec : K → St → Option St) where
  pub walk_each-append :
      (xs ys : List K) (st : St)
      → walk_each rec (xs ++ ys) st ≡ (walk_each rec xs st >>= λ st'. walk_each rec ys st')
  unfolding walk_each
  walk_each-append [] ys st = refl
  walk_each-append (x ∷ xs) ys st =
      go_on_twice (rec x st) (walk_each rec (xs ++ ys)) (walk_each rec xs) (walk_each rec ys)
        (λ st'. walk_each-append xs ys st')

  -- A loop whose steps are loops over names is one loop over the names.
  pub walk_each-concat_map :
      {A : Type 0} (step : A → St → Option St) (names : A → List K) (p : A → Bool)
      → ((x : A) (st : St) → p x ≡ true → step x st ≡ walk_each rec (names x) st)
      → (xs : List A) (st : St) → all p xs ≡ true
      → walk_each step xs st ≡ walk_each rec (concat_map names xs) st
  unfolding walk_each concat_map all
  walk_each-concat_map step names p same [] st h = refl
  walk_each-concat_map step names p same (x ∷ xs) st h = elim (Bool-cases (p x)) [
    | inr e ↦ ground (arith, e)
    | inl e ↦
        let later : all p xs ≡ true = ground (arith, e) in
        rw (same x st e, walk_each) rw (walk_each-append (names x) (concat_map names xs) st)
          (go_on (walk_each rec (names x) st) (walk_each step xs)
            (walk_each rec (concat_map names xs))
            (λ st'. walk_each-concat_map step names p same xs st' later))
  ]

module _ {Context : Type 0} (shown : Option (Context → Bool) → Bool)
    (rec : Text → List Text → Option (List Text)) where
  -- One name that is read.
  read_step :
      (o : Option Text) (used : List Text)
      → elim o [ none ↦ false | some name ↦ true ] ≡ true
      → (o >>= λ name. rec name used)
        ≡ walk_each rec (elim o [ none ↦ [] | some name ↦ name ∷ [] ]) used
  unfolding walk_each
  read_step none used h = cc
  read_step (some name) used h = go_on_id (rec name used)

  pub read_then :
      (ty : Text) (used : List Text)
      → is_readable ty ≡ true
      → (concrete ty >>= λ name. rec name used) ≡ walk_each rec (name_in ty) used
  unfolding is_readable name_in
  read_then ty used h = read_step (concrete ty) used h

  pub traverse_input_value-names :
      (v : MetaInputValue Context) (used : List Text)
      → reads_input v ≡ true
      → traverse_input_value shown rec v used ≡ walk_each rec (in_input shown v) used
  unfolding traverse_input_value in_input walk_each reads_input
  traverse_input_value-names v used h = elim (Bool-cases (shown v.visible)) [
    | inl e ↦ rw (e, traverse_input_value) (read_then v.ty used h)
    | inr e ↦ rw (e, traverse_input_value) refl
  ]

  pub traverse_inputs-names :
      (vs : List (MetaInputValue Context)) (used : List Text)
      → all reads_input vs ≡ true
      → walk_each (traverse_input_value shown rec) vs used
        ≡ walk_each rec (concat_map (in_input shown) vs) used
  traverse_inputs-names =
      walk_each-concat_map rec (traverse_input_value shown rec) (in_input shown) reads_input
        traverse_input_value-names

  pub traverse_field-names :
      (field : MetaField Context) (used : List Text)
      → reads_field field ≡ true
      → traverse_field shown rec field used ≡ walk_each rec (in_field shown field) used
  unfolding traverse_field in_field walk_each reads_field
  traverse_field-names field used h = elim (Bool-cases (shown field.visible)) [
    | inr e ↦ rw (e, traverse_field) refl
    | inl e ↦
        let (read, later) =
          both_true (is_readable field.ty) (all reads_input (values field.args)) h in
        let names = concat_map (in_input shown) (values field.args) in
        rw (e, traverse_field)
          ((ap (λ o. o >>= walk_each (traverse_input_value shown rec) (values field.args))
                (read_then field.ty used read)
              ∙ then_same (walk_each rec (name_in field.ty) used)
                  (walk_each (traverse_input_value shown rec) (values field.args))
                  (walk_each rec names) (λ st. traverse_inputs-names (values field.args) st later))
            ∙ sym (walk_each-append rec (name_in field.ty) names used))
  ]

  pub traverse_directive-names :
      (directive : MetaDirective Context) (used : List Text)
      → reads_directive directive ≡ true
      → traverse_directive shown rec directive used
        ≡ walk_each rec (in_directive shown directive) used
  unfolding traverse_directive in_directive walk_each reads_directive
  traverse_directive-names directive used h = elim (Bool-cases (shown directive.visible)) [
    | inl e ↦ rw (e, traverse_directive) (traverse_inputs-names (values directive.args) used h)
    | inr e ↦ rw (e, traverse_directive) refl
  ]

  pub traverse_fields-names :
      (fields : List (MetaField Context)) (used : List Text)
      → all reads_field fields ≡ true
      → walk_each (traverse_field shown rec) fields used
        ≡ walk_each rec (concat_map (in_field shown) fields) used
  traverse_fields-names =
      walk_each-concat_map rec (traverse_field shown rec) (in_field shown) reads_field
        traverse_field-names

  pub traverse_parts-names :
      {Number : Type 0} (ty : MetaType Context Number) (used : List Text)
      → reads_type ty ≡ true
      → traverse_parts shown rec ty used ≡ walk_each rec (in_type shown ty) used
  unfolding traverse_parts in_type reads_type walk_each
  traverse_parts-names (scalar ty) used h = refl
  traverse_parts-names (enum ty) used h = refl
  traverse_parts-names (union ty) used h = refl
  traverse_parts-names (object ty) used h = traverse_fields-names (values ty.fields) used h
  traverse_parts-names (input_object ty) used h =
      traverse_inputs-names (values ty.input_fields) used h
  traverse_parts-names (interface ty) used h =
      ap (λ o. o >>= walk_each rec ty.possible_types)
        (traverse_fields-names (values ty.fields) used h)
      ∙ sym (
          walk_each-append rec (concat_map (in_field shown) (values ty.fields)) ty.possible_types
            used)

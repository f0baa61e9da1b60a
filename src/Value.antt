-- ===== src/Value.antt =====
-- value/src/lib.rs: the values of GraphQL, with and without variables. `Number` is serde_json's
-- number, a parameter. The lists and the maps that values hold are types of their own; a map keeps
-- its entries in order, as `IndexMap` does.
pub mod Convert
pub mod Print
pub mod Display
mod Tests
use async_graphql.Prelude.{
  ℕ, List, [], ◌∷◌, ◌++◌, Text, Bool, Option, Result, ok, err, ◌>>=◌, to_option,
}

mutual
  pub data ConstValue (Number : Type 0) : Type 0 where
    null : ConstValue Number
    number : Number → ConstValue Number
    string : Text → ConstValue Number
    boolean : Bool → ConstValue Number
    binary : List ℕ → ConstValue Number
    enum : Text → ConstValue Number
    list : ConstList Number → ConstValue Number
    object : ConstMap Number → ConstValue Number

  pub data ConstList (Number : Type 0) : Type 0 where
    nil : ConstList Number
    cons : ConstValue Number → ConstList Number → ConstList Number

  pub data ConstMap (Number : Type 0) : Type 0 where
    end : ConstMap Number
    entry : Text → ConstValue Number → ConstMap Number → ConstMap Number

mutual
  pub data Value (Number : Type 0) : Type 0 where
    variable : Text → Value Number
    null : Value Number
    number : Number → Value Number
    string : Text → Value Number
    boolean : Bool → Value Number
    binary : List ℕ → Value Number
    enum : Text → Value Number
    list : ValueList Number → Value Number
    object : ValueMap Number → Value Number

  pub data ValueList (Number : Type 0) : Type 0 where
    nil : ValueList Number
    cons : Value Number → ValueList Number → ValueList Number

  pub data ValueMap (Number : Type 0) : Type 0 where
    end : ValueMap Number
    entry : Text → Value Number → ValueMap Number → ValueMap Number

module _ {Number : Type 0} where
  -- `ConstValue::into_value`
  unfoldable mutual
    pub into_value : ConstValue Number → Value Number
    into_value null = Value.null
    into_value (number n) = Value.number n
    into_value (string s) = Value.string s
    into_value (boolean b) = Value.boolean b
    into_value (binary bytes) = Value.binary bytes
    into_value (enum v) = Value.enum v
    into_value (list items) = Value.list (into_values items)
    into_value (object map) = Value.object (into_entries map)

    pub into_values : ConstList Number → ValueList Number
    into_values nil = ValueList.nil
    into_values (cons v items) = ValueList.cons (into_value v) (into_values items)

    pub into_entries : ConstMap Number → ValueMap Number
    into_entries end = ValueMap.end
    into_entries (entry k v map) = ValueMap.entry k (into_value v) (into_entries map)

  -- `Value::into_const_with`: the first error stops the conversion.
  module _ {E : Type 0} (f : Text → Result E (ConstValue Number)) where
    unfoldable mutual
      pub into_const_with : Value Number → Result E (ConstValue Number)
      into_const_with (variable name) = f name
      into_const_with null = ok ConstValue.null
      into_const_with (number n) = ok (ConstValue.number n)
      into_const_with (string s) = ok (ConstValue.string s)
      into_const_with (boolean b) = ok (ConstValue.boolean b)
      into_const_with (binary v) = ok (ConstValue.binary v)
      into_const_with (enum v) = ok (ConstValue.enum v)
      into_const_with (list items) = do vs ← into_const_items items; ok (ConstValue.list vs)
      into_const_with (object map) = do m ← into_const_entries map; ok (ConstValue.object m)

      pub into_const_items : ValueList Number → Result E (ConstList Number)
      into_const_items nil = ok ConstList.nil
      into_const_items (cons v items) = do
        c ← into_const_with v
        cs ← into_const_items items
        ok (ConstList.cons c cs)

      pub into_const_entries : ValueMap Number → Result E (ConstMap Number)
      into_const_entries end = ok ConstMap.end
      into_const_entries (entry k v map) = do
        c ← into_const_with v
        m ← into_const_entries map
        ok (ConstMap.entry k c m)

  -- `Value::into_const`: the conversion under which every variable is an error.
  unfoldable pub into_const : Value Number → Option (ConstValue Number)
  unfolding into_const_with
  into_const v = to_option (into_const_with {E = Unit {0}} (λ name. err tt) v)

  -- src/validation/utils.rs: the variables of a value, in the order in which they stand.
  unfoldable mutual
    pub referenced_variables : Value Number → List Text
    referenced_variables (variable name) = name ∷ []
    referenced_variables (list values) = referenced_in_items values
    referenced_variables (object obj) = referenced_in_entries obj
    referenced_variables _ = []

    pub referenced_in_items : ValueList Number → List Text
    referenced_in_items nil = []
    referenced_in_items (cons v values) = referenced_variables v ++ referenced_in_items values

    pub referenced_in_entries : ValueMap Number → List Text
    referenced_in_entries end = []
    referenced_in_entries (entry k v obj) = referenced_variables v ++ referenced_in_entries obj

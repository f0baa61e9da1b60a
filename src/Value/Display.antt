-- ===== src/Value/Display.antt =====
-- A constant value and the value made of it print alike (value/src/lib.rs).
use async_graphql.Prelude.{Text, Bool, ◌≡◌, refl}
use async_graphql.Value.{
  ConstValue, ConstList, ConstMap, list, object, nil, cons, end, entry, into_value, into_values,
  into_entries,
}
use async_graphql.Value.Print.{
  display_const, write_const_list, write_const_object, display, write_list, write_object,
}

module _ {Number : Type 0} (show : Number → Text) where
  mutual
    unfolding into_value display_const display

    display_same : (c : ConstValue Number) → display show (into_value c) ≡ display_const show c
    display_same (list items) = rw (write_list_same Bool.false items)
    display_same (object map) = rw (write_object_same Bool.false map)
    display_same _ = refl

    write_list_same :
        (later : Bool) (cs : ConstList Number)
        → write_list show later (into_values cs) ≡ write_const_list show later cs
    write_list_same later nil = refl
    write_list_same later (cons c cs) = rw (display_same c, write_list_same Bool.true cs)

    write_object_same :
        (later : Bool) (m : ConstMap Number)
        → write_object show later (into_entries m) ≡ write_const_object show later m
    write_object_same later end = refl
    write_object_same later (entry k c m) = rw (display_same c, write_object_same Bool.true m)

  -- A constant value prints as the value that it is turned into.
  pub display-into_value :
      (c : ConstValue Number) → display show (into_value c) ≡ display_const show c
  display-into_value c = display_same c

-- ===== src/Types/MaybeUndefined/Parsed.antt =====
-- src/types/maybe_undefined.rs: what `parse` makes of an argument.
use async_graphql.Prelude.{Option, none, some, ok, ◌≡◌, refl, ◌∙◌}
use async_graphql.Value.{ConstValue, number, string, boolean, binary, enum, list, object}
use async_graphql.Types.MaybeUndefined.{
  MaybeUndefined, undefined, null, value, InputType, parse, parse_value, to_value,
}

module _ {Number Extensions T : Type 0} (inner : InputType Number Extensions T) where
  -- The argument that a client gives: none, or a value.
  abbrev pub argument : MaybeUndefined T → Option (ConstValue Number)
  argument undefined = none
  argument null = some (to_value inner null)
  argument (value v) = some (to_value inner (value v))

  parse-some :
      (c : ConstValue Number) → ¬ (c ≡ ConstValue.null) → parse inner (some c) ≡ parse_value inner c
  unfolding parse
  parse-some ConstValue.null h = absurd (h refl)
  parse-some (number n) h = refl
  parse-some (string s) h = refl
  parse-some (boolean b) h = refl
  parse-some (binary b) h = refl
  parse-some (enum v) h = refl
  parse-some (list vs) h = refl
  parse-some (object m) h = refl

  -- When the content's values are never null and are parsed back, an argument that is left out, null
  -- or such a value is parsed to exactly the `MaybeUndefined` that it was made from.
  pub parse-argument :
      (not_null : (v : T) → ¬ (inner.to_value v ≡ ConstValue.null))
      → (parsed : (v : T) → inner.parse (some (inner.to_value v)) ≡ ok v) → (m : MaybeUndefined T)
      → parse inner (argument m) ≡ ok m
  unfolding parse parse_value to_value
  parse-argument not_null parsed undefined = refl
  parse-argument not_null parsed null = refl
  parse-argument not_null parsed (value v) =
      parse-some (inner.to_value v) (not_null v) ∙ rw (parsed v, parse_value) refl

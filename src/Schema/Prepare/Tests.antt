-- ===== src/Schema/Prepare/Tests.antt =====
-- Runs of `prepare_request`, and its theorem there.
use async_graphql.Prelude.{
  ℕ, List, [], ◌∷◌, Text, codes, true, Option, none, some, ◌≡◌, refl, ok, err,
}
use async_graphql.Validation.Scope.{Pos}
use async_graphql.Document.{
  Directive, Selection, SelectionSet, field, cons, nil, selection_set, ExecutableDocument,
  OperationDefinition, FragmentDefinition, query,
}
use async_graphql.Value.{ConstValue, Value, variable, boolean}
use async_graphql.Schema.Prepare.{
  Request, unknown_operation, operation_name_required, Outside, prepare_request,
}
use async_graphql.Schema.Prepare.Correct.{Comes, Accepted, prepare_request-Comes}
use async_graphql.Schema.Prepare.Selects.{Passes}

abbrev at : Pos
at = record { line = 1; column = 1 }

abbrev condition : Value ℕ
condition = variable (codes "a")

-- @skip(if: $a)
abbrev skip_a : Directive ℕ
skip_a = record {
  name = codes "skip";
  pos = at;
  arguments = record { name = codes "if"; pos = at; value = condition } ∷ [];
}

abbrev plain : Text → List (Directive ℕ) → Selection ℕ
plain name directives =
    field (record { alias = none; name = name; pos = at; arguments = []; directives = directives })
      (selection_set at nil)

abbrev set_of : List (Directive ℕ) → SelectionSet ℕ
set_of directives =
    selection_set at (cons (plain (codes "x") directives) (cons (plain (codes "y") []) nil))

-- fragment F on T { x @skip(if: $a) y }
abbrev fragment_of : SelectionSet ℕ → FragmentDefinition ℕ
fragment_of set = record { on = codes "T"; pos = at; directives = []; set = set }

abbrev operation : OperationDefinition ℕ
operation = record {
  ty = query;
  pos = at;
  variable_definitions = [];
  directives = [];
  set = set_of (skip_a ∷ []);
}

-- query A { x @skip(if: $a) y } query B { x @skip(if: $a) y } and the fragment
abbrev two : ExecutableDocument ℕ
two = record {
  operations = (some (codes "A"), operation) ∷ (some (codes "B"), operation) ∷ [];
  fragments = (codes "F", fragment_of (set_of (skip_a ∷ []))) ∷ [];
}

abbrev truth : ConstValue ℕ
truth = boolean true

abbrev left : SelectionSet ℕ
left = selection_set at (cons (plain (codes "y") []) nil)

abbrev request : Option Text → Request ℕ
request name = record {
  query = codes "";
  operation_name = name;
  variables = (codes "a", truth) ∷ [];
  parsed_query = some two;
}

-- The hooks pass all on.
abbrev outside : Outside ℕ (Unit {0})
outside = record {
  prepare = λ r. ok r;
  parse_query = λ text. ok two;
  check_rules = λ doc variables. ok tt;
  around_parse = λ query variables parsed. parsed;
  around_validation = λ result. result;
}

by_name :
    prepare_request outside 5 none (request (some (codes "B")))
    ≡ some (
        ok (record {
          variables = (codes "a", truth) ∷ [];
          operation_name = some (codes "B");
          operation = record operation { set = left };
          fragments = (codes "F", fragment_of left) ∷ [];
          validation = tt;
        }))
unfolding prepare_request
by_name = refl

unknown :
    prepare_request outside 5 none (request (some (codes "C")))
    ≡ some (err (unknown_operation (codes "C") ∷ []))
unfolding prepare_request
unknown = refl

ambiguous :
    prepare_request outside 5 none (request none) ≡ some (err (operation_name_required ∷ []))
unfolding prepare_request
ambiguous = refl

outside-Passes : Passes outside
outside-Passes = record {
  parse_passes = λ query variables parsed doc e. e;
  validation_passes = λ result validation e. e;
}

prepare_request-Comes_example :
    Comes
      (prepare_request outside 5 none (request (some (codes "B"))))
      (Accepted outside 5 none (request (some (codes "B"))))
prepare_request-Comes_example =
    prepare_request-Comes outside 5 none outside-Passes (request (some (codes "B")))

-- ===== src/Schema/Prepare/Correct.antt =====
-- Which requests `prepare_request` of src/schema.rs lets through, and what it makes of them.
use mathlib.Core.Option
use async_graphql.Prelude.{
  ℕ, List, [], ◌∷◌, Option, some, ◌≡◌, refl, sym, ◌∙◌, ap, ◌↔◌, inl, inr, Result, ok, err, ◌>>=◌,
  ok-injective, subst, Result-cases, >>=-eq-ok_iff,
}
use async_graphql.Document.{ExecutableDocument}
use async_graphql.Schema.Limits.{ServerError}
use async_graphql.Schema.Prepare.{
  Request, QueryEnv, Outside, document_of, after_parse, with_parsed, parse_document,
  prepare_request,
}
use async_graphql.Schema.Prepare.Selects.{
  InLimits, check_limits-InLimits, Brings, Passes, Selects, document_of-Brings, passed,
  after_parse-Selects,
}

module _ {Number Validation : Type 0} (outside : Outside Number Validation) where
  -- A result of parsing passes the hook around it, and then there is what is executed.
  with_parsed-Selects :
      Passes outside
      → (request : Request Number) (parsed : Result ServerError (ExecutableDocument Number))
      → (env : QueryEnv Number Validation)
      → (with_parsed outside request parsed ≡ ok env) ↔ (
          (doc : ExecutableDocument Number) × (parsed ≡ ok doc)
          × (outside.around_parse request.query request.variables (ok doc) ≡ ok doc)
          × Selects outside request doc env)
  unfolding with_parsed
  with_parsed-Selects passes request parsed env =
      let hook = outside.around_parse request.query request.variables in
      let through =
        passed outside hook (passes.parse_passes request.query request.variables) parsed in
      elim (Result-cases (hook parsed)) [
        | inl (doc, e) ↦
            let run : with_parsed outside request parsed ≡ after_parse outside request doc =
              rw (e, with_parsed) refl in
            (
              λ h.
                  let (parses, held) = (through doc).0 e in
                  (
                    doc,
                    parses,
                    held,
                    (after_parse-Selects outside passes request doc env).0 (sym run ∙ h),
                  ),
              λ (doc', parses, held, selects).
                  run
                  ∙ (after_parse-Selects outside passes request doc env).1 (
                      subst (λ d. Selects outside request d env)
                        (ok-injective (sym ((through doc').1 (parses, held)) ∙ e)) selects),
            )
        | inr (error, e) ↦ (
          λ h. failed error e h,
          λ (doc', parses, held, selects). clash e ((through doc').1 (parses, held)),
        )
      ]
    where
      clash : {E A B : Type 0} {r : Result E A} {e : E} {a : A} → r ≡ err e → r ≡ ok a → B
      clash e f = cc

      failed :
          {B : Type 0} (error : ServerError)
          → outside.around_parse request.query request.variables parsed ≡ err error
          → with_parsed outside request parsed ≡ ok env
          → B
      failed error e h =
          let run : with_parsed outside request parsed ≡ err (error ∷ []) =
            rw (e, with_parsed) refl in
          clash run h

-- A run that comes to a result, which is good exactly for the values of which a condition holds.
abbrev pub Comes : {E A : Type 0} → Option (Result E A) → (A → Type 0) → Type 0
Comes {E} {A} run P = (r : Result E A) × (run ≡ some r) × ((a : A) → (r ≡ ok a) ↔ P a)

module _ {Number Validation : Type 0} (outside : Outside Number Validation) (recursive_depth : ℕ)
    (max_directives : Option ℕ) where
  parse_document-Comes :
      (request : Request Number)
      → Comes
          (parse_document outside recursive_depth max_directives request)
          (λ doc. Brings outside request doc × InLimits doc recursive_depth max_directives)
  unfolding parse_document
  parse_document-Comes request = elim (Result-cases (document_of outside request)) [
    | inr (error, e) ↦ (
      err error,
      rw (e, parse_document) refl,
      λ doc.
          (λ h. cc, λ (brings, fits). clash e ((document_of-Brings outside request doc).1 brings)),
    )
    | inl (own, e) ↦
        let (r, run, iff) = check_limits-InLimits own recursive_depth max_directives in
        let checked = >>=-eq-ok_iff r (λ done. ok own) in
        (
          r >>= (λ done. ok own),
          rw (e, parse_document, run, Option.map) refl,
          λ doc. (
            λ h.
                let (done, passes, same) = (checked doc).0 h in
                let same_doc = ok-injective same in
                subst (λ d. Brings outside request d × InLimits d recursive_depth max_directives)
                  same_doc ((document_of-Brings outside request own).0 e, iff.0 passes),
            λ (brings, fits).
                let same_doc : doc ≡ own =
                  ok-injective (sym ((document_of-Brings outside request doc).1 brings) ∙ e) in
                (checked doc).1 (
                  tt,
                  iff.1 (subst (λ d. InLimits d recursive_depth max_directives) same_doc fits),
                  ap ok (sym same_doc),
                ),
          ),
        )
  ]
    where
      clash : {E A B : Type 0} {r : Result E A} {e : E} {a : A} → r ≡ err e → r ≡ ok a → B
      clash e f = cc

  -- What is asked of a request, and what is made of it.
  abbrev pub Accepted : Request Number → QueryEnv Number Validation → Type 0
  Accepted request env =
      (request' : Request Number) × (doc : ExecutableDocument Number) × (outside.prepare request
        ≡ ok request')
      × Brings outside request' doc
      × InLimits doc recursive_depth max_directives
      × (outside.around_parse request'.query request'.variables (ok doc) ≡ ok doc)
      × Selects outside request' doc env

  -- When the extensions' hooks around the parser and the validation may fail, but make no document
  -- and no result of their own, `prepare_request` comes to a result for each request, also if
  -- fragments spread each other in a circle. It lets a request through exactly if the extensions do,
  -- in all their hooks, it brings a document or else its text is one, the document keeps the limits
  -- of depth and directives and passes the rules, and it has the operation of the name that the
  -- request gives, or a single one if the request gives no name. What is executed is then this
  -- operation and the document's fragments, each with what is left of its selection set when the
  -- directives `@skip` and `@include` are obeyed for the request's variables, which are handed on.
  pub prepare_request-Comes :
      Passes outside
      → (request : Request Number)
      → Comes (prepare_request outside recursive_depth max_directives request) (Accepted request)
  unfolding prepare_request
  prepare_request-Comes passes request = elim (Result-cases (outside.prepare request)) [
    | inr (es, e) ↦ (
      err es,
      rw (e, prepare_request) refl,
      λ env. (λ h. cc, λ (request', doc, e', brings, fits, held, selects). clash e e'),
    )
    | inl (request', e) ↦
        let (r, run, iff) = parse_document-Comes request' in
        let through = with_parsed-Selects outside passes request' r in
        (
          with_parsed outside request' r,
          rw (e, prepare_request, run, Option.map) refl,
          λ env. (
            λ h.
                let (doc, parses, held, selects) = (through env).0 h in
                let (brings, fits) = (iff doc).0 parses in
                (request', doc, e, brings, fits, held, selects),
            λ (request'', doc, e', brings, fits, held, selects).
                let same : request'' ≡ request' = ok-injective (sym e' ∙ e) in
                let all =
                  subst
                    (λ q.
                      Brings outside q doc
                      × (outside.around_parse q.query q.variables (ok doc) ≡ ok doc)
                      × Selects outside q doc env)
                    same (brings, held, selects) in
                (through env).1 (doc, (iff doc).1 (all.0, fits), all.1, all.2),
          ),
        )
  ]
    where
      clash :
          {A B : Type 0} {r : Result (List ServerError) A} {es : List ServerError} {a : A}
          → r ≡ err es
          → r ≡ ok a
          → B
      clash e f = cc

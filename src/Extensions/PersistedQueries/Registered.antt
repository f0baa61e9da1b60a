-- ===== src/Extensions/PersistedQueries/Registered.antt =====
-- The branches of src/extensions/apollo_persisted_queries.rs for a query that is named by its hash.
use async_graphql.Prelude.{
  [], ◌∷◌, Text, text_discrete, text_eq_iff, true, false, Option, some, ◌≡◌, refl, ◌∙◌, ap, Result,
  ok, get, if◌then◌else◌,
}
use async_graphql.Extensions.PersistedQueries.{
  PersistedQuery, CacheStorage, Request, is_one, is_empty, persisted_query, remove_extension,
  look_up, register, prepare_request, prepare_all,
}

module _ {Document Json ParseError S : Type 0} (sha256 : Text → Text)
    (parse_query : Text → Result ParseError Document) (from_value : Json → Option PersistedQuery)
    (storage : CacheStorage Document S) where
  -- A request that names a query by its hash.
  pub prepare_request-named :
      (request : Request Document Json) (value : Json) (named : PersistedQuery) (s : S)
      → get text_discrete persisted_query request.extensions ≡ some value
      → from_value value ≡ some named
      → is_one named.version ≡ true
      → let request' = remove_extension sha256 parse_query from_value storage request in
        prepare_request sha256 parse_query from_value storage request s ≡ (
          if is_empty request.query
          then look_up sha256 parse_query from_value storage named.sha256_hash request' s
          else register sha256 parse_query from_value storage named.sha256_hash request' s)
  unfolding prepare_request
  prepare_request-named request value named s e e' e'' =
      rw (e, prepare_request, e', prepare_request, e'', prepare_request) refl

  register-agrees :
      (hash : Text) (request : Request Document Json) (doc : Document) (s : S)
      → hash ≡ sha256 request.query
      → parse_query request.query ≡ ok doc
      → register sha256 parse_query from_value storage hash request s ≡ (
        ok (record request { query = []; parsed_query = some doc }),
        storage.set (sha256 request.query) doc s,
      )
  unfolding register
  register-agrees hash request doc s agree parsed =
      rw ((text_eq_iff hash (sha256 request.query)).1 agree, register, parsed, register) refl

  look_up-found :
      (hash : Text) (request : Request Document Json) (doc : Document) (s : S)
      → (storage.get hash s).0 ≡ some doc
      → look_up sha256 parse_query from_value storage hash request s
        ≡ (ok (record request { parsed_query = some doc }), (storage.get hash s).1)
  unfolding look_up
  look_up-found hash request doc s e = rw (e, look_up) refl

  -- The document of a query that a client brings with its right hash is found by another client
  -- that sends the hash only, if the storage has what was put into it last.
  pub prepare_all-registered :
      ((k : Text) (doc : Document) (s : S) → (storage.get k (storage.set k doc s)).0 ≡ some doc)
      → (request later : Request Document Json) (value value' : Json)
        (named named' : PersistedQuery)
      → (doc : Document) (s : S) → get text_discrete persisted_query request.extensions ≡ some value
      → from_value value ≡ some named
      → is_one named.version ≡ true
      → is_empty request.query ≡ false
      → named.sha256_hash ≡ sha256 request.query
      → parse_query request.query ≡ ok doc
      → get text_discrete persisted_query later.extensions ≡ some value'
      → from_value value' ≡ some named'
      → is_one named'.version ≡ true
      → is_empty later.query ≡ true
      → named'.sha256_hash ≡ sha256 request.query
      → (handed : Request Document Json) × (handed' : Request Document Json) × ((prepare_all sha256
            parse_query from_value storage
            (request ∷ later ∷ [])
            s).0
          ≡ ok handed ∷ ok handed' ∷ [])
        × (handed.parsed_query ≡ some doc)
        × (handed'.parsed_query ≡ some doc)
  unfolding prepare_all
  prepare_all-registered found request later value value' named named' doc s e1 e2 e3 e4 e5 parsed
        f1 f2 f3 f4 f5 =
      let request' = remove_extension sha256 parse_query from_value storage request in
      let later' = remove_extension sha256 parse_query from_value storage later in
      let s' = storage.set (sha256 request.query) doc s in
      let first : prepare_request sha256 parse_query from_value storage request s
          ≡ (ok (record request' { query = []; parsed_query = some doc }), s') =
        prepare_request-named request value named s e1 e2 e3
        ∙ rw e4 (register-agrees named.sha256_hash request' doc s e5 parsed) in
      let second : prepare_request sha256 parse_query from_value storage later s' ≡ (
        ok (record later' { parsed_query = some doc }),
        (storage.get named'.sha256_hash s').1,
      ) =
        prepare_request-named later value' named' s' f1 f2 f3
        ∙ rw f4 (
            look_up-found named'.sha256_hash later' doc s'
              (ap (λ k. (storage.get k s').0) f5 ∙ found (sha256 request.query) doc s)) in
      (
        record request' { query = []; parsed_query = some doc },
        record later' { parsed_query = some doc },
        rw (first, prepare_all, second) refl,
        refl,
        refl,
      )

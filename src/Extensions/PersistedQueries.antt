-- ===== src/Extensions/PersistedQueries.antt =====
-- src/extensions/apollo_persisted_queries.rs: a client sends the hash of a query in its place.
-- Parameters are SHA-256 (in hexadecimal), the parser of queries, how serde reads the extension's
-- value, and the cache storage.
pub mod Registered
pub mod Stored
mod Tests
use async_graphql.Prelude.{
  ℕ, List, [], ◌∷◌, Text, text_discrete, text_eq, codes, ◌==◌, Bool, true, false, not, Option, none,
  some, Result, ok, err, get, keep, if◌then◌else◌,
}
use async_graphql.Prelude.Int.{ℤ, pos, negsuc}

pub record PersistedQuery : Type 0 where
  pub version : ℤ
  pub sha256_hash : Text

-- `CacheStorage`: a look-up may change the storage, as that of an LRU cache does.
pub record CacheStorage (Document S : Type 0) : Type 0 where
  pub get : Text → S → Option Document × S
  pub set : Text → Document → S → S

-- What the extension reads and writes of a request; `Json` is a value of the extensions.
pub record Request (Document Json : Type 0) : Type 0 where
  pub query : Text
  pub parsed_query : Option Document
  pub extensions : List (Text × Json)

-- `ServerError`, by its message: the extension's own ones, and those of the parser.
pub data ServerError (ParseError : Type 0) : Type 0 where
  invalid_configuration : ServerError ParseError
  unsupported_version : ℤ → ServerError ParseError
  persisted_query_not_found : ServerError ParseError
  sha_mismatch : ServerError ParseError
  parse_error : ParseError → ServerError ParseError

abbrev pub is_one : ℤ → Bool
is_one (pos n) = n == 1
is_one (negsuc n) = false

abbrev pub is_empty : Text → Bool
is_empty [] = true
is_empty (c ∷ s) = false

-- `"persistedQuery"`
abbrev pub persisted_query : Text
persisted_query = codes "persistedQuery"

module _ {Document Json ParseError S : Type 0} (sha256 : Text → Text)
    (parse_query : Text → Result ParseError Document) (from_value : Json → Option PersistedQuery)
    (storage : CacheStorage Document S) where
  -- The request without the extension's value.
  unfoldable pub remove_extension : Request Document Json → Request Document Json
  unfolding keep text_eq
  remove_extension request = record request {
    extensions = keep (λ p. not (text_eq p.0 persisted_query)) request.extensions;
  }

  -- A request that names a query by its hash only.
  unfoldable pub look_up :
      Text → Request Document Json → S → Result (ServerError ParseError) (Request Document Json) × S
  look_up hash request s =
      let (found, s') = storage.get hash s in
      elim found [
        | none ↦ (err persisted_query_not_found, s')
        | some doc ↦ (ok (record request { parsed_query = some doc }), s')
      ]

  -- A request that brings its query with it.
  unfoldable pub register :
      Text → Request Document Json → S → Result (ServerError ParseError) (Request Document Json) × S
  unfolding text_eq
  register hash request s =
      if text_eq hash (sha256 request.query)
      then elim (parse_query request.query) [
        | err e ↦ (err (parse_error e), s)
        | ok doc ↦ (
          ok (record request { query = []; parsed_query = some doc }),
          storage.set (sha256 request.query) doc s,
        )
      ]
      else (err sha_mismatch, s)

  -- `prepare_request`, up to the call of the next extension, which gets the request if there is one.
  unfoldable pub prepare_request :
      Request Document Json → S → Result (ServerError ParseError) (Request Document Json) × S
  unfolding get text_discrete remove_extension look_up register
  prepare_request request s = elim (get text_discrete persisted_query request.extensions) [
    | none ↦ (ok request, s)
    | some value ↦ elim (from_value value) [
      | none ↦ (err invalid_configuration, s)
      | some query ↦
          let request' = remove_extension request in
          if is_one query.version
          then if is_empty request.query
            then look_up query.sha256_hash request' s
            else register query.sha256_hash request' s
          else (err (unsupported_version query.version), s)
    ]
  ]

  -- The requests of a server, one after the other: what came of them, and the storage.
  unfoldable pub prepare_all :
      List (Request Document Json)
      → S
      → List (Result (ServerError ParseError) (Request Document Json)) × S
  unfolding prepare_request
  prepare_all [] s = ([], s)
  prepare_all (request ∷ requests) s =
      let (result, s') = prepare_request request s in
      let (results, s'') = prepare_all requests s' in (result ∷ results, s'')

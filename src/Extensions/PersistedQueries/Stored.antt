-- ===== src/Extensions/PersistedQueries/Stored.antt =====
-- What src/extensions/apollo_persisted_queries.rs hands on, and what it keeps.
use async_graphql.Prelude.{
  List, [], ◌∷◌, Text, text_discrete, text_eq, text_eq_iff, Bool, true, false, Option, none, some,
  ◌≡◌, refl, sym, ◌∙◌, ap, ◌⊎◌, inl, inr, Result, ok, err, ok-injective, Result-cases, subst, get,
  if◌then◌else◌, Bool-cases, Option-cases,
}
use async_graphql.Extensions.PersistedQueries.{
  PersistedQuery, CacheStorage, Request, ServerError, is_one, is_empty, persisted_query,
  remove_extension, look_up, register, prepare_request, prepare_all,
}
use async_graphql.Extensions.PersistedQueries.Registered.{prepare_request-named}

-- A storage has what was put into it; it may forget, also when it is asked.
pub record StorageLaws {Document S : Type 0} (storage : CacheStorage Document S) : Type 0 where
  pub get-set :
      (k j : Text) (doc d : Document) (s : S)
      → (storage.get k (storage.set j d s)).0 ≡ some doc
      → ((j ≡ k) × (d ≡ doc)) ⊎ ((storage.get k s).0 ≡ some doc)
  pub get-get :
      (k j : Text) (doc : Document) (s : S)
      → (storage.get k (storage.get j s).1).0 ≡ some doc
      → (storage.get k s).0 ≡ some doc

module _ {Document Json ParseError S : Type 0} (sha256 : Text → Text)
    (parse_query : Text → Result ParseError Document) (from_value : Json → Option PersistedQuery)
    (storage : CacheStorage Document S) (laws : StorageLaws storage) where
  -- The document of a query that has a hash.
  abbrev pub Hashed : Text → Document → Type 0
  Hashed hash doc = (query : Text) × (sha256 query ≡ hash) × (parse_query query ≡ ok doc)

  -- Each document of the storage stands under the hash of its query.
  abbrev pub AllHashed : S → Type 0
  AllHashed s = (hash : Text) (doc : Document) → (storage.get hash s).0 ≡ some doc → Hashed hash doc

  -- What may be handed on for a request: the request itself if it does not use the extension, and
  -- otherwise the document of a query that has the hash which the request names.
  abbrev pub Handed : Request Document Json → Request Document Json → Type 0
  Handed request handed =
      ((get text_discrete persisted_query request.extensions ≡ none) × (handed ≡ request))
      ⊎ ((value : Json) × (named : PersistedQuery) × (doc : Document) × (get text_discrete
              persisted_query request.extensions
            ≡ some value)
          × (from_value value ≡ some named)
          × (is_one named.version ≡ true)
          × (handed.parsed_query ≡ some doc)
          × Hashed named.sha256_hash doc)

  abbrev Good : Text → Result (ServerError ParseError) (Request Document Json) × S → Type 0
  Good hash r =
      AllHashed r.1
      × ((handed : Request Document Json)
          → r.0 ≡ ok handed
          → (doc : Document) × (handed.parsed_query ≡ some doc) × Hashed hash doc)

  look_up-Good :
      (hash : Text) (request : Request Document Json) (s : S)
      → AllHashed s
      → Good hash (look_up sha256 parse_query from_value storage hash request s)
  unfolding look_up
  look_up-Good hash request s h = elim (Option-cases (storage.get hash s).0) [
    | inl e ↦
        rw (e, look_up) (λ k d g. h k d (laws.get-get k hash d s g), λ handed same. no_result same)
    | inr (doc, e) ↦
        rw (e, look_up)
          (
            λ k d g. h k d (laws.get-get k hash d s g),
            λ handed same. (doc, sym (ap (λ r. r.parsed_query) (ok-injective same)), h hash doc e),
          )
  ]
    where
      no_result :
          {A : Type 0} {e : ServerError ParseError} {r : Request Document Json}
          → Path (Result (ServerError ParseError) (Request Document Json)) (err e) (ok r)
          → A
      no_result same = cc

  register-Good :
      (hash : Text) (request : Request Document Json) (s : S)
      → AllHashed s
      → Good hash (register sha256 parse_query from_value storage hash request s)
  unfolding register
  register-Good hash request s h = elim (Bool-cases (text_eq hash (sha256 request.query))) [
    | inr differ ↦ rw (differ, register) (h, λ handed same. cc)
    | inl agree ↦ elim (Result-cases (parse_query request.query)) [
      | inr (e, parsed) ↦ rw (agree, register, parsed, register) (h, λ handed same. cc)
      | inl (doc, parsed) ↦
          rw (agree, register, parsed, register)
            (
              λ k d g. elim (laws.get-set k (sha256 request.query) d doc s g) [
                | inl (key, same) ↦ (request.query, key, parsed ∙ ap ok same)
                | inr before ↦ h k d before
              ],
              λ handed same. (
                doc,
                sym (ap (λ r. r.parsed_query) (ok-injective same)),
                (request.query, sym ((text_eq_iff hash (sha256 request.query)).0 agree), parsed),
              ),
            )
    ]
  ]

  either-Good :
      (hash : Text) (b : Bool)
      → (x y : Result (ServerError ParseError) (Request Document Json) × S) → Good hash x
      → Good hash y
      → Good hash (if b then x else y)
  either-Good hash true x y good good' = good
  either-Good hash false x y good good' = good'

  -- What one request leaves, and what is handed on for it.
  abbrev Answered :
      Request Document Json → Result (ServerError ParseError) (Request Document Json) × S → Type 0
  Answered request r =
      AllHashed r.1 × ((handed : Request Document Json) → r.0 ≡ ok handed → Handed request handed)

  Good-Answered :
      (request : Request Document Json) (value : Json) (named : PersistedQuery)
      → (r : Result (ServerError ParseError) (Request Document Json) × S)
      → get text_discrete persisted_query request.extensions ≡ some value
      → from_value value ≡ some named
      → is_one named.version ≡ true
      → Good named.sha256_hash r
      → Answered request r
  Good-Answered request value named r has reads version (kept, good) = (
    kept,
    λ handed same.
        let (doc, parsed, hashed) = good handed same in
        inr (value, named, doc, has, reads, version, parsed, hashed),
  )

  prepare_request-Answered :
      (request : Request Document Json) (s : S)
      → AllHashed s
      → Answered request (prepare_request sha256 parse_query from_value storage request s)
  unfolding prepare_request
  prepare_request-Answered request s h =
      elim (Option-cases (get text_discrete persisted_query request.extensions)) [
        | inl e ↦ rw (e, prepare_request) (h, λ handed same. inl (refl, sym (ok-injective same)))
        | inr (value, e) ↦ elim (Option-cases (from_value value)) [
          | inl e' ↦ rw (e, prepare_request, e', prepare_request) (h, λ handed same. cc)
          | inr (named, e') ↦ elim (Bool-cases (is_one named.version)) [
            | inr e'' ↦
                rw (e, prepare_request, e', prepare_request, e'', prepare_request)
                  (h, λ handed same. cc)
            | inl e'' ↦
                let request' = remove_extension sha256 parse_query from_value storage request in
                let asked =
                  look_up sha256 parse_query from_value storage named.sha256_hash request' s in
                let brought =
                  register sha256 parse_query from_value storage named.sha256_hash request' s in
                subst (Answered request)
                  (sym (
                    prepare_request-named sha256 parse_query from_value storage request value named
                      s e e' e''))
                  (Good-Answered request value named
                    (if is_empty request.query then asked else brought) e e' e''
                    (either-Good named.sha256_hash (is_empty request.query) asked brought
                      (look_up-Good named.sha256_hash request' s h)
                      (register-Good named.sha256_hash request' s h)))
          ]
        ]
      ]

  -- Each result of a list is one that may be handed on for its request.
  unfoldable pub EachHanded :
      List (Request Document Json)
      → List (Result (ServerError ParseError) (Request Document Json))
      → Type 0
  EachHanded (request ∷ requests) (result ∷ results) =
      ((handed : Request Document Json) → result ≡ ok handed → Handed request handed)
      × EachHanded requests results
  EachHanded [] [] = Unit {0}
  EachHanded requests results = ⊥

  -- When a server starts with a storage in which each document stands under the hash of its query,
  -- and clients send any requests, one after the other, then what is handed on for a request that
  -- names a query by its hash is the document of a query with this hash, and not what some other
  -- client has put there. The storage may forget documents at any time.
  pub prepare_all-EachHanded :
      (requests : List (Request Document Json)) (s : S)
      → AllHashed s
      → AllHashed (prepare_all sha256 parse_query from_value storage requests s).1
        × EachHanded requests (prepare_all sha256 parse_query from_value storage requests s).0
  unfolding prepare_all EachHanded
  prepare_all-EachHanded [] s h = (h, tt)
  prepare_all-EachHanded (request ∷ requests) s h =
      let (kept, handed) = prepare_request-Answered request s h in
      let (kept', others) =
        prepare_all-EachHanded requests
          (prepare_request sha256 parse_query from_value storage request s).1 kept in
      (kept', (handed, others))

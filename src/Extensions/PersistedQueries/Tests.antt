-- ===== src/Extensions/PersistedQueries/Tests.antt =====
-- Runs of the persisted queries, and their theorems there. A query is its own hash here, and its
-- document is its length.
use async_graphql.Prelude.{
  ℕ, List, [], ◌∷◌, Text, text_discrete, codes, Option, none, some, ◌≡◌, refl, Result, ok, err, get,
  get-put, put, length, arith,
}
use async_graphql.Prelude.Int.{pos}
use async_graphql.Extensions.PersistedQueries.{
  PersistedQuery, CacheStorage, Request, persisted_query, persisted_query_not_found, sha_mismatch,
  prepare_request, prepare_all,
}
use async_graphql.Extensions.PersistedQueries.Registered.{prepare_all-registered}
use async_graphql.Extensions.PersistedQueries.Stored.{
  StorageLaws, AllHashed, EachHanded, prepare_all-EachHanded,
}

abbrev Storage : Type 0
Storage = List (Text × ℕ)

abbrev storage : CacheStorage ℕ Storage
storage = record {
  get = λ k s. (get text_discrete k s, s);
  set = λ k doc s. put text_discrete k doc s;
}

storage-StorageLaws : StorageLaws storage
storage-StorageLaws = record {
  get-set = λ k j doc d s e. ground (arith, get-put text_discrete j k d s);
  get-get = λ k j doc s e. e;
}

abbrev sha256 : Text → Text
sha256 query = query

abbrev parse_query : Text → Result ℕ ℕ
parse_query query = ok (length query)

abbrev from_value : PersistedQuery → Option PersistedQuery
from_value value = some value

abbrev named : PersistedQuery
named = record { version = pos 1; sha256_hash = codes "{a}" }

abbrev request : Text → Request ℕ PersistedQuery
request query = record {
  query = query;
  parsed_query = none;
  extensions = (persisted_query, named) ∷ [];
}

not_found :
    (prepare_request sha256 parse_query from_value storage (request []) []).0
    ≡ err persisted_query_not_found
unfolding prepare_request text_discrete
not_found = refl

mismatch :
    (prepare_request sha256 parse_query from_value storage (request (codes "{b}")) []).0
    ≡ err sha_mismatch
unfolding prepare_request text_discrete
mismatch = refl

nothing-AllHashed : AllHashed sha256 parse_query from_value storage storage-StorageLaws []
unfolding get
nothing-AllHashed hash doc e = cc

prepare_all-EachHanded_example :
    AllHashed sha256 parse_query from_value storage storage-StorageLaws
      (prepare_all sha256 parse_query from_value storage
        (request (codes "{a}") ∷ request [] ∷ [])
        []).1
    × EachHanded sha256 parse_query from_value storage storage-StorageLaws
        (request (codes "{a}") ∷ request [] ∷ [])
        (prepare_all sha256 parse_query from_value storage
          (request (codes "{a}") ∷ request [] ∷ [])
          []).0
prepare_all-EachHanded_example =
    prepare_all-EachHanded sha256 parse_query from_value storage storage-StorageLaws
      (request (codes "{a}") ∷ request [] ∷ []) [] nothing-AllHashed

put-found :
    (k : Text) (doc : ℕ) (s : Storage) → get text_discrete k (put text_discrete k doc s) ≡ some doc
put-found k doc s = ground (arith, get-put text_discrete k k doc s)

prepare_all-registered_example :
    (handed : Request ℕ PersistedQuery) × (handed' : Request ℕ PersistedQuery) × ((prepare_all
        sha256 parse_query from_value storage
        (request (codes "{a}") ∷ request [] ∷ [])
        []).0
      ≡ ok handed ∷ ok handed' ∷ [])
    × (handed.parsed_query ≡ some 3)
    × (handed'.parsed_query ≡ some 3)
unfolding get text_discrete
prepare_all-registered_example =
    prepare_all-registered sha256 parse_query from_value storage put-found (request (codes "{a}"))
      (request []) named named named named 3 [] refl refl refl refl refl refl refl refl refl refl
      refl

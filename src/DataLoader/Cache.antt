-- ===== src/DataLoader/Cache.antt =====
-- src/dataloader/cache.rs: what a cache storage offers to the data loader, and two of the storages.
-- The third, `LruCache`, is the one of the lru crate.
use async_graphql.Prelude.{
  List, [], Option, none, some, ◌≡◌, refl, ◌⊎◌, inr, arith, get, put, get-put,
}

-- The trait `CacheStorage`. `get` may change the storage, as a storage that forgets the entry used
-- least recently does.
pub record CacheStorage (K V S : Type 0) : Type 0 where
  pub create : S
  pub get : K → S → Option V × S
  pub insert : K → V → S → S
  pub clear : S → S

-- What a storage promises: it has no entries but those that were inserted. It may drop entries.
pub record CacheLaws (K V S : Type 0) (cache : CacheStorage K V S) : Type 0 where
  pub get-create : (k : K) → (cache.get k cache.create).0 ≡ none
  pub get-get :
      (k j : K) (v : V) (s : S)
      → (cache.get j (cache.get k s).1).0 ≡ some v
      → (cache.get j s).0 ≡ some v
  pub get-insert :
      (k j : K) (v w : V) (s : S)
      → (cache.get j (cache.insert k v s)).0 ≡ some w
      → ((k ≡ j) × (v ≡ w)) ⊎ ((cache.get j s).0 ≡ some w)
  pub get-clear : (k : K) (s : S) → (cache.get k (cache.clear s)).0 ≡ none

module _ (K V : Type 0) where
  -- `NoCacheImpl`
  abbrev pub no_cache : CacheStorage K V (Unit {0})
  no_cache = record { create = tt; get = λ k s. (none, s); insert = λ k v s. s; clear = λ s. s }

  pub no_cache-CacheLaws : CacheLaws K V (Unit {0}) no_cache
  no_cache-CacheLaws = record {
    get-create = λ k. refl;
    get-get = λ k j v s h. h;
    get-insert = λ k j v w s h. inr h;
    get-clear = λ k s. refl;
  }

  -- `HashMapCacheImpl`
  abbrev pub hash_map_cache : Discrete K → CacheStorage K V (List (K × V))
  hash_map_cache dec = record {
    create = [];
    get = λ k s. (get dec k s, s);
    insert = λ k v s. put dec k v s;
    clear = λ s. [];
  }

  pub hash_map_cache-CacheLaws :
      (dec : Discrete K) → CacheLaws K V (List (K × V)) (hash_map_cache dec)
  unfolding get
  hash_map_cache-CacheLaws dec = record {
    get-create = λ k. refl;
    get-get = λ k j v s h. h;
    get-insert = λ k j v w s h. ground (arith, get-put dec k j v s);
    get-clear = λ k s. refl;
  }

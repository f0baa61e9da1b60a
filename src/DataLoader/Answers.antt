-- ===== src/DataLoader/Answers.antt =====
-- What a caller of `load_many` (src/dataloader/mod.rs) is answered: the values of the keys that it
-- asked for.
use async_graphql.Prelude.{
  List, [], ◌∷◌, Bool, true, false, ◌||◌, ◌&&◌, Option, none, some, ◌≡◌, refl, inl, inr, arith, ap,
  if◌then◌else◌, contains, contains-insert, insert, get, put, get-put, Option-cases,
}
use async_graphql.DataLoader.Cache.{CacheStorage, CacheLaws}
use async_graphql.DataLoader.{split_keys, answer, Loader}

-- Whether a map has a key.
abbrev pub is_some : {A : Type 0} → Option A → Bool
is_some none = false
is_some (some a) = true

module _ {K V S : Type 0} (dec : Discrete K) (cache : CacheStorage K V S) (k : K) (ks : List K)
    (held : List (K × V)) (missing : List K) (s : S) where
  abbrev split_by : Option V → List (K × V) × (List K × S)
  split_by found = elim found [
    | some v ↦ split_keys dec cache ks (put dec k v held) missing (cache.get k s).1
    | none ↦ split_keys dec cache ks held (insert dec k missing) (cache.get k s).1
  ]

  split-absent :
      (cache.get k s).0 ≡ none
      → split_keys dec cache (k ∷ ks) held missing s
        ≡ split_keys dec cache ks held (insert dec k missing) (cache.get k s).1
  unfolding split_keys
  split-absent e = ap split_by e

  split-found :
      (v : V)
      → (cache.get k s).0 ≡ some v
      → split_keys dec cache (k ∷ ks) held missing s
        ≡ split_keys dec cache ks (put dec k v held) missing (cache.get k s).1
  unfolding split_keys
  split-found v e = ap split_by e

module _ {K V S : Type 0} (dec : Discrete K) (cache : CacheStorage K V S)
    (laws : CacheLaws K V S cache) (source : K → Option V) where
  -- A cache that has no values but those of the source.
  abbrev pub Agrees : S → Type 0
  Agrees s = (k : K) (v : V) → (cache.get k s).0 ≡ some v → source k ≡ some v

  -- A map that has no values but those of the source.
  abbrev pub MapAgrees : List (K × V) → Type 0
  MapAgrees m = (k : K) (v : V) → get dec k m ≡ some v → source k ≡ some v

  MapAgrees-put :
      (k : K) (v : V) (m : List (K × V))
      → source k ≡ some v
      → MapAgrees m
      → MapAgrees (put dec k v m)
  MapAgrees-put k v m good agrees j w h = elim (dec k j) [
    | yes e ↦ ground (arith, get-put dec k j v m, ap source e)
    | no ne ↦ ground (arith, get-put dec k j v m, agrees j w)
  ]

  -- The loop over the keys keeps to the source.
  split-MapAgrees :
      (ks : List K) (held : List (K × V)) (missing : List K) (s : S)
      → Agrees s
      → MapAgrees held
      → MapAgrees (split_keys dec cache ks held missing s).0
  unfolding split_keys
  split-MapAgrees [] held missing s cached agrees = agrees
  split-MapAgrees (k ∷ ks) held missing s cached agrees =
      let later : Agrees (cache.get k s).1 = λ j v h. cached j v (laws.get-get k j v s h) in
      elim (Option-cases (cache.get k s).0) [
        | inl absent ↦
            rw (split-absent dec cache k ks held missing s absent)
              (split-MapAgrees ks held (insert dec k missing) (cache.get k s).1 later agrees)
        | inr (v, found) ↦ rw (split-found dec cache k ks held missing s v found) (
            split-MapAgrees ks (put dec k v held) missing (cache.get k s).1 later
              (MapAgrees-put k v held (cached k v found) agrees))
      ]

  -- Each key of the caller is found in the cache or missing, and no other key is.
  split-covers :
      (ks : List K) (held : List (K × V)) (missing : List K) (s : S) (j : K)
      → let split = split_keys dec cache ks held missing s in
        (contains dec j split.1.0 || is_some (get dec j split.0))
        ≡ (contains dec j ks || (contains dec j missing || is_some (get dec j held)))
  unfolding split_keys contains
  split-covers [] held missing s j = refl
  split-covers (k ∷ ks) held missing s j = elim (Option-cases (cache.get k s).0) [
    | inl absent ↦ rw (split-absent dec cache k ks held missing s absent) (
        ground (
          arith,
          split-covers ks held (insert dec k missing) (cache.get k s).1 j,
          contains-insert dec j k missing,
        ))
    | inr (v, found) ↦ rw (split-found dec cache k ks held missing s v found) (
        ground (
          arith,
          split-covers ks (put dec k v held) missing (cache.get k s).1 j,
          get-put dec k j v held,
        ))
  ]

module _ {K V E S : Type 0} (dec : Discrete K) (cache : CacheStorage K V S)
    (loader : Loader K V E S) where
  pub get-answer :
      (ks : List K) (values res : List (K × V)) (j : K)
      → get dec j (answer dec cache loader ks values res) ≡ (
          if contains dec j ks && is_some (get dec j values)
          then get dec j values
          else get dec j res)
  unfolding answer contains
  get-answer [] values res j = refl
  get-answer (k ∷ ks) values res j = elim (dec k j) [
    | yes e ↦ elim (Option-cases (get dec k values)) [
      | inl absent ↦
          ground (arith, absent, get-answer ks values res j, ap (λ i. get dec i values) e)
      | inr (v, found) ↦ ground (
        arith,
        found,
        get-answer ks values (put dec k v res) j,
        get-put dec k j v res,
        ap (λ i. get dec i values) e,
      )
    ]
    | no ne ↦ elim (Option-cases (get dec k values)) [
      | inl absent ↦ ground (arith, absent, get-answer ks values res j)
      | inr (v, found) ↦
          ground (arith, found, get-answer ks values (put dec k v res) j, get-put dec k j v res)
    ]
  ]

  -- When the cache has no values but those of a source, and the loader has for each key that was
  -- missing what the source has, then a caller is answered with what the source has for each of its
  -- keys, and with nothing else. The cache may be any that keeps its laws.
  pub answer-split_keys :
      (laws : CacheLaws K V S cache) (source : K → Option V) (keys : List K) (s : S)
      → (values : List (K × V)) → Agrees dec cache laws source s
      → ((k : K)
          → contains dec k (split_keys dec cache keys [] [] s).1.0 ≡ true
          → get dec k values ≡ source k)
      → (k : K)
      → let split = split_keys dec cache keys [] [] s in
        get dec k (answer dec cache loader split.1.0 values split.0)
        ≡ (if contains dec k keys then source k else none)
  unfolding contains get
  answer-split_keys laws source keys s values cached loaded k =
      let split = split_keys dec cache keys [] [] s in
      let from_cache =
        split-MapAgrees dec cache laws source keys [] [] s cached (λ j v h. ground arith) k in
      let covers = split-covers dec cache laws source keys [] [] s k in
      let got = get-answer split.1.0 values split.0 k in
      elim (Option-cases (get dec k split.0)) [
        | inl absent ↦ ground (arith, absent, covers, got, loaded k)
        | inr (v, found) ↦ ground (arith, found, covers, got, loaded k, from_cache v)
      ]

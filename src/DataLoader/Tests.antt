-- ===== src/DataLoader/Tests.antt =====
-- Runs of the data loader, and its theorems there.
use async_graphql.Prelude.{
  ℕ, List, [], ◌∷◌, true, Option, none, some, ◌≡◌, refl, arith, ℕ_discrete, contains, if◌then◌else◌,
  err, ◌<◌, get,
}
use async_graphql.DataLoader.Cache.{hash_map_cache, hash_map_cache-CacheLaws}
use async_graphql.DataLoader.{Loader, with_cache, load_many, split_keys, answer}
use async_graphql.DataLoader.Steps.{TruthfulResult, Reachable, start, step, call}
use async_graphql.DataLoader.Channels.{Served, Reachable-Served}
use async_graphql.DataLoader.Answered.{Leads, answered, Reachable-answered}
use async_graphql.DataLoader.Answers.{answer-split_keys}

abbrev new_loader : Loader ℕ ℕ ℕ (List (ℕ × ℕ))
new_loader = with_cache ℕ_discrete (hash_map_cache ℕ ℕ ℕ_discrete) 1000

abbrev asked : Loader ℕ ℕ ℕ (List (ℕ × ℕ))
asked = (load_many ℕ_discrete (hash_map_cache ℕ ℕ ℕ_discrete) new_loader (1 ∷ 2 ∷ 1 ∷ [])).0

-- The keys wait once each, and a fetch is spawned.
waits : (asked.requests.keys ≡ 1 ∷ 2 ∷ []) × (asked.channels ≡ 1)
unfolding load_many with_cache get contains ℕ_discrete
waits = (refl, refl)

asked-Reachable : Reachable ℕ_discrete (hash_map_cache ℕ ℕ ℕ_discrete) (λ k v. k ≡ v) 1000 asked
asked-Reachable = step start (call (1 ∷ 2 ∷ 1 ∷ []))

Reachable-Served_example : Served ℕ_discrete (hash_map_cache ℕ ℕ ℕ_discrete) asked
Reachable-Served_example =
    Reachable-Served ℕ_discrete (hash_map_cache ℕ ℕ ℕ_discrete) (λ k v. k ≡ v) asked-Reachable

one_channel : 0 < asked.channels
unfolding load_many with_cache get contains ℕ_discrete
one_channel = omega arith

Reachable-answered_example :
    (u : Loader ℕ ℕ ℕ (List (ℕ × ℕ))) × Leads ℕ_discrete
      (hash_map_cache ℕ ℕ ℕ_discrete)
      (λ k v. k ≡ v)
      asked
      u
    × (answered ℕ_discrete (hash_map_cache ℕ ℕ ℕ_discrete) (λ k v. k ≡ v) 0 u ≡ 1)
unfolding TruthfulResult
Reachable-answered_example =
    Reachable-answered ℕ_discrete (hash_map_cache ℕ ℕ ℕ_discrete) (λ k v. k ≡ v) (err 7) tt 0
      asked-Reachable one_channel

-- The cache has 1, and the loader has 2.
abbrev source : ℕ → Option ℕ
source k = some k

abbrev cached : List (ℕ × ℕ)
cached = (1, 1) ∷ []

abbrev loaded : List (ℕ × ℕ)
loaded = (2, 2) ∷ []

cached-Agrees : (k v : ℕ) → get ℕ_discrete k cached ≡ some v → source k ≡ some v
unfolding get
cached-Agrees k v h = ground arith

loads_missing :
    (k : ℕ)
    → contains ℕ_discrete k
        (split_keys ℕ_discrete (hash_map_cache ℕ ℕ ℕ_discrete) (1 ∷ 2 ∷ []) [] [] cached).1.0
      ≡ true
    → get ℕ_discrete k loaded ≡ source k
unfolding get contains split_keys
loads_missing k h = ground arith

answer-split_keys_example :
    let split = split_keys ℕ_discrete (hash_map_cache ℕ ℕ ℕ_discrete) (1 ∷ 2 ∷ []) [] [] cached in
    get ℕ_discrete 1
      (answer ℕ_discrete (hash_map_cache ℕ ℕ ℕ_discrete) new_loader split.1.0 loaded split.0)
    ≡ (if contains ℕ_discrete 1 (1 ∷ 2 ∷ []) then source 1 else none)
answer-split_keys_example =
    answer-split_keys ℕ_discrete (hash_map_cache ℕ ℕ ℕ_discrete) new_loader
      (hash_map_cache-CacheLaws ℕ ℕ ℕ_discrete) source (1 ∷ 2 ∷ []) cached loaded cached-Agrees
      loads_missing 1

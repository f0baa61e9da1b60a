-- ===== src/DataLoader/Steps.antt =====
-- The runs of a data loader (src/dataloader/mod.rs): calls, ends of delays and answers of the
-- loader, in any order.
use async_graphql.Prelude.{ℕ, List, [], ◌++◌, ◌∷◌, Bool, ◌≡◌, Result, ok, err}
use async_graphql.DataLoader.Cache.{CacheStorage}
use async_graphql.DataLoader.{
  Loader, Task, fetch, load, KeysAndSender, with_cache, load_many, fetch_taken, do_load, feed_many,
  enable_cache, enable_all_cache, clear,
}

module _ {K V : Type 0} (IsOf : K → V → Type 0) where
  -- All values are ones that their keys may have.
  unfoldable pub Truthful : List (K × V) → Type 0
  Truthful [] = Unit {0}
  Truthful ((k, v) ∷ values) = IsOf k v × Truthful values

  -- An answer of the loader whose values are ones that their keys may have, or an error.
  unfoldable pub TruthfulResult : {E : Type 0} → Result E (List (K × V)) → Type 0
  TruthfulResult (ok values) = Truthful values
  TruthfulResult (err e) = Unit {0}

module _ {K V E S : Type 0} (dec : Discrete K) (cache : CacheStorage K V S)
    (IsOf : K → V → Type 0) where
  pub data Step (s : Loader K V E S) : Loader K V E S → Type 0 where
    call : (keys : List K) → Step s (load_many dec cache s keys).0
    fetched :
        (before after : List (Task K V)) (disable : Bool)
        → s.tasks ≡ before ++ fetch disable ∷ after
        → Step s (fetch_taken dec cache (record s { tasks = before ++ after }) disable)
    loaded :
        (before after : List (Task K V)) (disable : Bool) (batch : KeysAndSender K V)
        → (result : Result E (List (K × V))) → s.tasks ≡ before ++ load disable batch ∷ after
        → TruthfulResult IsOf result
        → Step s (do_load dec cache (record s { tasks = before ++ after }) disable batch result)
    enabled : (enable : Bool) → Step s (enable_cache dec cache s enable)
    enabled_all : (enable : Bool) → Step s (enable_all_cache dec cache s enable)
    fed : (values : List (K × V)) → Truthful IsOf values → Step s (feed_many dec cache s values)
    cleared : Step s (clear dec cache s)

  pub data Reachable (max_batch_size : ℕ) : Loader K V E S → Type 0 where
    start : Reachable max_batch_size (with_cache dec cache max_batch_size)
    step :
        {s t : Loader K V E S} → Reachable max_batch_size s → Step s t → Reachable max_batch_size t

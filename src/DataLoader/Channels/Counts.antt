-- ===== src/DataLoader/Channels/Counts.antt =====
-- How often a channel stands in the parts of a data loader (src/dataloader/mod.rs).
use async_graphql.Prelude.{
  ℕ, suc, ◌+◌, List, [], ◌∷◌, ◌++◌, map, Bool, true, false, ◌≡◌, refl, arith, if◌then◌else◌, ◌==◌,
  ◌||◌, contains, insert, Result, ok, err, length,
}
use async_graphql.DataLoader.{ResSender, Task, fetch, load, is_empty, insert_all, answers, Loader}
use async_graphql.DataLoader.Cache.{CacheStorage}

unfoldable pub times : ℕ → List ℕ → ℕ
times t [] = 0
times t (x ∷ xs) = let rest = times t xs in if x == t then suc rest else rest

pub times-append : (t : ℕ) (xs ys : List ℕ) → times t (xs ++ ys) ≡ times t xs + times t ys
unfolding times
times-append t [] ys = omega arith
times-append t (x ∷ xs) ys = ground (arith, times-append t xs ys)

module _ {K V : Type 0} where
  -- The channels of callers that wait together.
  abbrev pub channels_of : List (List K × ResSender K V) → List ℕ
  channels_of = map (λ p. p.1.tx)

  pub channels_of-append :
      (xs ys : List (List K × ResSender K V))
      → channels_of (xs ++ ys) ≡ channels_of xs ++ channels_of ys
  channels_of-append [] ys = refl
  channels_of-append (x ∷ xs) ys = rw (channels_of-append xs ys)

  -- In the batches that are being loaded.
  unfoldable pub in_tasks : ℕ → List (Task K V) → ℕ
  in_tasks t [] = 0
  in_tasks t (fetch disable ∷ tasks) = in_tasks t tasks
  in_tasks t (load disable batch ∷ tasks) = times t (channels_of batch.1) + in_tasks t tasks

  pub in_tasks-append :
      (t : ℕ) (xs ys : List (Task K V)) → in_tasks t (xs ++ ys) ≡ in_tasks t xs + in_tasks t ys
  unfolding in_tasks
  in_tasks-append t [] ys = omega arith
  in_tasks-append t (fetch disable ∷ xs) ys = in_tasks-append t xs ys
  in_tasks-append t (load disable batch ∷ xs) ys = omega (arith, in_tasks-append t xs ys)

  unfoldable pub has_fetch : List (Task K V) → Bool
  has_fetch [] = false
  has_fetch (fetch disable ∷ tasks) = true
  has_fetch (load disable batch ∷ tasks) = has_fetch tasks

  pub has_fetch-append :
      (xs ys : List (Task K V)) → has_fetch (xs ++ ys) ≡ (has_fetch xs || has_fetch ys)
  unfolding has_fetch
  has_fetch-append [] ys = refl
  has_fetch-append (fetch disable ∷ xs) ys = refl
  has_fetch-append (load disable batch ∷ xs) ys = has_fetch-append xs ys

  -- To take a batch away leaves the fetches.
  pub has_fetch-spend :
      (xs ys : List (Task K V)) (disable : Bool) (batch : List K × List (List K × ResSender K V))
      → has_fetch (xs ++ load disable batch ∷ ys) ≡ has_fetch (xs ++ ys)
  unfolding has_fetch
  has_fetch-spend [] ys disable batch = refl
  has_fetch-spend (fetch d ∷ xs) ys disable batch = refl
  has_fetch-spend (load d b ∷ xs) ys disable batch = has_fetch-spend xs ys disable batch

pub is_empty-length : {K : Type 0} → (ks : List K) → is_empty ks ≡ (length ks == 0)
is_empty-length [] = refl
is_empty-length (k ∷ ks) = ground arith

module _ {K : Type 0} (dec : Discrete K) where
  pub insert_all-is_empty :
      (ks set : List K) → is_empty set ≡ false → is_empty (insert_all dec ks set) ≡ false
  unfolding insert_all insert
  insert_all-is_empty [] set h = h
  insert_all-is_empty (k ∷ ks) set h = insert_all-is_empty ks (insert dec k set) (ground arith)

  pub insert-is_empty : (k : K) (set : List K) → is_empty (insert dec k set) ≡ false
  unfolding insert contains
  insert-is_empty k [] = refl
  insert-is_empty k (x ∷ set) = ground arith

module _ {K V E S : Type 0} (dec : Discrete K) (cache : CacheStorage K V S)
    (loader : Loader K V E S) where
  pub times-answers :
      (t : ℕ) (result : Result E (List (K × V))) (senders : List (List K × ResSender K V))
      → times t (map (λ p. p.0) (answers dec cache loader result senders))
        ≡ times t (channels_of senders)
  unfolding answers times
  times-answers t (ok values) [] = refl
  times-answers t (err e) [] = refl
  times-answers t (ok values) (x ∷ senders) = ground (arith, times-answers t (ok values) senders)
  times-answers t (err e) (x ∷ senders) = ground (arith, times-answers t (err e) senders)

-- ===== src/DataLoader/Channels.antt =====
-- Each caller of the data loader (src/dataloader/mod.rs) is answered once, and nobody who waits is
-- forgotten.
pub mod Counts
use async_graphql.Prelude.{
  ℕ, suc, ◌+◌, List, [], ◌∷◌, ◌++◌, map, Bool, true, false, not, ◌||◌, ◌&&◌, ◌≡◌, refl, arith,
  if◌then◌else◌, ltb, leb, ◌==◌, ap, sym, ◌∙◌, map-append, Result, ok, err, length, Bool-cases, ◌⊎◌,
  inl, inr,
}
use async_graphql.DataLoader.Cache.{CacheStorage}
use async_graphql.DataLoader.{
  ResSender, Requests, Loader, Task, fetch, load, is_empty, KeysAndSender, Action, immediate_load,
  start_fetch, delay, insert_all, look_up, enqueue, take, choose, spawned, request_missing,
  load_many, fetch_taken, do_load, answers, feed_many, enable_cache, enable_all_cache, clear,
  with_cache,
}
use async_graphql.DataLoader.Steps.{
  Step, call, fetched, loaded, enabled, enabled_all, fed, cleared, Reachable, start, step,
}
use async_graphql.DataLoader.Channels.Counts.{
  times, times-append, channels_of, in_tasks, in_tasks-append, has_fetch, has_fetch-append,
  has_fetch-spend, insert_all-is_empty, insert-is_empty, is_empty-length, times-answers,
  channels_of-append,
}

module _ {K V E S : Type 0} (dec : Discrete K) (cache : CacheStorage K V S) where
  -- What holds between two steps.
  pub record Served (s : Loader K V E S) : Type 0 where
    -- Each channel that was made is in one place: with a caller that waits for a fetch, in a batch
    -- that is being loaded, or answered.
    pub once :
        (t : ℕ)
        → times t (channels_of s.requests.pending)
            + in_tasks t s.tasks
            + times t (map (λ p. p.0) s.sent)
          ≡ (if ltb t s.channels then 1 else 0)
    -- Without keys nobody waits.
    pub nobody_waits : is_empty s.requests.keys ≡ true → s.requests.pending ≡ []
    -- With keys there is a fetch to come.
    pub will_fetch : is_empty s.requests.keys ≡ false → has_fetch s.tasks ≡ true

  -- The three outcomes of the choice of an action.
  choose-cases :
      (s : Loader K V E S) (requests : Requests K V S)
      → (choose dec cache s requests ≡ (
        immediate_load (requests.keys, requests.pending),
        record requests { keys = []; pending = [] },
      ))
        ⊎ ((choose dec cache s requests ≡ (start_fetch, requests))
            ⊎ ((choose dec cache s requests ≡ (delay, requests))
                × ((is_empty requests.keys ≡ true) ⊎ (is_empty s.requests.keys ≡ false))))
  unfolding choose take
  choose-cases s requests = elim (Bool-cases (leb s.max_batch_size (length requests.keys))) [
    | inl full ↦ inl (rw full)
    | inr room ↦ elim (Bool-cases (not (is_empty requests.keys) && (length s.requests.keys == 0))) [
      | inl first ↦ inr (inl (rw (room, first)))
      | inr later ↦ inr (inr (rw (room, later), ground (arith, is_empty-length s.requests.keys)))
    ]
  ]

  module _ (s : Loader K V E S) (served : Served s) where
    -- A caller's request, with the task that its action spawns.
    Served-choose :
        (requests : Requests K V S)
        → is_empty requests.keys ≡ false
        → ((t : ℕ)
            → times t (channels_of requests.pending)
              ≡ times t (channels_of s.requests.pending) + (if s.channels == t then 1 else 0))
        → let chosen = choose dec cache s requests in
          Served (record s {
            requests = chosen.1;
            tasks = s.tasks ++ spawned dec cache s chosen.0;
            channels = suc s.channels;
          })
    unfolding spawned in_tasks has_fetch times
    Served-choose requests some_keys waits = elim (choose-cases s requests) [
      | inl full ↦ rw full (record {
        once = λ t. ground (
          arith,
          served.once t,
          waits t,
          in_tasks-append t s.tasks (load s.disable_cache (requests.keys, requests.pending) ∷ []),
        );
        nobody_waits = λ h. refl;
        will_fetch = λ h. ground arith;
      })
      | inr (inl first) ↦ rw first (record {
        once = λ t.
            ground (
              arith,
              served.once t,
              waits t,
              in_tasks-append t s.tasks (fetch s.disable_cache ∷ []),
            );
        nobody_waits = λ h. ground arith;
        will_fetch = λ h. ground (arith, has_fetch-append s.tasks (fetch s.disable_cache ∷ []));
      })
      | inr (inr (later, had_keys)) ↦ rw later (record {
        once = λ t. ground (arith, served.once t, waits t, in_tasks-append t s.tasks []);
        nobody_waits = λ h. ground arith;
        will_fetch = λ h. ground (arith, served.will_fetch, has_fetch-append s.tasks []);
      })
    ]

    -- The part of `load_many` after the cache was asked.
    Served-request_missing :
        (use_cache_values : List (K × V)) (keys_set : List K) (storage : S)
        → Served (request_missing dec cache s use_cache_values keys_set storage).0
    unfolding request_missing enqueue insert_all times
    Served-request_missing use_cache_values [] storage = record {
      once = served.once;
      nobody_waits = served.nobody_waits;
      will_fetch = served.will_fetch;
    }
    Served-request_missing use_cache_values (key ∷ keys) storage =
        Served-choose (enqueue dec cache s use_cache_values (key ∷ keys) storage)
          (insert_all-is_empty dec keys _ (insert-is_empty dec key s.requests.keys))
          (λ t. ground (
            arith,
            channels_of-append s.requests.pending (
                (key ∷ keys, record { use_cache_values = use_cache_values; tx = s.channels }) ∷ []),
            times-append t (channels_of s.requests.pending) (s.channels ∷ []),
          ))

    Served-fetch_taken :
        (before after : List (Task K V)) (disable : Bool)
        → s.tasks ≡ before ++ fetch disable ∷ after
        → Served (fetch_taken dec cache (record s { tasks = before ++ after }) disable)
    unfolding fetch_taken take in_tasks times
    Served-fetch_taken before after disable e = elim (Bool-cases (is_empty s.requests.keys)) [
      | inl none_left ↦ rw none_left (record {
        once = λ t. omega (
          arith,
          served.once t,
          ap (in_tasks t) e,
          in_tasks-append t before (fetch disable ∷ after),
          in_tasks-append t before after,
          in_tasks-append t (before ++ after) [],
          ap (λ p. times t (channels_of p)) (served.nobody_waits none_left),
        );
        nobody_waits = λ h. refl;
        will_fetch = λ h. ground arith;
      })
      | inr some_keys ↦ rw some_keys (record {
        once = λ t. omega (
          arith,
          served.once t,
          ap (in_tasks t) e,
          in_tasks-append t before (fetch disable ∷ after),
          in_tasks-append t before after,
          in_tasks-append t (before ++ after)
              (load disable (s.requests.keys, s.requests.pending) ∷ []),
        );
        nobody_waits = λ h. refl;
        will_fetch = λ h. ground arith;
      })
    ]

    Served-do_load :
        (before after : List (Task K V)) (disable : Bool) (batch : KeysAndSender K V)
        → (result : Result E (List (K × V))) → s.tasks ≡ before ++ load disable batch ∷ after
        → Served (do_load dec cache (record s { tasks = before ++ after }) disable batch result)
    unfolding do_load in_tasks
    Served-do_load before after disable batch result e =
        let left = record s { tasks = before ++ after } in
        record {
          once = λ t. omega (
            arith,
            served.once t,
            ap (in_tasks t) e,
            in_tasks-append t before (load disable batch ∷ after),
            in_tasks-append t before after,
            ap (times t) (map-append (λ p. p.0) s.sent (answers dec cache left result batch.1)),
            times-append t (map (λ p. p.0) s.sent)
                (map (λ p. p.0) (answers dec cache left result batch.1)),
            times-answers dec cache left t result batch.1,
          );
          nobody_waits = served.nobody_waits;
          will_fetch = λ h.
              sym (has_fetch-spend before after disable batch)
              ∙ sym (ap has_fetch e)
              ∙ served.will_fetch h;
        }

  module _ (IsOf : K → V → Type 0) where
    Step-Served : {s t : Loader K V E S} → Step dec cache IsOf s t → Served s → Served t
    unfolding load_many enable_cache enable_all_cache feed_many clear
    Step-Served {s} (call keys) h =
        let asked = look_up dec cache s keys in
        Served-request_missing s h asked.0 asked.1.0 asked.1.1
    Step-Served {s} (fetched before after disable e) h =
        Served-fetch_taken s h before after disable e
    Step-Served {s} (loaded before after disable batch result e truth) h =
        Served-do_load s h before after disable batch result e
    Step-Served (enabled enable) h = record {
      once = h.once;
      nobody_waits = h.nobody_waits;
      will_fetch = h.will_fetch;
    }
    Step-Served (enabled_all enable) h = record {
      once = h.once;
      nobody_waits = h.nobody_waits;
      will_fetch = h.will_fetch;
    }
    Step-Served (fed values truth) h = record {
      once = h.once;
      nobody_waits = h.nobody_waits;
      will_fetch = h.will_fetch;
    }
    Step-Served cleared h = record {
      once = h.once;
      nobody_waits = h.nobody_waits;
      will_fetch = h.will_fetch;
    }

    -- In each state that a data loader comes to, whatever the order of calls, ends of delays and
    -- answers of the loader: each channel that was made waits in one place or was answered, once;
    -- without keys nobody waits; and with keys there is a fetch to come.
    pub Reachable-Served :
        {max_batch_size : ℕ} {s : Loader K V E S}
        → Reachable dec cache IsOf max_batch_size s
        → Served s
    unfolding with_cache times in_tasks
    Reachable-Served start = record {
      once = λ t. ground arith;
      nobody_waits = λ h. refl;
      will_fetch = λ h. ground arith;
    }
    Reachable-Served (step before one) = Step-Served one (Reachable-Served before)

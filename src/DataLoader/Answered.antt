-- ===== src/DataLoader/Answered.antt =====
-- A caller of the data loader (src/dataloader/mod.rs) that waits can always be answered.
use async_graphql.Prelude.{
  ℕ, ◌<◌, List, [], ◌∷◌, ◌++◌, map, Bool, true, false, ◌≡◌, refl, ap, arith, ltb, inl, inr,
  map-append, Result, Bool-cases,
}
use async_graphql.DataLoader.Cache.{CacheStorage}
use async_graphql.DataLoader.{
  Loader, Task, fetch, load, KeysAndSender, is_empty, fetch_taken, do_load, answers,
}
use async_graphql.DataLoader.Steps.{Step, fetched, loaded, Reachable, step, TruthfulResult}
use async_graphql.DataLoader.Channels.{Served, Reachable-Served}
use async_graphql.DataLoader.Channels.Counts.{
  times, times-append, channels_of, in_tasks, in_tasks-append, has_fetch, times-answers,
}

module _ {K V : Type 0} where
  -- A batch of the tasks that has a channel.
  in_tasks-batch :
      (t : ℕ) (tasks : List (Task K V))
      → 0 < in_tasks t tasks
      → (before : List (Task K V)) × (after : List (Task K V)) × (disable : Bool)
        × (batch : KeysAndSender K V) × (tasks ≡ before ++ load disable batch ∷ after)
        × (0 < times t (channels_of batch.1))
  unfolding in_tasks
  in_tasks-batch t [] h = elim (absurd_lt h) [ ]
    where
      absurd_lt : 0 < 0 → ⊥
      absurd_lt h = omega arith
  in_tasks-batch t (fetch disable ∷ tasks) h =
      let (before, after, d, batch, e, lt) = in_tasks-batch t tasks h in
      (fetch disable ∷ before, after, d, batch, ap (λ l. fetch disable ∷ l) e, lt)
  in_tasks-batch t (load disable batch ∷ tasks) h =
      elim (Bool-cases (ltb 0 (times t (channels_of batch.1)))) [
        | inl here ↦ ([], tasks, disable, batch, refl, ground arith)
        | inr later ↦
            let (before, after, d, b, e, lt) = in_tasks-batch t tasks (ground arith) in
            (load disable batch ∷ before, after, d, b, ap (λ l. load disable batch ∷ l) e, lt)
      ]

  has_fetch-task :
      (tasks : List (Task K V))
      → has_fetch tasks ≡ true
      → (before : List (Task K V)) × (after : List (Task K V)) × (disable : Bool) × (tasks
          ≡ before ++ fetch disable ∷ after)
  unfolding has_fetch
  has_fetch-task [] h = cc
  has_fetch-task (fetch disable ∷ tasks) h = ([], tasks, disable, refl)
  has_fetch-task (load disable batch ∷ tasks) h =
      let (before, after, d, e) = has_fetch-task tasks h in
      (load disable batch ∷ before, after, d, ap (λ l. load disable batch ∷ l) e)

module _ {K V E S : Type 0} (dec : Discrete K) (cache : CacheStorage K V S)
    (IsOf : K → V → Type 0) where
  -- The states that further steps lead to.
  pub data Leads (s : Loader K V E S) : Loader K V E S → Type 0 where
    already : Leads s s
    then_step : {t u : Loader K V E S} → Leads s t → Step dec cache IsOf t u → Leads s u

  -- How often a channel was answered.
  abbrev pub answered : ℕ → Loader K V E S → ℕ
  answered t s = times t (map (λ p. p.0) s.sent)

  module _ (result : Result E (List (K × V))) (truth : TruthfulResult IsOf result) where
    -- A channel of a batch is answered when the loader has answered.
    in_tasks-answered :
        (t : ℕ) (s : Loader K V E S)
        → 0 < in_tasks t s.tasks
        → (u : Loader K V E S) × Step dec cache IsOf s u × (0 < answered t u)
    unfolding do_load
    in_tasks-answered t s h =
        let (before, after, disable, batch, e, lt) = in_tasks-batch t s.tasks h in
        let left = record s { tasks = before ++ after } in
        (
          do_load dec cache left disable batch result,
          loaded before after disable batch result e truth,
          omega (
            arith,
            lt,
            ap (times t) (map-append (λ p. p.0) s.sent (answers dec cache left result batch.1)),
            times-append t (map (λ p. p.0) s.sent)
                (map (λ p. p.0) (answers dec cache left result batch.1)),
            times-answers dec cache left t result batch.1,
          ),
        )

    -- What waits goes into a batch when a delay ends.
    fetch_taken-in_tasks :
        (t : ℕ) (s : Loader K V E S) (before after : List (Task K V)) (disable : Bool)
        → is_empty s.requests.keys ≡ false
        → 0 < times t (channels_of s.requests.pending)
        → 0
          < in_tasks t (fetch_taken dec cache (record s { tasks = before ++ after }) disable).tasks
    unfolding fetch_taken in_tasks
    fetch_taken-in_tasks t s before after disable some_keys h = rw some_keys (
        omega (
          arith,
          h,
          in_tasks-append t (before ++ after)
              (load disable (s.requests.keys, s.requests.pending) ∷ []),
        ))

    Reachable-Leads :
        {max_batch_size : ℕ} {s u : Loader K V E S}
        → Reachable dec cache IsOf max_batch_size s
        → Leads s u
        → Reachable dec cache IsOf max_batch_size u
    Reachable-Leads h already = h
    Reachable-Leads h (then_step l one) = step (Reachable-Leads h l) one

    answered_once :
        {max_batch_size : ℕ} {s : Loader K V E S} (t : ℕ)
        → Reachable dec cache IsOf max_batch_size s
        → 0 < answered t s
        → answered t s ≡ 1
    answered_once t h lt = ground (arith, (Reachable-Served dec cache IsOf h).once t)

    some_keys :
        (t : ℕ) (s : Loader K V E S)
        → Served dec cache s
        → 0 < times t (channels_of s.requests.pending)
        → is_empty s.requests.keys ≡ false
    unfolding times
    some_keys t s served lt = elim (Bool-cases (is_empty s.requests.keys)) [
      | inr e ↦ e
      | inl e ↦ elim (nobody (ap (λ p. times t (channels_of p)) (served.nobody_waits e))) [ ]
    ]
      where
        nobody : times t (channels_of s.requests.pending) ≡ 0 → ⊥
        nobody e = omega (arith, e, lt)

    -- A caller that waits for a fetch is answered in two steps.
    pending-answered :
        (t : ℕ) (s : Loader K V E S)
        → Served dec cache s
        → 0 < times t (channels_of s.requests.pending)
        → (u : Loader K V E S) × Leads s u × (0 < answered t u)
    pending-answered t s served lt =
        let keys = some_keys t s served lt in
        let (before, after, disable, e) = has_fetch-task s.tasks (served.will_fetch keys) in
        let (u, one, more) =
          in_tasks-answered t (fetch_taken dec cache (record s { tasks = before ++ after }) disable)
            (fetch_taken-in_tasks t s before after disable keys lt) in
        (u, then_step (then_step already (fetched before after disable e)) one, more)

    -- From each state that a data loader comes to, and for each channel that was made, whatever the
    -- loader answers: there are steps after which the channel has been answered, and that once.
    pub Reachable-answered :
        {max_batch_size : ℕ} {s : Loader K V E S} (t : ℕ)
        → Reachable dec cache IsOf max_batch_size s
        → t < s.channels
        → (u : Loader K V E S) × Leads s u × (answered t u ≡ 1)
    Reachable-answered {s = s} t h made =
        let served = Reachable-Served dec cache IsOf h in
        elim (Bool-cases (ltb 0 (in_tasks t s.tasks))) [
          | inl loading ↦
              let (u, one, more) = in_tasks-answered t s (ground arith) in
              let l : Leads s u = then_step already one in
              (u, l, answered_once t (Reachable-Leads h l) more)
          | inr idle ↦ elim (Bool-cases (ltb 0 (times t (channels_of s.requests.pending)))) [
            | inl waits ↦
                let (u, l, more) = pending-answered t s served (ground arith) in
                (u, l, answered_once t (Reachable-Leads h l) more)
            | inr gone ↦ (s, already, ground (arith, served.once t))
          ]
        ]

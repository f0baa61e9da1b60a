-- ===== src/DataLoader.antt =====
-- src/dataloader/mod.rs: a data loader for one type of keys. Callers ask for keys, the keys wait
-- until they are loaded together, and each caller is answered through a channel of its own.
pub mod Cache
pub mod Steps
pub mod Answers
pub mod Channels
pub mod Answered
mod Tests
use async_graphql.Prelude.{
  ℕ, suc, ◌+◌, List, [], ◌∷◌, ◌++◌, map, Bool, true, false, not, ◌&&◌, ◌||◌, Option, none, some,
  if◌then◌else◌, leb, ◌==◌, length, contains, insert, get, put, Result, ok, err,
}
use async_graphql.DataLoader.Cache.{CacheStorage}

-- The sender of a caller's channel, with what the cache had for the caller.
pub record ResSender (K V : Type 0) : Type 0 where
  pub use_cache_values : List (K × V)
  pub tx : ℕ

pub record Requests (K V S : Type 0) : Type 0 where
  pub keys : List K
  pub pending : List (List K × ResSender K V)
  pub cache_storage : S
  pub disable_cache : Bool

abbrev pub KeysAndSender : Type 0 → Type 0 → Type 0
KeysAndSender K V = List K × List (List K × ResSender K V)

-- A future that was handed to the spawner: one that waits for the delay, and one that waits for the
-- loader. Both hold the value that `disable_cache` of the data loader had.
pub data Task (K V : Type 0) : Type 0 where
  fetch : Bool → Task K V
  load : Bool → KeysAndSender K V → Task K V

-- The data loader, its spawned tasks, the number of the next channel, and what was sent.
pub record Loader (K V E S : Type 0) : Type 0 where
  pub requests : Requests K V S
  pub disable_cache : Bool
  pub max_batch_size : ℕ
  pub tasks : List (Task K V)
  pub channels : ℕ
  pub sent : List (ℕ × Result E (List (K × V)))

-- What `load_many` has for its caller: the values, or the channel to wait on.
pub data Reply (K V : Type 0) : Type 0 where
  ready : List (K × V) → Reply K V
  waiting : ℕ → Reply K V

-- `Action`
pub data Action (K V : Type 0) : Type 0 where
  immediate_load : KeysAndSender K V → Action K V
  start_fetch : Action K V
  delay : Action K V

abbrev pub is_empty : {A : Type 0} → List A → Bool
is_empty [] = true
is_empty (x ∷ xs) = false

module _ {K : Type 0} (dec : Discrete K) where
  -- `extend` of a `HashSet`
  unfoldable pub insert_all : List K → List K → List K
  unfolding insert
  insert_all [] set = set
  insert_all (k ∷ ks) set = insert_all ks (insert dec k set)

module _ {K V S : Type 0} (dec : Discrete K) (cache : CacheStorage K V S) where
  -- The loop over the keys of a caller: what the cache has, and the keys that it does not have.
  unfoldable pub split_keys : List K → List (K × V) → List K → S → List (K × V) × (List K × S)
  unfolding insert put
  split_keys [] use_cache_values keys_set s = (use_cache_values, (keys_set, s))
  split_keys (key ∷ keys) use_cache_values keys_set s =
      let (found, s') = cache.get key s in
      elim found [
        | some value ↦ split_keys keys (put dec key value use_cache_values) keys_set s'
        | none ↦ split_keys keys use_cache_values (insert dec key keys_set) s'
      ]

module _ {K V E S : Type 0} (dec : Discrete K) (cache : CacheStorage K V S) where
  module _ (loader : Loader K V E S) where
    -- Which of the caller's keys the cache has, when it is enabled.
    unfoldable pub look_up : List K → List (K × V) × (List K × S)
    unfolding insert_all split_keys
    look_up keys =
        if loader.requests.disable_cache || loader.disable_cache
        then ([], (insert_all dec keys [], loader.requests.cache_storage))
        else split_keys dec cache keys [] [] loader.requests.cache_storage

    -- The requests with a caller that waits for `keys_set`.
    unfoldable pub enqueue : List (K × V) → List K → S → Requests K V S
    unfolding insert_all
    enqueue use_cache_values keys_set s = record {
      keys = insert_all dec keys_set loader.requests.keys;
      pending =
          loader.requests.pending
          ++ (keys_set, record { use_cache_values = use_cache_values; tx = loader.channels }) ∷ [];
      cache_storage = s;
      disable_cache = loader.requests.disable_cache;
    }

    -- `Requests::take`: what is taken, and the requests without it.
    unfoldable pub take : Requests K V S → KeysAndSender K V × Requests K V S
    take requests = ((requests.keys, requests.pending), record requests { keys = []; pending = [] })

    -- The choice of the action, with the requests as it leaves them.
    unfoldable pub choose : Requests K V S → Action K V × Requests K V S
    unfolding take
    choose requests =
        if leb loader.max_batch_size (length requests.keys)
        then (let (taken, left) = take requests in (immediate_load taken, left))
        else if not (is_empty requests.keys) && (length loader.requests.keys == 0)
        then (start_fetch, requests)
        else (delay, requests)

    -- The tasks that an action spawns.
    unfoldable pub spawned : Action K V → List (Task K V)
    spawned (immediate_load taken) = load loader.disable_cache taken ∷ []
    spawned start_fetch = fetch loader.disable_cache ∷ []
    spawned delay = []

    -- The part of `load_many` after the cache was asked.
    unfoldable pub request_missing : List (K × V) → List K → S → Loader K V E S × Reply K V
    unfolding enqueue choose spawned
    request_missing use_cache_values [] s = (
      record loader { requests = record loader.requests { cache_storage = s } },
      ready use_cache_values,
    )
    request_missing use_cache_values (key ∷ keys) s =
        let (action, requests) = choose (enqueue use_cache_values (key ∷ keys) s) in
        (
          record loader {
            requests = requests;
            tasks = loader.tasks ++ spawned action;
            channels = suc loader.channels;
          },
          waiting loader.channels,
        )

    -- `load_many`, up to where it waits on its channel.
    unfoldable pub load_many : List K → Loader K V E S × Reply K V
    unfolding look_up request_missing
    load_many keys =
        let (use_cache_values, (keys_set, s)) = look_up keys in
        request_missing use_cache_values keys_set s

    -- The end of the delay of a fetch: what waits is taken, and loaded if there are keys.
    unfoldable pub fetch_taken : Bool → Loader K V E S
    unfolding take
    fetch_taken disable =
        let (taken, left) = take loader.requests in
        record loader {
          requests = left;
          tasks = loader.tasks ++ (if is_empty taken.0 then [] else load disable taken ∷ []);
        }

    -- The loop that puts loaded values into the cache.
    unfoldable pub insert_values : List (K × V) → S → S
    insert_values [] s = s
    insert_values ((key, value) ∷ values) s = insert_values values (cache.insert key value s)

    -- The loop over the keys of one caller.
    unfoldable pub answer : List K → List (K × V) → List (K × V) → List (K × V)
    unfolding get put
    answer [] values res = res
    answer (key ∷ keys) values res =
        answer keys values
          (elim (get dec key values) [ none ↦ res | some value ↦ put dec key value res ])

    -- What each caller of a batch is sent.
    unfoldable pub answers :
        Result E (List (K × V)) → List (List K × ResSender K V) → List (ℕ × Result E (List (K × V)))
    unfolding answer
    answers (ok values) senders =
        map (λ p. (p.1.tx, ok (answer p.0 values p.1.use_cache_values))) senders
    answers (err e) senders = map (λ p. (p.1.tx, err e)) senders

    -- The cache after the loader has answered.
    unfoldable pub update_cache : Bool → Result E (List (K × V)) → S
    unfolding insert_values
    update_cache disable (err e) = loader.requests.cache_storage
    update_cache disable (ok values) =
        if loader.requests.disable_cache || disable
        then loader.requests.cache_storage
        else insert_values values loader.requests.cache_storage

    -- `do_load`, from where the loader has answered.
    unfoldable pub do_load : Bool → KeysAndSender K V → Result E (List (K × V)) → Loader K V E S
    unfolding answers update_cache
    do_load disable batch result = record loader {
      requests = record loader.requests { cache_storage = update_cache disable result };
      sent = loader.sent ++ answers result batch.1;
    }

    unfoldable pub enable_all_cache : Bool → Loader K V E S
    enable_all_cache enable = record loader { disable_cache = not enable }

    unfoldable pub enable_cache : Bool → Loader K V E S
    enable_cache enable = record loader {
      requests = record loader.requests { disable_cache = not enable };
    }

    unfoldable pub feed_many : List (K × V) → Loader K V E S
    unfolding insert_values
    feed_many values = record loader {
      requests = record loader.requests {
        cache_storage = insert_values values loader.requests.cache_storage;
      };
    }

    unfoldable pub clear : Loader K V E S
    clear = record loader {
      requests = record loader.requests {
        cache_storage = cache.clear loader.requests.cache_storage;
      };
    }

  -- A new data loader, with the requests of its first call.
  unfoldable pub with_cache : ℕ → Loader K V E S
  with_cache max_batch_size = record {
    requests = record {
      keys = [];
      pending = [];
      cache_storage = cache.create;
      disable_cache = false;
    };
    disable_cache = false;
    max_batch_size = max_batch_size;
    tasks = [];
    channels = 0;
    sent = [];
  }

-- ===== src/Registry/Cache.antt =====
-- pkg/registry/cache.go: Cache. Times are numbers of nanoseconds; the clock is read where the
-- source reads it, and what it shows is an argument. The fields cache and serialize are concurrent maps; an
-- operation here is one that runs alone, as the per-key mutex of LoadOrCall makes it for its key.
pub mod Expiry
use noe.Common.{ℕ, ◌+◌, ◌*◌, String, Option, none, some, List, [], ◌∷◌, ltb, nat_eq, if◌then◌else◌}
use noe.Common.Maps.{Map, lookup, insert, delete}

-- CacheEntry
pub record CacheEntry (A : Type 0) : Type 0 where
  pub value : A
  pub expiry : ℕ

-- Cache, with the keys that have a mutex
pub record Cache (A : Type 0) : Type 0 where
  pub cache : Map (CacheEntry A)
  pub serialize : Map {0} Unit
  pub last_cleanup : ℕ
  pub cleanup_period : ℕ
  pub cache_duration : ℕ

-- What the function `miss` returns
pub data Missed (A : Type 0) : Type 0 where
  value : A → Missed A
  error : String → Missed A

-- What LoadOrCall returns
pub data Loaded (A : Type 0) : Type 0 where
  hit : A → Loaded A
  miss : A → Loaded A
  miss_error : String → Loaded A

-- 5 * time.Minute
abbrev pub default_cleanup_period : ℕ
default_cleanup_period = 5 * 60 * 1000000000

module _ {A : Type 0} where
  -- NewCache
  unfoldable pub new_cache : ℕ → Cache A
  new_cache duration = record {
    cache = [];
    serialize = [];
    last_cleanup = 0;
    cleanup_period = 0;
    cache_duration = duration;
  }

  unfoldable pub live_value : ℕ → Option (CacheEntry A) → Option A
  live_value now none = none
  live_value now (some e) = if ltb now e.expiry then some e.value else none

  -- (*Cache).Load
  unfoldable pub load : ℕ → String → Cache A → Option A
  unfolding live_value
  load now key c = live_value now (lookup key c.cache)

  -- WithExpiry
  unfoldable pub with_expiry : ℕ → CacheEntry A → CacheEntry A
  with_expiry expiry entry = record { value = entry.value; expiry = expiry }

  unfoldable pub mutate : List (CacheEntry A → CacheEntry A) → CacheEntry A → CacheEntry A
  mutate [] entry = entry
  mutate (mutation ∷ mutations) entry = mutate mutations (mutation entry)

  -- (*Cache).Store
  unfoldable pub store : ℕ → String → A → List (CacheEntry A → CacheEntry A) → Cache A → Cache A
  unfolding mutate
  store now key v mutations c = record {
    cache =
        insert key (mutate mutations (record { value = v; expiry = now + c.cache_duration }))
          c.cache;
    serialize = c.serialize;
    last_cleanup = c.last_cleanup;
    cleanup_period = c.cleanup_period;
    cache_duration = c.cache_duration;
  }

  -- serialize.LoadOrStore
  unfoldable pub load_or_store_mutex : String → Cache A → Cache A
  load_or_store_mutex key c = record {
    cache = c.cache;
    serialize = insert key tt c.serialize;
    last_cleanup = c.last_cleanup;
    cleanup_period = c.cleanup_period;
    cache_duration = c.cache_duration;
  }

  -- The end of LoadOrCall after `miss`, at the time of its Store
  unfoldable pub after_miss : ℕ → String → Missed A → Cache A → Loaded A × Cache A
  unfolding store
  after_miss stored key (error err) c = (miss_error err, c)
  after_miss stored key (value v) c = (miss v, store stored key v [] c)

  module _ {W : Type 0} (call : W → Missed A × W) where
    -- LoadOrCall after its Load
    unfoldable pub loaded_or_called : ℕ → String → Option A → W → Cache A → Loaded A × (W × Cache A)
    unfolding after_miss
    loaded_or_called stored key (some v) w c = (hit v, (w, c))
    loaded_or_called stored key none w c =
        let (answer, w2) = call w in
        let (result, c2) = after_miss stored key answer c in (result, (w2, c2))

    -- (*Cache).LoadOrCall, with the world that `miss` changes, the time of the Load and the time
    -- of the Store
    unfoldable pub load_or_call : ℕ → ℕ → String → W → Cache A → Loaded A × (W × Cache A)
    unfolding loaded_or_called load load_or_store_mutex
    load_or_call now stored key w c =
        loaded_or_called stored key (load now key c) w (load_or_store_mutex key c)

  -- cache.Range with the deletion of the expired entries, over the entries that it visits
  sweep : ℕ → Map (CacheEntry A) → Map (CacheEntry A) → Map (CacheEntry A)
  sweep now [] m = m
  sweep now ((key, entry) ∷ visited) m =
      sweep now visited (if ltb entry.expiry now then delete key m else m)

  sweep_mutexes : ℕ → Map (CacheEntry A) → Map {0} Unit → Map {0} Unit
  sweep_mutexes now [] m = m
  sweep_mutexes now ((key, entry) ∷ visited) m =
      sweep_mutexes now visited (if ltb entry.expiry now then delete key m else m)

  unfoldable pub effective_period : Cache A → ℕ
  effective_period c =
      if nat_eq c.cleanup_period 0 then default_cleanup_period else c.cleanup_period

  -- (*Cache).CleanUp
  unfoldable pub clean_up : ℕ → Cache A → Cache A
  unfolding sweep sweep_mutexes effective_period
  clean_up now c =
      let period = effective_period c in
      let skipped = ltb now (c.last_cleanup + period) in
      record {
        cache = if skipped then c.cache else sweep now c.cache c.cache;
        serialize = if skipped then c.serialize else sweep_mutexes now c.cache c.serialize;
        last_cleanup = if skipped then c.last_cleanup else now;
        cleanup_period = period;
        cache_duration = c.cache_duration;
      }

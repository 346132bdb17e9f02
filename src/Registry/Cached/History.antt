-- ===== src/Registry/Cached/History.antt =====
-- Where the platforms come from that CachedRegistry returns.
use noe.Common.{
  ℕ, ◌+◌, ◌<◌, String, Option, none, some, List, [], ◌∷◌, ◌==◌, ◌≡◌, refl, sym, ◌∙◌, subst, arith,
  eq_iff, ◌⊎◌, inl, inr, Bool-cases,
}
use noe.Common.Maps.{lookup, insert, HasDistinctKeys, lookup-insert, insert-HasDistinctKeys}
use noe.Hook.{Platform}
use noe.Registry.Manifests.{Listed, platforms, list_error}
use noe.Registry.Cache.{
  CacheEntry, Cache, new_cache, load, store, mutate, load_or_store_mutex, after_miss,
  loaded_or_called, load_or_call, clean_up,
}
use noe.Registry.Cache.Expiry.{load-some, lookup-clean_up, clean_up-HasDistinctKeys}
use noe.Registry.Cached.{cache_key, missed, listed, call_registry, cached_list_archs}

-- The registry answered with these platforms for the key, and they were stored at this time.
pub record Stored : Type 0 where
  pub key : String
  pub time : ℕ
  pub answer : List Platform

-- A registry that keeps the record of its answers, and gives the next one that is passed.
abbrev pub recorded : ℕ → Listed → String → String → List Stored → Listed × List Stored
recorded time (list_error err) secret image log = (list_error err, log)
recorded time (platforms ps) secret image log =
    (platforms ps, record { key = cache_key secret image; time = time; answer = ps } ∷ log)

-- The states of the cache that are reached from an empty one by any sequence of requests and
-- clean-ups, at any times and with any answers of the registry.
pub data History (duration : ℕ) : List Stored → Cache (List Platform) → Type 0 where
  created : History duration [] (new_cache duration)
  requested :
      {log : List Stored} {c : Cache (List Platform)}
      → History duration log c
      → (now stored : ℕ) (secret image : String) (answer : Listed)
      → History duration
          (((cached_list_archs (recorded stored answer) now stored secret image log c).1).1).0
          (((cached_list_archs (recorded stored answer) now stored secret image log c).1).1).1
  cleaned :
      {log : List Stored} {c : Cache (List Platform)}
      → History duration log c
      → (now : ℕ) → History duration log (clean_up now c)

-- The log says that the key got these platforms at this time.
abbrev pub IsStored : String → ℕ → List Platform → List Stored → Type 0
IsStored k t ps [] = ⊥
IsStored k t ps (s ∷ log) = ((s.key ≡ k) × ((s.time ≡ t) × (s.answer ≡ ps))) ⊎ IsStored k t ps log

-- Every entry of the cache is an answer of the log, and expires one duration after it.
abbrev pub IsBacked : ℕ → List Stored → Cache (List Platform) → Type 0
IsBacked duration log c =
    (c.cache_duration ≡ duration)
    × (HasDistinctKeys c.cache
        × ((k : String) (e : CacheEntry (List Platform))
            → lookup k c.cache ≡ some e
            → (t : ℕ) × ((e.expiry ≡ t + duration) × IsStored k t e.value log)))

clean_up-IsBacked :
    (duration now : ℕ) (log : List Stored) (c : Cache (List Platform))
    → IsBacked duration log c
    → IsBacked duration log (clean_up now c)
unfolding clean_up
clean_up-IsBacked duration now log c b =
    (b.0, (clean_up-HasDistinctKeys now c b.1.0, λ k e h. b.1.1 k e (lookup-clean_up now k c e h)))

entry_fields :
    (ps : List Platform) (x : ℕ) (e : CacheEntry (List Platform))
    → some (record { value = ps; expiry = x }) ≡ some e
    → (e.value ≡ ps) × (e.expiry ≡ x)
entry_fields ps x e h = ground arith

backed-insert :
    (duration time : ℕ) (key : String) (ps : List Platform) (log : List Stored)
    (c : Cache (List Platform)) (k : String) (e : CacheEntry (List Platform))
    → IsBacked duration log c
    → lookup k (insert key (record { value = ps; expiry = time + c.cache_duration }) c.cache)
      ≡ some e
    → (t : ℕ) × ((e.expiry ≡ t + duration)
        × IsStored k t e.value (record { key = key; time = time; answer = ps } ∷ log))
backed-insert duration time key ps log c k e b =
    rw (lookup-insert key k (record { value = ps; expiry = time + c.cache_duration }) c.cache)
      (elim (Bool-cases (key == k)) [
        | inl y ↦ rw y (λ h.
            let (v, x) = entry_fields ps (time + c.cache_duration) e h in
            (time, (omega (arith, x, b.0), inl ((eq_iff key k).0 y, (refl, sym v)))))
        | inr n ↦ rw n (λ h. let (t, (x, s)) = b.1.1 k e h in (t, (x, inr s)))
      ])

store-IsBacked :
    (duration time : ℕ) (key : String) (ps : List Platform) (log : List Stored)
    (c : Cache (List Platform))
    → IsBacked duration log c
    → IsBacked duration
        (record { key = key; time = time; answer = ps } ∷ log)
        (store time key ps [] c)
unfolding store mutate
store-IsBacked duration time key ps log c b = (
  b.0,
  (
    insert-HasDistinctKeys key _ c.cache b.1.0,
    λ k e. backed-insert duration time key ps log c k e b,
  ),
)

stored-IsBacked :
    (duration time : ℕ) (secret image : String) (answer : Listed) (found : Option (List Platform))
    (log : List Stored) (c : Cache (List Platform))
    → IsBacked duration log c
    → let r =
        loaded_or_called
          (call_registry (recorded time answer) secret image)
          time
          (cache_key secret image)
          found
          log
          c in
      IsBacked duration (r.1).0 (r.1).1
unfolding loaded_or_called after_miss call_registry missed
stored-IsBacked duration time secret image answer (some v) log c b = b
stored-IsBacked duration time secret image (list_error err) none log c b = b
stored-IsBacked duration time secret image (platforms ps) none log c b =
    store-IsBacked duration time (cache_key secret image) ps log c b

-- In every state that is reached, every entry of the cache, of which no key has two, is an answer
-- that the registry gave for that key, and expires one duration after it was stored.
pub History-IsBacked :
    (duration : ℕ) (log : List Stored) (c : Cache (List Platform))
    → History duration log c
    → IsBacked duration log c
unfolding cached_list_archs load_or_call load_or_store_mutex new_cache lookup
History-IsBacked duration _ _ created = (refl, (tt, λ k e h. ground arith))
History-IsBacked duration _ _ (requested {log} {c} run now stored secret image answer) =
    stored-IsBacked duration stored secret image answer (load now (cache_key secret image) c) log
      (load_or_store_mutex (cache_key secret image) c) (History-IsBacked duration log c run)
History-IsBacked duration _ _ (cleaned {log} {c} run now) =
    clean_up-IsBacked duration now log c (History-IsBacked duration log c run)

pub platforms_inj : (ps qs : List Platform) → platforms ps ≡ platforms qs → ps ≡ qs
platforms_inj ps qs h = ground arith

pub listed-after_miss :
    (stored : ℕ) (key : String) (answer : Listed) (c : Cache (List Platform))
    → listed (after_miss stored key (missed answer) c).0 ≡ answer
unfolding listed after_miss missed
listed-after_miss stored key (platforms ps) c = refl
listed-after_miss stored key (list_error err) c = refl

module _ {W : Type 0} (list_archs : String → String → W → Listed × W) where
  listed_found :
      (duration now stored : ℕ) (key secret image : String) (found : Option (List Platform)) (w : W)
      (log : List Stored) (c d : Cache (List Platform)) (ps : List Platform)
      → IsBacked duration log c
      → load now key c ≡ found
      → listed (loaded_or_called (call_registry list_archs secret image) stored key found w d).0
        ≡ platforms ps
      → ((list_archs secret image w).0 ≡ platforms ps)
        ⊎ ((t : ℕ) × ((now < t + duration) × IsStored key t ps log))
  unfolding loaded_or_called listed call_registry
  listed_found duration now stored key secret image (some v) w log c d ps b l h =
      let (e, (f, (x, y))) = load-some now key c v l in
      let (t, (z, s)) = b.1.1 key e f in
      inr (t, (omega (arith, y, z), subst (λ q. IsStored key t q log) (x ∙ platforms_inj v ps h) s))
  listed_found duration now stored key secret image none w log c d ps b l h =
      inl (sym (listed-after_miss stored key (list_archs secret image w).0 d) ∙ h)

  -- If CachedRegistry.ListArchs returns platforms, in any state that a cache reaches from an
  -- empty one by requests and clean-ups, then either the registry returns just these platforms to
  -- this request, or it returned them earlier for the same cache key and less than one duration
  -- of the cache has passed since they were stored.
  pub cached_list_archs_fresh :
      (duration : ℕ) (log : List Stored) (c : Cache (List Platform)) (now stored : ℕ)
      (secret image : String) (w : W) (ps : List Platform)
      → History duration log c
      → (cached_list_archs list_archs now stored secret image w c).0 ≡ platforms ps
      → ((list_archs secret image w).0 ≡ platforms ps)
        ⊎ ((t : ℕ) × ((now < t + duration) × IsStored (cache_key secret image) t ps log))
  unfolding cached_list_archs load_or_call
  cached_list_archs_fresh duration log c now stored secret image w ps run =
      listed_found duration now stored (cache_key secret image) secret image
        (load now (cache_key secret image) c) w log c
        (load_or_store_mutex (cache_key secret image) c) ps (History-IsBacked duration log c run)
        refl

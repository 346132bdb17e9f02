-- ===== src/Registry/Cache/Expiry.antt =====
-- What is found in the cache after each operation.
use noe.Common.{
  ℕ, ◌+◌, ◌<◌, ◌≤◌, Bool, false, ◌||◌, ◌&&◌, String, Option, none, some, [], ◌∷◌, ◌==◌, ◌≡◌, refl,
  arith, eq_iff, ltb, if◌then◌else◌, Bool-cases, inl, inr,
}
use noe.Common.Maps.{
  Map, lookup, delete, HasDistinctKeys, IsMissing, lookup-insert, lookup-delete,
  delete-HasDistinctKeys,
}
use noe.Registry.Cache.{
  CacheEntry, Cache, Missed, value, error, live_value, load, store, mutate, load_or_store_mutex,
  after_miss, loaded_or_called, load_or_call, sweep, clean_up, effective_period,
}

module _ {A : Type 0} where
  -- An expired entry with this key is among those visited.
  abbrev pub is_swept : ℕ → String → Map (CacheEntry A) → Bool
  is_swept now j [] = false
  is_swept now j ((k, e) ∷ m) = (k == j && ltb e.expiry now) || is_swept now j m

  abbrev pub is_expired : ℕ → Option (CacheEntry A) → Bool
  is_expired now none = false
  is_expired now (some e) = ltb e.expiry now

  lookup-sweep :
      (now : ℕ) (j : String) (visited m : Map (CacheEntry A))
      → lookup j (sweep now visited m) ≡ (if is_swept now j visited then none else lookup j m)
  unfolding sweep
  lookup-sweep now j [] m = refl
  lookup-sweep now j ((k, e) ∷ visited) m = ground (
    arith,
    lookup-sweep now j visited m,
    lookup-sweep now j visited (delete k m),
    lookup-delete k j m,
  )

  not-swept_missing :
      (now : ℕ) (j : String) (m : Map (CacheEntry A))
      → IsMissing (lookup j m)
      → is_swept now j m ≡ false
  unfolding lookup
  not-swept_missing now j [] d = refl
  not-swept_missing now j ((k, e) ∷ m) d = ground (arith, not-swept_missing now j m)

  swept_lookup :
      (now : ℕ) (j : String) (m : Map (CacheEntry A))
      → HasDistinctKeys m
      → is_swept now j m ≡ is_expired now (lookup j m)
  unfolding lookup
  swept_lookup now j [] d = refl
  swept_lookup now j ((k, e) ∷ m) d =
      ground (arith, eq_iff k j, swept_lookup now j m, not-swept_missing now k m)

  live_if-kept :
      (now later : ℕ) (o : Option (CacheEntry A))
      → now ≤ later
      → live_value later (if is_expired now o then none else o) ≡ live_value later o
  unfolding live_value
  live_if-kept now later none le = refl
  live_if-kept now later (some e) le = ground arith

  -- Cleaning up is not observable: in a cache without a repeated key, whatever Load finds for any
  -- key at the time of the clean-up or later it also finds without the clean-up, and conversely.
  pub load-clean_up :
      (c : Cache A) (now later : ℕ) (j : String)
      → HasDistinctKeys c.cache
      → now ≤ later
      → load later j (clean_up now c) ≡ load later j c
  unfolding load clean_up
  load-clean_up c now later j d le =
      elim (Bool-cases (ltb now (c.last_cleanup + effective_period c))) [
        | inl s ↦ rw s refl
        | inr n ↦
            rw (n, lookup-sweep now j c.cache c.cache, swept_lookup now j c.cache d)
              (live_if-kept now later (lookup j c.cache) le)
      ]

  live_value-some :
      (now : ℕ) (o : Option (CacheEntry A)) (v : A)
      → live_value now o ≡ some v
      → (e : CacheEntry A) × ((o ≡ some e) × ((e.value ≡ v) × (now < e.expiry)))
  unfolding live_value
  live_value-some now none v h = ground arith
  live_value-some now (some e) v h = elim (Bool-cases (ltb now e.expiry)) [
    | inl b ↦ (e, (refl, (ground arith, ground arith)))
    | inr n ↦ ground arith
  ]

  -- A value that Load finds stands in an entry that has not expired.
  pub load-some :
      (now : ℕ) (key : String) (c : Cache A) (v : A)
      → load now key c ≡ some v
      → (e : CacheEntry A) × ((lookup key c.cache ≡ some e) × ((e.value ≡ v) × (now < e.expiry)))
  unfolding load
  load-some now key c v h = live_value-some now (lookup key c.cache) v h

  -- An entry that a clean-up leaves was there before.
  pub lookup-clean_up :
      (now : ℕ) (j : String) (c : Cache A) (e : CacheEntry A)
      → lookup j (clean_up now c).cache ≡ some e
      → lookup j c.cache ≡ some e
  unfolding clean_up
  lookup-clean_up now j c e = elim (Bool-cases (ltb now (c.last_cleanup + effective_period c))) [
    | inl s ↦ rw s (λ h. h)
    | inr n ↦
        rw (n, lookup-sweep now j c.cache c.cache)
          (elim (Bool-cases (is_swept now j c.cache)) [
            | inl x ↦ rw x (λ h. ground arith)
            | inr y ↦ rw y (λ h. h)
          ])
  ]

  sweep-HasDistinctKeys :
      (now : ℕ) (visited m : Map (CacheEntry A))
      → HasDistinctKeys m
      → HasDistinctKeys (sweep now visited m)
  unfolding sweep
  sweep-HasDistinctKeys now [] m d = d
  sweep-HasDistinctKeys now ((k, e) ∷ visited) m d = elim (Bool-cases (ltb e.expiry now)) [
    | inl b ↦ rw b (sweep-HasDistinctKeys now visited (delete k m) (delete-HasDistinctKeys k m d))
    | inr n ↦ rw n (sweep-HasDistinctKeys now visited m d)
  ]

  pub clean_up-HasDistinctKeys :
      (now : ℕ) (c : Cache A) → HasDistinctKeys c.cache → HasDistinctKeys (clean_up now c).cache
  unfolding clean_up
  clean_up-HasDistinctKeys now c d =
      elim (Bool-cases (ltb now (c.last_cleanup + effective_period c))) [
        | inl s ↦ rw s d
        | inr n ↦ rw n (sweep-HasDistinctKeys now c.cache c.cache d)
      ]

  not_expired :
      (now : ℕ) (o : Option (CacheEntry A)) (e : CacheEntry A)
      → (if is_expired now o then none else o) ≡ some e
      → now ≤ e.expiry
  not_expired now none e h = ground arith
  not_expired now (some f) e h = ground arith

  -- After a clean-up that is not skipped no entry is left that had expired before it.
  clean_up_collects :
      (now : ℕ) (j : String) (c : Cache A) (e : CacheEntry A)
      → HasDistinctKeys c.cache
      → c.last_cleanup + effective_period c ≤ now
      → lookup j (clean_up now c).cache ≡ some e
      → now ≤ e.expiry
  unfolding clean_up
  clean_up_collects now j c e d due =
      let h : ltb now (c.last_cleanup + effective_period c) ≡ false = ground arith in
      rw (h, lookup-sweep now j c.cache c.cache, swept_lookup now j c.cache d)
        (not_expired now (lookup j c.cache) e)

  lookup_after_store :
      (k j : String) (t stored : ℕ) (v : A) (c : Cache A)
      → load t j (store stored k v [] c) ≡ (
          if k == j
          then (if ltb t (stored + c.cache_duration) then some v else none)
          else load t j c)
  unfolding load store mutate live_value
  lookup_after_store k j t stored v c =
      ground (
        arith,
        lookup-insert k j (record { value = v; expiry = stored + c.cache_duration }) c.cache,
      )

  -- What Load finds at a time for a key once `miss` has answered for another key.
  abbrev pub found_after_miss : ℕ → ℕ → String → String → Cache A → Missed A → Option A
  found_after_miss stored t key j c (error err) = load t j c
  found_after_miss stored t key j c (value v) =
      if key == j then (if ltb t (stored + c.cache_duration) then some v else none) else load t j c

  -- What Load finds at a time for a key after LoadOrCall.
  abbrev found_after : ℕ → ℕ → String → String → Cache A → Option A → Missed A → Option A
  found_after stored t key j c (some v) answer = load t j c
  found_after stored t key j c none answer = found_after_miss stored t key j c answer

  load-after_miss :
      (stored t : ℕ) (key j : String) (answer : Missed A) (c : Cache A)
      → load t j (after_miss stored key answer c).1 ≡ found_after_miss stored t key j c answer
  unfolding after_miss
  load-after_miss stored t key j (error err) c = refl
  load-after_miss stored t key j (value v) c = lookup_after_store key j t stored v c

  module _ {W : Type 0} (call : W → Missed A × W) where
    load-loaded_or_called :
        (stored t : ℕ) (key j : String) (found : Option A) (w : W) (c : Cache A)
        → load t j ((loaded_or_called call stored key found w c).1).1
          ≡ found_after stored t key j c found (call w).0
    unfolding loaded_or_called
    load-loaded_or_called stored t key j (some v) w c = refl
    load-loaded_or_called stored t key j none w c = load-after_miss stored t key j (call w).0 c

    -- What Load finds for every key at every time after LoadOrCall: if the key was found, or if
    -- `miss` returned an error, what it found before; otherwise the new value for the key until
    -- the duration of the cache has passed since the Store, and what it found before for the
    -- other keys.
    load-load_or_call :
        (now stored t : ℕ) (key j : String) (w : W) (c : Cache A)
        → load t j ((load_or_call call now stored key w c).1).1
          ≡ found_after stored t key j c (load now key c) (call w).0
    unfolding load_or_call load_or_store_mutex load
    load-load_or_call now stored t key j w c =
        load-loaded_or_called stored t key j (load now key c) w (load_or_store_mutex key c)

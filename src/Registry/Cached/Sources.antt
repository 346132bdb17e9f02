-- ===== src/Registry/Cached/Sources.antt =====
-- pkg/registry/cache.go, CachedRegistry around one registry whose answers may change with the time.
use noe.Common.{
  ℕ, ◌+◌, ◌<◌, true, String, Option, none, some, List, [], ◌∷◌, ◌≡◌, refl, ◌∙◌, subst, inl, inr,
}
use noe.Common.Strings.Parts.{lacks}
use noe.Hook.{Platform}
use noe.Registry.Manifests.{Listed, platforms, list_error}
use noe.Registry.Cache.{
  Cache, new_cache, load, load_or_store_mutex, after_miss, loaded_or_called, load_or_call, clean_up,
}
use noe.Registry.Cached.{cache_key, missed, listed, call_registry, cached_list_archs}
use noe.Registry.Cached.History.{
  Stored, recorded, History, created, requested, cleaned, IsStored, listed-after_miss,
  cached_list_archs_fresh,
}
use noe.Registry.Cached.Keys.{ends_object, cache_key_inj}

-- The registry answers a request with a pull secret for an image as at the time of its Store.
module _ (answers : ℕ → String → String → Listed) (duration : ℕ) where
  -- The states of the cache that are reached from an empty one by clean-ups and by requests that the
  -- registry answers, with pull secrets that are empty or end with a brace, for images without one.
  pub data Asked : List Stored → Cache (List Platform) → Type 0 where
    new : Asked [] (new_cache duration)
    request :
        {log : List Stored} {c : Cache (List Platform)}
        → Asked log c
        → (now stored : ℕ) (secret image : String) → ends_object secret ≡ true
        → lacks b'}' image ≡ true
        → Asked
            (((cached_list_archs
                (recorded stored (answers stored secret image))
                now
                stored
                secret
                image
                log
                c).1
              ).1).0
            (((cached_list_archs
                (recorded stored (answers stored secret image))
                now
                stored
                secret
                image
                log
                c).1
              ).1).1
    clean :
        {log : List Stored} {c : Cache (List Platform)}
        → Asked log c
        → (now : ℕ) → Asked log (clean_up now c)

  Asked-History :
      {log : List Stored} {c : Cache (List Platform)} → Asked log c → History duration log c
  Asked-History new = created
  Asked-History (request run now stored secret image closed braceless) =
      requested (Asked-History run) now stored secret image (answers stored secret image)
  Asked-History (clean run now) = cleaned (Asked-History run) now

  -- The registry answered so at the time, to a request with the key.
  record Answered (key : String) (time : ℕ) (ps : List Platform) : Type 0 where
    pub secret : String
    pub image : String
    pub same_key : cache_key secret image ≡ key
    pub closed : ends_object secret ≡ true
    pub braceless : lacks b'}' image ≡ true
    pub answer : answers time secret image ≡ platforms ps

  abbrev AllAnswered : List Stored → Type 0
  AllAnswered [] = Unit
  AllAnswered (s ∷ log) = Answered s.key s.time s.answer × AllAnswered log

  stored-AllAnswered :
      (stored : ℕ) (secret image : String) (answer : Listed) (found : Option (List Platform))
      (log : List Stored) (c : Cache (List Platform))
      → ends_object secret ≡ true
      → lacks b'}' image ≡ true
      → answers stored secret image ≡ answer
      → AllAnswered log
      → let r =
          loaded_or_called
            (call_registry (recorded stored answer) secret image)
            stored
            (cache_key secret image)
            found
            log
            c in
        AllAnswered (r.1).0
  unfolding loaded_or_called after_miss call_registry missed
  stored-AllAnswered stored secret image answer (some v) log c closed braceless e all = all
  stored-AllAnswered stored secret image (list_error err) none log c closed braceless e all = all
  stored-AllAnswered stored secret image (platforms ps) none log c closed braceless e all = (
    record {
      secret = secret;
      image = image;
      same_key = refl;
      closed = closed;
      braceless = braceless;
      answer = e;
    },
    all,
  )

  Asked-AllAnswered :
      {log : List Stored} {c : Cache (List Platform)} → Asked log c → AllAnswered log
  unfolding cached_list_archs load_or_call
  Asked-AllAnswered new = tt
  Asked-AllAnswered (request {log} {c} run now stored secret image closed braceless) =
      stored-AllAnswered stored secret image (answers stored secret image)
        (load now (cache_key secret image) c) log (load_or_store_mutex (cache_key secret image) c)
        closed braceless refl (Asked-AllAnswered run)
  Asked-AllAnswered (clean run now) = Asked-AllAnswered run

  stored-Answered :
      (key : String) (t : ℕ) (ps : List Platform) (log : List Stored)
      → AllAnswered log
      → IsStored key t ps log
      → Answered key t ps
  stored-Answered key t ps [] all there = elim there [ ]
  stored-Answered key t ps (s ∷ log) (first, rest) (inl (k, (time, answer))) =
      subst (λ x. Answered x t ps) k
        (subst (λ x. Answered s.key x ps) time (subst (Answered s.key s.time) answer first))
  stored-Answered key t ps (s ∷ log) (first, rest) (inr later) =
      stored-Answered key t ps log rest later

  -- CachedRegistry.ListArchs on a miss asks the registry as it is at the time of the Store.
  unfoldable pub list_cached : ℕ → ℕ → String → String → Cache (List Platform) → Listed
  list_cached now stored secret image c =
      (cached_list_archs (λ s i (w : Unit). (answers stored s i, w)) now stored secret image tt c).0

  module _ (now stored : ℕ) (secret image : String) (log : List Stored) (c : Cache (List Platform))
      (run : Asked log c) (closed : ends_object secret ≡ true) (braceless : lacks b'}' image ≡ true)
      (soon : now < stored + duration) (qs : List Platform)
      (answered : answers stored secret image ≡ platforms qs) where
    returns_from :
        (found : Option (List Platform)) (d : Cache (List Platform))
        → (ps : List Platform) × (listed
              (loaded_or_called
                (call_registry (λ s i (w : Unit). (answers stored s i, w)) secret image)
                stored
                (cache_key secret image)
                found
                tt
                d).0
            ≡ platforms ps)
    unfolding loaded_or_called call_registry listed
    returns_from none d = (
      qs,
      listed-after_miss stored (cache_key secret image) (answers stored secret image) d ∙ answered,
    )
    returns_from (some v) d = (v, refl)

    returns : (ps : List Platform) × (list_cached now stored secret image c ≡ platforms ps)
    unfolding list_cached cached_list_archs load_or_call
    returns =
        returns_from (load now (cache_key secret image) c)
          (load_or_store_mutex (cache_key secret image) c)

    -- What is returned is an answer of the registry to the same request, at a time that less than
    -- one duration has passed since.
    pub list_cached_answered :
        (t : ℕ) × ((ps : List Platform) × ((now < t + duration)
            × ((answers t secret image ≡ platforms ps)
                × (list_cached now stored secret image c ≡ platforms ps))))
    unfolding list_cached
    list_cached_answered =
        let (ps, e) = returns in
        elim (cached_list_archs_fresh (λ s i (w : Unit). (answers stored s i, w)) duration log c now
          stored secret image tt ps (Asked-History run) e) [
            | inl now_answered ↦ (stored, (ps, (soon, (now_answered, e))))
            | inr (t, (fresh, there)) ↦
                let a =
                  stored-Answered (cache_key secret image) t ps log (Asked-AllAnswered run) there in
                let (same_secret, same_image) =
                  cache_key_inj a.secret secret a.image image a.closed closed a.braceless braceless
                    a.same_key in
                (
                  t,
                  (
                    ps,
                    (
                      fresh,
                      (
                        subst (λ i. answers t secret i ≡ platforms ps) same_image
                            (subst (λ s. answers t s a.image ≡ platforms ps) same_secret a.answer),
                        e,
                      ),
                    ),
                  ),
                )
          ]

-- ===== src/Registry/Cached.antt =====
-- pkg/registry/cache.go: CachedRegistry. The registry that it wraps is a parameter.
pub mod History
pub mod Keys
pub mod Sources
use noe.Common.{ℕ, String, List, [], ◌∷◌}
use noe.Hook.{Platform}
use noe.Hook.Events.{◌<>◌}
use noe.Registry.Manifests.{Listed, platforms, list_error}
use noe.Registry.Cache.{Cache, Missed, value, error, Loaded, hit, miss, miss_error, load_or_call}

-- One increment of a counter of CacheMetrics
pub data CacheMetric : Type 0 where
  request : CacheMetric
  hit_response : CacheMetric
  miss_response : CacheMetric

-- imagePullSecret + ":" + image
unfoldable pub cache_key : String → String → String
cache_key image_pull_secret image = image_pull_secret <> ":" <> image

unfoldable pub missed : Listed → Missed (List Platform)
missed (platforms ps) = value ps
missed (list_error err) = error err

unfoldable pub listed : Loaded (List Platform) → Listed
listed (hit ps) = platforms ps
listed (miss ps) = platforms ps
listed (miss_error err) = list_error err

unfoldable pub list_metrics : Loaded (List Platform) → List CacheMetric
list_metrics (hit ps) = request ∷ hit_response ∷ []
list_metrics (miss ps) = request ∷ miss_response ∷ []
list_metrics (miss_error err) = request ∷ []

-- (*CachedRegistry).ListArchs without its goroutine, which is `clean_up` and runs at any later
-- time. The wrapped registry changes the world; the two times are those of LoadOrCall.
module _ {W : Type 0} (list_archs : String → String → W → Listed × W) where
  unfoldable pub call_registry : String → String → W → Missed (List Platform) × W
  unfolding missed
  call_registry secret image w = let (answer, w2) = list_archs secret image w in (missed answer, w2)

  unfoldable pub cached_list_archs :
      ℕ
      → ℕ
      → String
      → String
      → W
      → Cache (List Platform)
      → Listed × (List CacheMetric × (W × Cache (List Platform)))
  unfolding cache_key call_registry listed list_metrics load_or_call
  cached_list_archs now stored secret image w c =
      let (loaded, after) =
        load_or_call (call_registry secret image) now stored (cache_key secret image) w c in
      (listed loaded, (list_metrics loaded, after))

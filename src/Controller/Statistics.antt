-- ===== src/Controller/Statistics.antt =====
-- pkg/controllers/pod.go: incrementPlatformStatistics, decrementPlatformStatistics and the cache of
-- the images of each pod.
use noe.Common.{
  Bool, ◌&&◌, String, Option, none, some, List, [], ◌∷◌, ◌++◌, ◌==◌, any, is_some, if◌then◌else◌,
}
use noe.Common.Maps.{lookup, insert, delete}
use noe.Hook.{Platform}
use noe.Controller.{
  pos, increment, decrement, is_zero, ImageUsage, GaugeOp, inc, dec, delete_values, Reconciler,
}

-- The same operating system, architecture and variant.
abbrev pub same_platform : Platform → Platform → Bool
same_platform p q = p.os == q.os && p.architecture == q.architecture && p.variant == q.variant

-- The old platforms that the image no longer supports lose their gauge.
unfoldable pub stale_ops : String → List Platform → List Platform → List GaugeOp
stale_ops image new [] = []
stale_ops image new (old ∷ olds) =
    let rest = stale_ops image new olds in
    if any (same_platform old) new then rest else delete_values image old ∷ rest

unfoldable pub inc_ops : String → List Platform → List GaugeOp
inc_ops image [] = []
inc_ops image (p ∷ ps) = inc image p ∷ inc_ops image ps

-- The usage and the changes of the gauge before `refcount++`.
unfoldable pub usage_before : Option ImageUsage → List Platform → ImageUsage
usage_before none platforms = record { platforms = platforms; refcount = pos 0 }
usage_before (some u) platforms = record u { platforms = platforms }

unfoldable pub stale_before : String → Option ImageUsage → List Platform → List GaugeOp
stale_before image none platforms = []
stale_before image (some u) platforms = stale_ops image platforms u.platforms

-- (*PodReconciler).incrementPlatformStatistics
unfoldable pub increment_platform_statistics : String → List Platform → Reconciler → Reconciler
unfolding usage_before stale_before stale_ops inc_ops
increment_platform_statistics image platforms r =
    let found = lookup image r.image_platforms in
    let u = usage_before found platforms in
    record r {
      image_platforms =
          insert image (record u { refcount = increment u.refcount }) r.image_platforms;
      gauge = (r.gauge ++ stale_before image found platforms) ++ inc_ops image platforms;
    }

unfoldable pub dec_ops : String → Bool → List Platform → List GaugeOp
dec_ops image last [] = []
dec_ops image last (p ∷ ps) =
    let rest = dec_ops image last ps in
    dec image p ∷ (if last then delete_values image p ∷ rest else rest)

unfoldable pub decrement_found : String → Option ImageUsage → Reconciler → Reconciler
unfolding dec_ops
decrement_found image none r = r
decrement_found image (some u) r =
    let count = decrement u.refcount in
    record r {
      image_platforms =
          if is_zero count
          then delete image r.image_platforms
          else insert image (record u { refcount = count }) r.image_platforms;
      gauge = r.gauge ++ dec_ops image (is_zero count) u.platforms;
    }

-- (*PodReconciler).decrementPlatformStatistics
unfoldable pub decrement_platform_statistics : String → Reconciler → Reconciler
unfolding decrement_found
decrement_platform_statistics image r = decrement_found image (lookup image r.image_platforms) r

-- (*PodReconciler).addToCache
unfoldable pub add_to_cache : String → List String → Reconciler → Reconciler
add_to_cache key images r = record r { pod_images = insert key images r.pod_images }

-- (*PodReconciler).isImageCached
unfoldable pub is_image_cached : String → Reconciler → Bool
is_image_cached key r = is_some (lookup key r.pod_images)

-- The loop of deleteFromCache.
unfoldable pub decrement_all : List String → Reconciler → Reconciler
decrement_all [] r = r
decrement_all (image ∷ images) r = decrement_all images (decrement_platform_statistics image r)

unfoldable pub delete_found : String → Option (List String) → Reconciler → Reconciler
delete_found key none r = r
delete_found key (some images) r =
    let s = decrement_all images r in record s { pod_images = delete key s.pod_images }

-- (*PodReconciler).deleteFromCache
unfoldable pub delete_from_cache : String → Reconciler → Reconciler
unfolding delete_found
delete_from_cache key r = delete_found key (lookup key r.pod_images) r

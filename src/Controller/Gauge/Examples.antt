-- ===== src/Controller/Gauge/Examples.antt =====
-- pkg/controllers/pod.go: the gauge on concrete reconciliations.
use noe.Common.{String, some, List, [], ◌∷◌, ◌≡◌, refl, arith, ◌==◌, if◌then◌else◌}
use noe.Common.Maps.{lookup, insert}
use noe.Hook.{Platform}
use noe.Controller.{negsuc, Reconciler}
use noe.Controller.Statistics.{increment_platform_statistics, decrement_platform_statistics}
use noe.Controller.Reconcile.{reconcile}
use noe.Controller.Examples.{amd, plain, cluster}
use noe.Controller.Gauge.{series}
use noe.Controller.Gauge.Shown.{Shows, gauge_of}
use noe.Controller.Gauge.Runs.{new_pod_reconciler, IsSteady, started, reconciled, reached-Shows}

abbrev listed : String → List Platform
listed image = if image == "img" then amd ∷ [] else []

steady : IsSteady listed (cluster plain)
steady secret image platforms e = ground arith

abbrev once : Reconciler
once = (reconcile (cluster plain) "ns" "ns/app" new_pod_reconciler).state

reached-Shows_example :
    Shows (listed "img") amd (lookup "img" once.image_platforms) (gauge_of "img" amd once)
reached-Shows_example =
    reached-Shows listed once (reconciled (cluster plain) "ns" "ns/app" steady started) "img" amd

-- The image gets one more platform while two pods use it, and then both pods go.
abbrev arm : Platform
arm = record { architecture = "arm64"; os = "linux"; variant = "" }

abbrev moved : Reconciler
moved = decrement_platform_statistics "img" (
    decrement_platform_statistics "img" (
      increment_platform_statistics "img" (amd ∷ arm ∷ []) (
        increment_platform_statistics "img" (amd ∷ [])
          (increment_platform_statistics "img" (amd ∷ []) new_pod_reconciler))))

moved_negative : gauge_of "img" arm moved ≡ some (negsuc 0)
unfolding lookup insert series increment_platform_statistics decrement_platform_statistics
moved_negative = refl

-- ===== src/Controller/Gauge/Runs.antt =====
-- pkg/controllers/pod.go: NewPodReconciler, and the gauge after the reconciliations that follow it.
use noe.Common.{
  Bool, true, false, ◌&&◌, ◌||◌, not, String, Option, none, some, List, [], ◌∷◌, ◌≡◌, refl, sym,
  subst, is_some, Bool-cases, Option-cases, inl, inr,
}
use noe.Common.Maps.{lookup}
use noe.Kube.{Pod}
use noe.Hook.{Platform}
use noe.Hook.Secrets.{get_image_pull_secret}
use noe.Hook.Selection.{node_architecture_selection}
use noe.Controller.{Reconciler}
use noe.Controller.Statistics.{increment_platform_statistics, add_to_cache, is_image_cached}
use noe.Controller.Events.{delete_pod_and_notify_user}
use noe.Controller.Reconcile.{
  Fetched, found, not_found, fetch_error, Environment, is_stateful_set, pod_is_ready, NodePlatform,
  node_platform, matches, check_images, on_node, pod_scheduled_on_matching_node, pod_image_list,
  after_check, reconcile_fetched, reconcile,
}
use noe.Controller.Invariant.{check_images_error, check_images_next, checked}
use noe.Controller.Gauge.{series}
use noe.Controller.Gauge.Shown.{
  IsShown, Shows, gauge_of, increment-IsShown, delete_from_cache-IsShown,
}

-- NewPodReconciler, whose gauge has no series yet
abbrev pub new_pod_reconciler : Reconciler
new_pod_reconciler = record {
  pod_images = [];
  image_platforms = [];
  gauge = [];
  deletions = [];
  events = [];
}

-- Where the registry answers for an image, it gives the same platforms at each time.
abbrev pub IsSteady : (String → List Platform) → Environment → Type 0
IsSteady answer env =
    (secret image : String) (platforms : List Platform)
    → env.list_archs secret image ≡ some platforms
    → platforms ≡ answer image

-- The states that reconciliations reach, of any pods, in any order, failed ones included. The
-- cluster may be another one each time.
pub data Reached (answer : String → List Platform) : Reconciler → Type 0 where
  started : Reached answer new_pod_reconciler
  reconciled :
      (env : Environment) (namespace key : String) {r : Reconciler}
      → IsSteady answer env
      → Reached answer r
      → Reached answer (reconcile env namespace key r).state

module _ (answer : String → List Platform) where
  check_images-IsShown :
      (ask : String → Option (List Platform)) (node : NodePlatform)
      → ((image : String) (platforms : List Platform)
          → ask image ≡ some platforms
          → platforms ≡ answer image)
      → (so_far : Bool) (images : List String) (r : Reconciler) → IsShown answer r
      → IsShown answer (check_images ask node so_far images r).state
  check_images-IsShown ask node steady so_far [] r h = unfold check_images in h
  check_images-IsShown ask node steady so_far (image ∷ images) r h =
      elim (Option-cases (ask image)) [
        | inl e ↦ rw (check_images_error ask node so_far image images r e) h
        | inr (platforms, e) ↦ rw (check_images_next ask node so_far image images r e) (
            check_images-IsShown ask node steady (so_far && matches node platforms) images
              (increment_platform_statistics image platforms r)
              (subst (λ ps. IsShown answer (increment_platform_statistics image ps r))
                (sym (steady image platforms e)) (increment-IsShown answer image r h)))
      ]

  module _ (env : Environment) (namespace key : String) (steady : IsSteady answer env) where
    on_node-IsShown :
        (secret : String) (node : Option NodePlatform) (images : List String) (r : Reconciler)
        → IsShown answer r
        → IsShown answer (on_node (env.list_archs secret) node images r).state
    unfolding on_node
    on_node-IsShown secret none images r h = h
    on_node-IsShown secret (some node) images r h =
        check_images-IsShown (env.list_archs secret) node (steady secret) true images r h

    checked-IsShown :
        (pod : Pod) (r : Reconciler)
        → IsShown answer r
        → IsShown answer (checked env namespace key pod r).state
    unfolding pod_scheduled_on_matching_node
    checked-IsShown pod r h =
        on_node-IsShown (get_image_pull_secret env.secrets namespace pod.spec).0
          (node_platform env pod) (pod_image_list pod) r h

    after_check-IsShown :
        (pod : Pod) (r : Reconciler) (m : Option Bool)
        → IsShown answer r
        → IsShown answer (after_check env key pod r m).state
    unfolding after_check add_to_cache delete_pod_and_notify_user
    after_check-IsShown pod r none h = h
    after_check-IsShown pod r (some true) h = h
    after_check-IsShown pod r (some false) h =
        elim (Bool-cases (is_some (node_architecture_selection pod.spec))) [
          | inl selected ↦ rw selected h
          | inr free ↦ rw free h
        ]

    fetched-IsShown :
        (fetched : Fetched) (r : Reconciler)
        → IsShown answer r
        → IsShown answer (reconcile_fetched env namespace key fetched r).state
    unfolding reconcile_fetched
    fetched-IsShown (fetch_error e) r h = h
    fetched-IsShown not_found r h = delete_from_cache-IsShown answer key r h
    fetched-IsShown (found pod) r h =
        elim (Bool-cases
          (not (is_stateful_set pod) && (is_image_cached key r || pod_is_ready pod))) [
            | inl skip ↦ rw skip h
            | inr counted ↦ rw counted (
                after_check-IsShown pod (checked env namespace key pod r).state
                  (checked env namespace key pod r).matching (checked-IsShown pod r h))
          ]

  reached-IsShown : (r : Reconciler) → Reached answer r → IsShown answer r
  unfolding lookup reconcile series
  reached-IsShown r started = λ i p. refl
  reached-IsShown r (reconciled env namespace key {r = before} steady run) =
      fetched-IsShown env namespace key steady (env.get_pod key) before (reached-IsShown before run)

-- After any reconciliations of a new reconciler, failed ones included, while the registry's answer
-- for an image stays the same: an image with no usage has no series in the gauge, and that of
-- an image with a usage and a platform that the registry lists is at the reference count, which is
-- positive, times the number of times that the platform stands in the list; a platform that is not
-- listed has no series.
pub reached-Shows :
    (answer : String → List Platform) (r : Reconciler)
    → Reached answer r
    → (image : String) (p : Platform)
    → Shows (answer image) p (lookup image r.image_platforms) (gauge_of image p r)
reached-Shows answer r run image p = reached-IsShown answer r run image p

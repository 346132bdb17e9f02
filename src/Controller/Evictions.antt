-- ===== src/Controller/Evictions.antt =====
-- When Reconcile deletes a pod.
use noe.Common.{
  Bool, true, false, ◌&&◌, ◌||◌, not, String, Option, none, some, List, [], ◌∷◌, ◌≡◌, ◌≢◌, refl,
  arith, any, Bool-cases, Option-cases, inl, inr, ◌∙◌, ◌++◌, ap, if◌then◌else◌,
}
use noe.Common.Maps.{lookup}
use noe.Kube.{Pod}
use noe.Hook.{Platform}
use noe.Hook.Secrets.{get_image_pull_secret}
use noe.Hook.Selection.{node_architecture_selection}
use noe.Controller.{Reconciler, Deletion}
use noe.Controller.Events.{delete_pod_and_notify_user}
use noe.Controller.Statistics.{
  increment_platform_statistics, decrement_platform_statistics, decrement_found, decrement_all,
  delete_from_cache, delete_found, add_to_cache, is_image_cached,
}
use noe.Controller.Invariant.{check_images_error, check_images_next, checked}
use noe.Controller.Reconcile.{
  Fetched, found, not_found, fetch_error, Environment, is_stateful_set, pod_is_ready, NodePlatform,
  node_platform, matches, check_images, on_node, pod_scheduled_on_matching_node, pod_image_list,
  after_check, reconcile_fetched, reconcile,
}

-- The registry resolved the image, and none of its platforms is the node's.
abbrev pub mismatches : NodePlatform → Option (List Platform) → Bool
mismatches n none = false
mismatches n (some platforms) = not (matches n platforms)

-- The reason for a deletion: the pod selects no architecture itself, its node's platform is
-- known, and one of its images has no platform that is the node's.
pub record Misplaced (env : Environment) (namespace : String) (pod : Pod) : Type 0 where
  pub free : node_architecture_selection pod.spec ≡ none
  pub node : NodePlatform
  pub placed : node_platform env pod ≡ some node
  pub mismatch :
      any
        (λ image.
          mismatches node
            (env.list_archs (get_image_pull_secret env.secrets namespace pod.spec).0 image))
        (pod_image_list pod)
      ≡ true

-- The call of Client.Delete for a pod
abbrev pub deletion : Bool → Pod → Deletion
deletion fails pod = record {
  pod = pod.object;
  namespace = pod.object.namespace;
  status = if fails then "failed" else "success";
}

deletions-decrement :
    (image : String) (r : Reconciler)
    → (decrement_platform_statistics image r).deletions ≡ r.deletions
unfolding decrement_platform_statistics
deletions-decrement image r = elim (Option-cases (lookup image r.image_platforms)) [
  | inl e ↦ rw (e, decrement_found)
  | inr (u, e) ↦ rw (e, decrement_found)
]

deletions-decrement_all :
    (images : List String) (r : Reconciler) → (decrement_all images r).deletions ≡ r.deletions
unfolding decrement_all
deletions-decrement_all [] r = refl
deletions-decrement_all (image ∷ images) r =
    deletions-decrement_all images (decrement_platform_statistics image r)
    ∙ deletions-decrement image r

deletions-delete_from_cache :
    (key : String) (r : Reconciler) → (delete_from_cache key r).deletions ≡ r.deletions
unfolding delete_from_cache
deletions-delete_from_cache key r = elim (Option-cases (lookup key r.pod_images)) [
  | inl e ↦ rw (e, delete_found)
  | inr (images, e) ↦ rw (e, delete_found) (deletions-decrement_all images r)
]

module _ (ask : String → Option (List Platform)) (node : NodePlatform) where
  -- The loop deletes nothing, and finds the mismatches.
  check_images-result :
      (so_far : Bool) (images : List String) (r : Reconciler)
      → ((check_images ask node so_far images r).state.deletions ≡ r.deletions)
        × ((check_images ask node so_far images r).matching ≡ some false
            → (so_far && not (any (λ image. mismatches node (ask image)) images)) ≡ false)
  check_images-result so_far [] r = unfold check_images in (refl, λ h. ground arith)
  check_images-result so_far (image ∷ images) r = elim (Option-cases (ask image)) [
    | inl e ↦ rw (check_images_error ask node so_far image images r e) (refl, λ h. cc h)
    | inr (platforms, e) ↦
        let s = increment_platform_statistics image platforms r in
        let (kept, finds) = check_images-result (so_far && matches node platforms) images s in
        rw (check_images_next ask node so_far image images r e)
          (kept ∙ (unfold increment_platform_statistics in refl), λ h. ground (arith, finds h, e))
  ]

module _ (env : Environment) (namespace key : String) (pod : Pod) (r : Reconciler) where
  on_node-result :
      (ask : String → Option (List Platform)) (o : Option NodePlatform) (images : List String)
      → ((on_node ask o images r).state.deletions ≡ r.deletions)
        × ((on_node ask o images r).matching ≡ some false
            → (n : NodePlatform) × (o ≡ some n)
              × (any (λ image. mismatches n (ask image)) images ≡ true))
  unfolding on_node
  on_node-result ask none images = (refl, λ h. cc h)
  on_node-result ask (some n) images =
      let (kept, finds) = check_images-result ask n true images r in
      (kept, λ h. (n, refl, ground (arith, finds h)))

  checked-result :
      ((checked env namespace key pod r).state.deletions ≡ r.deletions)
      × ((checked env namespace key pod r).matching ≡ some false
          → (n : NodePlatform) × (node_platform env pod ≡ some n)
            × (any
                  (λ image.
                    mismatches n (
                      env.list_archs
                        (get_image_pull_secret env.secrets namespace pod.spec).0
                        image))
                  (pod_image_list pod)
                ≡ true))
  unfolding pod_scheduled_on_matching_node
  checked-result = on_node-result _ (node_platform env pod) (pod_image_list pod)

  after_check-deletes :
      (s : Reconciler) (m : Option Bool)
      → (after_check env key pod s m).state.deletions ≢ s.deletions
      → (m ≡ some false)
        × (node_architecture_selection pod.spec ≡ none)
        × ((after_check env key pod s m).state.deletions
            ≡ s.deletions ++ deletion (env.delete_fails pod) pod ∷ [])
  unfolding after_check add_to_cache delete_pod_and_notify_user
  after_check-deletes s none h = absurd (h refl)
  after_check-deletes s (some true) h = absurd (h refl)
  after_check-deletes s (some false) h =
      elim (Option-cases (node_architecture_selection pod.spec)) [
        | inl e ↦ (refl, e, rw e refl)
        | inr (reason, e) ↦ absurd (h (rw e))
      ]

  found-deletes :
      (reconcile_fetched env namespace key (found pod) r).state.deletions ≢ r.deletions
      → ((reconcile_fetched env namespace key (found pod) r).state.deletions
          ≡ r.deletions ++ deletion (env.delete_fails pod) pod ∷ [])
        × Misplaced env namespace pod
  unfolding reconcile_fetched
  found-deletes h =
      elim (Bool-cases (not (is_stateful_set pod) && (is_image_cached key r || pod_is_ready pod))) [
        | inl skip ↦ absurd (h (rw skip))
        | inr go ↦
            let ch = checked env namespace key pod r in
            let (kept, finds) = checked-result in
            let (m, free, called) =
              after_check-deletes ch.state ch.matching (λ e. h (rw go (e ∙ kept))) in
            let (n, placed, mismatch) = finds m in
            (
              rw go (called ∙ ap (λ ds. ds ++ deletion (env.delete_fails pod) pod ∷ []) kept),
              record { free = free; node = n; placed = placed; mismatch = mismatch },
            )
      ]

-- If Reconcile calls Client.Delete, it calls it once, with the pod that it got for the request, and
-- counts the deletion in that pod's namespace by its success; and the pod selects no architecture
-- itself, the platform of its node can be read, and the registry resolved one of its images to
-- platforms of which none is the node's.
pub reconcile_deletes :
    (env : Environment) (namespace key : String) (r : Reconciler)
    → (reconcile env namespace key r).state.deletions ≢ r.deletions
    → (pod : Pod) × (env.get_pod key ≡ found pod)
      × ((reconcile env namespace key r).state.deletions
          ≡ r.deletions ++ deletion (env.delete_fails pod) pod ∷ [])
      × Misplaced env namespace pod
unfolding reconcile
reconcile_deletes env namespace key r = by_fetched (env.get_pod key) refl
  where
    by_fetched :
        (fetched : Fetched)
        → env.get_pod key ≡ fetched
        → (reconcile_fetched env namespace key fetched r).state.deletions ≢ r.deletions
        → (pod : Pod) × (env.get_pod key ≡ found pod)
          × ((reconcile_fetched env namespace key fetched r).state.deletions
              ≡ r.deletions ++ deletion (env.delete_fails pod) pod ∷ [])
          × Misplaced env namespace pod
    by_fetched (found pod) e h =
        let (called, why) = found-deletes env namespace key pod r h in (pod, e, called, why)
    by_fetched not_found e h = absurd (h (deletions-delete_from_cache key r))
    by_fetched (fetch_error m) e h = absurd (h refl)

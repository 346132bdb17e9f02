-- ===== src/Controller/Leaks.antt =====
-- Where the reference counts of images drift: a cached pod of a stateful set that is reconciled
-- again, and a reconciliation that fails after it counted an image.
use noe.Common.{
  and_false, ℕ, Bool, true, false, ◌&&◌, String, Option, none, some, List, [], ◌∷◌, ◌≡◌, refl,
  arith, eq_refl, ap, sym, ◌∙◌, subst, ◌+◌,
}
use noe.Common.Maps.{Map, lookup, insert}
use noe.Kube.{Pod}
use noe.Hook.{Platform}
use noe.Controller.{ImageUsage, Reconciler}
use noe.Controller.Statistics.{is_image_cached, increment_platform_statistics}
use noe.Controller.Counting.{
  occurrences, total, CountsTo, IsCounted, counted_too, increment-CountedBy,
}
use noe.Controller.Invariant.{
  checked, checked-Counts, check_images-Counts, check_images_next, after_check-images,
}
use noe.Hook.Secrets.{get_image_pull_secret}
use noe.Controller.Reconcile.{
  NodePlatform, node_platform, check_images, matches, on_node, found, Environment, is_stateful_set,
  pod_is_ready, Checked, pod_scheduled_on_matching_node, pod_image_list, Reconciled, after_check,
  reconcile_fetched, reconcile,
}

-- A usage counts to one number.
CountsTo-unique : (o : Option ImageUsage) (m n : ℕ) → CountsTo o m → CountsTo o n → m ≡ n
CountsTo-unique none m n c d = omega arith
CountsTo-unique (some u) m n c d = ground arith

total-insert_same :
    (key : String) (images : List String) (m : Map (List String)) (image : String)
    → lookup key m ≡ some images
    → total image (insert key images m) ≡ total image m
unfolding lookup insert
total-insert_same key images [] image e = cc
total-insert_same key images ((k, is) ∷ m) image e =
    ground (arith, total-insert_same key images m image)

-- A pod of a stateful set is not skipped.
reconcile_stateful :
    (env : Environment) (namespace key : String) (pod : Pod) (r : Reconciler)
    → env.get_pod key ≡ found pod
    → is_stateful_set pod ≡ true
    → reconcile env namespace key r
      ≡ after_check env key pod
          (checked env namespace key pod r).state
          (checked env namespace key pod r).matching
unfolding reconcile
reconcile_stateful env namespace key pod r e s = rw (e, reconcile_fetched, s)

-- Nor is a pod that is neither cached nor ready.
reconcile_fresh :
    (env : Environment) (namespace key : String) (pod : Pod) (r : Reconciler)
    → env.get_pod key ≡ found pod
    → is_image_cached key r ≡ false
    → pod_is_ready pod ≡ false
    → reconcile env namespace key r
      ≡ after_check env key pod
          (checked env namespace key pod r).state
          (checked env namespace key pod r).matching
unfolding reconcile
reconcile_fresh env namespace key pod r e fresh unready =
    rw (e, reconcile_fetched, fresh, unready, and_false)

-- From a state whose counts are right, a reconciliation without an error of a pod of a stateful
-- set whose images are in the cache already counts each of its images once more for each time
-- that it stands in the pod, while the images still stand in the cached pods as often as before:
-- the reference count of an image is too high by just as much, and that of any other image stays.
pub reconcile_again_counts :
    (env : Environment) (namespace key : String) (pod : Pod) (r : Reconciler) (image : String)
    → IsCounted r
    → env.get_pod key ≡ found pod
    → is_stateful_set pod ≡ true
    → lookup key r.pod_images ≡ some (pod_image_list pod)
    → (reconcile env namespace key r).succeeded ≡ true
    → CountsTo
        (lookup image (reconcile env namespace key r).state.image_platforms)
        (occurrences image (pod_image_list pod) + total image r.pod_images)
      × (total image (reconcile env namespace key r).state.pod_images ≡ total image r.pod_images)
reconcile_again_counts env namespace key pod r image c e s cached ok =
    let images = pod_image_list pod in
    let same = reconcile_stateful env namespace key pod r e s in
    let k = checked-Counts env namespace key pod r (λ j. total j r.pod_images) c.counted in
    let ch = checked env namespace key pod r in
    let (b, m, in_cache, usages) =
      after_check-images env namespace key pod r ch.state ch.matching (rw same at ok) in
    let now =
      ap (λ (x : Reconciled). x.state.pod_images) same
      ∙ (in_cache ∙ ap (insert key images) k.pod_images) in
    let usage =
      ap (λ (x : Reconciled). lookup image x.state.image_platforms) same
      ∙ ap (lookup image) usages in
    (
      subst (λ o. CountsTo o (occurrences image images + total image r.pod_images)) (sym usage)
          (subst (CountsTo (lookup image ch.state.image_platforms)) (k.all_counted m image)
            (k.counted image)),
      ap (total image) now ∙ total-insert_same key images r.pod_images image cached,
    )

-- The registry resolved the first image of the pod, on a node whose platform can be read.
pub record CountsFirst (env : Environment) (namespace : String) (pod : Pod) (image : String)
    : Type 0 where
  pub rest : List String
  pub images : pod_image_list pod ≡ image ∷ rest
  pub node : NodePlatform
  pub readable : node_platform env pod ≡ some node
  pub platforms : List Platform
  pub resolved :
      env.list_archs (get_image_pull_secret env.secrets namespace pod.spec).0 image ≡ some platforms

module _ (env : Environment) (namespace key : String) (pod : Pod) (r : Reconciler)
    (image : String) where
  checked_first :
      (f : CountsFirst env namespace pod image)
      → checked env namespace key pod r
        ≡ check_images
            (env.list_archs (get_image_pull_secret env.secrets namespace pod.spec).0)
            f.node
            (true && matches f.node f.platforms)
            f.rest
            (increment_platform_statistics image f.platforms r)
  unfolding pod_scheduled_on_matching_node
  checked_first f =
      rw (f.readable, on_node, f.images)
        (check_images_next (env.list_archs (get_image_pull_secret env.secrets namespace pod.spec).0)
          f.node true image f.rest r f.resolved)

  -- After an error the state is that of the check.
  after_error :
      (s : Reconciler) (m : Option Bool)
      → (after_check env key pod s m).succeeded ≡ false
      → (after_check env key pod s m).state ≡ s
  unfolding after_check
  after_error s none h = refl
  after_error s (some true) h = cc
  after_error s (some false) h = ground arith

  failed_counts :
      (s : Reconciler)
      → IsCounted r
      → s ≡ (checked env namespace key pod r).state
      → CountsFirst env namespace pod image
      → ¬ (IsCounted s)
  failed_counts s c e f after =
      let f_total = λ (j : String). total j r.pod_images in
      let counted = increment_platform_statistics image f.platforms r in
      let ask = env.list_archs (get_image_pull_secret env.secrets namespace pod.spec).0 in
      let last = check_images ask f.node (true && matches f.node f.platforms) f.rest counted in
      let k =
        check_images-Counts ask f.node (counted_too image f_total)
          (true && matches f.node f.platforms) f.rest counted
          (increment-CountedBy f_total image f.platforms r c.counted) in
      let state : s ≡ last.state = e ∙ ap (λ (x : Checked). x.state) (checked_first f) in
      let pods : s.pod_images ≡ r.pod_images =
        ap (λ (x : Reconciler). x.pod_images) state
        ∙ (k.pod_images ∙ (unfold increment_platform_statistics in refl)) in
      let claimed : CountsTo (lookup image last.state.image_platforms) (total image r.pod_images) =
        subst
          (λ (x : Reconciler). CountsTo (lookup image x.image_platforms) (total image r.pod_images))
          state
          (subst (CountsTo (lookup image s.image_platforms)) (ap (total image) pods)
            (after.counted image)) in
      absurd (
        ground (
          arith,
          CountsTo-unique (lookup image last.state.image_platforms) (k.counts image)
              (total image r.pod_images) (k.counted image) claimed,
          k.grows image,
          eq_refl image,
        ))

-- From a state whose counts are right, a reconciliation of a pod that is neither cached nor ready,
-- for which the registry resolves the first image and which then returns an error, leaves counts
-- that are wrong: the image is counted, and the pod is not cached.
pub reconcile_error_not-IsCounted :
    (env : Environment) (namespace key : String) (pod : Pod) (r : Reconciler) (image : String)
    → IsCounted r
    → env.get_pod key ≡ found pod
    → is_image_cached key r ≡ false
    → pod_is_ready pod ≡ false
    → CountsFirst env namespace pod image
    → (reconcile env namespace key r).succeeded ≡ false
    → ¬ (IsCounted (reconcile env namespace key r).state)
reconcile_error_not-IsCounted env namespace key pod r image c e fresh unready first failed =
    let same = reconcile_fresh env namespace key pod r e fresh unready in
    let ch = checked env namespace key pod r in
    let state =
      ap (λ (x : Reconciled). x.state) same
      ∙ after_error env namespace key pod r image ch.state ch.matching (rw same at failed) in
    failed_counts env namespace key pod r image (reconcile env namespace key r).state c state first

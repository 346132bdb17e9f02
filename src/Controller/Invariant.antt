-- ===== src/Controller/Invariant.antt =====
-- When Reconcile keeps the reference counts, and when it does not.
use noe.Common.{
  ℕ, ◌+◌, ◌≤◌, Bool, true, false, ◌&&◌, ◌||◌, not, String, Option, none, some, List, [], ◌∷◌, ◌≡◌,
  refl, sym, arith, is_some, Bool-cases, Option-cases, inl, inr, ap, ◌∙◌, subst,
}
use noe.Common.Maps.{
  Map, lookup, insert, delete, HasDistinctKeys, insert-HasDistinctKeys, delete-HasDistinctKeys,
}
use noe.Kube.{Pod}
use noe.Hook.{Platform}
use noe.Hook.Selection.{node_architecture_selection}
use noe.Controller.{ImageUsage, Reconciler}
use noe.Controller.Statistics.{
  increment_platform_statistics, delete_from_cache, delete_found, add_to_cache, is_image_cached,
}
use noe.Controller.Events.{delete_pod_and_notify_user}
use noe.Controller.Counting.{
  occurrences, total, CountsTo, CountedBy, IsCounted, CountedBy-ext, counted_too,
  increment-CountedBy, decrement_all-CountedBy, pod_images-decrement_all, total-insert,
  total-delete,
}
use noe.Controller.Reconcile.{
  Fetched, found, not_found, fetch_error, Environment, is_stateful_set, pod_is_ready, NodePlatform,
  matches, Checked, check_images, on_node, pod_scheduled_on_matching_node, pod_image_list,
  after_check, reconcile_fetched, reconcile, node_platform,
}

pub delete_from_cache-IsCounted :
    (key : String) (r : Reconciler) → IsCounted r → IsCounted (delete_from_cache key r)
unfolding delete_from_cache
delete_from_cache-IsCounted key r c = elim (Option-cases (lookup key r.pod_images)) [
  | inl e ↦ rw (e, delete_found) c
  | inr (images, e) ↦
      rw (e, delete_found)
        (record {
          distinct =
              rw (pod_images-decrement_all images r)
                (delete-HasDistinctKeys key r.pod_images c.distinct);
          counted = rw (pod_images-decrement_all images r) (
              decrement_all-CountedBy (λ j. total j (delete key r.pod_images)) images r
                (CountedBy-ext _ _ _
                  (λ j. sym (total-delete key images r.pod_images j c.distinct e)) c.counted));
        })
]

-- What the loop over the images counts, up to an error of the registry.
pub record Counts (f : String → ℕ) (images : List String) (r : Reconciler) (c : Checked)
    : Type 0 where
  pub pod_images : c.state.pod_images ≡ r.pod_images
  pub counts : String → ℕ
  pub counted : CountedBy counts c.state.image_platforms
  pub grows : (j : String) → f j ≤ counts j
  pub all_counted :
      {b : Bool} → c.matching ≡ some b → (j : String) → counts j ≡ occurrences j images + f j

module _ (ask : String → Option (List Platform)) (node : NodePlatform) where
  pub check_images_error :
      (so_far : Bool) (image : String) (images : List String) (r : Reconciler)
      → ask image ≡ none
      → check_images ask node so_far (image ∷ images) r ≡ record { state = r; matching = none }
  unfolding check_images
  check_images_error so_far image images r e = rw (e, check_images)

  pub check_images_next :
      (so_far : Bool) (image : String) (images : List String) (r : Reconciler)
      {platforms : List Platform}
      → ask image ≡ some platforms
      → check_images ask node so_far (image ∷ images) r
        ≡ check_images ask node
            (so_far && matches node platforms)
            images
            (increment_platform_statistics image platforms r)
  unfolding check_images
  check_images_next so_far image images r e = rw (e, check_images)

  pub check_images-Counts :
      (f : String → ℕ) (so_far : Bool) (images : List String) (r : Reconciler)
      → CountedBy f r.image_platforms
      → Counts f images r (check_images ask node so_far images r)
  check_images-Counts f so_far [] r c =
      unfold check_images in
      record {
        pod_images = refl;
        counts = f;
        counted = c;
        grows = λ j. omega arith;
        all_counted = λ _ j. omega arith;
      }
  check_images-Counts f so_far (image ∷ images) r c = elim (Option-cases (ask image)) [
    | inl e ↦ rw (check_images_error so_far image images r e) (record {
      pod_images = refl;
      counts = f;
      counted = c;
      grows = λ j. omega arith;
      all_counted = λ h. absurd (cc h);
    })
    | inr (platforms, e) ↦
        let s = increment_platform_statistics image platforms r in
        let ih =
          check_images-Counts (counted_too image f) (so_far && matches node platforms) images s
            (increment-CountedBy f image platforms r c) in
        rw (check_images_next so_far image images r e) (record {
          pod_images = ih.pod_images ∙ (unfold increment_platform_statistics in refl);
          counts = ih.counts;
          counted = ih.counted;
          grows = λ j. omega (arith, ih.grows j);
          all_counted = λ h j. omega (arith, ih.all_counted h j);
        })
  ]

pub not_cached :
    (key : String) (r : Reconciler) → is_image_cached key r ≡ false → lookup key r.pod_images ≡ none
unfolding is_image_cached
not_cached key r h = ground arith

module _ (env : Environment) (namespace key : String) (pod : Pod) (r : Reconciler) where
  -- The state and the result after the check of the pod's images.
  abbrev pub checked : Checked
  checked = pod_scheduled_on_matching_node env namespace pod (pod_image_list pod) r

  on_node-Counts :
      (f : String → ℕ) (ask : String → Option (List Platform)) (node : Option NodePlatform)
      (images : List String)
      → CountedBy f r.image_platforms
      → Counts f images r (on_node ask node images r)
  unfolding on_node
  on_node-Counts f ask none images c = record {
    pod_images = refl;
    counts = f;
    counted = c;
    grows = λ j. omega arith;
    all_counted = λ h. absurd (cc h);
  }
  on_node-Counts f ask (some node) images c = check_images-Counts ask node f true images r c

  pub checked-Counts :
      (f : String → ℕ) → CountedBy f r.image_platforms → Counts f (pod_image_list pod) r checked
  unfolding pod_scheduled_on_matching_node
  checked-Counts f c = on_node-Counts f _ (node_platform env pod) (pod_image_list pod) c

  -- A success of what follows the check keeps the counts of the state with the pod in the cache.
  pub after_check-images :
      (s : Reconciler) (m : Option Bool)
      → (after_check env key pod s m).succeeded ≡ true
      → (b : Bool) × (m ≡ some b)
        × ((after_check env key pod s m).state.pod_images
            ≡ insert key (pod_image_list pod) s.pod_images)
        × ((after_check env key pod s m).state.image_platforms ≡ s.image_platforms)
  unfolding after_check add_to_cache delete_pod_and_notify_user
  after_check-images s none h = cc
  after_check-images s (some true) h = (true, refl, refl, refl)
  after_check-images s (some false) h =
      elim (Bool-cases (is_some (node_architecture_selection pod.spec))) [
        | inl selected ↦ (false, refl, rw selected, rw selected)
        | inr free ↦ (false, refl, rw free, rw free)
      ]

  after_check-IsCounted :
      (c : Checked)
      → Counts (λ j. total j r.pod_images) (pod_image_list pod) r c
      → HasDistinctKeys r.pod_images
      → lookup key r.pod_images ≡ none
      → (after_check env key pod c.state c.matching).succeeded ≡ true
      → IsCounted (after_check env key pod c.state c.matching).state
  after_check-IsCounted c k d missing ok =
      let images = pod_image_list pod in
      let (b, m, in_cache, same) = after_check-images c.state c.matching ok in
      let now = in_cache ∙ ap (insert key images) k.pod_images in
      record {
        distinct =
            subst (λ (p : Map (List String)). HasDistinctKeys p) (sym now)
              (insert-HasDistinctKeys key images r.pod_images d);
        counted = λ j.
            subst
              (λ (u : Map ImageUsage).
                CountsTo (lookup j u)
                  (total j (after_check env key pod c.state c.matching).state.pod_images))
              (sym same)
              (subst (CountsTo (lookup j c.state.image_platforms))
                (k.all_counted m j
                  ∙ (sym (total-insert key images r.pod_images j missing) ∙ ap (total j) (sym now)))
                (k.counted j));
      }

  found-IsCounted :
      IsCounted r
      → (is_stateful_set pod && is_image_cached key r) ≡ false
      → (reconcile_fetched env namespace key (found pod) r).succeeded ≡ true
      → IsCounted (reconcile_fetched env namespace key (found pod) r).state
  unfolding reconcile_fetched
  found-IsCounted c once ok = elim (Bool-cases (is_image_cached key r)) [
    | inl cached ↦
        let skipped : is_stateful_set pod ≡ false = ground arith in rw (skipped, cached) c
    | inr fresh ↦
        elim (Bool-cases
          (not (is_stateful_set pod) && (is_image_cached key r || pod_is_ready pod))) [
            | inl skip ↦ rw skip c
            | inr counted ↦ rw counted (
                after_check-IsCounted checked (checked-Counts (λ j. total j r.pod_images) c.counted)
                  c.distinct (not_cached key r fresh) (rw counted at ok))
          ]
  ]

-- The pod of the request is of a stateful set, and its images are in the cache already.
abbrev pub counts_again : String → Reconciler → Fetched → Bool
counts_again key r (found pod) = is_stateful_set pod && is_image_cached key r
counts_again key r not_found = false
counts_again key r (fetch_error e) = false

-- A reconciliation that returns no error keeps the counts, unless it is of a cached pod of a
-- stateful set: the reference count of each image stays the number of times that the image stands
-- in the cached pods, and an image that stands in none has no entry.
pub reconcile-IsCounted :
    (env : Environment) (namespace key : String) (r : Reconciler)
    → IsCounted r
    → counts_again key r (env.get_pod key) ≡ false
    → (reconcile env namespace key r).succeeded ≡ true
    → IsCounted (reconcile env namespace key r).state
unfolding reconcile
reconcile-IsCounted env namespace key r c = by_fetched (env.get_pod key)
  where
    by_fetched :
        (fetched : Fetched)
        → counts_again key r fetched ≡ false
        → (reconcile_fetched env namespace key fetched r).succeeded ≡ true
        → IsCounted (reconcile_fetched env namespace key fetched r).state
    by_fetched (found pod) once ok = found-IsCounted env namespace key pod r c once ok
    by_fetched not_found once ok = delete_from_cache-IsCounted key r c
    by_fetched (fetch_error e) once ok = absurd (ground arith)

-- ===== src/Controller/Gauge/Shown.antt =====
-- pkg/controllers/pod.go: what incrementPlatformStatistics and decrementPlatformStatistics keep of
-- the gauge, while the registry's answer for an image stays the same.
use noe.Common.{
  ℕ, zero, suc, ◌*◌, true, false, String, Option, none, some, List, [], ◌∷◌, ◌++◌, ◌≡◌, refl, sym,
  ◌∙◌, ap, subst, arith, ◌==◌, eq_iff, eq_refl, Bool-cases, Option-cases, inl, inr,
}
use noe.Common.Maps.{lookup, lookup-insert, lookup-delete}
use native.Mathlib.Nat.{suc-mul}
use noe.Hook.{Platform}
use noe.Controller.{ℤ, pos, increment, decrement, is_zero, ImageUsage, GaugeOp, Reconciler}
use noe.Controller.Statistics.{
  stale_ops, stale_before, inc_ops, dec_ops, usage_before, increment_platform_statistics,
  decrement_found, decrement_platform_statistics, decrement_all, delete_found, delete_from_cache,
}
use noe.Controller.Gauge.{series, multiplicity, shown, dec-next, dec-last, stale-within}
use noe.Controller.Gauge.Changes.{quiet, then-inc, then-dec, other_increment, other_decrement}

-- The series of a platform, beside the usage of its image: no entry and no series, or the
-- registry's platforms and their number for each count.
abbrev pub Shows : List Platform → Platform → Option ImageUsage → Option ℤ → Type 0
Shows ps p none g = g ≡ none
Shows ps p (some u) g =
    (u.platforms ≡ ps)
    × (n : ℕ) × (u.refcount ≡ pos (suc n))
    × (g ≡ shown (suc n * multiplicity p ps))

-- The series of an image and a platform after all changes, from a gauge without any series.
abbrev pub gauge_of : String → Platform → Reconciler → Option ℤ
gauge_of i p r = series i p none r.gauge

-- Each series of the gauge shows the count of its image, of the platforms `answer`.
abbrev pub IsShown : (String → List Platform) → Reconciler → Type 0
IsShown answer r =
    (i : String) (p : Platform) → Shows (answer i) p (lookup i r.image_platforms) (gauge_of i p r)

module _ (answer : String → List Platform) where
  incremented :
      (i : String) (p : Platform) (found : Option ImageUsage) (ops : List GaugeOp)
      → Shows (answer i) p found (series i p none ops)
      → Shows
          (answer i)
          p
          (some (record (usage_before found (answer i)) {
            refcount = increment (usage_before found (answer i)).refcount;
          }))
          (series i p none ((ops ++ stale_before i found (answer i)) ++ inc_ops i (answer i)))
  unfolding usage_before stale_before
  incremented i p none ops h = (
    refl,
    0,
    refl,
    then-inc i p (ops ++ []) 0 (answer i) (quiet i p ops [] refl ∙ h) ∙ ap shown (omega arith),
  )
  incremented i p (some u) ops (same, n, count, g) = (
    refl,
    suc n,
    ap increment count ∙ ap pos (omega arith),
    then-inc i p (ops ++ stale_ops i (answer i) u.platforms) (suc n * multiplicity p (answer i))
          (answer i)
          (quiet i p ops _ (ap (stale_ops i (answer i)) same ∙ stale-within i [] (answer i)) ∙ g)
        ∙ ap shown (sym (suc-mul (suc n) (multiplicity p (answer i)))),
  )

  pub increment-IsShown :
      (image : String) (r : Reconciler)
      → IsShown answer r
      → IsShown answer (increment_platform_statistics image (answer image) r)
  unfolding increment_platform_statistics
  increment-IsShown image r h i p = elim (Bool-cases (i == image)) [
    | inl same ↦
        subst
          (λ j.
            Shows (answer i) p
              (lookup i (increment_platform_statistics j (answer j) r).image_platforms)
              (gauge_of i p (increment_platform_statistics j (answer j) r)))
          ((eq_iff i image).0 same)
          (rw (lookup-insert i i _ r.image_platforms, eq_refl i)
            (incremented i p (lookup i r.image_platforms) r.gauge (h i p)))
    | inr other ↦
        let elsewhere : (image == i) ≡ false = ground (arith, eq_iff i image, eq_iff image i) in
        rw
          (
            lookup-insert image i _ r.image_platforms,
            elsewhere,
            other_increment i p r.gauge image other (lookup image r.image_platforms) (answer image),
          )
          (h i p)
  ]

  decremented :
      (i : String) (p : Platform) (r : Reconciler) (u : ImageUsage) (n : ℕ)
      → u.platforms ≡ answer i
      → u.refcount ≡ pos (suc n)
      → gauge_of i p r ≡ shown (suc n * multiplicity p (answer i))
      → Shows
          (answer i)
          p
          (lookup i (decrement_found i (some u) r).image_platforms)
          (gauge_of i p (decrement_found i (some u) r))
  unfolding decrement_found
  decremented i p r u zero same count g =
      rw (count, lookup-delete i i r.image_platforms, eq_refl i, same)
        (then-dec i p r.gauge (1 * multiplicity p (answer i)) true (answer i) g
          ∙ (ap (λ v. series i p (shown v) (dec_ops i true (answer i))) (omega arith)
              ∙ dec-last i p (answer i)))
  decremented i p r u (suc n) same count g =
      rw (count, lookup-insert i i _ r.image_platforms, eq_refl i, same)
        ((refl, n, refl, then-dec i p r.gauge _ false (answer i) g ∙ dec-next i p n (answer i)))

  same_image :
      (i : String) (p : Platform) (r : Reconciler) (u : ImageUsage)
      → lookup i r.image_platforms ≡ some u
      → Shows (answer i) p (lookup i r.image_platforms) (gauge_of i p r)
      → Shows
          (answer i)
          p
          (lookup i (decrement_found i (some u) r).image_platforms)
          (gauge_of i p (decrement_found i (some u) r))
  same_image i p r u e h =
      let (same, n, count, g) = subst (λ f. Shows (answer i) p f (gauge_of i p r)) e h in
      decremented i p r u n same count g

  found-IsShown :
      (image : String) (r : Reconciler) (found : Option ImageUsage)
      → lookup image r.image_platforms ≡ found
      → IsShown answer r
      → IsShown answer (decrement_found image found r)
  unfolding decrement_found
  found-IsShown image r none e h i p = h i p
  found-IsShown image r (some u) e h i p = elim (Bool-cases (i == image)) [
    | inl same ↦
        let at = (eq_iff i image).0 same in
        subst
          (λ j.
            Shows (answer i) p (lookup i (decrement_found j (some u) r).image_platforms)
              (gauge_of i p (decrement_found j (some u) r)))
          at
          (same_image i p r u (subst (λ j. lookup j r.image_platforms ≡ some u) (sym at) e) (h i p))
    | inr other ↦
        let elsewhere : (image == i) ≡ false = ground (arith, eq_iff i image, eq_iff image i) in
        elim (Bool-cases (is_zero (decrement u.refcount))) [
          | inl last ↦
              rw
                (
                  last,
                  lookup-delete image i r.image_platforms,
                  elsewhere,
                  other_decrement i p r.gauge image other true u.platforms,
                )
                (h i p)
          | inr next ↦
              rw
                (
                  next,
                  lookup-insert image i _ r.image_platforms,
                  elsewhere,
                  other_decrement i p r.gauge image other false u.platforms,
                )
                (h i p)
        ]
  ]

  pub decrement-IsShown :
      (image : String) (r : Reconciler)
      → IsShown answer r
      → IsShown answer (decrement_platform_statistics image r)
  unfolding decrement_platform_statistics
  decrement-IsShown image r h i p =
      found-IsShown image r (lookup image r.image_platforms) refl h i p

  pub decrement_all-IsShown :
      (images : List String) (r : Reconciler)
      → IsShown answer r
      → IsShown answer (decrement_all images r)
  unfolding decrement_all
  decrement_all-IsShown [] r h = h
  decrement_all-IsShown (image ∷ images) r h =
      decrement_all-IsShown images (decrement_platform_statistics image r)
        (decrement-IsShown image r h)

  pub delete_from_cache-IsShown :
      (key : String) (r : Reconciler) → IsShown answer r → IsShown answer (delete_from_cache key r)
  unfolding delete_from_cache
  delete_from_cache-IsShown key r h = elim (Option-cases (lookup key r.pod_images)) [
    | inl e ↦ rw (e, delete_found) h
    | inr (images, e) ↦ rw (e, delete_found) (decrement_all-IsShown images r h)
  ]

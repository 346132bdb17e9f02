-- ===== src/Controller/Counting.antt =====
-- The reference count of an image is the number of times that it stands in the cached pods.
use noe.Common.{
  ℕ, zero, suc, ◌+◌, ◌<◌, String, Option, none, some, List, [], ◌∷◌, ◌==◌, ◌≡◌, refl, arith, eq_iff,
  eq_refl, if◌then◌else◌, Bool-cases, Option-cases, inl, inr, ◌∙◌, subst,
}
use noe.Common.Maps.{
  Map, lookup, insert, delete, lookup-insert, lookup-delete, IsMissing, HasDistinctKeys,
  delete-missing,
}
use native.Mathlib.Nat.{add_assoc}
use noe.Hook.{Platform}
use noe.Controller.{pos, increment, decrement, is_zero, ImageUsage, Reconciler}
use noe.Controller.Statistics.{
  increment_platform_statistics, decrement_platform_statistics, usage_before, decrement_found,
  decrement_all,
}

-- How often the image stands in the list.
abbrev pub occurrences : String → List String → ℕ
occurrences image [] = 0
occurrences image (i ∷ images) = (if i == image then 1 else 0) + occurrences image images

-- How often the image stands in the cached pods.
abbrev pub total : String → Map (List String) → ℕ
total image [] = 0
total image ((key, images) ∷ m) = occurrences image images + total image m

-- The usage of an image counts to `n`; an image that counts to 0 has none.
abbrev pub CountsTo : Option ImageUsage → ℕ → Type 0
CountsTo none n = n ≡ 0
CountsTo (some u) n = (u.refcount ≡ pos n) × (0 < n)

abbrev pub CountedBy : (String → ℕ) → Map ImageUsage → Type 0
CountedBy f m = (image : String) → CountsTo (lookup image m) (f image)

pub record IsCounted (r : Reconciler) : Type 0 where
  pub distinct : HasDistinctKeys r.pod_images
  pub counted : CountedBy (λ image. total image r.pod_images) r.image_platforms

pub CountedBy-ext :
    (f g : String → ℕ) (m : Map ImageUsage)
    → ((j : String) → f j ≡ g j)
    → CountedBy f m
    → CountedBy g m
CountedBy-ext f g m e c j = subst (CountsTo (lookup j m)) (e j) (c j)

-- An image is counted once more.
abbrev pub counted_too : String → (String → ℕ) → String → ℕ
counted_too image f j = (if image == j then 1 else 0) + f j

CountsTo-increment :
    (o : Option ImageUsage) (platforms : List Platform) (n : ℕ)
    → CountsTo o n
    → CountsTo
        (some (record (usage_before o platforms) {
          refcount = increment (usage_before o platforms).refcount;
        }))
        (1 + n)
unfolding usage_before
CountsTo-increment none platforms n c = ground arith
CountsTo-increment (some u) platforms n c = ground arith

pub increment-CountedBy :
    (f : String → ℕ) (image : String) (platforms : List Platform) (r : Reconciler)
    → CountedBy f r.image_platforms
    → CountedBy
        (counted_too image f)
        (increment_platform_statistics image platforms r).image_platforms
unfolding increment_platform_statistics
increment-CountedBy f image platforms r c j = elim (Bool-cases (image == j)) [
  | inl e ↦
      rw (lookup-insert, e)
        (CountsTo-increment (lookup image r.image_platforms) platforms (f j) (
          subst (λ z. CountsTo (lookup image r.image_platforms) (f z)) ((eq_iff image j).0 e)
            (c image)))
  | inr n ↦
      rw (lookup-insert, n) (subst (CountsTo (lookup j r.image_platforms)) (omega arith) (c j))
]

left_over : (u : ImageUsage) (n : ℕ) → CountsTo (some u) (1 + n) → decrement u.refcount ≡ pos n
left_over u n c = ground arith

-- The entry of the image after the count came down to `n`.
self_counts :
    (platforms : List Platform) (image : String) (n : ℕ) (m : Map ImageUsage)
    → CountsTo
        (lookup image (
          if is_zero (pos n)
          then delete image m
          else insert image (record { platforms = platforms; refcount = pos n }) m))
        n
self_counts platforms image zero m = rw (lookup-delete, eq_refl)
self_counts platforms image (suc n) m = rw (lookup-insert, eq_refl) (refl, omega arith)

found-CountedBy :
    (f : String → ℕ) (image : String) (o : Option ImageUsage) (r : Reconciler)
    → lookup image r.image_platforms ≡ o
    → CountedBy (counted_too image f) r.image_platforms
    → CountedBy f (decrement_found image o r).image_platforms
unfolding decrement_found
found-CountedBy f image none r e c j = absurd (ground (arith, eq_refl image, c image))
found-CountedBy f image (some u) r e c j =
    let left : decrement u.refcount ≡ pos (f image) = left_over u (f image) (
      subst (λ o. CountsTo o (1 + f image)) e
        (subst (λ b. CountsTo (lookup image r.image_platforms) ((if b then 1 else 0) + f image))
          (eq_refl image) (c image))) in
    elim (Bool-cases (image == j)) [
      | inl same ↦
          subst (λ z. CountsTo (lookup z (decrement_found image (some u) r).image_platforms) (f z))
            ((eq_iff image j).0 same)
            (rw left (self_counts u.platforms image (f image) r.image_platforms))
      | inr other ↦ ground (
        arith,
        lookup-delete image j r.image_platforms,
        lookup-insert image j (record u { refcount = decrement u.refcount }) r.image_platforms,
        c j,
      )
    ]

decrement-CountedBy :
    (f : String → ℕ) (image : String) (r : Reconciler)
    → CountedBy (counted_too image f) r.image_platforms
    → CountedBy f (decrement_platform_statistics image r).image_platforms
unfolding decrement_platform_statistics
decrement-CountedBy f image r c = found-CountedBy f image (lookup image r.image_platforms) r refl c

pod_images-decrement :
    (image : String) (r : Reconciler)
    → (decrement_platform_statistics image r).pod_images ≡ r.pod_images
unfolding decrement_platform_statistics
pod_images-decrement image r = elim (Option-cases (lookup image r.image_platforms)) [
  | inl e ↦ rw (e, decrement_found)
  | inr (u, e) ↦ rw (e, decrement_found)
]

pub decrement_all-CountedBy :
    (f : String → ℕ) (images : List String) (r : Reconciler)
    → CountedBy (λ j. occurrences j images + f j) r.image_platforms
    → CountedBy f (decrement_all images r).image_platforms
unfolding decrement_all
decrement_all-CountedBy f [] r c = CountedBy-ext _ f _ (λ j. omega arith) c
decrement_all-CountedBy f (image ∷ images) r c =
    decrement_all-CountedBy f images (decrement_platform_statistics image r) (
      decrement-CountedBy (λ j. occurrences j images + f j) image r
        (CountedBy-ext _ _ _
          (λ j. add_assoc (if image == j then 1 else 0) (occurrences j images) (f j)) c))

pub pod_images-decrement_all :
    (images : List String) (r : Reconciler) → (decrement_all images r).pod_images ≡ r.pod_images
unfolding decrement_all
pod_images-decrement_all [] r = refl
pod_images-decrement_all (image ∷ images) r =
    pod_images-decrement_all images (decrement_platform_statistics image r)
    ∙ pod_images-decrement image r

pub total-insert :
    (key : String) (images : List String) (m : Map (List String)) (image : String)
    → lookup key m ≡ none
    → total image (insert key images m) ≡ occurrences image images + total image m
unfolding lookup insert
total-insert key images [] image e = refl
total-insert key images ((k, is) ∷ m) image e = ground (arith, total-insert key images m image)

pub total-delete :
    (key : String) (images : List String) (m : Map (List String)) (image : String)
    → HasDistinctKeys m
    → lookup key m ≡ some images
    → occurrences image images + total image (delete key m) ≡ total image m
unfolding lookup delete
total-delete key images [] image d e = cc
total-delete key images ((k, is) ∷ m) image d e = elim (Bool-cases (k == key)) [
  | inl same ↦
      let gone : delete key m ≡ m =
        delete-missing key m (subst (λ z. IsMissing (lookup z m)) ((eq_iff k key).0 same) d.0) in
      ground (arith, gone)
  | inr other ↦ ground (arith, total-delete key images m image d.1)
]

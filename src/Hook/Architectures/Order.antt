-- ===== src/Hook/Architectures/Order.antt =====
-- The order in which the goroutines end does not matter to the loop over the channel.
use noe.Common.{Bool, String, List, ◌≡◌, refl, arith, any, all, any-Picks, all-Picks, is_empty}
use noe.Common.Sets.{SameMembers, is_empty_ext}
use noe.Common.Sorting.{sort, sort_ext}
use noe.Hook.{Handler}
use noe.Hook.Architectures.{Arrival, Runs, closed, ends, common_architectures}
use noe.Hook.Architectures.Members.{
  is_arrived, arrival_offers, contains-common_architectures, first_image-common_architectures,
  common_architectures-IsDistinct,
}

module _ {goroutine : String → Arrival} (p : Arrival → Bool) where
  pub all-Runs :
      {images : List String} {arrivals : List Arrival}
      → Runs goroutine images arrivals
      → all p arrivals ≡ all (λ i. p (goroutine i)) images
  all-Runs closed = refl
  all-Runs (ends {image = i} k r) = ground (arith, all-Runs r, all-Picks (λ i. p (goroutine i)) k)

  any-Runs :
      {images : List String} {arrivals : List Arrival}
      → Runs goroutine images arrivals
      → any p arrivals ≡ any (λ i. p (goroutine i)) images
  any-Runs closed = refl
  any-Runs (ends {image = i} k r) = ground (arith, any-Runs r, any-Picks (λ i. p (goroutine i)) k)

module _ (h : Handler) {goroutine : String → Arrival} {images : List String} {a₁ a₂ : List Arrival}
    (r₁ : Runs goroutine images a₁) (r₂ : Runs goroutine images a₂) where
  pub common-order :
      SameMembers (common_architectures h a₁).common (common_architectures h a₂).common
  common-order a = ground (
    arith,
    contains-common_architectures h a₁ a,
    contains-common_architectures h a₂ a,
    any-Runs is_arrived r₁,
    any-Runs is_arrived r₂,
    all-Runs (arrival_offers h a) r₁,
    all-Runs (arrival_offers h a) r₂,
  )

  pub first_image-order :
      (common_architectures h a₁).first_image ≡ (common_architectures h a₂).first_image
  first_image-order = ground (
    arith,
    first_image-common_architectures h a₁,
    first_image-common_architectures h a₂,
    any-Runs is_arrived r₁,
    any-Runs is_arrived r₂,
  )

  pub is_empty-order :
      is_empty (common_architectures h a₁).common ≡ is_empty (common_architectures h a₂).common
  is_empty-order = is_empty_ext _ _ common-order

  pub sort-order : sort (common_architectures h a₁).common ≡ sort (common_architectures h a₂).common
  sort-order =
      sort_ext _ _ (common_architectures-IsDistinct h a₁) (common_architectures-IsDistinct h a₂)
        common-order

-- ===== src/Hook/Architectures/Members.antt =====
-- Which architectures are common: those that every answer offers in a usable platform.
use noe.Common.{
  Bool, true, false, ◌&&◌, ◌||◌, not, String, List, [], ◌∷◌, ◌==◌, ◌≡◌, refl, arith, any, all, keep,
  Bool-cases, inl, inr,
}
use noe.Common.Sets.{
  contains, add, IsDistinct, contains-add, add-IsDistinct, contains-keep, keep-IsDistinct,
}
use noe.Hook.{Platform, Handler}
use noe.Hook.Architectures.{
  Arrival, arrived, failed, Collected, is_usable, image_architectures, receive_platforms, receive,
  receive_all, common_architectures,
}

-- An image offers the architecture in a platform that the loop does not skip.
abbrev pub offers : Handler → String → List Platform → Bool
offers h a ps = any (λ p. is_usable h p && p.architecture == a) ps

-- A failed image rules nothing out.
abbrev pub arrival_offers : Handler → String → Arrival → Bool
arrival_offers h a (failed image) = true
arrival_offers h a (arrived image ps) = offers h a ps

abbrev pub is_arrived : Arrival → Bool
is_arrived (failed image) = false
is_arrived (arrived image ps) = true

contains-image_architectures :
    (h : Handler) (set : List String) (ps : List Platform) (a : String)
    → contains (image_architectures h set ps) a ≡ (contains set a || offers h a ps)
unfolding image_architectures
contains-image_architectures h set [] a = ground arith
contains-image_architectures h set (p ∷ ps) a = ground (
  arith,
  contains-image_architectures h set ps a,
  contains-image_architectures h (add p.architecture set) ps a,
  contains-add p.architecture a set,
)

image_architectures-IsDistinct :
    (h : Handler) (set : List String) (ps : List Platform)
    → IsDistinct set
    → IsDistinct (image_architectures h set ps)
unfolding image_architectures
image_architectures-IsDistinct h set [] d = d
image_architectures-IsDistinct h set (p ∷ ps) d = elim (Bool-cases (is_usable h p)) [
  | inl u ↦ rw u (
      image_architectures-IsDistinct h (add p.architecture set) ps
        (add-IsDistinct p.architecture set d))
  | inr n ↦ rw n (image_architectures-IsDistinct h set ps d)
]

contains-receive_all :
    (h : Handler) (common : List String) (arrivals : List Arrival) (a : String)
    → contains (receive_all h (record { first_image = false; common = common }) arrivals).common a
      ≡ (contains common a && all (arrival_offers h a) arrivals)
unfolding receive_all contains
contains-receive_all h common [] a = ground arith
contains-receive_all h common (failed image ∷ arrivals) a = contains-receive_all h common arrivals a
contains-receive_all h common (arrived image ps ∷ arrivals) a =
    let archs = image_architectures h [] ps in
    ground (
      arith,
      contains-receive_all h (keep (contains archs) common) arrivals a,
      contains-keep (contains archs) common a,
      contains-image_architectures h [] ps a,
    )

-- An architecture is common exactly if some image was resolved and every resolved one offers it.
pub contains-common_architectures :
    (h : Handler) (arrivals : List Arrival) (a : String)
    → contains (common_architectures h arrivals).common a
      ≡ (any is_arrived arrivals && all (arrival_offers h a) arrivals)
unfolding common_architectures contains
contains-common_architectures h [] a = refl
contains-common_architectures h (failed image ∷ arrivals) a =
    contains-common_architectures h arrivals a
contains-common_architectures h (arrived image ps ∷ arrivals) a = ground (
  arith,
  contains-receive_all h (image_architectures h [] ps) arrivals a,
  contains-image_architectures h [] ps a,
)

not-first_receive :
    (h : Handler) (common : List String) (arrivals : List Arrival)
    → (receive_all h (record { first_image = false; common = common }) arrivals).first_image ≡ false
unfolding receive_all
not-first_receive h common [] = refl
not-first_receive h common (failed image ∷ arrivals) = not-first_receive h common arrivals
not-first_receive h common (arrived image ps ∷ arrivals) =
    not-first_receive h (keep (contains (image_architectures h [] ps)) common) arrivals

-- `firstImage` stays set exactly if no image was resolved.
pub first_image-common_architectures :
    (h : Handler) (arrivals : List Arrival)
    → (common_architectures h arrivals).first_image ≡ not (any is_arrived arrivals)
unfolding common_architectures
first_image-common_architectures h [] = refl
first_image-common_architectures h (failed image ∷ arrivals) =
    first_image-common_architectures h arrivals
first_image-common_architectures h (arrived image ps ∷ arrivals) = not-first_receive h _ arrivals

receive_platforms-IsDistinct :
    (first : Bool) (common archs : List String)
    → IsDistinct common
    → IsDistinct archs
    → IsDistinct (receive_platforms first common archs)
unfolding receive_platforms
receive_platforms-IsDistinct true common archs d e = e
receive_platforms-IsDistinct false common archs d e = keep-IsDistinct (contains archs) common d

receive_all-IsDistinct :
    (h : Handler) (c : Collected) (arrivals : List Arrival)
    → IsDistinct c.common
    → IsDistinct (receive_all h c arrivals).common
unfolding receive_all
receive_all-IsDistinct h c [] d = d
receive_all-IsDistinct h c (failed image ∷ arrivals) d = receive_all-IsDistinct h c arrivals d
receive_all-IsDistinct h c (arrived image ps ∷ arrivals) d =
    receive_all-IsDistinct h (receive h c (arrived image ps)) arrivals (
      receive_platforms-IsDistinct c.first_image c.common (image_architectures h [] ps) d
        (image_architectures-IsDistinct h [] ps tt))

pub common_architectures-IsDistinct :
    (h : Handler) (arrivals : List Arrival) → IsDistinct (common_architectures h arrivals).common
unfolding common_architectures
common_architectures-IsDistinct h arrivals = receive_all-IsDistinct h _ arrivals tt

-- ===== src/Hook/Architectures.antt =====
-- pkg/arch/hook.go, the part of updatePodSpec that asks the registry, one goroutine for each
-- image, and intersects the architectures in the order in which the answers arrive.
pub mod Members
pub mod Order
use noe.Common.{
  Bool, true, false, ◌&&◌, not, String, Option, none, some, List, [], ◌∷◌, ◌==◌, keep, Picks,
  if◌then◌else◌,
}
use noe.Common.Sets.{contains, add}
use noe.Hook.{Platform, Handler, Metric, registry_errors, is_arch_supported}

-- How a goroutine ends: it sends an imageArchResult, or it counts an error and sends nothing.
pub data Arrival : Type 0 where
  arrived : String → List Platform → Arrival
  failed : String → Arrival

answered : String → Option (List Platform) → Arrival
answered image none = failed image
answered image (some platforms) = arrived image platforms

-- The goroutine for one image, over h.Registry.ListArchs.
unfoldable pub ask : (String → String → Option (List Platform)) → String → String → Arrival
unfolding answered
ask list_archs secret image = answered image (list_archs secret image)

-- The goroutines of the images end one after another, in any order.
pub data Runs (goroutine : String → Arrival) : List String → List Arrival → Type 0 where
  closed : Runs goroutine [] []
  ends :
      {image : String} {running rest : List String} {arrivals : List Arrival}
      → Picks image running rest
      → Runs goroutine rest arrivals
      → Runs goroutine running (goroutine image ∷ arrivals)

-- The `continue`s of the loop over the platforms.
unfoldable pub is_usable : Handler → Platform → Bool
unfolding is_arch_supported
is_usable h p =
    if not (p.os == "") && not (p.os == h.system_os)
    then false
    else is_arch_supported h p.architecture

-- imageArchitectures, the loop over the platforms of one image
unfoldable pub image_architectures : Handler → List String → List Platform → List String
unfolding is_usable
image_architectures h set [] = set
image_architectures h set (p ∷ ps) =
    image_architectures h (if is_usable h p then add p.architecture set else set) ps

-- The variables of the loop over the channel.
pub record Collected : Type 0 where
  pub first_image : Bool
  pub common : List String

receive_platforms : Bool → List String → List String → List String
receive_platforms true common archs = archs
receive_platforms false common archs = keep (contains archs) common

receive : Handler → Collected → Arrival → Collected
receive h c (failed image) = c
receive h c (arrived image platforms) = record {
  first_image = false;
  common = receive_platforms c.first_image c.common (image_architectures h [] platforms);
}

unfoldable pub receive_all : Handler → Collected → List Arrival → Collected
unfolding receive receive_platforms image_architectures
receive_all h c [] = c
receive_all h c (a ∷ arrivals) = receive_all h (receive h c a) arrivals

-- commonArchitectures and firstImage after the loop
unfoldable pub common_architectures : Handler → List Arrival → Collected
unfolding receive_all
common_architectures h arrivals =
    receive_all h (record { first_image = true; common = [] }) arrivals

-- The increments that the goroutines make.
unfoldable pub registry_metrics : List Arrival → List Metric
registry_metrics [] = []
registry_metrics (failed image ∷ arrivals) = registry_errors image ∷ registry_metrics arrivals
registry_metrics (arrived image platforms ∷ arrivals) = registry_metrics arrivals

-- ===== src/Hook/Update.antt =====
-- pkg/arch/hook.go, updatePodSpec.
pub mod Order
pub mod Placement
pub mod Frame
pub mod Errors
use Prim.Native.String
use noe.Common.{
  Bool, true, false, ◌&&◌, not, String, Option, none, some, List, [], ◌∷◌, ◌++◌, ◌==◌, is_empty,
  if◌then◌else◌,
}
use noe.Common.Maps.{Map, lookup, insert}
use noe.Common.Sets.{contains}
use noe.Common.Sorting.{sort}
use noe.Kube.{PodSpec}
use noe.Hook.{
  Platform, Handler, Metric, image_pull_secret_failed, update_skipped, arch_selector_injected,
  arch_key, is_arch_supported,
}
use noe.Hook.Secrets.{SecretReader, get_image_pull_secret}
use noe.Hook.Selection.{node_architecture_selection, entries, get_container_images}
use noe.Hook.Labels.{Progress, in_term, append_term, add_pod_node_matching_labels}
use noe.Hook.Architectures.{Arrival, Runs, ask, Collected, common_architectures, registry_metrics}

-- How the goroutines for the images of the containers and the init containers may end, each over
-- h.Registry.ListArchs with the merged pull secret.
abbrev pub Answers :
    (String → String → Option (List Platform))
    → SecretReader
    → String
    → PodSpec
    → List Arrival
    → Type 0
Answers list_archs secrets ns spec arrivals =
    Runs (ask list_archs (get_image_pull_secret secrets ns spec).0)
      (get_container_images (spec.containers ∷ spec.init_containers ∷ [])) arrivals

-- An error of updatePodSpec: the type `warning`, or any other error.
pub data UpdateError : Type 0 where
  warning : String → UpdateError
  failure : String → UpdateError

-- The changed pod spec, the increments, and the error that is returned.
pub record Outcome : Type 0 where
  pub spec : PodSpec
  pub metrics : List Metric
  pub error : Option UpdateError

-- preferredArch, preferredArchDefined and preferredArchIsDefault
pub record Preference : Type 0 where
  pub arch : String
  pub defined : Bool
  pub is_default : Bool

-- podLabels["arch.noe.adevinta.com/preferred"]
abbrev pub preferred_label : String
preferred_label = "arch.noe.adevinta.com/preferred"

user_preference : Option String → Preference
user_preference none = record { arch = ""; defined = false; is_default = false }
user_preference (some a) = record { arch = a; defined = true; is_default = false }

drop_unsupported : Handler → Preference → Preference
drop_unsupported h p =
    if not (p.arch == "") && not (is_arch_supported h p.arch) then record p { arch = "" } else p

default_preference : Handler → Preference → Preference
default_preference h p =
    if p.arch == "" && not (h.preferred_architecture == "")
    then record { arch = h.preferred_architecture; defined = true; is_default = true }
    else p

unfoldable pub preference : Handler → Map String → Preference
unfolding user_preference drop_unsupported default_preference
preference h labels =
    default_preference h (drop_unsupported h (user_preference (lookup preferred_label labels)))

-- The branch that sets the node selector.
unfoldable pub select_arch : String → String → Progress → Progress
select_arch ns arch p = record {
  spec = record p.spec {
    node_selector = some (insert arch_key arch (entries p.spec.node_selector));
  };
  metrics = p.metrics ++ arch_selector_injected ns "preferred" ∷ [];
}

-- The branch that appends a term to the required node affinity.
unfoldable pub select_affinity : String → List String → Progress → Progress
unfolding append_term
select_affinity ns archs p = record {
  spec = append_term (in_term arch_key archs) p.spec;
  metrics = p.metrics ++ arch_selector_injected ns "affinity" ∷ [];
}

-- The state when the channel is closed: the errors of the pull secret and of the registry are
-- counted.
unfoldable pub started : SecretReader → String → PodSpec → List Arrival → Progress
started secrets ns spec arrivals = record {
  spec = spec;
  metrics =
      (if (get_image_pull_secret secrets ns spec).1 then image_pull_secret_failed ns ∷ [] else [])
      ++ registry_metrics arrivals;
}

module _ (h : Handler) (ns : String) (labels : Map String) where
  -- addPodNodeMatchingLabels, and the return
  unfoldable pub finish : Progress → Option UpdateError → Outcome
  unfolding add_pod_node_matching_labels
  finish p e =
      let q = add_pod_node_matching_labels h ns labels p in
      record { spec = q.spec; metrics = q.metrics; error = e }

  -- The preferred architecture if it is common, else any of the common ones.
  unfoldable pub inject : Preference → List String → Progress → Outcome
  unfolding select_arch select_affinity
  inject pref common p =
      if contains common pref.arch && pref.defined
      then finish (select_arch ns pref.arch p) none
      else finish (select_affinity ns (sort common) p) (
          if pref.defined && not pref.is_default
          then some (warning (String.◌++◌ "could not select preferred arch: " pref.arch))
          else none)

  -- What follows the loop over the channel.
  unfoldable pub decide : Preference → Collected → Progress → Outcome
  decide pref c p =
      if c.first_image
      then finish p none
      else if is_empty c.common
      then finish p
          (some (failure "could not find a common image architecture across all containers"))
      else inject pref c.common p

  -- The part of updatePodSpec for a pod that is neither scheduled nor selects an architecture.
  resolve : SecretReader → PodSpec → List Arrival → Outcome
  unfolding started
  resolve secrets spec arrivals =
      decide (preference h labels) (common_architectures h arrivals)
        (started secrets ns spec arrivals)

  update_unscheduled : SecretReader → PodSpec → List Arrival → Option String → Outcome
  update_unscheduled secrets spec arrivals none = resolve secrets spec arrivals
  update_unscheduled secrets spec arrivals (some reason) =
      finish (record { spec = spec; metrics = update_skipped reason ∷ [] }) none

  -- (*Handler).updatePodSpec, when the goroutines end as `arrivals` says
  unfoldable pub update_pod_spec : SecretReader → PodSpec → List Arrival → Outcome
  unfolding resolve update_unscheduled
  update_pod_spec secrets spec arrivals =
      if not (spec.node_name == "")
      then record { spec = spec; metrics = []; error = none }
      else update_unscheduled secrets spec arrivals (node_architecture_selection spec)

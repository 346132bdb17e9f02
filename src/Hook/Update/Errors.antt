-- ===== src/Hook/Update/Errors.antt =====
-- The error that updatePodSpec returns, and what it makes of the pod's preferred architecture.
use noe.Common.{
  and_elim, Bool, true, false, ◌&&◌, not, String, Option, none, some, List, [], ◌∷◌, ◌==◌, ◌≡◌, ◌≢◌,
  ◌↔◌, refl, arith, eq_iff, eq_refl, any, all, is_empty, if◌then◌else◌, ap, ◌∙◌,
}
use noe.Common.Maps.{Map, lookup}
use noe.Common.Sets.{contains}
use noe.Kube.{PodSpec}
use noe.Hook.{Handler, is_arch_supported}
use noe.Hook.Architectures.{Arrival, Collected, common_architectures}
use noe.Hook.Architectures.Members.{
  is_arrived, arrival_offers, contains-common_architectures, first_image-common_architectures,
}
use noe.Hook.Secrets.{SecretReader}
use noe.Hook.Selection.{node_architecture_selection}
use noe.Hook.Labels.{Progress}
use noe.Hook.Update.Placement.{not-first_image}
use noe.Hook.Update.{
  UpdateError, warning, failure, Preference, finish, inject, decide, started, preference,
  preferred_label, update_pod_spec, user_preference, drop_unsupported, default_preference, resolve,
  update_unscheduled,
}

-- An error that makes the admission hook deny the pod.
abbrev pub is_failure : Option UpdateError → Bool
is_failure none = false
is_failure (some (warning m)) = false
is_failure (some (failure m)) = true

-- The text of the only error that refuses a pod.
abbrev pub failure_text : String
failure_text = "could not find a common image architecture across all containers"

is_empty_iff : (s : List String) → (is_empty s ≡ true) ↔ ((a : String) → contains s a ≡ false)
unfolding contains
is_empty_iff [] = (λ _ a. refl, λ _. refl)
is_empty_iff (x ∷ xs) = (λ h a. cc h, λ h. ground (arith, h x, eq_refl x))

module _ (h : Handler) (ns : String) (labels : Map String) where
  is_failure-inject :
      (pref : Preference) (common : List String) (p : Progress)
      → is_failure (inject h ns labels pref common p).error ≡ false
  unfolding inject finish
  is_failure-inject pref common p = ground arith

  is_failure-decide :
      (pref : Preference) (c : Collected) (p : Progress)
      → is_failure (decide h ns labels pref c p).error ≡ (not c.first_image && is_empty c.common)
  unfolding decide finish
  is_failure-decide pref c p = ground (arith, is_failure-inject pref c.common p)

  module _ (secrets : SecretReader) (spec : PodSpec) (arrivals : List Arrival) where
    update-decide :
        spec.node_name ≡ ""
        → node_architecture_selection spec ≡ none
        → update_pod_spec h ns labels secrets spec arrivals
          ≡ decide h ns labels
              (preference h labels)
              (common_architectures h arrivals)
              (started secrets ns spec arrivals)
    unfolding update_pod_spec
    update-decide unscheduled unselected =
        let named : (spec.node_name == "") ≡ true = (eq_iff _ _).1 unscheduled in
        rw (named, unselected, update_unscheduled, resolve)

no_common_iff :
    (h : Handler) (arrivals : List Arrival)
    → ((not (common_architectures h arrivals).first_image
          && is_empty (common_architectures h arrivals).common)
        ≡ true)
      ↔ ((any is_arrived arrivals ≡ true)
          × ((a : String) → all (arrival_offers h a) arrivals ≡ false))
no_common_iff h arrivals = (
  λ e.
      let (first, empty) =
        and_elim (not (common_architectures h arrivals).first_image)
          (is_empty (common_architectures h arrivals).common) e in
      let arrived : any is_arrived arrivals ≡ true =
        ground (arith, first_image-common_architectures h arrivals) in
      (
        arrived,
        λ a. ground (
          arith,
          contains-common_architectures h arrivals a,
          (is_empty_iff (common_architectures h arrivals).common).0 empty a,
        ),
      ),
  λ (arrived, offers).
      let empty : is_empty (common_architectures h arrivals).common ≡ true =
        (is_empty_iff (common_architectures h arrivals).common).1
          (λ a. contains-common_architectures h arrivals a ∙ rw (arrived, offers a)) in
      ground (arith, first_image-common_architectures h arrivals),
)

-- A pod that is neither scheduled nor selects an architecture is refused exactly if the registry
-- resolved some image and no architecture is offered by every resolved image.
pub update_pod_spec_failure_iff :
    (h : Handler) (ns : String) (labels : Map String) (secrets : SecretReader) (spec : PodSpec)
    (arrivals : List Arrival)
    → spec.node_name ≡ ""
    → node_architecture_selection spec ≡ none
    → (is_failure (update_pod_spec h ns labels secrets spec arrivals).error ≡ true) ↔ (
        (any is_arrived arrivals ≡ true)
        × ((a : String) → all (arrival_offers h a) arrivals ≡ false))
update_pod_spec_failure_iff h ns labels secrets spec arrivals unscheduled unselected =
    rw (update-decide h ns labels secrets spec arrivals unscheduled unselected, is_failure-decide)
      (no_common_iff h arrivals)

drop_unsupported_lem :
    (h : Handler) (a : String)
    → (a == "") ≡ false
    → is_arch_supported h a ≡ false
    → drop_unsupported h (record { arch = a; defined = true; is_default = false })
      ≡ record { arch = ""; defined = true; is_default = false }
unfolding preference
drop_unsupported_lem h a n u = rw (n, u)

default_preference_lem :
    (h : Handler)
    → default_preference h (record { arch = ""; defined = true; is_default = false }) ≡ (
        if h.preferred_architecture == ""
        then record { arch = ""; defined = true; is_default = false }
        else record { arch = h.preferred_architecture; defined = true; is_default = true })
unfolding preference
default_preference_lem h = ground arith

-- A pod's label for an architecture that the cluster cannot schedule gives way to the configured
-- preference; where none is configured, the preference is defined and empty.
preference_unsupported :
    (h : Handler) (labels : Map String) (a : String)
    → lookup preferred_label labels ≡ some a
    → is_arch_supported h a ≡ false
    → a ≢ ""
    → preference h labels ≡ (
        if h.preferred_architecture == ""
        then record { arch = ""; defined = true; is_default = false }
        else record { arch = h.preferred_architecture; defined = true; is_default = true })
unfolding preference
preference_unsupported h labels a e u ne =
    ap (λ o. default_preference h (drop_unsupported h (user_preference o))) e
    ∙ (ap (default_preference h) (drop_unsupported_lem h a not_empty u) ∙ default_preference_lem h)
  where
    not_empty : (a == "") ≡ false
    not_empty = ground (arith, eq_iff a "")

-- A pod that is neither scheduled nor selects an architecture, whose images have a common
-- architecture and none the empty one, and whose label names an architecture that the cluster
-- cannot schedule, gets a warning that names no architecture, where no preference is configured:
-- its label is not just ignored.
pub update_pod_spec_unsupported_warns :
    (h : Handler) (ns : String) (labels : Map String) (secrets : SecretReader) (spec : PodSpec)
    (arrivals : List Arrival) (a : String)
    → spec.node_name ≡ ""
    → node_architecture_selection spec ≡ none
    → is_empty (common_architectures h arrivals).common ≡ false
    → contains (common_architectures h arrivals).common "" ≡ false
    → lookup preferred_label labels ≡ some a
    → is_arch_supported h a ≡ false
    → a ≢ ""
    → h.preferred_architecture ≡ ""
    → (update_pod_spec h ns labels secrets spec arrivals).error
      ≡ some (warning "could not select preferred arch: ")
unfolding decide inject finish
update_pod_spec_unsupported_warns h ns labels secrets spec arrivals a n s f c e u ne d =
    let unset : (h.preferred_architecture == "") ≡ true = (eq_iff _ _).1 d in
    rw (
      update-decide h ns labels secrets spec arrivals n s,
      preference_unsupported h labels a e u ne,
      unset,
      not-first_image h arrivals f,
      f,
      c,
    )

-- The only failure is the lack of a common architecture.
failure_only :
    (h : Handler) (ns : String) (labels : Map String) (pref : Preference) (c : Collected)
    (p : Progress)
    → is_failure (decide h ns labels pref c p).error ≡ true
    → (decide h ns labels pref c p).error ≡ some (failure failure_text)
unfolding decide finish inject
failure_only h ns labels pref c p e = ground arith

-- Whenever it fails, it says that no architecture is common.
pub update_pod_spec-failure_text :
    (h : Handler) (ns : String) (labels : Map String) (secrets : SecretReader) (spec : PodSpec)
    (arrivals : List Arrival)
    → spec.node_name ≡ ""
    → node_architecture_selection spec ≡ none
    → is_failure (update_pod_spec h ns labels secrets spec arrivals).error ≡ true
    → (update_pod_spec h ns labels secrets spec arrivals).error ≡ some (failure failure_text)
update_pod_spec-failure_text h ns labels secrets spec arrivals n s e =
    let same = update-decide h ns labels secrets spec arrivals n s in
    rw same (
      failure_only h ns labels (preference h labels) (common_architectures h arrivals)
        (started secrets ns spec arrivals) (rw same at e))

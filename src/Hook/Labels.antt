-- ===== src/Hook/Labels.antt =====
-- pkg/arch/hook.go, addPodNodeMatchingLabels, and the append of a term to the required affinity
-- that updatePodSpec repeats.
pub mod Placement
pub mod Matching
use noe.Common.{String, Option, none, some, List, [], ◌∷◌, ◌++◌}
use noe.Common.Maps.{Map, lookup, insert}
use noe.Kube.{Operator, Term, NodeSelector, NodeAffinity, Affinity, PodSpec}
use noe.Hook.{Handler, Metric, node_match_selector}

-- A term with one requirement `key In values`.
abbrev pub in_term : String → List String → Term
in_term key values = record {
  match_expressions = record { key = key; operator = Operator.is_in; values = values } ∷ [];
  match_fields = [];
}

unfoldable pub append_required : Term → Option NodeSelector → NodeSelector
append_required t none = record { terms = [] ++ t ∷ [] }
append_required t (some s) = record { terms = s.terms ++ t ∷ [] }

unfoldable pub append_node_affinity : Term → Option NodeAffinity → NodeAffinity
append_node_affinity t none = record { required = some (append_required t none); unread = "" }
append_node_affinity t (some a) = record a { required = some (append_required t a.required) }

unfoldable pub append_affinity : Term → Option Affinity → Affinity
append_affinity t none = record { node_affinity = some (append_node_affinity t none); unread = "" }
append_affinity t (some a) = record a {
  node_affinity = some (append_node_affinity t a.node_affinity);
}

-- The nil pointers on the way are filled, and the term comes last.
unfoldable pub append_term : Term → PodSpec → PodSpec
unfolding append_required append_node_affinity append_affinity
append_term t spec = record spec { affinity = some (append_affinity t spec.affinity) }

-- The pod spec that is being changed, and the increments so far.
pub record Progress : Type 0 where
  pub spec : PodSpec
  pub metrics : List Metric

-- The two branches on `podSpec.NodeSelector == nil`.
unfoldable pub constrain : String → String → Option (Map String) → PodSpec → PodSpec
unfolding append_term
constrain key val none spec = append_term (in_term key (val ∷ [])) spec
constrain key val (some sel) spec = record spec { node_selector = some (insert key val sel) }

-- One round of the loop, given `podLabels[key]`.
unfoldable pub match_label : String → String → Option String → Progress → Progress
unfolding constrain
match_label ns key none p = p
match_label ns key (some val) p = record {
  spec = constrain key val p.spec.node_selector p.spec;
  metrics = p.metrics ++ node_match_selector ns key ∷ [];
}

unfoldable pub match_labels : String → Map String → List String → Progress → Progress
unfolding match_label
match_labels ns labels [] p = p
match_labels ns labels (key ∷ keys) p =
    match_labels ns labels keys (match_label ns key (lookup key labels) p)

-- (*Handler).addPodNodeMatchingLabels
unfoldable pub add_pod_node_matching_labels : Handler → String → Map String → Progress → Progress
unfolding match_labels
add_pod_node_matching_labels h ns labels p = match_labels ns labels h.match_node_labels p

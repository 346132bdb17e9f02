-- ===== src/Hook/Examples.antt =====
-- pkg/arch/hook.go, updatePodSpec on concrete pods.
use noe.Common.{
  true, false, ◌&&◌, ◌||◌, String, none, some, [], ◌∷◌, ◌≡◌, ◌↔◌, ◌==◌, Bool-cases, inl, inr, subst,
  refl, any, all, here, there, arith, eq_iff,
}
use noe.Common.Maps.{Map, lookup, insert}
use noe.Common.Sets.{contains, add}
use noe.Kube.{NodeSelector, Operator, PodSpec, Node}
use noe.Kube.Scheduling.{admits, has_value, term_holds}
use noe.Hook.{arch_key, is_arch_supported}
use noe.Hook.Architectures.{Arrival, closed, ends, ask, common_architectures, is_usable}
use noe.Hook.Architectures.Members.{is_arrived, arrival_offers}
use noe.Hook.Secrets.{get_image_pull_secret}
use noe.Hook.Selection.{node_architecture_selection, affinity_terms, get_container_images}
use noe.Hook.Labels.{Progress, add_pod_node_matching_labels}
use noe.Hook.Labels.Matching.{carries, shares, matched_labels_widen}
use noe.Hook.Update.{preference, update_pod_spec, Answers, decide, inject, finish}
use noe.Hook.Update.Placement.{
  Constrains, target, runs_on, update_pod_spec_placement, update_pod_spec_runs_everywhere,
  update_pod_spec_own_terms,
}
use noe.Hook.Update.Order.{SameResult, update_pod_spec_order}
use noe.Hook.Update.Errors.{is_failure, update_pod_spec_failure_iff}
use noe.Hook.Update.Frame.{Extends, update_pod_spec-Extends}
use noe.Hook.TestData.{
  prefers_arm, only_amd, no_secrets, web, registry, both_answers, disjoint_answers, amd_answers,
  node, no_other,
}

web-Constrains : Constrains prefers_arm [] web both_answers
unfolding node_architecture_selection common_architectures lookup add contains
web-Constrains = record { unscheduled = refl; unselected = refl; found = refl; unlabelled = refl }

update_pod_spec_placement_example :
    admits no_other
      (node "arm64")
      (update_pod_spec prefers_arm "ns" [] no_secrets web both_answers).spec
    ≡ (admits no_other (node "arm64") web
        && runs_on (node "arm64") (
            target
              (preference prefers_arm [])
              (common_architectures prefers_arm both_answers).common))
update_pod_spec_placement_example =
    update_pod_spec_placement prefers_arm "ns" [] no_secrets web both_answers no_other
      (node "arm64") web-Constrains refl

placed :
    admits no_other
      (node "arm64")
      (update_pod_spec prefers_arm "ns" [] no_secrets web both_answers).spec
    ≡ true
unfolding admits update_pod_spec has_value contains common_architectures lookup
    node_architecture_selection preference add_pod_node_matching_labels decide add inject finish
    insert
placed = refl

not_placed :
    admits no_other
      (node "amd64")
      (update_pod_spec prefers_arm "ns" [] no_secrets web both_answers).spec
    ≡ false
unfolding admits update_pod_spec has_value contains common_architectures lookup
    node_architecture_selection preference add_pod_node_matching_labels decide add inject finish
    insert
not_placed = refl

update_pod_spec_runs_everywhere_example :
    (a : String) × (lookup arch_key (node "arm64").labels ≡ some a)
    × (all (arrival_offers prefers_arm a) both_answers ≡ true)
update_pod_spec_runs_everywhere_example =
    update_pod_spec_runs_everywhere prefers_arm "ns" [] no_secrets web both_answers no_other
      (node "arm64") web-Constrains refl placed

abbrev answer_of : String → Arrival
answer_of image = ask registry "" image

in_order : Answers registry no_secrets "ns" web (answer_of "web" ∷ answer_of "proxy" ∷ [])
unfolding get_container_images get_image_pull_secret
in_order = ends here (ends here closed)

overtaking : Answers registry no_secrets "ns" web (answer_of "proxy" ∷ answer_of "web" ∷ [])
unfolding get_container_images get_image_pull_secret
overtaking = ends (there here) (ends here closed)

update_pod_spec_order_example :
    SameResult
      (update_pod_spec prefers_arm "ns" [] no_secrets web
        (answer_of "web" ∷ answer_of "proxy" ∷ []))
      (update_pod_spec prefers_arm "ns" [] no_secrets web
        (answer_of "proxy" ∷ answer_of "web" ∷ []))
update_pod_spec_order_example =
    update_pod_spec_order prefers_arm "ns" [] registry no_secrets web in_order overtaking

pub web_unselected : node_architecture_selection web ≡ none
unfolding node_architecture_selection lookup
web_unselected = refl

apart : (a : String) → ("amd64" == a && "arm64" == a) ≡ false
apart a = elim (Bool-cases ("amd64" == a)) [
  | inl e ↦ subst (λ z. ("amd64" == z && "arm64" == z) ≡ false) ((eq_iff "amd64" a).0 e) refl
  | inr n ↦ rw n refl
]

pub nobody_offers : (a : String) → all (arrival_offers prefers_arm a) disjoint_answers ≡ false
unfolding is_usable is_arch_supported
nobody_offers a = ground (arith, apart a)

update_pod_spec_failure_iff_example :
    (is_failure (update_pod_spec prefers_arm "ns" [] no_secrets web disjoint_answers).error ≡ true)
    ↔ ((any is_arrived disjoint_answers ≡ true)
        × ((a : String) → all (arrival_offers prefers_arm a) disjoint_answers ≡ false))
update_pod_spec_failure_iff_example =
    update_pod_spec_failure_iff prefers_arm "ns" [] no_secrets web disjoint_answers refl
      web_unselected

disjoint_fails :
    is_failure (update_pod_spec prefers_arm "ns" [] no_secrets web disjoint_answers).error ≡ true
disjoint_fails =
    (update_pod_spec_failure_iff prefers_arm "ns" [] no_secrets web disjoint_answers refl
        web_unselected).1
      (refl, nobody_offers)

update_pod_spec-Extends_example :
    Extends ("team" ∷ []) web (update_pod_spec prefers_arm "ns" [] no_secrets web both_answers).spec
update_pod_spec-Extends_example =
    update_pod_spec-Extends prefers_arm "ns" [] no_secrets web both_answers

abbrev ssd : NodeSelector
ssd = record {
  terms =
      record {
        match_expressions =
            record { key = "disk"; operator = Operator.is_in; values = "ssd" ∷ [] } ∷ [];
        match_fields = [];
      }
      ∷ [];
}

-- A pod with a required node affinity of its own
abbrev database : PodSpec
database = record web {
  affinity =
      some (record {
        node_affinity = some (record { required = some ssd; unread = "" });
        unread = "";
      });
}

abbrev ssd_node : Node
ssd_node = record { name = "n"; labels = (arch_key, "arm64") ∷ ("disk", "ssd") ∷ [] }

database-Constrains : Constrains only_amd [] database amd_answers
unfolding node_architecture_selection lookup common_architectures contains add
database-Constrains = record {
  unscheduled = refl;
  unselected = refl;
  found = refl;
  unlabelled = refl;
}

database-admits : admits no_other ssd_node database ≡ true
unfolding admits term_holds lookup contains
database-admits = refl

no_preference :
    contains (common_architectures only_amd amd_answers).common (preference only_amd []).arch
    ≡ false
unfolding contains common_architectures add preference lookup
no_preference = refl

-- A pod for amd64 alone may be placed on an arm64 node.
update_pod_spec_own_terms_example :
    admits no_other ssd_node (update_pod_spec only_amd "ns" [] no_secrets database amd_answers).spec
    ≡ true
update_pod_spec_own_terms_example =
    update_pod_spec_own_terms only_amd "ns" [] no_secrets database amd_answers no_other ssd_node ssd
      database-Constrains refl no_preference database-admits

abbrev blue : Map String
blue = ("team", "blue") ∷ []

abbrev selecting : Progress
selecting = record { spec = record web { node_selector = some [] }; metrics = [] }

abbrev not_selecting : Progress
not_selecting = record { spec = web; metrics = [] }

blue_admitted :
    admits no_other
      (node "amd64")
      (add_pod_node_matching_labels prefers_arm "ns" blue selecting).spec
    ≡ true
unfolding admits add_pod_node_matching_labels lookup insert
blue_admitted = refl

lists_team : contains prefers_arm.match_node_labels "team" ≡ true
unfolding contains
lists_team = refl

blue_team : lookup "team" blue ≡ some "blue"
unfolding lookup
blue_team = refl

carries_team : any (carries blue) prefers_arm.match_node_labels ≡ true
unfolding lookup
carries_team = refl

matched_labels_widen_example :
    admits no_other
      (node "amd64")
      (add_pod_node_matching_labels prefers_arm "ns" blue not_selecting).spec
    ≡ (any (term_holds no_other (node "amd64")) (affinity_terms not_selecting.spec.affinity)
        || any (shares blue (node "amd64")) prefers_arm.match_node_labels)
matched_labels_widen_example =
    matched_labels_widen prefers_arm "ns" blue no_other not_selecting (node "amd64") refl
      carries_team

-- ===== src/Controller/Examples.antt =====
-- pkg/controllers/pod.go on concrete pods.
use noe.Controller.Events.{delete_pod_and_notify_user}
use noe.Hook.Selection.{get_container_images, node_architecture_selection}
use noe.Common.{
  ◌+◌, true, false, String, Option, none, some, List, [], ◌∷◌, ◌≡◌, ◌≢◌, refl, arith, eq_iff, ◌==◌,
  if◌then◌else◌,
}
use noe.Common.Maps.{lookup}
use noe.Kube.{Object, Container, OwnerReference, Pod}
use noe.Hook.{Platform}
use noe.Controller.{pos, Reconciler}
use noe.Controller.Statistics.{is_image_cached, add_to_cache, increment_platform_statistics}
use noe.Controller.Counting.{IsCounted, CountsTo, occurrences, total}
use noe.Controller.Reconcile.{
  found, Environment, node_platform, is_stateful_set, pod_is_ready, pod_image_list, reconcile,
  pod_scheduled_on_matching_node, check_images, node_label,
}
use noe.Controller.Invariant.{reconcile-IsCounted, counts_again}
use noe.Controller.Evictions.{Misplaced, deletion, reconcile_deletes}
use noe.Controller.Leaks.{reconcile_again_counts, CountsFirst}

abbrev pub amd : Platform
amd = record { architecture = "amd64"; os = "linux"; variant = "" }

abbrev app : Object
app = record { api_version = "v1"; kind = "Pod"; name = "app"; namespace = "ns"; uid = "1" }

abbrev pod_of : List OwnerReference → List Container → Pod
pod_of owners containers = record {
  object = app;
  labels = [];
  owner_references = owners;
  spec = record {
    node_name = "n";
    node_selector = none;
    affinity = none;
    containers = containers;
    init_containers = [];
    image_pull_secrets = [];
    unread = "";
  };
  phase = "Pending";
  conditions = [];
}

abbrev container : String → Container
container image = record { image = image; unread = "" }

abbrev pub plain : Pod
plain = pod_of [] (container "img" ∷ [])

abbrev member : Pod
member =
    pod_of
      (record {
        api_version = "apps/v1";
        kind = "StatefulSet";
        name = "set";
        uid = "2";
        controller = none;
      }
        ∷ [])
      (container "img" ∷ [])

-- The registry knows the image "img" only.
abbrev half : Pod
half = pod_of [] (container "img" ∷ container "gone" ∷ [])

abbrev known_image : String → String → Option (List Platform)
known_image secret image = if image == "img" then some (amd ∷ []) else none

abbrev pub cluster : Pod → Environment
cluster pod = record {
  get_pod = λ _. found pod;
  get_node = λ _. some (record {
    name = "n";
    labels = ("kubernetes.io/os", "linux") ∷ ("kubernetes.io/arch", "arm64") ∷ [];
  });
  list_archs = known_image;
  secrets = record { get_secret = λ _ _. none; unmarshal = λ _. none; marshal = λ _. none };
  delete_fails = λ _. false;
}

abbrev empty : Reconciler
empty = record { pod_images = []; image_platforms = []; gauge = []; deletions = []; events = [] }

abbrev cached : Reconciler
cached = record {
  pod_images = ("ns/app", "img" ∷ []) ∷ [];
  image_platforms = ("img", record { platforms = amd ∷ []; refcount = pos 1 }) ∷ [];
  gauge = [];
  deletions = [];
  events = [];
}

empty-IsCounted : IsCounted empty
unfolding lookup
empty-IsCounted = record { distinct = tt; counted = λ image. refl }

cached-IsCounted : IsCounted cached
unfolding lookup
cached-IsCounted = record {
  distinct = (tt, tt);
  counted = λ image. ground (arith, eq_iff "img" image);
}

plain_succeeds : (reconcile (cluster plain) "ns" "ns/app" empty).succeeded ≡ true
unfolding reconcile is_stateful_set is_image_cached lookup pod_is_ready
    pod_scheduled_on_matching_node node_platform check_images get_container_images node_label
    node_architecture_selection
plain_succeeds = refl

plain_once : counts_again "ns/app" empty ((cluster plain).get_pod "ns/app") ≡ false
unfolding is_stateful_set
plain_once = refl

reconcile-IsCounted_example : IsCounted (reconcile (cluster plain) "ns" "ns/app" empty).state
reconcile-IsCounted_example =
    reconcile-IsCounted (cluster plain) "ns" "ns/app" empty empty-IsCounted plain_once
      plain_succeeds

one_deletion :
    (reconcile (cluster plain) "ns" "ns/app" empty).state.deletions
    ≡ record { pod = app; namespace = "ns"; status = "success" } ∷ []
unfolding reconcile is_stateful_set is_image_cached lookup pod_is_ready
    pod_scheduled_on_matching_node node_platform check_images get_container_images node_label
    node_architecture_selection delete_pod_and_notify_user add_to_cache
    increment_platform_statistics
one_deletion = refl

deletes : (reconcile (cluster plain) "ns" "ns/app" empty).state.deletions ≢ empty.deletions
deletes e = ground (arith, one_deletion)

reconcile_deletes_example :
    (pod : Pod) × ((cluster plain).get_pod "ns/app" ≡ found pod)
    × ((reconcile (cluster plain) "ns" "ns/app" empty).state.deletions ≡ deletion false pod ∷ [])
    × Misplaced (cluster plain) "ns" pod
reconcile_deletes_example = reconcile_deletes (cluster plain) "ns" "ns/app" empty deletes

member_stateful : is_stateful_set member ≡ true
unfolding is_stateful_set
member_stateful = refl

member_cached : lookup "ns/app" cached.pod_images ≡ some (pod_image_list member)
unfolding lookup get_container_images
member_cached = refl

member_succeeds : (reconcile (cluster member) "ns" "ns/app" cached).succeeded ≡ true
unfolding reconcile is_stateful_set pod_scheduled_on_matching_node node_platform check_images
    get_container_images node_label lookup node_architecture_selection
member_succeeds = refl

reconcile_again_counts_example :
    CountsTo
      (lookup "img" (reconcile (cluster member) "ns" "ns/app" cached).state.image_platforms)
      (occurrences "img" (pod_image_list member) + total "img" cached.pod_images)
    × (total "img" (reconcile (cluster member) "ns" "ns/app" cached).state.pod_images
        ≡ total "img" cached.pod_images)
reconcile_again_counts_example =
    reconcile_again_counts (cluster member) "ns" "ns/app" member cached "img" cached-IsCounted refl
      member_stateful member_cached member_succeeds

half_fresh : is_image_cached "ns/app" empty ≡ false
unfolding is_image_cached lookup
half_fresh = refl

half_unready : pod_is_ready half ≡ false
unfolding pod_is_ready
half_unready = refl

half_first : CountsFirst (cluster half) "ns" half "img"
unfolding get_container_images node_platform node_label lookup
half_first = record {
  rest = "gone" ∷ [];
  images = refl;
  node = record { os = "linux"; arch = "arm64" };
  readable = refl;
  platforms = amd ∷ [];
  resolved = refl;
}

half_fails : (reconcile (cluster half) "ns" "ns/app" empty).succeeded ≡ false
unfolding reconcile is_stateful_set is_image_cached lookup pod_is_ready
    pod_scheduled_on_matching_node node_platform check_images get_container_images
half_fails = refl

-- ===== src/Controller/Reconcile.antt =====
-- pkg/controllers/pod.go: Reconcile, podScheduledOnMatchingNode, isStatefulSet and podIsReady. The
-- API server and the registry are parameters.
use noe.Common.{
  Bool, true, false, ◌&&◌, ◌||◌, not, String, Option, none, some, List, [], ◌∷◌, ◌==◌, any, is_some,
  if◌then◌else◌,
}
use noe.Common.Maps.{lookup}
use noe.Kube.{OwnerReference, Condition, Pod, Node}
use noe.Hook.{Platform}
use noe.Hook.Secrets.{SecretReader, get_image_pull_secret}
use noe.Hook.Selection.{get_container_images, node_architecture_selection}
use noe.Controller.{Reconciler}
use noe.Controller.Statistics.{
  increment_platform_statistics, add_to_cache, is_image_cached, delete_from_cache,
}
use noe.Controller.Events.{delete_pod_and_notify_user}

-- What Client.Get returns for the pod of a request.
pub data Fetched : Type 0 where
  found : Pod → Fetched
  not_found : Fetched
  fetch_error : String → Fetched

-- What the reconciler asks of the API server and the registry. The name of a pod is the text of
-- its NamespacedName, and `delete_fails` says whether Client.Delete returns an error.
pub record Environment : Type 0 where
  pub get_pod : String → Fetched
  pub get_node : String → Option Node
  pub list_archs : String → String → Option (List Platform)
  pub secrets : SecretReader
  pub delete_fails : Pod → Bool

-- isStatefulSet
unfoldable pub is_stateful_set : Pod → Bool
is_stateful_set pod = any (λ (o : OwnerReference). o.kind == "StatefulSet") pod.owner_references

-- podIsReady
unfoldable pub pod_is_ready : Pod → Bool
pod_is_ready pod =
    if not (pod.phase == "Running")
    then false
    else any (λ (c : Condition). c.type_name == "Ready" && c.status == "True") pod.conditions

first_label : Option String → Option String → String
first_label (some v) beta = v
first_label none (some v) = v
first_label none none = ""

-- A node label, or its beta name, or "".
unfoldable pub node_label : Node → String → String → String
unfolding first_label
node_label n key beta = first_label (lookup key n.labels) (lookup beta n.labels)

-- The node's operating system and architecture, "" where it is not known.
pub record NodePlatform : Type 0 where
  pub os : String
  pub arch : String

unfoldable pub platform_of : Option Node → Option NodePlatform
platform_of none = none
platform_of (some n) = some (record {
  os = node_label n "kubernetes.io/os" "beta.kubernetes.io/os";
  arch = node_label n "kubernetes.io/arch" "beta.kubernetes.io/arch";
})

-- The platform of the pod's node; `none` is an error of Client.Get.
unfoldable pub node_platform : Environment → Pod → Option NodePlatform
unfolding platform_of
node_platform env pod =
    if not (pod.spec.node_name == "")
    then platform_of (env.get_node pod.spec.node_name)
    else some (record { os = ""; arch = "" })

-- A platform of the image fits the node, or the node's platform is not known.
abbrev pub matches : NodePlatform → List Platform → Bool
matches n platforms =
    if not (n.os == "") && not (n.arch == "")
    then any (λ (p : Platform). p.os == n.os && p.architecture == n.arch) platforms
    else true

-- The state, and podScheduledOnMatchingNode, `none` for an error.
pub record Checked : Type 0 where
  pub state : Reconciler
  pub matching : Option Bool

-- The loop over the images; an error of the registry returns at once.
unfoldable pub check_images :
    (String → Option (List Platform)) → NodePlatform → Bool → List String → Reconciler → Checked
check_images ask node so_far [] r = record { state = r; matching = some so_far }
check_images ask node so_far (image ∷ images) r = elim (ask image) [
  | none ↦ record { state = r; matching = none }
  | some platforms ↦
      check_images ask node (so_far && matches node platforms) images
        (increment_platform_statistics image platforms r)
]

unfoldable pub on_node :
    (String → Option (List Platform)) → Option NodePlatform → List String → Reconciler → Checked
on_node ask none images r = record { state = r; matching = none }
on_node ask (some node) images r = check_images ask node true images r

-- (*PodReconciler).podScheduledOnMatchingNode
unfoldable pub pod_scheduled_on_matching_node :
    Environment → String → Pod → List String → Reconciler → Checked
unfolding on_node
pod_scheduled_on_matching_node env namespace pod images r =
    on_node (env.list_archs (get_image_pull_secret env.secrets namespace pod.spec).0)
      (node_platform env pod) images r

-- The images of a pod, in the order in which the reconciler counts them.
abbrev pub pod_image_list : Pod → List String
pod_image_list pod = get_container_images (pod.spec.init_containers ∷ pod.spec.containers ∷ [])

-- The new state, and whether Reconcile returned no error.
pub record Reconciled : Type 0 where
  pub state : Reconciler
  pub succeeded : Bool

-- What follows the check, on its result.
unfoldable pub after_check : Environment → String → Pod → Reconciler → Option Bool → Reconciled
after_check env key pod r none = record { state = r; succeeded = false }
after_check env key pod r (some matching) =
    let cached = add_to_cache key (pod_image_list pod) r in
    if matching
    then record { state = cached; succeeded = true }
    else if is_some (node_architecture_selection pod.spec)
    then record { state = cached; succeeded = true }
    else record {
      state = delete_pod_and_notify_user (env.delete_fails pod) pod cached;
      succeeded = true;
    }

unfoldable pub reconcile_fetched : Environment → String → String → Fetched → Reconciler → Reconciled
unfolding after_check
reconcile_fetched env namespace key (fetch_error e) r = record { state = r; succeeded = false }
reconcile_fetched env namespace key not_found r = record {
  state = delete_from_cache key r;
  succeeded = true;
}
reconcile_fetched env namespace key (found pod) r =
    if not (is_stateful_set pod) && (is_image_cached key r || pod_is_ready pod)
    then record { state = r; succeeded = true }
    else let c = pod_scheduled_on_matching_node env namespace pod (pod_image_list pod) r in
      after_check env key pod c.state c.matching

-- (*PodReconciler).Reconcile, on a request's namespace and the text of its NamespacedName
unfoldable pub reconcile : Environment → String → String → Reconciler → Reconciled
unfolding reconcile_fetched
reconcile env namespace key r = reconcile_fetched env namespace key (env.get_pod key) r

-- ===== src/Hook/TestData.antt =====
-- Pods, handlers and answers of the registry for the examples.
use noe.Common.{Bool, false, String, Option, none, some, List, [], ◌∷◌}
use noe.Kube.{Container, Requirement, PodSpec, Node}
use noe.Hook.{Platform, Handler, arch_key}
use noe.Hook.Architectures.{Arrival, arrived}
use noe.Hook.Secrets.{SecretReader}

abbrev pub linux : String → Platform
linux arch = record { architecture = arch; os = "linux"; variant = "" }

abbrev pub prefers_arm : Handler
prefers_arm = record {
  match_node_labels = "team" ∷ [];
  preferred_architecture = "arm64";
  schedulable_architectures = [];
  system_os = "linux";
}

-- No preference, and only amd64 nodes
abbrev pub only_amd : Handler
only_amd = record {
  match_node_labels = "team" ∷ [];
  preferred_architecture = "";
  schedulable_architectures = "amd64" ∷ [];
  system_os = "linux";
}

abbrev pub no_secrets : SecretReader
no_secrets = record { get_secret = λ _ _. none; unmarshal = λ _. none; marshal = λ _. none }

abbrev pub container : String → Container
container image = record { image = image; unread = "" }

abbrev pub web : PodSpec
web = record {
  node_name = "";
  node_selector = none;
  affinity = none;
  containers = container "web" ∷ container "proxy" ∷ [];
  init_containers = [];
  image_pull_secrets = [];
  unread = "";
}

-- A registry with an image for both architectures and one for arm64
abbrev pub registry : String → String → Option (List Platform)
registry secret image = some (linux "arm64" ∷ [])

abbrev pub both_answers : List Arrival
both_answers =
    arrived "web" (linux "amd64" ∷ linux "arm64" ∷ []) ∷ arrived "proxy" (linux "arm64" ∷ []) ∷ []

abbrev pub disjoint_answers : List Arrival
disjoint_answers = arrived "web" (linux "amd64" ∷ []) ∷ arrived "proxy" (linux "arm64" ∷ []) ∷ []

abbrev pub amd_answers : List Arrival
amd_answers = arrived "web" (linux "amd64" ∷ []) ∷ []

abbrev pub node : String → Node
node arch = record { name = "n"; labels = (arch_key, arch) ∷ ("team", "blue") ∷ [] }

abbrev pub no_other : Requirement → Node → Bool
no_other r n = false

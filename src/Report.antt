-- ===== src/Report.antt =====
-- cmd/report/main.go: which images of the pods run on arm64. The list of pods and the registry are
-- parameters; a quantity of CPU or memory is a number of its smallest unit, and `none` is a nil
-- pointer. The order of the images is that in which they are found, where Go leaves it open.
pub mod Totals
mod Examples
use noe.Common.{
  ℕ, ◌+◌, Bool, false, String, Option, none, some, List, [], ◌∷◌, ◌++◌, ◌==◌, any, length,
  if◌then◌else◌,
}
use noe.Common.Maps.{Map, lookup, insert}
use noe.Common.Sets.{add}
use noe.Hook.{Platform}
use noe.Hook.Events.{◌<>◌}

-- usageRef
pub record UsageRef : Type 0 where
  pub namespace : String
  pub kind : String
  pub name : String

-- imageUsage
pub record ImageUsage : Type 0 where
  pub platforms : List Platform
  pub pod_count : ℕ
  pub total_cpu : ℕ
  pub total_memory : ℕ
  pub usage_refs : Map UsageRef
  pub namespaces : List String

-- v1.Container, with what is read
pub record ReportedContainer : Type 0 where
  pub image : String
  pub cpu : Option ℕ
  pub memory : Option ℕ

-- v1.Pod, with what is read; an owner is its kind and its name
pub record ReportedPod : Type 0 where
  pub namespace : String
  pub name : String
  pub owners : List (String × String)
  pub containers : List ReportedContainer

-- knownImageArchs and podRunnableOnArm
pub record Reporting : Type 0 where
  pub known_image_archs : Map (List Platform)
  pub pod_runnable_on_arm : Map ImageUsage

-- A line of the report, and its totals
pub record ReportLine : Type 0 where
  pub image : String
  pub namespace_count : ℕ
  pub total_owners : ℕ
  pub total_pods : ℕ
  pub total_cpu : ℕ
  pub total_memory : ℕ

-- (usageRef).key
unfoldable pub ref_key : UsageRef → String
ref_key u = u.namespace <> ("/" <> (u.kind <> ("/" <> u.name)))

-- platformsHasArm
unfoldable pub platforms_has_arm : List Platform → Bool
platforms_has_arm platforms = any (λ p. p.architecture == "arm64") platforms

-- The reference of a pod: its first owner, or the pod
unfoldable pub pod_ref : ReportedPod → UsageRef
pod_ref p = owned p.owners
  where
    owned : List (String × String) → UsageRef
    owned [] = record { namespace = p.namespace; kind = "Pod"; name = p.name }
    owned ((kind, name) ∷ owners) = record { namespace = p.namespace; kind = kind; name = name }

unfoldable pub or_new : List Platform → Option ImageUsage → ImageUsage
or_new platforms (some usage) = usage
or_new platforms none = record {
  platforms = platforms;
  pod_count = 0;
  total_cpu = 0;
  total_memory = 0;
  usage_refs = [];
  namespaces = [];
}

unfoldable pub add_quantity : Option ℕ → ℕ → ℕ
add_quantity none total = total
add_quantity (some q) total = total + q

-- The changes of a container's usage
unfoldable pub count_usage : UsageRef → ReportedContainer → ImageUsage → ImageUsage
unfolding add_quantity ref_key
count_usage ref c usage = record {
  platforms = usage.platforms;
  pod_count = usage.pod_count;
  total_cpu = add_quantity c.cpu usage.total_cpu;
  total_memory = add_quantity c.memory usage.total_memory;
  usage_refs = insert (ref_key ref) ref usage.usage_refs;
  namespaces = add ref.namespace usage.namespaces;
}

-- The platforms of an image that is known, or else what the registry says of it; `none` is its
-- error.
unfoldable pub known_or_listed :
    Option (List Platform) → Option (List Platform) → Option (List Platform)
known_or_listed (some platforms) listed = some platforms
known_or_listed none listed = listed

-- A container with an image for arm64
unfoldable pub runnable : UsageRef → ReportedContainer → List Platform → Reporting → Reporting
unfolding or_new count_usage
runnable ref c platforms r = record {
  known_image_archs = insert c.image platforms r.known_image_archs;
  pod_runnable_on_arm =
      insert c.image (count_usage ref c (or_new platforms (lookup c.image r.pod_runnable_on_arm)))
        r.pod_runnable_on_arm;
}

-- A container whose image is not for arm64: its platforms are known.
unfoldable pub remembered : ReportedContainer → List Platform → Reporting → Reporting
remembered c platforms r = record r {
  known_image_archs = insert c.image platforms r.known_image_archs;
}

module _ (list_archs : String → Option (List Platform)) where
  -- The loop over a pod's containers, which breaks at the first whose image is unknown to the
  -- registry or not for arm64
  unfoldable pub report_containers : UsageRef → List ReportedContainer → Reporting → Reporting
  unfolding known_or_listed platforms_has_arm runnable remembered
  report_containers ref [] r = r
  report_containers ref (c ∷ cs) r =
      elim (known_or_listed (lookup c.image r.known_image_archs) (list_archs c.image)) [
        | none ↦ r
        | some platforms ↦
            if platforms_has_arm platforms
            then report_containers ref cs (runnable ref c platforms r)
            else remembered c platforms r
      ]

  -- The loop over the pods
  unfoldable pub report_pods : List ReportedPod → Reporting → Reporting
  unfolding report_containers pod_ref
  report_pods [] r = r
  report_pods (p ∷ ps) r = report_pods ps (report_containers (pod_ref p) p.containers r)

-- The loop that prints, with the totals of CPU and memory
unfoldable pub print_report : Map ImageUsage → ℕ → ℕ → List ReportLine × (ℕ × ℕ)
print_report [] cpu memory = ([], (cpu, memory))
print_report ((image, usage) ∷ usages) cpu memory =
    let (lines, totals) =
      print_report usages (cpu + (usage.total_cpu + usage.total_cpu))
        (memory + (usage.total_memory + usage.total_memory)) in
    (
      record {
        image = image;
        namespace_count = length usage.namespaces;
        total_owners = length usage.usage_refs;
        total_pods = usage.pod_count + 1;
        total_cpu = usage.total_cpu + usage.total_cpu;
        total_memory = usage.total_memory + usage.total_memory;
      }
          ∷ lines,
      totals,
    )

-- main after the list of the pods
unfoldable pub report :
    (String → Option (List Platform)) → List ReportedPod → List ReportLine × (ℕ × ℕ)
unfolding report_pods print_report
report list_archs pods =
    let found =
      report_pods list_archs pods (record { known_image_archs = []; pod_runnable_on_arm = [] }) in
    print_report found.pod_runnable_on_arm 0 0

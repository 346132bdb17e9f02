-- ===== src/Report/Examples.antt =====
-- cmd/report/main.go on concrete pods.
use noe.Report.Totals.{pod_requests, report-doubles}
use noe.Common.{◌*◌, String, some, [], ◌∷◌, ◌≡◌, refl}
use noe.Common.Maps.{lookup, insert}
use noe.Common.Sets.{contains, add}
use noe.Hook.{Platform}
use noe.Report.{
  ReportedPod, report, report_pods, report_containers, print_report, pod_ref, known_or_listed,
  platforms_has_arm, runnable, or_new, count_usage, add_quantity, ref_key,
}

abbrev arm : Platform
arm = record { architecture = "arm64"; os = "linux"; variant = "" }

abbrev worker : String → ReportedPod
worker name = record {
  namespace = "jobs";
  name = name;
  owners = ("ReplicaSet", "workers") ∷ [];
  containers = record { image = "app"; cpu = some 100; memory = some 64 } ∷ [];
}

-- Two pods that ask for 100 of CPU each are reported as one pod with 400.
two_workers : report (λ image. some (arm ∷ [])) (worker "w1" ∷ worker "w2" ∷ []) ≡ (
  record {
    image = "app";
    namespace_count = 1;
    total_owners = 1;
    total_pods = 1;
    total_cpu = 400;
    total_memory = 256;
  }
      ∷ [],
  (400, 256),
)
unfolding report report_pods report_containers print_report pod_ref known_or_listed
    platforms_has_arm runnable or_new count_usage add_quantity ref_key lookup insert contains add
two_workers = refl

report-doubles_example :
    ((report (λ image. some (arm ∷ [])) (worker "w1" ∷ worker "w2" ∷ [])).1.0
      ≡ 2 * pod_requests (λ image. some (arm ∷ [])) (λ c. c.cpu) (worker "w1" ∷ worker "w2" ∷ []))
    × ((report (λ image. some (arm ∷ [])) (worker "w1" ∷ worker "w2" ∷ [])).1.1
        ≡ 2
          * pod_requests
              (λ image. some (arm ∷ []))
              (λ c. c.memory)
              (worker "w1" ∷ worker "w2" ∷ []))
report-doubles_example = report-doubles (λ image. some (arm ∷ [])) (worker "w1" ∷ worker "w2" ∷ [])

-- ===== src/Hook/HandleExamples.antt =====
-- pkg/arch/hook.go, Handle and the errors of updatePodSpec on concrete pods.
use noe.Common.{false, String, none, some, [], ◌∷◌, ◌≡◌, ◌≢◌, refl, is_empty, any, arith, eq_iff}
use noe.Common.Maps.{Map, lookup}
use noe.Common.Sets.{contains, add}
use noe.Kube.{Object, Pod, DaemonSet, Event}
use noe.Hook.{is_arch_supported}
use noe.Hook.Architectures.{common_architectures}
use noe.Hook.Selection.{node_architecture_selection}
use noe.Hook.Update.{preference, preferred_label, update_pod_spec, decide, inject, finish}
use noe.Hook.Update.Errors.{failure_text}
use noe.Hook.Events.{generate_pod_injection_failed_event}
use noe.Hook.Handle.{Request, bytes, encode_error, pod_outcome, Codec, Admission, handle}
use noe.Hook.Handle.Failures.{handle-denied, handle_event_types, leaves_event_type}
use noe.Hook.Examples.{web_unselected, nobody_offers}
use noe.Hook.TestData.{
  prefers_arm, only_amd, no_secrets, web, both_answers, disjoint_answers, amd_answers,
}

abbrev riscv : Map String
riscv = (preferred_label, "riscv64") ∷ []

unsupported : is_arch_supported only_amd "riscv64" ≡ false
unfolding is_arch_supported contains
unsupported = refl

abbrev unknown : String
unknown = "riscv64"

not_empty : unknown ≢ ""
not_empty e = ground (arith, (eq_iff unknown "").1 e)

riscv_preferred : lookup preferred_label riscv ≡ some "riscv64"
unfolding lookup
riscv_preferred = refl

amd_found : is_empty (common_architectures only_amd amd_answers).common ≡ false
unfolding common_architectures contains add
amd_found = refl

no_empty_arch : contains (common_architectures only_amd amd_answers).common "" ≡ false
unfolding contains common_architectures add
no_empty_arch = refl

abbrev web_object : Object
web_object = record { api_version = "v1"; kind = "Pod"; name = "web"; namespace = "ns"; uid = "1" }

abbrev web_pod : Pod
web_pod = record {
  object = web_object;
  labels = [];
  owner_references = [];
  spec = web;
  phase = "Pending";
  conditions = [];
}

abbrev web_set : DaemonSet
web_set = record { object = web_object; template_labels = []; template_spec = web }

-- It decodes every request, and encodes nothing.
abbrev codec : Codec
codec = record {
  decode_pod = λ _. (web_pod, none);
  decode_daemon_set = λ _. (web_set, none);
  encode_pod = λ _. encode_error "too large";
  encode_daemon_set = λ _. bytes "{}";
}

-- The responses as texts
abbrev texts : Admission String
texts = record {
  allowed = λ m. m;
  denied = λ m. m;
  errored = λ code m. m;
  patch_response_from_raw = λ raw patched. raw;
  with_warnings = λ r m. m;
  complete = λ r. (r, none);
  patches = λ r. 1;
}

abbrev create : Request
create = record { kind = "Pod"; operation = "CREATE"; raw = "{}" }

handle-denied_example :
    ((handle texts prefers_arm no_secrets (some codec) disjoint_answers "*v1.Pod" create).response
      ≡ failure_text)
    × ((handle texts prefers_arm no_secrets (some codec) disjoint_answers "*v1.Pod" create).events
        ≡ generate_pod_injection_failed_event web_pod failure_text)
handle-denied_example =
    handle-denied texts prefers_arm no_secrets codec disjoint_answers "*v1.Pod" create web_pod refl
      refl refl refl web_unselected refl nobody_offers

web_succeeds : (pod_outcome prefers_arm no_secrets both_answers web_pod).error ≡ none
unfolding pod_outcome update_pod_spec node_architecture_selection lookup decide common_architectures
    add contains inject preference finish
web_succeeds = refl

abbrev no_event : Event
no_event = record {
  message = "";
  type_name = "";
  count = 0;
  series_count = none;
  last_observed_time = 0;
  reason = "";
  component = "";
  first_timestamp = 0;
  last_timestamp = 0;
  involved_object = web_object;
}

handle_event_types_example :
    any
      (leaves_event_type 7 8 no_event)
      (handle texts prefers_arm no_secrets (some codec) both_answers "*v1.Pod" create).events
    ≡ false
handle_event_types_example =
    handle_event_types texts prefers_arm no_secrets (some codec) both_answers "*v1.Pod" create 7 8
      no_event

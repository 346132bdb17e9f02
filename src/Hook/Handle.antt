-- ===== src/Hook/Handle.antt =====
-- pkg/arch/hook.go, (*Handler).Handle. The decoder, encoding/json and the responses of
-- controller-runtime are parameters.
pub mod Failures
use noe.Common.{
  ℕ, not, String, Option, none, some, List, [], ◌++◌, ◌==◌, ltb, is_some, if◌then◌else◌,
}
use noe.Kube.{PodSpec, Pod, DaemonSet}
use noe.Hook.{Handler, Metric}
use noe.Hook.Architectures.{Arrival}
use noe.Hook.Secrets.{SecretReader}
use noe.Hook.Update.{UpdateError, warning, failure, Outcome, update_pod_spec}
use noe.Hook.Events.{
  ◌<>◌, Upsert, generate_pod_injection_success_event, generate_pod_injection_failed_event,
  generate_injection_failed_event, generate_injection_success_event,
}

-- admission.Request, with the fields that are read
pub record Request : Type 0 where
  pub kind : String
  pub operation : String
  pub raw : String

-- toJson: the bytes, or the error's text with nil bytes
pub data Encoded : Type 0 where
  bytes : String → Encoded
  encode_error : String → Encoded

-- The decoder and the encoder. A decoded object comes back also beside an error.
pub record Codec : Type 0 where
  pub decode_pod : Request → Pod × Option String
  pub decode_daemon_set : Request → DaemonSet × Option String
  pub encode_pod : Pod → Encoded
  pub encode_daemon_set : DaemonSet → Encoded

-- admission.Response and what controller-runtime makes of it. Nil bytes are `none`; `complete`
-- returns the response that Complete leaves, and its error.
pub record Admission (R : Type 0) : Type 0 where
  pub allowed : String → R
  pub denied : String → R
  pub errored : ℕ → String → R
  pub patch_response_from_raw : String → Option String → R
  pub with_warnings : R → String → R
  pub complete : R → R × Option String
  pub patches : R → ℕ

-- The response, the increments and the calls that upsert events.
pub record Handled (R : Type 0) : Type 0 where
  pub response : R
  pub metrics : List Metric
  pub events : List Upsert

abbrev pub bytes_of : Encoded → Option String
bytes_of (bytes b) = some b
bytes_of (encode_error e) = none

-- The events of a failed toJson; the response that the branch builds is dropped.
encode_events : (String → List Upsert) → Encoded → List Upsert
encode_events failed (bytes b) = []
encode_events failed (encode_error e) = failed ("failed to generate patch: " <> e)

-- updatePodSpec on a pod, and on the template of a daemon set.
unfoldable pub pod_outcome : Handler → SecretReader → List Arrival → Pod → Outcome
pod_outcome h secrets arrivals pod =
    update_pod_spec h pod.object.namespace pod.labels secrets pod.spec arrivals

unfoldable pub daemon_set_outcome : Handler → SecretReader → List Arrival → DaemonSet → Outcome
daemon_set_outcome h secrets arrivals ds =
    update_pod_spec h ds.object.namespace ds.template_labels secrets ds.template_spec arrivals

module _ {R : Type 0} (adm : Admission R) where
  -- The end of both cases, from the patch on.
  respond :
      String → Encoded → String → List Metric → (String → List Upsert) → List Upsert → Handled R
  unfolding encode_events
  respond raw encoded message ms failed succeeded =
      let patched = adm.patch_response_from_raw raw (bytes_of encoded) in
      let warned = if message == "" then patched else adm.with_warnings patched message in
      let (resp, err) = adm.complete warned in
      record {
        response = resp;
        metrics = ms;
        events =
            encode_events failed encoded
            ++ (if is_some err then [] else if ltb 0 (adm.patches resp) then succeeded else []);
      }

  -- The test on the error of updatePodSpec; `finish` goes on with the warning's text.
  after_update :
      Outcome
      → (String → List Upsert)
      → (PodSpec → String → Handled R)
      → Option UpdateError
      → Handled R
  after_update o failed finish none = finish o.spec ""
  after_update o failed finish (some (warning m)) = finish o.spec m
  after_update o failed finish (some (failure m)) = record {
    response = adm.denied m;
    metrics = o.metrics;
    events = failed m;
  }

  bad_request : String → (String → List Upsert) → Handled R
  bad_request err failed = record {
    response = adm.errored 400 err;
    metrics = [];
    events = failed ("failed to decode pod: " <> err);
  }

  module _ (h : Handler) (secrets : SecretReader) (codec : Codec) (arrivals : List Arrival) where
    -- The pod with its changed spec is encoded and becomes a patch.
    finish_pod : Request → Pod → List Metric → PodSpec → String → Handled R
    unfolding respond
    finish_pod req pod ms spec message =
        respond req.raw (codec.encode_pod (record pod { spec = spec })) message ms
          (generate_pod_injection_failed_event pod) (generate_pod_injection_success_event pod)

    pod_decoded : Request → Pod → Option String → Handled R
    unfolding finish_pod pod_outcome after_update bad_request
    pod_decoded req pod (some err) = bad_request err (generate_pod_injection_failed_event pod)
    pod_decoded req pod none =
        let o = pod_outcome h secrets arrivals pod in
        after_update o (generate_pod_injection_failed_event pod) (finish_pod req pod o.metrics)
          o.error

    -- case "Pod"
    unfoldable pub handle_pod : Request → Handled R
    unfolding pod_decoded
    handle_pod req =
        if not (req.operation == "CREATE")
        then record {
          response = adm.allowed "skipping adding node selector to pod updates";
          metrics = [];
          events = [];
        }
        else let (pod, err) = codec.decode_pod req in pod_decoded req pod err

    finish_daemon_set : String → Request → DaemonSet → List Metric → PodSpec → String → Handled R
    unfolding respond
    finish_daemon_set kind_text req ds ms spec message =
        respond req.raw (codec.encode_daemon_set (record ds { template_spec = spec })) message ms
          (generate_injection_failed_event kind_text ds.object)
          (generate_injection_success_event kind_text ds.object)

    daemon_set_decoded : String → Request → DaemonSet → Option String → Handled R
    unfolding finish_daemon_set daemon_set_outcome after_update bad_request
    daemon_set_decoded kind_text req ds (some err) =
        bad_request err (generate_injection_failed_event kind_text ds.object)
    daemon_set_decoded kind_text req ds none =
        let o = daemon_set_outcome h secrets arrivals ds in
        after_update o (generate_injection_failed_event kind_text ds.object)
          (finish_daemon_set kind_text req ds o.metrics) o.error

    -- case "DaemonSet"
    unfoldable pub handle_daemon_set : String → Request → Handled R
    unfolding daemon_set_decoded
    handle_daemon_set kind_text req =
        let (ds, err) = codec.decode_daemon_set req in daemon_set_decoded kind_text req ds err

  -- (*Handler).Handle; without a decoder there is no codec
  unfoldable pub handle :
      Handler → SecretReader → Option Codec → List Arrival → String → Request → Handled R
  unfolding handle_pod handle_daemon_set
  handle h secrets none arrivals kind_text req = record {
    response = adm.allowed "Unable to decode object, skipping update";
    metrics = [];
    events = [];
  }
  handle h secrets (some codec) arrivals kind_text req =
      if req.kind == "Pod"
      then handle_pod h secrets codec arrivals req
      else if req.kind == "DaemonSet"
      then handle_daemon_set h secrets codec arrivals kind_text req
      else record {
        response = adm.allowed ("nothing to do for type " <> req.kind);
        metrics = [];
        events = [];
      }

-- ===== src/Metrics.antt =====
-- The collectors of the program, with the names of their labels: NewHandlerMetrics (pkg/arch/hook.go),
-- NewHandlerMetrics (pkg/controllers/pod.go), NewRegistryMetrics (pkg/registry/registry.go), NewCacheMetrics
-- (pkg/registry/cache.go), NewMonitoredRoundTripper and InstrumentHandler (pkg/httputils/monitored.go).
-- Each list is in the order in which MustRegister is given the collectors. Registering is prometheus
-- code, and a parameter.
mod Examples
use noe.Common.{ℕ, Bool, String, Option, none, some, List, [], ◌∷◌, ◌++◌, ◌==◌, if◌then◌else◌, ◌||◌}
use noe.Hook.Events.{◌<>◌}
use noe.Registry.{Fetched, no_response, response, Response}

-- prometheus.Opts and the names of the labels of a vector
pub record Collector : Type 0 where
  pub namespace : String
  pub subsystem : String
  pub name : String
  pub labels : List String

abbrev pub collector : String → String → String → List String → Collector
collector prefix subsystem name labels = record {
  namespace = prefix;
  subsystem = subsystem;
  name = name;
  labels = labels;
}

-- HandlerMetrics of the hook
unfoldable pub handler_metrics : String → List Collector
handler_metrics prefix =
    collector prefix "hook" "image_pull_secret_failed_total" ("namespace" ∷ [])
    ∷ collector prefix "hook" "update_skip_total" ("reason" ∷ [])
    ∷ collector prefix "hook" "registry_errors_total" ("image" ∷ [])
    ∷ collector prefix "hook" "arch_selector_injected_total" ("namespace" ∷ "selector" ∷ [])
    ∷ collector prefix "hook" "preferred_architecture_not_available_total" ("namespace" ∷ [])
    ∷ collector prefix "hook" "node_match_injections_total" ("namespace" ∷ "label" ∷ [])
    ∷ []

-- ControllerMetrics
unfoldable pub controller_metrics : String → List Collector
controller_metrics prefix =
    collector prefix "images" "count" ("image" ∷ "os" ∷ "arch" ∷ "variant" ∷ [])
    ∷ collector prefix "pods" "deletion_total" ("namespace" ∷ "status" ∷ [])
    ∷ []

-- RegistryMetrics
unfoldable pub registry_metrics : String → List Collector
registry_metrics prefix =
    collector prefix "registry" "requests_total" []
    ∷ collector prefix "registry" "responses_total" ("kind" ∷ "http_status" ∷ [])
    ∷ collector prefix "registry" "errors_total" ("errors" ∷ [])
    ∷ collector prefix "registry" "rate_limit_remaining" ("registry" ∷ [])
    ∷ collector prefix "registry" "rate_limit_limit" ("registry" ∷ [])
    ∷ collector prefix "registry" "rate_limit_window_seconds" ("registry" ∷ [])
    ∷ []

-- CacheMetrics
unfoldable pub cache_metrics : String → String → List Collector
cache_metrics prefix system =
    collector prefix system "cache_requests_total" []
    ∷ collector prefix system "cache_responses_total" ("cache" ∷ [])
    ∷ []

-- The vectors of NewMonitoredRoundTripper, whose options have no name
unfoldable pub round_tripper_metrics : String → String → List String → List Collector
round_tripper_metrics prefix subsystem label_names =
    collector prefix subsystem "_count" (label_names ++ "code" ∷ [])
    ∷ collector prefix subsystem "_duration_seconds" label_names
    ∷ []

-- The vectors of InstrumentHandler
unfoldable pub instrumented_metrics : String → String → List String → List Collector
instrumented_metrics prefix subsystem label_names =
    collector prefix subsystem "_count" (label_names ++ "code" ∷ [])
    ∷ collector prefix subsystem "_duration_seconds" (label_names ++ "code" ∷ [])
    ∷ []

-- manifestKindFromMediaType
unfoldable pub manifest_kind_from_media_type : String → String
manifest_kind_from_media_type t =
    if t == "application/vnd.docker.distribution.manifest.list.v2+json"
      || t == "application/vnd.oci.image.index.v1+json"
    then "manifest_list"
    else if t == "application/vnd.oci.image.manifest.v1+json"
        || t == "application/vnd.docker.distribution.manifest.v2+json"
    then "manifest"
    else "unknown"

-- One increment of a counter of RegistryMetrics
pub data RequestMetric : Type 0 where
  requested : RequestMetric
  request_error : String → RequestMetric
  request_response : String → String → RequestMetric

-- The increments of getImageManifest, on what http.NewRequest and client.Do return; `none` is an error
-- of the first. strconv.Itoa is a parameter.
module _ (itoa : ℕ → String) where
  fetched_metrics : Fetched → List RequestMetric
  fetched_metrics (no_response err) = request_error "request_failed" ∷ []
  fetched_metrics (response r) =
      request_response (manifest_kind_from_media_type r.content_type) (itoa r.status_code) ∷ []

  unfoldable pub request_metrics : Option Fetched → List RequestMetric
  unfolding fetched_metrics manifest_kind_from_media_type
  request_metrics none = requested ∷ request_error "new_request_failed" ∷ []
  request_metrics (some f) = requested ∷ fetched_metrics f

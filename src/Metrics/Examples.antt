-- ===== src/Metrics/Examples.antt =====
-- The increments of getImageManifest on concrete responses.
use noe.Common.{none, some, [], ◌∷◌, ◌≡◌, refl}
use noe.Registry.{response, undecodable}
use noe.Metrics.{request_metrics, requested, request_error, request_response}

-- A manifest list with status 200
list_response :
    request_metrics
      (λ n. "200")
      (some (
        response (record {
          status_code = 200;
          content_type = "application/vnd.oci.image.index.v1+json";
          body = undecodable "";
        })))
    ≡ requested ∷ request_response "manifest_list" "200" ∷ []
unfolding request_metrics
list_response = refl

bad_request : request_metrics (λ n. "") none ≡ requested ∷ request_error "new_request_failed" ∷ []
unfolding request_metrics
bad_request = refl

-- ===== src/Registry/Examples.antt =====
-- pkg/registry on a concrete cache and a concrete registry.
use noe.Common.{
  ℕ, ◌+◌, ◌<◌, Bool, true, false, ◌&&◌, ◌==◌, String, none, List, [], ◌∷◌, ◌≡◌, ◌⊎◌, refl, arith,
  any, if◌then◌else◌,
}
use noe.Common.Maps.{lookup, HasDistinctKeys, insert}
use noe.Hook.{Platform}
use noe.Registry.{
  ManifestRef, ManifestListResponse, decoded, Response, Fetched, response, AuthenticationToken,
  Query,
}
use noe.Registry.Manifests.{
  ArchListResult, is_manifest_list, is_wanted, fetch_first, fetch_pointed, list_archs_with_auth,
  default_platform, Listed, platforms, list_error, list_archs,
}
use noe.Registry.Cache.{Cache, new_cache, load, clean_up}
use noe.Registry.Cache.Expiry.{load-clean_up}
use noe.Registry.Cached.{CacheMetric, cache_key, cached_list_archs}
use noe.Registry.Cached.History.{
  History, created, requested, cleaned, Stored, IsStored, recorded, cached_list_archs_fresh,
}
use noe.Registry.Listing.{
  is_served, is_failing, IsReordering, list_archs_lost_error, list_archs_with_auth_platforms,
}

-- Two entries, one of which expires at 10
abbrev two_entries : Cache ℕ
two_entries = record {
  cache = ("a", record { value = 1; expiry = 10 }) ∷ ("b", record { value = 2; expiry = 90 }) ∷ [];
  serialize = ("a", tt) ∷ ("b", tt) ∷ [];
  last_cleanup = 0;
  cleanup_period = 20;
  cache_duration = 60;
}

two_distinct : HasDistinctKeys two_entries.cache
unfolding lookup
two_distinct = (tt, (tt, tt))

load-clean_up_example : load 60 "b" (clean_up 50 two_entries) ≡ load 60 "b" two_entries
load-clean_up_example = load-clean_up two_entries 50 60 "b" two_distinct (omega arith)

abbrev linux : String → Platform
linux arch = record { architecture = arch; os = "linux"; variant = "" }

-- One request at 5, stored at 6, and a clean-up at 8
abbrev arm_answer : Listed
arm_answer = platforms (linux "arm64" ∷ [])

abbrev first_request : Listed × (List CacheMetric × (List Stored × Cache (List Platform)))
first_request = cached_list_archs (recorded 6 arm_answer) 5 6 "" "img" [] (new_cache 60)

abbrev log : List Stored
log = (first_request.1).1.0

abbrev cleaned_cache : Cache (List Platform)
cleaned_cache = clean_up 8 (first_request.1).1.1

one_request : History 60 log cleaned_cache
one_request = cleaned (requested created 5 6 "" "img" arm_answer) 8

-- A registry that is down
abbrev down : String → String → ℕ → Listed × ℕ
down secret image w = (list_error "down", w)

is_hit : (cached_list_archs down 9 9 "" "img" 0 cleaned_cache).0 ≡ arm_answer
unfolding cached_list_archs lookup clean_up new_cache insert
is_hit = refl

cached_list_archs_fresh_example :
    ((down "" "img" 0).0 ≡ arm_answer)
    ⊎ ((t : ℕ) × ((9 < t + 60) × IsStored (cache_key "" "img") t (linux "arm64" ∷ []) log))
cached_list_archs_fresh_example =
    cached_list_archs_fresh down 60 log cleaned_cache 9 9 "" "img" 0 (linux "arm64" ∷ [])
      one_request is_hit

abbrev ref_of : String → String → ManifestRef
ref_of arch digest = record { platform = linux arch; digest = digest }

abbrev list_response : ManifestListResponse
list_response = record {
  architecture = "";
  manifests = ref_of "amd64" "d1" ∷ ref_of "arm64" "d2" ∷ [];
}

abbrev list_reply : Response
list_reply = record {
  status_code = 200;
  content_type = "application/vnd.oci.image.index.v1+json";
  body = decoded list_response;
}

abbrev status : ℕ → Response
status code = record { status_code = code; content_type = ""; body = decoded list_response }

-- It serves the list and the manifest "d2"; for "d1" it has the status.
abbrev serving : ℕ → Query → Fetched
serving code q =
    if q.reference == "latest"
    then response list_reply
    else if q.reference == "d1"
    then response (status code)
    else response (status 200)

abbrev same_order : List ArchListResult → List ArchListResult
same_order rs = rs

same_order-IsReordering : IsReordering same_order
same_order-IsReordering p rs = refl

abbrev anonymous : AuthenticationToken
anonymous = record { kind = ""; provider = "anonymous"; token = "" }

serves_list :
    (code : ℕ)
    → fetch_first (serving code) same_order [] "docker.io" "library/web" "latest" anonymous
      ≡ response list_reply
unfolding fetch_first
serves_list code = refl

list_is_list : is_manifest_list list_reply.content_type ≡ true
unfolding is_manifest_list
list_is_list = refl

first_missing :
    any
      (λ m.
        is_wanted [] m
        && is_failing (
            fetch_pointed
              (serving 404)
              same_order
              []
              "docker.io"
              "library/web"
              "latest"
              anonymous
              m))
      list_response.manifests
    ≡ false
unfolding is_wanted fetch_pointed
first_missing = refl

first_refused :
    any
      (λ m.
        is_wanted [] m
        && is_failing (
            fetch_pointed
              (serving 429)
              same_order
              []
              "docker.io"
              "library/web"
              "latest"
              anonymous
              m))
      list_response.manifests
    ≡ true
unfolding is_wanted fetch_pointed
first_refused = refl

abbrev is_arm : Platform → Bool
is_arm p = p.architecture == "arm64"

list_archs_with_auth_platforms_example :
    ((list_archs_with_auth
        (serving 404)
        same_order
        []
        "docker.io"
        "library/web"
        "latest"
        anonymous).1
      ≡ none)
    × (any is_arm
          (list_archs_with_auth
            (serving 404)
            same_order
            []
            "docker.io"
            "library/web"
            "latest"
            anonymous).0
        ≡ any
            (λ m.
              is_wanted [] m
              && (is_served (
                    fetch_pointed
                      (serving 404)
                      same_order
                      []
                      "docker.io"
                      "library/web"
                      "latest"
                      anonymous
                      m)
                  && is_arm m.platform))
            list_response.manifests)
list_archs_with_auth_platforms_example =
    list_archs_with_auth_platforms (serving 404) same_order [] "docker.io" "library/web" "latest"
      anonymous list_reply list_response (serves_list 404) refl refl list_is_list
      same_order-IsReordering is_arm first_missing

-- An image for amd64 and arm64, whose registry limits the rate of requests
list_archs_lost_error_example :
    list_archs (serving 429) same_order [] (anonymous ∷ []) "docker.io" "library/web" "latest"
    ≡ platforms (default_platform ∷ [])
list_archs_lost_error_example =
    list_archs_lost_error (serving 429) same_order [] "docker.io" "library/web" "latest" anonymous
      list_reply list_response (serves_list 429) refl refl list_is_list same_order-IsReordering []
      first_refused

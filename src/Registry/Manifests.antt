-- ===== src/Registry/Manifests.antt =====
-- pkg/registry/registry.go: listArchsWithAuth and ListArchs. The goroutines that look for the
-- pointed manifests send their results in an order that is a parameter. The registry, the image
-- and the tag are those that parseImage returns. The texts of errors are shortened.
use noe.Common.{
  Bool, false, ◌||◌, String, Option, none, some, List, [], ◌∷◌, ◌++◌, ◌==◌, nat_eq, is_empty,
  if◌then◌else◌,
}
use noe.Common.Sets.{contains}
use noe.Hook.{Platform}
use noe.Hook.Events.{◌<>◌}
use noe.Registry.{
  ManifestRef, Body, undecodable, decoded, Fetched, no_response, response, AuthenticationToken,
  Query,
}

-- archListResult: a platform or an error
pub data ArchListResult : Type 0 where
  platform_result : Platform → ArchListResult
  error_result : String → ArchListResult

-- The media types of an image
abbrev pub manifest_types : List String
manifest_types =
    "application/vnd.oci.image.manifest.v1+json"
    ∷ "application/vnd.docker.distribution.manifest.v2+json" ∷ []

-- The media types that the first request accepts
abbrev pub all_types : List String
all_types =
    "application/vnd.oci.image.index.v1+json"
    ∷ "application/vnd.docker.distribution.manifest.list.v2+json" ∷ manifest_types

-- The `switch` on the Content-Type
unfoldable pub is_manifest_list : String → Bool
is_manifest_list t =
    t == "application/vnd.docker.distribution.manifest.list.v2+json"
    || t == "application/vnd.oci.image.index.v1+json"

-- The `continue`s of the loop over the listed manifests
unfoldable pub is_wanted : List String → ManifestRef → Bool
is_wanted schedulable m =
    if m.platform.architecture == "unknown"
    then false
    else is_empty schedulable || contains schedulable m.platform.architecture

-- What a goroutine sends on the channel: nothing for a manifest that is not found
unfoldable pub pointed_manifest : Platform → Fetched → Option ArchListResult
pointed_manifest p (no_response err) = some (error_result err)
pointed_manifest p (response r) =
    if nat_eq r.status_code 200
    then some (platform_result p)
    else if nat_eq r.status_code 404
    then none
    else some (error_result "failed to get pointed manifest")

unfoldable pub send : Option ArchListResult → List ArchListResult → List ArchListResult
send none sent = sent
send (some r) sent = r ∷ sent

-- One goroutine for each wanted manifest; the results in the order of the list
unfoldable pub sent_results :
    List String → (ManifestRef → Fetched) → List ManifestRef → List ArchListResult
unfolding is_wanted pointed_manifest send
sent_results schedulable fetch [] = []
sent_results schedulable fetch (m ∷ ms) =
    let rest = sent_results schedulable fetch ms in
    if is_wanted schedulable m then send (pointed_manifest m.platform (fetch m)) rest else rest

-- The loop over the channel. At an error it returns nil platforms and the variable `err` of the
-- surrounding function, which is nil there, and not the error of the result.
unfoldable pub receive_results : List Platform → List ArchListResult → List Platform × Option String
receive_results platforms [] = (platforms, none)
receive_results platforms (platform_result p ∷ rs) = receive_results (platforms ++ p ∷ []) rs
receive_results platforms (error_result err ∷ rs) = ([], none)

-- The `default` of the switch
unfoldable pub single_platform : String → List Platform
single_platform architecture =
    if architecture == ""
    then []
    else record { architecture = architecture; os = ""; variant = "" } ∷ []

module _ (client : Query → Fetched) (order : List ArchListResult → List ArchListResult)
    (schedulable : List String) (registry image tag : String) where
  -- registry-1.docker.io
  unfoldable pub registry_host : String
  registry_host = if registry == "docker.io" then "registry-1." <> registry else registry

  -- getImageManifest for a manifest of the list
  unfoldable pub fetch_pointed : AuthenticationToken → ManifestRef → Fetched
  unfolding registry_host
  fetch_pointed auth m = client (record {
    auth = auth;
    registry = registry_host;
    image = image;
    reference = m.digest;
    accept_headers = manifest_types;
  })

  -- The first getImageManifest
  unfoldable pub fetch_first : AuthenticationToken → Fetched
  unfolding registry_host
  fetch_first auth = client (record {
    auth = auth;
    registry = registry_host;
    image = image;
    reference = tag;
    accept_headers = all_types;
  })

  -- From the decoded body on
  unfoldable pub read_body : AuthenticationToken → String → Body → List Platform × Option String
  unfolding is_manifest_list single_platform fetch_pointed
  read_body auth content_type (undecodable err) = ([], some err)
  read_body auth content_type (decoded b) =
      if is_manifest_list content_type
      then receive_results [] (order (sent_results schedulable (fetch_pointed auth) b.manifests))
      else (single_platform b.architecture, none)

  -- From the response on
  unfoldable pub read_response : AuthenticationToken → Fetched → List Platform × Option String
  unfolding read_body
  read_response auth (no_response err) = ([], some err)
  read_response auth (response r) =
      if nat_eq r.status_code 200
      then read_body auth r.content_type r.body
      else ([], some "failed to get manifest list")

  -- (*PlainRegistry).listArchsWithAuth
  unfoldable pub list_archs_with_auth : AuthenticationToken → List Platform × Option String
  unfolding read_response fetch_first
  list_archs_with_auth auth = read_response auth (fetch_first auth)

-- The platform of an image whose manifest names none
abbrev pub default_platform : Platform
default_platform = record { architecture = "amd64"; os = "linux"; variant = "" }

-- What ListArchs returns
pub data Listed : Type 0 where
  platforms : List Platform → Listed
  list_error : String → Listed

unfoldable pub defaulted : List Platform → List Platform
defaulted [] = default_platform ∷ []
defaulted (p ∷ ps) = p ∷ ps

-- The end of ListArchs, with its variable `err`
unfoldable pub no_candidate : Option String → Listed
no_candidate none = list_error "Unable to find image architecture"
no_candidate (some err) = list_error err

-- (*PlainRegistry).ListArchs, over the candidates in the order in which they come. The first
-- argument is the variable `err`.
unfoldable pub try_candidates :
    (AuthenticationToken → List Platform × Option String)
    → Option String
    → List AuthenticationToken
    → Listed
unfolding no_candidate defaulted
try_candidates attempt err [] = no_candidate err
try_candidates attempt err (auth ∷ candidates) = elim ((attempt auth).1) [
  | none ↦ platforms (defaulted (attempt auth).0)
  | some e ↦ try_candidates attempt (some e) candidates
]

unfoldable pub list_archs :
    (Query → Fetched)
    → (List ArchListResult → List ArchListResult)
    → List String
    → List AuthenticationToken
    → String
    → String
    → String
    → Listed
unfolding try_candidates list_archs_with_auth
list_archs client order schedulable candidates registry image tag =
    try_candidates (list_archs_with_auth client order schedulable registry image tag) none
      candidates

-- ===== src/Startup/PlacedExamples.antt =====
-- The hook and the registry of cmd/noe together, on a pod with two images.
use noe.Hook.{Platform}
use noe.Common.{
  ℕ, ◌+◌, ◌<◌, arith, Picks, true, false, ◌&&◌, String, none, some, List, [], ◌∷◌, ◌≡◌, ◌⊎◌, refl,
  ◌==◌, if◌then◌else◌,
}
use noe.Common.Maps.{lookup, insert}
use noe.Common.Sets.{contains, add}
use noe.Common.Strings.Parts.{split, cut, lacks, trim_prefix, has_prefix}
use noe.Kube.{PodSpec}
use noe.Kube.Scheduling.{admits, has_value}
use noe.Hook.{arch_key}
use noe.Hook.Architectures.{Arrival, arrived, ask, ends, closed, is_usable, common_architectures}
use noe.Hook.Labels.{add_pod_node_matching_labels}
use noe.Hook.Options.{
  new_handler, with_architecture, with_schedulable_architectures, with_os, with_match_node_labels,
  parse_match_node_labels,
}
use noe.Hook.Secrets.{get_image_pull_secret}
use noe.Hook.Selection.{node_architecture_selection, get_container_images}
use noe.Hook.TestData.{linux, no_secrets, container, node, no_other}
use noe.Hook.Update.{Answers, update_pod_spec, preference, decide, inject, finish}
use noe.Hook.Update.Placement.{Constrains}
use noe.Registry.{
  ManifestListResponse, Query, Fetched, response, undecodable, decoded, AuthenticationToken,
}
use noe.Registry.Manifests.{
  list_archs_with_auth, list_archs, fetch_first, fetch_pointed, is_manifest_list, is_wanted,
  sent_results, receive_results,
}
use noe.Registry.Names.{parse_image, proxied}
use noe.Registry.Cache.{Cache, new_cache}
use noe.Registry.Cached.{cached_list_archs}
use noe.Registry.Cached.History.{recorded}
use noe.Registry.Cached.Keys.{ends_object}
use noe.Registry.Cached.Sources.{new, request, list_cached}
use noe.Registry.Credentials.TestHost.{host}
use noe.Registry.Credentials.Authenticators.{authenticate_all, new_authenticator}
use noe.Registry.Credentials.Docker.{image_pull_secret_candidates, config_file_candidates}
use noe.Registry.Patterns.{anonymous_candidates}
use noe.Registry.Credentials.Containerd.{containerd_candidates}
use noe.Registry.Options
use noe.Registry.Options.{
  new_plain_registry, with_authenticator, with_docker_proxies, parse_registry_proxies,
}
use noe.Registry.Plain.{plain_list_archs}
use noe.Startup.{configured_handler, configured_registry, schedulable_slice}
use noe.Startup.Examples.{running}
use noe.Startup.Placed.{
  answer_of, hour, plain_answers, Visit, hook_registry, read_name, Finds, has_manifest,
  placed_on_listed,
}

-- A list with arm64, and with amd64 whose manifest is not there
abbrev image_list : ManifestListResponse
image_list = record {
  architecture = "";
  manifests =
      record { platform = linux "arm64"; digest = "sha256:a" }
      ∷ record { platform = linux "amd64"; digest = "sha256:b" }
      ∷ [];
}

-- quay.io serves the list to those with credentials; each other image is for arm64.
abbrev serving : Query → Fetched
serving q =
    if q.registry == "quay.io"
    then (if q.auth.token == ""
        then response (record { status_code = 401; content_type = ""; body = undecodable "" })
        else if q.reference == "latest"
        then response (record {
          status_code = 200;
          content_type = "application/vnd.oci.image.index.v1+json";
          body = decoded image_list;
        })
        else response (record {
          status_code = if q.reference == "sha256:a" then 200 else 404;
          content_type = "";
          body = undecodable "";
        }))
    else response (record {
      status_code = 200;
      content_type = "";
      body = decoded (record { architecture = "arm64"; manifests = [] });
    })

abbrev app : PodSpec
app = record {
  node_name = "";
  node_selector = none;
  affinity = none;
  containers = container "quay.io/app" ∷ [];
  init_containers = container "alpine" ∷ [];
  image_pull_secrets = [];
  unread = "";
}

abbrev app_arrivals : List Arrival
app_arrivals =
    arrived "alpine" (record { architecture = "arm64"; os = ""; variant = "" } ∷ [])
    ∷ arrived "quay.io/app" (linux "arm64" ∷ [])
    ∷ []

image_clean : (ends_object "" ≡ true) × (lacks b'}' "quay.io/app" ≡ true)
unfolding lacks
image_clean = (refl, refl)

abbrev node_auth : AuthenticationToken
node_auth = record { kind = "Basic"; provider = "containerD"; token = "cXVheTpzZWNyZXQ=" }

-- The image of quay.io was asked for before, and its answer is in the cache; the other one was not.
abbrev earlier : Cache (List Platform)
earlier =
    (((cached_list_archs
      (recorded 6 (plain_answers host.glob (λ t. serving) (λ rs. rs) running 6 "" "quay.io/app")) 5
      6 "" "quay.io/app" [] (new_cache hour)).1
    ).1).1

abbrev visit : String → Visit host.glob (λ t. serving) (λ rs. rs) running
visit image = record {
  now = 8;
  stored = 9;
  log = _;
  cache = earlier;
  reached = request new 5 6 "" "quay.io/app" image_clean.0 image_clean.1;
  later = omega arith;
}

app-Answers :
    Answers
      (hook_registry host.glob (λ t. serving) (λ rs. rs) running visit)
      no_secrets
      "ns"
      app
      app_arrivals
unfolding get_container_images get_image_pull_secret ask list_cached cached_list_archs new_cache
    lookup insert plain_list_archs list_archs answer_of configured_registry new_plain_registry
    with_authenticator with_docker_proxies Options.with_schedulable_architectures schedulable_slice
    parse_registry_proxies parse_image proxied split cut lacks trim_prefix has_prefix
    authenticate_all new_authenticator image_pull_secret_candidates containerd_candidates
    config_file_candidates anonymous_candidates list_archs_with_auth is_manifest_list sent_results
    is_wanted receive_results contains
app-Answers = ends (Picks.there Picks.here) (ends Picks.here closed)

app-Finds :
    Finds host.glob serving
      (λ rs. rs)
      running
      ""
      (read_name host.glob serving (λ rs. rs) running "" "quay.io/app")
      node_auth
      image_list
unfolding configured_registry parse_image authenticate_all new_plain_registry with_authenticator
    new_authenticator image_pull_secret_candidates containerd_candidates proxied
    Options.with_schedulable_architectures with_docker_proxies parse_registry_proxies split cut
    lacks trim_prefix has_prefix list_archs_with_auth fetch_first fetch_pointed is_manifest_list
    is_wanted schedulable_slice contains config_file_candidates anonymous_candidates
app-Finds = record {
  failing = [];
  rest = record { kind = ""; provider = "anonymous"; token = "" } ∷ [];
  candidates = refl;
  failed = refl;
  answer = record {
    status_code = 200;
    content_type = "application/vnd.oci.image.index.v1+json";
    body = decoded image_list;
  };
  fetched = refl;
  ok = refl;
  body = refl;
  is_list = refl;
  complete = refl;
}

app-Constrains : Constrains running.handler [] app app_arrivals
unfolding configured_handler new_handler with_architecture with_schedulable_architectures with_os
    with_match_node_labels parse_match_node_labels schedulable_slice split lookup contains add
    common_architectures node_architecture_selection
app-Constrains = record { unscheduled = refl; unselected = refl; found = refl; unlabelled = refl }

app_placed :
    admits no_other
      (node "arm64")
      (update_pod_spec running.handler "ns" [] no_secrets app app_arrivals).spec
    ≡ true
unfolding configured_handler new_handler with_architecture with_schedulable_architectures with_os
    with_match_node_labels parse_match_node_labels schedulable_slice split lookup contains add
    common_architectures node_architecture_selection admits update_pod_spec has_value preference
    add_pod_node_matching_labels decide inject finish insert
app_placed = refl

app_has_image :
    contains (get_container_images (app.containers ∷ app.init_containers ∷ [])) "quay.io/app" ≡ true
unfolding get_container_images contains
app_has_image = refl

placed_on_listed_example :
    let name = parse_image host.glob running.registry.proxies "quay.io/app" in
    (a : String) × (lookup arch_key (node "arm64").labels ≡ some a)
    × ((t : ℕ) × ((8 < t + hour)
          × ((has_manifest host.glob serving
                  (λ rs. rs)
                  running
                  ""
                  name
                  node_auth
                  (λ p. is_usable running.handler p && p.architecture == a)
                  image_list
                ≡ true)
              ⊎ ((has_manifest host.glob serving
                      (λ rs. rs)
                      running
                      ""
                      name
                      node_auth
                      (λ p. true)
                      image_list
                    ≡ false)
                  × (a ≡ "amd64")))))
unfolding get_image_pull_secret
placed_on_listed_example =
    placed_on_listed host.glob (λ t. serving) (λ rs. rs) running visit no_secrets "ns" [] app
      app_arrivals no_other (node "arm64") "quay.io/app" (λ t. node_auth) (λ t. image_list)
      (λ p rs. refl) app-Answers app-Constrains refl app_placed app_has_image image_clean.0
      image_clean.1 (λ t h. app-Finds)

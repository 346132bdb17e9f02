-- ===== src/Startup/Examples.antt =====
-- cmd/noe/main.go on concrete flags.
use noe.Common.{◌*◌, none, some, [], ◌∷◌, ◌≡◌, ◌⊎◌, true, refl}
use noe.Common.Strings.Parts.{split, cut, lacks, trim_prefix, has_prefix}
use noe.Common.Sets.{contains}
use noe.Hook.{is_arch_supported}
use noe.Hook.Update.{preference, preferred_label}
use noe.Registry.Credentials.TestHost.{host, client}
use noe.Startup.{
  Flags, Started, schedulable_slice, refuses, configured_handler, configured_registry, start,
}
use noe.Registry.Names.{parse_image, proxied}
use noe.Registry.Manifests.{list_archs_with_auth}
use noe.Registry.Credentials.Authenticators.{authenticate_all, new_authenticator}
use noe.Registry.Credentials.Docker.{image_pull_secret_candidates}
use noe.Registry.Credentials.Containerd.{containerd_candidates}
use noe.Registry.Options
use noe.Registry.Options.{
  new_plain_registry, with_authenticator, with_docker_proxies, parse_registry_proxies,
}
use noe.Registry.Plain.{plain_list_archs}
use noe.Startup.Private.{finds_credentials, private_registries_flag}
use noe.Startup.Preferred.{started_prefers_schedulable}

abbrev pub flags : Flags
flags = record {
  preferred_arch = "arm64";
  schedulable_archs = "amd64,arm64";
  system_os = "linux";
  registry_proxies = "";
  match_node_labels = "";
  bin_dir = "";
  config = "";
  private_registries = "";
}

abbrev pub running : Started
running = record {
  handler = configured_handler flags;
  registry = configured_registry host (λ s. s) flags;
  cache_duration = 3600 * 1000000000;
}

flags-running : start host (λ s. s) flags ≡ some running
unfolding start refuses schedulable_slice split contains
flags-running = refl

-- A preferred architecture with another spelling is refused.
flags_refused : start host (λ s. s) (record flags { preferred_arch = "aarch64" }) ≡ none
unfolding start refuses schedulable_slice split contains
flags_refused = refl

started_prefers_schedulable_example :
    ((preference running.handler ((preferred_label, "s390x") ∷ [])).arch ≡ "")
    ⊎ (is_arch_supported running.handler
          (preference running.handler ((preferred_label, "s390x") ∷ [])).arch
        ≡ true)
started_prefers_schedulable_example =
    started_prefers_schedulable host (λ s. s) flags running ((preferred_label, "s390x") ∷ [])
      flags-running

quay_succeeds :
    finds_credentials host
      (λ s. s)
      flags
      client
      (λ rs. rs)
      ""
      (parse_image host.glob (configured_registry host (λ s. s) flags).proxies "quay.io/app")
    ≡ true
unfolding configured_registry parse_image authenticate_all new_plain_registry with_authenticator
    new_authenticator image_pull_secret_candidates containerd_candidates proxied
    Options.with_schedulable_architectures with_docker_proxies parse_registry_proxies split cut
    lacks trim_prefix has_prefix list_archs_with_auth
quay_succeeds = refl

private_registries_flag_example :
    plain_list_archs host.glob client
      (λ rs. rs)
      (configured_registry host (λ s. s) flags)
      ""
      "quay.io/app"
    ≡ plain_list_archs host.glob client
        (λ rs. rs)
        (configured_registry host (λ s. s) (record flags { private_registries = "quay.io" }))
        ""
        "quay.io/app"
private_registries_flag_example =
    private_registries_flag host (λ s. s) flags client (λ rs. rs) "" "quay.io" "quay.io/app"
      quay_succeeds

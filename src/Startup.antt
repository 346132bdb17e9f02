-- ===== src/Startup.antt =====
-- cmd/noe/main.go: the flags, the check before the start, and how the hook and the registry are
-- configured. The manager, its checks and its servers are not modelled.
pub mod Preferred
pub mod Private
pub mod Placed
pub mod Serving
mod Examples
mod PlacedExamples
use noe.Common.{
  ℕ, ◌*◌, Bool, ◌&&◌, not, String, Option, none, some, List, [], ◌∷◌, ◌==◌, if◌then◌else◌,
}
use noe.Common.Sets.{contains}
use noe.Common.Strings.Parts.{split}
use noe.Hook.{Handler}
use noe.Hook.Options.{
  new_handler, with_architecture, with_schedulable_architectures, with_os, with_match_node_labels,
  parse_match_node_labels,
}
use noe.Registry.Credentials.{Host}
use noe.Registry.Credentials.Authenticators.{new_authenticator}
use noe.Registry.Options
use noe.Registry.Options.{
  PlainRegistry, parse_registry_proxies, with_docker_proxies, with_authenticator,
  new_plain_registry,
}

-- The flags that configure the hook and the registry
pub record Flags : Type 0 where
  pub preferred_arch : String
  pub schedulable_archs : String
  pub system_os : String
  pub registry_proxies : String
  pub match_node_labels : String
  pub bin_dir : String
  pub config : String
  pub private_registries : String

-- What runs, with the duration of the registry's cache in nanoseconds
pub record Started : Type 0 where
  pub handler : Handler
  pub registry : PlainRegistry
  pub cache_duration : ℕ

-- schedulableArchSlice
unfoldable pub schedulable_slice : String → List String
schedulable_slice archs = if archs == "" then [] else split b',' archs

-- The preferred architecture is not schedulable.
unfoldable pub refuses : Flags → Bool
unfolding schedulable_slice
refuses f =
    not (f.preferred_arch == "")
    && (not (f.schedulable_archs == "")
        && not (contains (schedulable_slice f.schedulable_archs) f.preferred_arch))

unfoldable pub configured_handler : Flags → Handler
unfolding schedulable_slice
configured_handler f = new_handler (
    with_architecture f.preferred_arch
    ∷ with_schedulable_architectures (schedulable_slice f.schedulable_archs)
    ∷ with_os f.system_os
    ∷ with_match_node_labels (parse_match_node_labels f.match_node_labels)
    ∷ [])

module _ (h : Host) (trim : String → String) where
  unfoldable pub configured_registry : Flags → PlainRegistry
  unfolding schedulable_slice
  configured_registry f = new_plain_registry (new_authenticator h trim "" "" []) (
      with_docker_proxies (parse_registry_proxies trim f.registry_proxies)
      ∷ Options.with_schedulable_architectures (schedulable_slice f.schedulable_archs)
      ∷ with_authenticator
          (new_authenticator h trim f.config f.bin_dir (split b',' f.private_registries))
      ∷ [])

  -- main up to the start of the manager; `none` is its exit.
  unfoldable pub start : Flags → Option Started
  unfolding refuses configured_handler configured_registry
  start f =
      if refuses f
      then none
      else some (record {
        handler = configured_handler f;
        registry = configured_registry f;
        cache_duration = 3600 * 1000000000;
      })

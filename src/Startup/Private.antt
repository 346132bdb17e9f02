-- ===== src/Startup/Private.antt =====
-- What the flag for private registries decides.
use noe.Common.{Bool, true, ◌&&◌, String, List, ◌≡◌, any}
use noe.Common.Strings.Parts.{split}
use noe.Registry.{Query, Fetched}
use noe.Registry.Names.{ImageName, parse_image}
use noe.Registry.Manifests.{ArchListResult, list_archs_with_auth}
use noe.Registry.Credentials.{Host}
use noe.Registry.Credentials.Authenticators.{authenticate_all}
use noe.Registry.Credentials.Order.{succeeds, is_authenticated, list_archs_anonymous_last}
use noe.Registry.Options
use noe.Registry.Options.{
  parse_registry_proxies, with_docker_proxies, with_authenticator, new_plain_registry,
  apply_builders,
}
use noe.Registry.Plain.{list_named, plain_list_archs}
use noe.Startup.{Flags, schedulable_slice, configured_registry}

module _ (h : Host) (trim : String → String) (f : Flags) (client : Query → Fetched)
    (order : List ArchListResult → List ArchListResult) (secret : String) where
  -- Some candidate with credentials that the configured registry has for the image succeeds.
  abbrev pub finds_credentials : ImageName → Bool
  finds_credentials n =
      any
        (λ a.
          is_authenticated a
          && succeeds
              (list_archs_with_auth client order (schedulable_slice f.schedulable_archs) n.registry
                n.image n.tag)
              a)
        (authenticate_all (configured_registry h trim f).authenticator secret n.registry n.image)

  -- For an image for which an attempt with some credentials succeeds, from the image pull secret, a
  -- plugin or a file, the registry that main configures answers the same whatever the flag
  -- private-registries says.
  pub private_registries_flag :
      (others image : String)
      → finds_credentials (parse_image h.glob (configured_registry h trim f).proxies image) ≡ true
      → plain_list_archs h.glob client order (configured_registry h trim f) secret image
        ≡ plain_list_archs h.glob client order
            (configured_registry h trim (record f { private_registries = others }))
            secret
            image
  unfolding plain_list_archs list_named configured_registry new_plain_registry apply_builders
      with_authenticator with_docker_proxies Options.with_schedulable_architectures
  private_registries_flag others image found =
      let n = parse_image h.glob (parse_registry_proxies trim f.registry_proxies) image in
      list_archs_anonymous_last h trim f.config f.bin_dir secret n.registry n.image client order
        (schedulable_slice f.schedulable_archs) n.tag (split b',' f.private_registries)
        (split b',' others) found

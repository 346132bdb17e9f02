-- ===== src/Registry/Plain.antt =====
-- pkg/registry/registry.go, (*PlainRegistry).ListArchs, composed of parseImage, the authenticators
-- and the loop over their candidates.
use noe.Common.{Bool, String, Option, List}
use noe.Registry.{Query, Fetched}
use noe.Registry.Names.{ImageName, parse_image}
use noe.Registry.Manifests.{ArchListResult, Listed, list_archs}
use noe.Registry.Credentials.Authenticators.{authenticate_all}
use noe.Registry.Options.{PlainRegistry}

module _ (glob : String → String → Option Bool) (client : Query → Fetched)
    (order : List ArchListResult → List ArchListResult) (r : PlainRegistry) (secret : String) where
  unfoldable pub list_named : ImageName → Listed
  list_named n =
      list_archs client order r.schedulable_architectures
        (authenticate_all r.authenticator secret n.registry n.image) n.registry n.image n.tag

  -- (*PlainRegistry).ListArchs
  unfoldable pub plain_list_archs : String → Listed
  unfolding list_named
  plain_list_archs image = list_named (parse_image glob r.proxies image)

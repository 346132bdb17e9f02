-- ===== src/Registry/Options.antt =====
-- pkg/registry/registry.go: NewPlainRegistry, its builders and ParseRegistryProxies. strings.TrimSpace
-- is a parameter.
use noe.Common.{String, Option, none, some, List, [], ◌∷◌, ◌++◌, ◌==◌, if◌then◌else◌}
use noe.Common.Strings.Parts.{split, cut}
use noe.Registry.Names.{RegistryProxy}
use noe.Registry.Credentials.Authenticators.{Authenticator}

-- PlainRegistry, with the fields that are configured
pub record PlainRegistry : Type 0 where
  pub scheme : String
  pub authenticator : List Authenticator
  pub proxies : List RegistryProxy
  pub schedulable_architectures : List String

-- A proxy without an equals sign is dropped.
unfoldable pub parsed_proxy : String × Option String → List RegistryProxy
parsed_proxy (registry, none) = []
parsed_proxy (registry, some proxy) = record { registry = registry; proxy = proxy } ∷ []

-- The loop of ParseRegistryProxies
unfoldable pub parse_proxies : (String → String) → List String → List RegistryProxy
unfolding parsed_proxy
parse_proxies trim [] = []
parse_proxies trim (proxy ∷ rest) =
    let others = parse_proxies trim rest in
    if trim proxy == "" then others else parsed_proxy (cut b'=' (trim proxy)) ++ others

-- ParseRegistryProxies
unfoldable pub parse_registry_proxies : (String → String) → String → List RegistryProxy
unfolding parse_proxies
parse_registry_proxies trim proxies = parse_proxies trim (split b',' proxies)

-- WithDockerProxies
unfoldable pub with_docker_proxies : List RegistryProxy → PlainRegistry → PlainRegistry
with_docker_proxies proxies r = record r { proxies = r.proxies ++ proxies }

-- WithAuthenticator
unfoldable pub with_authenticator : List Authenticator → PlainRegistry → PlainRegistry
with_authenticator a r = record r { authenticator = a }

-- WithSchedulableArchitectures
unfoldable pub with_schedulable_architectures : List String → PlainRegistry → PlainRegistry
with_schedulable_architectures archs r = record r { schedulable_architectures = archs }

unfoldable pub apply_builders : List (PlainRegistry → PlainRegistry) → PlainRegistry → PlainRegistry
apply_builders [] r = r
apply_builders (builder ∷ builders) r = apply_builders builders (builder r)

-- NewPlainRegistry; the first argument is NewAuthenticator("", "", []string{}).
unfoldable pub new_plain_registry :
    List Authenticator → List (PlainRegistry → PlainRegistry) → PlainRegistry
unfolding apply_builders
new_plain_registry default_authenticator builders = apply_builders builders (record {
  scheme = "https";
  authenticator = default_authenticator;
  proxies = [];
  schedulable_architectures = [];
})

-- ===== src/Registry/Credentials/Containerd.antt =====
-- pkg/registry/containerd_credentials.go
use noe.Common.{String, Option, none, some, List, [], ◌∷◌, ◌==◌, if◌then◌else◌}
use noe.Common.Maps.{Map}
use noe.Common.Strings.Parts.{trim_prefix}
use noe.Registry.{AuthenticationToken}
use noe.Registry.Credentials.{Host, WalkedFile, ContainerdConfig}

-- The loop over the hosts, which returns at the first: the header so far, or that of a host.
unfoldable pub first_host : Map String → String → String
first_host [] header = header
first_host ((host, authorization) ∷ hosts) header = trim_prefix authorization "Basic "

module _ (h : Host) where
  unfoldable pub read_config : String → Option ContainerdConfig → String → String
  unfolding first_host
  read_config repository none header = header
  read_config repository (some config) header =
      if h.regexp repository config.server then first_host config.hosts header else header

  unfoldable pub decoded_content : Option String → Option ContainerdConfig
  decoded_content none = none
  decoded_content (some text) = h.decode_toml text

  -- The function that afero.Walk calls: the variable matchedServerHeader before and after
  unfoldable pub visit : String → WalkedFile → String → String
  unfolding read_config decoded_content
  visit repository f header =
      if f.unreadable
      then header
      else if f.is_dir
      then header
      else if f.extension == ".toml"
      then read_config repository (decoded_content f.content) header
      else header

  unfoldable pub visit_all : String → List WalkedFile → String → String
  unfolding visit
  visit_all repository [] header = header
  visit_all repository (f ∷ files) header = visit_all repository files (visit repository f header)

  -- (ContainerDAuthenticator).getHeaderOnContainerdFiles: the header; the server is only logged, and the
  -- function that Walk calls returns no error.
  unfoldable pub get_header_on_containerd_files : String → String → String
  unfolding visit_all
  get_header_on_containerd_files repository directory = visit_all repository (h.walk directory) ""

  -- (ContainerDAuthenticator).Authenticate
  unfoldable pub containerd_candidates : String → List AuthenticationToken
  unfolding get_header_on_containerd_files
  containerd_candidates registry =
      let header = get_header_on_containerd_files registry "/etc/containerd" in
      if header == ""
      then []
      else record { kind = "Basic"; token = header; provider = "containerD" } ∷ []

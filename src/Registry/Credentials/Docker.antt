-- ===== src/Registry/Credentials/Docker.antt =====
-- pkg/registry/docker_credentials.go
pub mod Hub
use noe.Common.{
  Bool, true, false, ◌&&◌, ◌||◌, not, String, Option, none, some, List, [], ◌∷◌, ◌++◌, map, ◌==◌,
  if◌then◌else◌,
}
use noe.Common.Maps.{Map, lookup}
use noe.Hook.Events.{◌<>◌}
use noe.Hook.Secrets.{DockerConfig}
use noe.Registry.{AuthenticationToken}
use noe.Registry.Credentials.{Host}

-- login[key], "" for a missing key
unfoldable pub or_empty : Option String → String
or_empty none = ""
or_empty (some s) = s

-- The variable `registry` after the lines that run the credential helper
unfoldable pub looked_up : String → String → String
looked_up creds_store registry =
    if creds_store == ""
    then registry
    else if registry == "docker.io"
    then "index.docker.io"
    else registry

-- The name of an entry of `auths`
unfoldable pub entry_registry : String → String
entry_registry reg = if reg == "https://index.docker.io/v1/" then "docker.io" else reg

-- err == nil && (matched || reg == registry)
unfoldable pub entry_matches : Option Bool → String → String → Bool
entry_matches none reg registry = false
entry_matches (some matched) reg registry = matched || reg == registry

module _ (h : Host) where
  unfoldable pub login_candidate : Option (Map String) → List String
  unfolding or_empty
  login_candidate none = []
  login_candidate (some login) =
      h.base64 (or_empty (lookup "Username" login) <> (":" <> or_empty (lookup "Secret" login)))
      ∷ []

  -- The credential helper
  unfoldable pub helper_candidates : String → String → List String
  unfolding login_candidate
  helper_candidates creds_store registry =
      if creds_store == "" then [] else login_candidate (h.run_helper creds_store registry)

  -- The loop over cfg.Auths
  unfoldable pub entry_candidates : Map String → String → String → List String
  unfolding entry_matches entry_registry
  entry_candidates [] registry image = []
  entry_candidates ((reg, auth) ∷ auths) registry image =
      let rest = entry_candidates auths registry image in
      let name = entry_registry reg in
      if entry_matches (h.glob name (registry <> ("/" <> image))) name registry && not (auth == "")
      then auth ∷ rest
      else rest

  -- (DockerConfigAuthenticator).getAuthCandidates
  unfoldable pub get_auth_candidates : DockerConfig → String → String → List String
  unfolding looked_up helper_candidates entry_candidates
  get_auth_candidates cfg registry image =
      let asked = looked_up cfg.creds_store registry in
      helper_candidates cfg.creds_store asked ++ entry_candidates cfg.auths asked image

  abbrev pub basic : String → String → AuthenticationToken
  basic provider auth = record { kind = "Basic"; token = auth; provider = provider }

  -- (DockerConfigAuthenticator).Authenticate
  unfoldable pub docker_config_candidates :
      String → DockerConfig → String → String → List AuthenticationToken
  unfolding get_auth_candidates
  docker_config_candidates provider cfg registry image =
      map (basic provider) (get_auth_candidates cfg registry image)

  unfoldable pub decoded_secret : Option DockerConfig → String → String → List AuthenticationToken
  unfolding docker_config_candidates
  decoded_secret none registry image = []
  decoded_secret (some cfg) registry image =
      docker_config_candidates "ImagePullSecret" cfg registry image

  -- (ImagePullSecretAuthenticator).Authenticate
  unfoldable pub image_pull_secret_candidates : String → String → String → List AuthenticationToken
  unfolding decoded_secret
  image_pull_secret_candidates secret registry image =
      if secret == "" then [] else decoded_secret (h.decode_docker secret) registry image

  -- A path below a directory that may not be known
  unfoldable pub below : Option String → String → List String
  below none name = []
  below (some dir) name = h.join_path dir name ∷ []

  -- The candidates of readDockerConfig
  unfoldable pub config_paths : List String
  unfolding below
  config_paths =
      ("/var/lib/kubelet/config.json" ∷ [])
      ++ below h.docker_config "config.json"
      ++ below h.user_home ".docker/config.json"
      ++ below h.home ".docker/config.json"
      ++ ("/.docker/config.json" ∷ "/var/lib/kubelet/.dockercfg" ∷ [])
      ++ below h.user_home ".dockercfg"
      ++ below h.home ".dockercfg"
      ++ ("/.dockercfg" ∷ [])

  -- r.fs.Open and parseDockerConfig
  unfoldable pub parsed_file : Option String → Option DockerConfig
  parsed_file none = none
  parsed_file (some text) = h.decode_docker text

  -- The loop over the paths: the first file that can be opened and decoded
  unfoldable pub first_config : List String → DockerConfig
  unfolding parsed_file
  first_config [] = record { auths = []; creds_store = "" }
  first_config (path ∷ paths) = elim (parsed_file (h.read_file path)) [
    | none ↦ first_config paths
    | some cfg ↦ cfg
  ]

  -- (DockerConfigFileAuthenticator).readDockerConfig
  unfoldable pub read_docker_config : DockerConfig
  unfolding config_paths first_config
  read_docker_config = first_config config_paths

  -- (DockerConfigFileAuthenticator).Authenticate
  unfoldable pub config_file_candidates : String → String → List AuthenticationToken
  unfolding read_docker_config docker_config_candidates
  config_file_candidates registry image =
      docker_config_candidates "docker-config" read_docker_config registry image

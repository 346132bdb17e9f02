-- ===== src/Registry/Credentials.antt =====
-- pkg/registry: the authenticators of login.go, docker_credentials.go, containerd_credentials.go and
-- kubelet_credentials.go: what each sends on the channel of candidates while its context is not
-- cancelled, in that order. The machine with its files, its environment and its plugins, and the
-- libraries that read their texts, are parameters (`Host`).
pub mod Docker
pub mod Containerd
pub mod Kubelet
pub mod Authenticators
pub mod Order
pub mod TestHost
mod Examples
use noe.Common.{Bool, String, Option, none, some, List, [], ◌∷◌}
use noe.Common.Maps.{Map}
use noe.Common.Strings.Parts.{has_prefix}
use noe.Hook.Secrets.{DockerConfig}

-- What afero.Walk calls its function with, and the file's text; `none` is an error.
pub record WalkedFile : Type 0 where
  pub unreadable : Bool
  pub is_dir : Bool
  pub extension : String
  pub content : Option String

-- ContainerdConfig; the value of a host is its header's authorization
pub record ContainerdConfig : Type 0 where
  pub server : String
  pub hosts : Map String

-- kubeletconfigv1.CredentialProvider
pub record CredentialProvider : Type 0 where
  pub name : String
  pub api_version : String
  pub match_images : List String
  pub args : List String
  pub env : Map String

-- AuthConfig of a plugin's response
pub record AuthConfig : Type 0 where
  pub username : String
  pub password : String

-- What the authenticators call; `none` is an error, or a variable that is not set.
pub record Host : Type 0 where
  -- filepath.Match, base64 and filepath.Join
  pub glob : String → String → Option Bool
  pub base64 : String → String
  pub join_path : String → String → String
  -- The environment, and os.UserHomeDir
  pub docker_config : Option String
  pub home : Option String
  pub user_home : Option String
  -- The files, and what decodes their texts
  pub read_file : String → Option String
  pub decode_docker : String → Option DockerConfig
  pub walk : String → List WalkedFile
  pub decode_toml : String → Option ContainerdConfig
  pub decode_providers : String → Option (List CredentialProvider)
  -- regexp.MatchString, false at an error
  pub regexp : String → String → Bool
  -- docker-credential-<store> get, with the registry as its input
  pub run_helper : String → String → Option (Map String)
  -- schema.ParseGroupVersion, and the request for an image as text
  pub parse_group_version : String → Option String
  pub serialise : String → String → Option String
  -- execCommandOutput with environment, command, arguments and input
  pub exec : List String → String → List String → String → Option String
  pub decode_response : String → Option (Map AuthConfig)

-- ===== src/Registry/Credentials/TestHost.antt =====
-- A machine and a registry for the examples.
use noe.Common.{false, none, some, [], ◌∷◌, ◌==◌, if◌then◌else◌}
use noe.Hook.Events.{◌<>◌}
use noe.Registry.{Query, Fetched, response, undecodable, decoded}
use noe.Registry.Credentials.{Host}

-- A machine with a file of containerd for quay.io. Its texts are not decoded further, and
-- its patterns have no special characters.
abbrev pub host : Host
host = record {
  glob = λ pattern s. some (pattern == s);
  base64 = λ s. s;
  join_path = λ dir name. dir <> ("/" <> name);
  docker_config = none;
  home = none;
  user_home = none;
  read_file = λ path. none;
  decode_docker = λ text. none;
  walk = λ dir.
      record { unreadable = false; is_dir = false; extension = ".toml"; content = some "hosts" }
      ∷ [];
  decode_toml =
      λ text. some (record { server = "quay.io"; hosts = ("quay.io", "cXVheTpzZWNyZXQ=") ∷ [] });
  decode_providers = λ text. none;
  regexp = λ pattern s. pattern == s;
  run_helper = λ store registry. none;
  parse_group_version = λ s. some s;
  serialise = λ image gv. some image;
  exec = λ env command args stdin. none;
  decode_response = λ text. none;
}

-- A registry that answers those with credentials
abbrev pub client : Query → Fetched
client q =
    if q.auth.token == ""
    then response (record { status_code = 401; content_type = ""; body = undecodable "" })
    else response (record {
      status_code = 200;
      content_type = "";
      body = decoded (record { architecture = "arm64"; manifests = [] });
    })

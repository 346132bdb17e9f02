-- ===== src/Registry/TextExamples.antt =====
-- Names of images and login patterns, read by pkg/registry.
use noe.Common.{
  Option, if◌then◌else◌, ◌&&◌, ◌≢◌, eq_iff, Bool, true, false, ◌==◌, String, some, List, [], ◌∷◌,
  ◌≡◌, refl, arith,
}
use noe.Hook.Events.{◌<>◌}
use noe.Common.Strings.Parts.{lacks}
use noe.Registry.Names.{RegistryProxy, parse_image}
use noe.Registry.Names.Reading.{Redirects, follows, ends, parse_image_tag}

-- filepath.Match on patterns without wildcards
abbrev exact : String → String → Option Bool
exact pattern name = some (pattern == name)

abbrev corp : String
corp = "registry.corp"

abbrev group : String
group = "team"

-- docker.io is fetched through a proxy.
abbrev via_proxy : List RegistryProxy
via_proxy = record { registry = "docker.io"; proxy = "proxy.corp" } ∷ []

abbrev docker : String
docker = "docker.io"

abbrev nginx : String
nginx = "nginx"

docker_clean : (lacks b'/' docker ≡ true) × (lacks b'.' docker ≡ false)
unfolding lacks
docker_clean = (refl, refl)

docker_named : docker ≢ ""
docker_named e = ground (arith, (eq_iff docker "").1 e)

nginx_clean : (lacks b'@' nginx ≡ true) × (lacks b':' nginx ≡ true)
unfolding lacks
nginx_clean = (refl, refl)

abbrev version : String
version = "1.27"

version_clean : lacks b'@' version ≡ true
unfolding lacks
version_clean = refl

docker-Redirects : Redirects exact via_proxy docker "proxy.corp"
docker-Redirects = follows refl ends

parse_image_tag_example :
    parse_image exact via_proxy (docker <> ("/" <> (nginx <> (":" <> version)))) ≡ record {
      registry = "proxy.corp";
      image = if docker == "docker.io" && lacks b'/' nginx then "library/" <> nginx else nginx;
      tag = version;
      has_ref = false;
    }
parse_image_tag_example =
    parse_image_tag exact via_proxy docker nginx docker_clean.0 docker_clean.1 docker_named
      nginx_clean.0 nginx_clean.1 version "proxy.corp" version_clean docker-Redirects

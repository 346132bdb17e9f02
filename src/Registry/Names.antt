-- ===== src/Registry/Names.antt =====
-- pkg/registry/registry.go, parseImage. filepath.Match is a parameter: `none` is its error for a
-- bad pattern.
pub mod Reading
use noe.Common.{
  Bool, true, false, ◌&&◌, ◌||◌, not, String, Option, none, some, List, [], ◌∷◌, ◌==◌,
  if◌then◌else◌,
}
use noe.Common.Strings.Parts.{cut, lacks}
use noe.Hook.Events.{◌<>◌}

-- RegistryProxy
pub record RegistryProxy : Type 0 where
  pub registry : String
  pub proxy : String

-- What parseImage returns
pub record ImageName : Type 0 where
  pub registry : String
  pub image : String
  pub tag : String
  pub has_ref : Bool

-- The registry, "" if there is none, and what is left of the image
unfoldable pub split_registry : String → String × Option String → String × String
split_registry whole (first, none) = ("", whole)
split_registry whole (first, some rest) =
    if not (lacks b'.' first) || not (lacks b':' first) then (first, rest) else ("", whole)

-- A digest is dropped, and only that there was one is kept.
unfoldable pub strip_ref : String × Option String → String × Bool
strip_ref (image, none) = (image, false)
strip_ref (image, some ref) = (image, true)

unfoldable pub split_tag : String × Option String → String × String
split_tag (image, none) = (image, "latest")
split_tag (image, some tag) = (image, tag)

unfoldable pub or_docker : String → String
or_docker registry = if registry == "" then "docker.io" else registry

-- An image of docker.io without a path is one of its library.
unfoldable pub with_library : String → String → String
with_library registry image =
    if registry == "docker.io" && lacks b'/' image then "library/" <> image else image

unfoldable pub is_proxied : Option Bool → Bool
is_proxied none = false
is_proxied (some b) = b

module _ (glob : String → String → Option Bool) where
  -- The loop over the proxies; each sees the registry that the one before it left.
  unfoldable pub proxied : List RegistryProxy → String → String
  unfolding is_proxied
  proxied [] registry = registry
  proxied (p ∷ ps) registry =
      proxied ps (if is_proxied (glob p.registry registry) then p.proxy else registry)

  -- From the registry and the rest of the image on
  unfoldable pub parse_rest : List RegistryProxy → String × String → ImageName
  unfolding strip_ref split_tag or_docker with_library
  parse_rest proxies (registry, rest) =
      let (named, has_ref) = strip_ref (cut b'@' rest) in
      let (image, tag) = split_tag (cut b':' named) in
      record {
        registry = proxied proxies (or_docker registry);
        image = with_library (or_docker registry) image;
        tag = tag;
        has_ref = has_ref;
      }

  -- (*PlainRegistry).parseImage
  unfoldable pub parse_image : List RegistryProxy → String → ImageName
  unfolding split_registry parse_rest
  parse_image proxies image = parse_rest proxies (split_registry image (cut b'/' image))

-- ===== src/Registry/Names/Reading.antt =====
-- How parseImage reads the name of an image that is written with its registry.
use noe.Common.{
  Bool, true, false, ◌&&◌, ◌==◌, if◌then◌else◌, String, Option, none, some, List, [], ◌∷◌, ◌≡◌, ◌≢◌,
  refl, ◌∙◌, arith, eq_iff,
}
use noe.Common.Strings.Parts.{cut, lacks, cut-lacks, cut-append_one, lacks-append}
use noe.Hook.Events.{◌<>◌}
use noe.Registry.Names.{
  RegistryProxy, split_registry, strip_ref, split_tag, or_docker, with_library, proxied, is_proxied,
  parse_rest, parse_image,
}

cut_slash : (s t : String) → lacks b'/' s ≡ true → cut b'/' (s <> ("/" <> t)) ≡ (s, some t)
cut_slash s t h = cut-append_one b'/' _ s t h refl

cut_at : (s t : String) → lacks b'@' s ≡ true → cut b'@' (s <> ("@" <> t)) ≡ (s, some t)
cut_at s t h = cut-append_one b'@' _ s t h refl

cut_colon : (s t : String) → lacks b':' s ≡ true → cut b':' (s <> (":" <> t)) ≡ (s, some t)
cut_colon s t h = cut-append_one b':' _ s t h refl

colon_lacks_at : lacks b'@' ":" ≡ true
unfolding lacks
colon_lacks_at = refl

-- The proxies lead from a registry to another one: each proxy in turn takes over if its pattern
-- matches the registry that is reached so far, and is passed over if it does not, or is bad.
pub data Redirects (glob : String → String → Option Bool)
    : List RegistryProxy → String → String → Type 0 where
  ends : {registry : String} → Redirects glob [] registry registry
  follows :
      {p : RegistryProxy} {proxies : List RegistryProxy} {registry last : String}
      → glob p.registry registry ≡ some true
      → Redirects glob proxies p.proxy last
      → Redirects glob (p ∷ proxies) registry last
  passes :
      {p : RegistryProxy} {proxies : List RegistryProxy} {registry last : String}
      → glob p.registry registry ≢ some true
      → Redirects glob proxies registry last
      → Redirects glob (p ∷ proxies) registry last

not_proxied : (o : Option Bool) → o ≢ some true → is_proxied o ≡ false
unfolding is_proxied
not_proxied none h = refl
not_proxied (some false) h = refl
not_proxied (some true) h = absurd (h refl)

proxied-Redirects :
    {glob : String → String → Option Bool} {proxies : List RegistryProxy} {registry last : String}
    → Redirects glob proxies registry last
    → proxied glob proxies registry ≡ last
unfolding proxied is_proxied
proxied-Redirects ends = refl
proxied-Redirects (follows e run) = rw e (proxied-Redirects run)
proxied-Redirects {glob} {registry = registry} (passes {p} h run) =
    rw (not_proxied (glob p.registry registry) h) (proxied-Redirects run)

module _ (glob : String → String → Option Bool) (proxies : List RegistryProxy)
    (registry image : String) (no_slash : lacks b'/' registry ≡ true)
    (dotted : lacks b'.' registry ≡ false) (named : registry ≢ "") (no_at : lacks b'@' image ≡ true)
    (no_colon : lacks b':' image ≡ true) where
  parse_image-registry :
      (rest : String)
      → parse_image glob proxies (registry <> ("/" <> rest))
        ≡ parse_rest glob proxies (registry, rest)
  unfolding parse_image split_registry
  parse_image-registry rest = rw (cut_slash registry rest no_slash, dotted) refl

  or_docker_named : or_docker registry ≡ registry
  unfolding or_docker
  or_docker_named = ground (arith, eq_iff registry "")

  -- The name registry/image:tag, of a registry with a dot and without a slash, an image without a
  -- colon and an at sign and a tag without an at sign, is read as these three parts, without a
  -- digest; the registry is the one that the proxies lead to, and the image gets the path library/
  -- just if the written registry is docker.io and the image has no slash.
  pub parse_image_tag :
      (tag last : String)
      → lacks b'@' tag ≡ true
      → Redirects glob proxies registry last
      → parse_image glob proxies (registry <> ("/" <> (image <> (":" <> tag)))) ≡ record {
        registry = last;
        image = if registry == "docker.io" && lacks b'/' image then "library/" <> image else image;
        tag = tag;
        has_ref = false;
      }
  unfolding parse_rest strip_ref split_tag with_library
  parse_image_tag tag last clean run =
      let whole : lacks b'@' (image <> (":" <> tag)) ≡ true =
        ground (
          arith,
          lacks-append b'@' image (":" <> tag),
          lacks-append b'@' ":" tag,
          colon_lacks_at,
        ) in
      parse_image-registry (image <> (":" <> tag))
      ∙ rw
          (
            cut-lacks b'@' (image <> (":" <> tag)) whole,
            cut_colon image tag no_colon,
            or_docker_named,
            proxied-Redirects run,
          )
          refl

  -- The name registry/image@digest, of a registry with a dot and without a slash and an image
  -- without a colon and an at sign, is read as the tag latest of the image, whatever the digest
  -- is: it is dropped.
  pub parse_image_digest :
      (digest : String)
      → parse_image glob proxies (registry <> ("/" <> (image <> ("@" <> digest)))) ≡ record {
        registry = proxied glob proxies registry;
        image = with_library registry image;
        tag = "latest";
        has_ref = true;
      }
  unfolding parse_rest strip_ref split_tag
  parse_image_digest digest =
      parse_image-registry (image <> ("@" <> digest))
      ∙ rw (cut_at image digest no_at, cut-lacks b':' image no_colon, or_docker_named) refl

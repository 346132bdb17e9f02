-- ===== src/Registry/Patterns/Matching.antt =====
-- What the parts of a login pattern do.
use noe.Common.{
  Bool, true, false, ◌&&◌, not, String, Option, none, some, ◌∷◌, ◌==◌, ◌≡◌, ◌≢◌, refl, ◌∙◌, arith,
  eq_iff,
}
use noe.Common.Strings.Parts.{split, has_prefix, lacks, split-lacks, split-append_one, lacks-append}
use noe.Registry.Patterns.{
  first_part, second_part, has_other_port, matches_port_path, image_matches_login_pattern,
}
use noe.Hook.Events.{◌<>◌}

-- filepath.Match says that the host of the registry matches.
abbrev pub is_match : Option Bool → Bool
is_match none = false
is_match (some b) = b

matches-no_port :
    (m : Option Bool) (registry image path : String)
    → matches_port_path m registry image "" path
      ≡ (is_match m && not (not (path == "") && has_prefix image path))
unfolding matches_port_path
matches-no_port none registry image path = refl
matches-no_port (some false) registry image path = refl
matches-no_port (some true) registry image path = ground arith

split_colon : (s t : String) → lacks b':' s ≡ true → split b':' (s <> (":" <> t)) ≡ s ∷ split b':' t
split_colon s t h = split-append_one b':' _ s t h refl

lacks_colon : lacks b'/' ":" ≡ true
unfolding lacks
lacks_colon = refl

matches-port :
    (m : Option Bool) (registry image port : String)
    → port ≢ ""
    → matches_port_path m registry image port ""
      ≡ (is_match m && not (has_other_port (split b':' registry) port))
unfolding matches_port_path
matches-port none registry image port ne = refl
matches-port (some false) registry image port ne = refl
matches-port (some true) registry image port ne = ground (arith, eq_iff port "")

module _ (glob : String → String → Option Bool) (registry image host : String)
    (no_slash : lacks b'/' host ≡ true) (no_colon : lacks b':' host ≡ true) where
  -- A pattern of a host matches the images of the registries whose host matches, on any port.
  pub image_matches_login_pattern_domain :
      image_matches_login_pattern glob registry image host
      ≡ is_match (glob host (first_part (split b':' registry)))
  unfolding image_matches_login_pattern first_part second_part
  image_matches_login_pattern_domain =
      rw (split-lacks b'/' host no_slash, split-lacks b':' host no_colon)
        (matches-no_port (glob host (first_part (split b':' registry))) registry image ""
          ∙ ground arith)

  -- A pattern of a host and a port matches the images of the registries whose host matches and
  -- whose port is this one.
  image_matches_login_pattern_port :
      (port : String)
      → lacks b'/' port ≡ true
      → lacks b':' port ≡ true
      → port ≢ ""
      → image_matches_login_pattern glob registry image (host <> (":" <> port)) ≡ (
          is_match (glob host (first_part (split b':' registry)))
          && not (has_other_port (split b':' registry) port))
  unfolding image_matches_login_pattern first_part second_part
  image_matches_login_pattern_port port clean whole ne =
      let one : lacks b'/' (host <> (":" <> port)) ≡ true =
        ground
          (arith, lacks-append b'/' host (":" <> port), lacks-append b'/' ":" port, lacks_colon) in
      rw
        (
          split-lacks b'/' (host <> (":" <> port)) one,
          split_colon host port no_colon,
          split-lacks b':' port whole,
        )
        (matches-port (glob host (first_part (split b':' registry))) registry image port ne)

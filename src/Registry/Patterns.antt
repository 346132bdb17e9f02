-- ===== src/Registry/Patterns.antt =====
-- pkg/registry/kubelet_credentials.go, imageMatchesLoginPattern, and
-- pkg/registry/anonymous_credentials.go. filepath.Match is a parameter: `none` is its error for a
-- bad pattern.
pub mod Matching
use noe.Common.{
  Bool, true, false, ◌&&◌, not, String, Option, none, some, List, [], ◌∷◌, ◌==◌, any, if◌then◌else◌,
}
use noe.Common.Strings.Parts.{split, has_prefix}
use noe.Registry.{AuthenticationToken}

-- The first part; strings.Split returns one at least.
unfoldable pub first_part : List String → String
first_part [] = ""
first_part (part ∷ parts) = part

-- The second part, or "".
unfoldable pub second_part : List String → String
second_part [] = ""
second_part (part ∷ []) = ""
second_part (part ∷ second ∷ parts) = second

-- `len(regHostPort) < 2 || regHostPort[1] != matchPort`
unfoldable pub has_other_port : List String → String → Bool
has_other_port [] port = true
has_other_port (host ∷ []) port = true
has_other_port (host ∷ p ∷ parts) port = not (p == port)

-- The tests after filepath.Match, on what it returned.
unfoldable pub matches_port_path : Option Bool → String → String → String → String → Bool
unfolding has_other_port
matches_port_path none registry image port path = false
matches_port_path (some false) registry image port path = false
matches_port_path (some true) registry image port path =
    if not (port == "") && has_other_port (split b':' registry) port
    then false
    else if not (path == "") && has_prefix image path
    then false
    else true

module _ (glob : String → String → Option Bool) where
  -- imageMatchesLoginPattern
  unfoldable pub image_matches_login_pattern : String → String → String → Bool
  unfolding first_part second_part matches_port_path
  image_matches_login_pattern registry image pattern =
      let reg_path = split b'/' pattern in
      let host_port = split b':' (first_part reg_path) in
      matches_port_path (glob (first_part host_port) (first_part (split b':' registry))) registry
        image (second_part host_port) (second_part reg_path)

  -- (AnonymousAuthenticator).Authenticate, without a cancelled context: what it sends
  unfoldable pub anonymous_candidates : List String → String → String → List AuthenticationToken
  anonymous_candidates patterns registry image =
      if any (image_matches_login_pattern registry image) patterns
      then []
      else record { kind = ""; provider = "anonymous"; token = "" } ∷ []

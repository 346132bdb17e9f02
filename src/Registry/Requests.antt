-- ===== src/Registry/Requests.antt =====
-- pkg/registry/registry.go and pkg/registry/www_authenticate.go: the requests for manifests, the image
-- that is read from their path, and the request for a token. What net/url, encoding/json, go-http-auth and
-- crypto/sha1 do are parameters.
use noe.Common.{ℕ, String, Option, none, some, List, [], ◌∷◌, ◌==◌, if◌then◌else◌}
use noe.Common.Integers.{ℤ}
use noe.Common.Maps.{Map, lookup, insert}
use noe.Common.Strings.Parts.{split, cut}
use noe.Hook.Events.{◌<>◌}
use noe.Registry.{AuthenticationToken, Query}

-- url.URL, with its query as url.Values
pub record Url : Type 0 where
  pub base : String
  pub path : String
  pub query : Map (List String)

-- http.Request, with the headers that are read
pub record HttpRequest : Type 0 where
  pub method : String
  pub url : Url
  pub authorization : String
  pub accept_headers : List String

-- http.Response, with the parts that are read
pub record HttpResponse (B : Type 0) : Type 0 where
  pub status_code : ℕ
  pub www_authenticate : String
  pub body : B

-- registryAuthResponse, with the fields that are read
pub record RegistryAuthResponse : Type 0 where
  pub token : String
  pub expires_in : ℤ

-- The packages that the code calls; `none` is an error. `reparse` is what http.NewRequest makes of
-- the text of an URL, `parse_url` is url.Parse, which it calls, and `key_sum` is the SHA-1 sum in hexadecimal.
pub record Packages (B : Type 0) : Type 0 where
  pub reparse : Url → Option Url
  pub parse_url : String → Option Url
  pub parse_pairs : String → Map String
  pub decode : B → Option RegistryAuthResponse
  pub key_sum : String → String

-- strings.Join with a slash
unfoldable pub join : List String → String
join [] = ""
join (part ∷ []) = part
join (part ∷ next ∷ parts) = part <> ("/" <> join (next ∷ parts))

-- Without the last two
unfoldable pub drop_last_two : List String → Option (List String)
drop_last_two [] = none
drop_last_two (x ∷ []) = none
drop_last_two (x ∷ y ∷ []) = some []
drop_last_two (x ∷ y ∷ z ∷ rest) = elim (drop_last_two (y ∷ z ∷ rest)) [
  | none ↦ none
  | some kept ↦ some (x ∷ kept)
]

-- imageParts[2:len(imageParts)-2]; `none` is a panic, for less than four parts.
unfoldable pub middle : List String → Option (List String)
unfolding drop_last_two
middle [] = none
middle (x ∷ []) = none
middle (x ∷ y ∷ rest) = drop_last_two rest

abbrev pub joined : Option (List String) → Option String
joined none = none
joined (some parts) = some (join parts)

-- The image of a request's path
unfoldable pub image_of : String → Option String
unfolding middle
image_of path = joined (middle (split b'/' path))

-- auth.Kind + " " + auth.Token, if there is a token
unfoldable pub authorization_of : AuthenticationToken → String
authorization_of auth = if auth.token == "" then "" else auth.kind <> (" " <> auth.token)

-- fmt.Sprintf("%s://%s/v2/%s/manifests/%s", ...)
unfoldable pub manifest_url : String → String → String → String → String
manifest_url scheme registry image tag =
    scheme <> ("://" <> (registry <> ("/v2/" <> (image <> ("/manifests/" <> tag)))))

-- The request for an URL that http.NewRequest reads; `none` is its error.
unfoldable pub manifest_request : Query → Option Url → Option HttpRequest
unfolding authorization_of
manifest_request q none = none
manifest_request q (some u) = some (record {
  method = "GET";
  url = u;
  authorization = authorization_of q.auth;
  accept_headers = q.accept_headers;
})

-- What NewWWWAuthenticateRequest returns
pub data Challenge : Type 0 where
  bad_challenge : String → Challenge
  challenge : String → HttpRequest → Challenge

-- q.Set(k, v) for each pair
unfoldable pub set_all : Map String → Map (List String) → Map (List String)
set_all [] q = q
set_all ((k, v) ∷ pairs) q = set_all pairs (insert k (v ∷ []) q)

-- values["realm"]
unfoldable pub realm : Option String → String
realm none = ""
realm (some r) = r

-- http.NewRequest("GET", u.String(), nil)
unfoldable pub token_request : String → Option Url → Challenge
token_request kind none = bad_challenge "parse"
token_request kind (some u) =
    challenge kind (record { method = "GET"; url = u; authorization = ""; accept_headers = [] })

module _ {B : Type 0} (lib : Packages B) where
  -- newGetManifestRequest with the Accept headers of getImageManifest
  unfoldable pub new_get_manifest_request : String → Query → Option HttpRequest
  unfolding manifest_request manifest_url
  new_get_manifest_request scheme q =
      manifest_request q (lib.parse_url (manifest_url scheme q.registry q.image q.reference))

  unfoldable pub realm_request : String → Map String → Option Url → Challenge
  unfolding token_request set_all
  realm_request kind values none = bad_challenge "parse"
  realm_request kind values (some u) =
      token_request kind (lib.reparse (record u { query = set_all values u.query }))

  -- parseWWWAuthenticateHeader on the two parts, and the rest of NewWWWAuthenticateRequest
  unfoldable pub challenged : String × Option String → Challenge
  unfolding realm_request realm
  challenged (kind, none) = bad_challenge "malformed www-authenticate header"
  challenged (kind, some pairs) =
      let values = lib.parse_pairs pairs in
      realm_request kind values (lib.parse_url (realm (lookup "realm" values)))

  -- NewWWWAuthenticateRequest
  unfoldable pub new_www_authenticate_request : String → Challenge
  unfolding challenged
  new_www_authenticate_request value = challenged (cut b' ' value)

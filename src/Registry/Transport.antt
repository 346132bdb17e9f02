-- ===== src/Registry/Transport.antt =====
-- pkg/registry/registry.go, WWWAuthenticateTransport. The inner transport, which changes the world,
-- and the packages of Registry/Requests are parameters.
pub mod Paths
pub mod Tokens
use noe.Common.{
  ℕ, ◌+◌, ◌*◌, Bool, String, Option, none, some, List, [], ◌∷◌, ◌++◌, ◌==◌, ltb, nat_eq,
  if◌then◌else◌,
}
use noe.Common.Integers.{ℤ, pos, negsuc}
use noe.Common.Maps.{Map, lookup, insert}
use noe.Common.Strings.Parts.{split, cut}
use noe.Hook.Events.{◌<>◌}
use noe.Registry.{AuthenticationToken, Query}
use noe.Registry.Cache.{Cache, load, store, with_expiry}
use noe.Registry.Cached.{CacheMetric, request, hit_response, miss_response}
use noe.Registry.Requests.{
  Url, HttpRequest, HttpResponse, RegistryAuthResponse, Packages, join, drop_last_two, middle,
  joined, image_of, authorization_of, new_get_manifest_request, Challenge, set_all, realm,
  token_request, realm_request, challenged, new_www_authenticate_request, challenge, bad_challenge,
}

-- What the inner transport returns.
pub data Replied (B : Type 0) : Type 0 where
  no_reply : String → Replied B
  reply : HttpResponse B → Replied B

-- What RoundTrip returns: it can return a response together with an error.
pub data Returned (B : Type 0) : Type 0 where
  failed : String → Returned B
  responded : HttpResponse B → Returned B
  responded_with : HttpResponse B → String → Returned B

-- time.Second
abbrev pub second : ℕ
second = 1000000000

-- expires_in, 0 where it is not positive
unfoldable pub lifetime : ℤ → ℕ
lifetime (pos n) = n
lifetime (negsuc n) = 0

-- What the token request comes to
pub data TokenFetch : Type 0 where
  refused : String → TokenFetch
  no_token : TokenFetch
  fetched : String → RegistryAuthResponse → TokenFetch

-- query.Set("scope", ...)
unfoldable pub scoped : String → HttpRequest → HttpRequest
scoped image q = record q {
  url = record q.url {
    query = insert "scope" (("repository:" <> (image <> ":pull")) ∷ []) q.url.query;
  };
}

unfoldable pub decoded_token : String → Option RegistryAuthResponse → TokenFetch
decoded_token kind none = no_token
decoded_token kind (some t) = fetched kind t

-- The increments, if the transport has metrics
unfoldable pub counts : Bool → List CacheMetric → List CacheMetric
counts counted metrics = if counted then metrics else []

-- A token with a lifetime is stored until it ends.
unfoldable pub store_token :
    ℕ → String → String → RegistryAuthResponse → Cache String → Cache String
unfolding lifetime
store_token now key auth t c =
    if ltb 0 (lifetime t.expires_in)
    then store now key auth (with_expiry (now + lifetime t.expires_in * second) ∷ []) c
    else c

-- headReq with the cached token, if there is one
unfoldable pub head_request : HttpRequest → Url → Option String → HttpRequest
head_request q u none = record q { method = "HEAD"; url = u }
head_request q u (some auth) = record q { method = "HEAD"; url = u; authorization = auth }

module _ {B : Type 0} (lib : Packages B) where
  unfoldable pub token_reply : String → Replied B → TokenFetch
  unfolding decoded_token
  token_reply kind (no_reply err) = no_token
  token_reply kind (reply r) =
      if nat_eq r.status_code 200 then decoded_token kind (lib.decode r.body) else no_token

  -- hex(sha1(image + Authorization))
  unfoldable pub token_key : String → HttpRequest → String
  token_key image q = lib.key_sum (image <> q.authorization)

-- What a round trip returns and changes: the increments of the metrics, the world and the cache.
abbrev pub Outcome : Type 0 → Type 0 → Type 0
Outcome W B = Returned B × (List CacheMetric × (W × Cache String))

-- The last round trip, on what the inner transport returned
unfoldable pub finished :
    {W B : Type 0} → List CacheMetric → Cache String → Replied B × W → Outcome W B
finished metrics c (no_reply err, w) = (failed err, (metrics, (w, c)))
finished metrics c (reply r, w) = (responded r, (metrics, (w, c)))

module _ {W B : Type 0} (lib : Packages B) (transport : HttpRequest → W → Replied B × W) where
  unfoldable pub ask_realm : String → Challenge → W → TokenFetch × W
  unfolding scoped token_reply
  ask_realm image (bad_challenge err) w = (refused err, w)
  ask_realm image (challenge kind q) w =
      let (answer, w2) = transport (scoped image q) w in (token_reply lib kind answer, w2)

  -- From the unauthorized response to the decoded answer of the realm
  unfoldable pub fetch_token : String → HttpResponse B → W → TokenFetch × W
  unfolding ask_realm new_www_authenticate_request
  fetch_token image r w = ask_realm image (new_www_authenticate_request lib r.www_authenticate) w

  -- A transport with a cache; `counted` says whether it has metrics.
  module _ (counted : Bool) where
    -- After the token request; `unauthorized` is the response to the HEAD request.
    unfoldable pub use_token :
        ℕ → String → HttpRequest → HttpResponse B → TokenFetch × W → Cache String → Outcome W B
    unfolding counts finished store_token
    use_token now key q unauthorized (refused err, w) c =
        (responded_with unauthorized err, (counts counted (request ∷ []), (w, c)))
    use_token now key q unauthorized (no_token, w) c =
        (responded unauthorized, (counts counted (request ∷ []), (w, c)))
    use_token now key q unauthorized (fetched kind t, w) c =
        let auth = kind <> (" " <> t.token) in
        finished (counts counted (request ∷ miss_response ∷ [])) (store_token now key auth t c)
          (transport (record q { authorization = auth }) w)

    -- The cached token goes with the request, if there is one.
    unfoldable pub use_cached : HttpRequest → Option String → W → Cache String → Outcome W B
    unfolding counts finished
    use_cached q none w c = finished (counts counted (request ∷ [])) c (transport q w)
    use_cached q (some auth) w c =
        finished (counts counted (request ∷ hit_response ∷ [])) c
          (transport (record q { authorization = auth }) w)

    -- From the answer to the HEAD request on
    unfoldable pub after_head :
        ℕ
        → String
        → String
        → HttpRequest
        → Option String
        → Replied B × W
        → Cache String
        → Outcome W B
    unfolding use_token use_cached counts
    after_head now image key q cached (no_reply err, w) c =
        (failed err, (counts counted (request ∷ []), (w, c)))
    after_head now image key q cached (reply r, w) c =
        if nat_eq r.status_code 401
        then use_token now key q r (fetch_token image r w) c
        else use_cached q cached w c

    -- From the image on
    unfoldable pub round_trip_image :
        ℕ → ℕ → String → HttpRequest → Url → W → Cache String → Outcome W B
    unfolding token_key head_request after_head
    round_trip_image now stored image q u w c =
        let key = token_key lib image q in
        let cached = load now key c in
        after_head stored image key q cached (transport (head_request q u cached) w) c

    unfoldable pub round_trip_parsed :
        ℕ → ℕ → HttpRequest → Option Url → Option String → W → Cache String → Option (Outcome W B)
    unfolding round_trip_image
    round_trip_parsed now stored q none image w c = some (failed "parse", ([], (w, c)))
    round_trip_parsed now stored q (some u) none w c = none
    round_trip_parsed now stored q (some u) (some image) w c =
        some (round_trip_image now stored image q u w c)

    -- (*WWWAuthenticateTransport).RoundTrip with the time of the Load and that of the Store, at
    -- which the lifetime of a token begins too. Its goroutine is `clean_up`, and runs at any later
    -- time. `none` is a panic.
    unfoldable pub round_trip : ℕ → ℕ → HttpRequest → W → Cache String → Option (Outcome W B)
    unfolding round_trip_parsed image_of
    round_trip now stored q w c =
        round_trip_parsed now stored q (lib.reparse q.url) (image_of q.url.path) w c

-- ===== src/Registry/TransportExamples.antt =====
-- The transport of pkg/registry/registry.go on a concrete realm.
use Prim.Native.String.{[], ◌∷◌}
use text.Mathlib.TextLemmas.{nil-append, append_assoc as append_text}
use noe.Common.{
  ◌||◌, Bool-cases, inl, inr, eq_iff, sym, ◌∙◌, ap, subst, Option, ℕ, true, String, none, some,
  List, [], ◌∷◌, ◌≡◌, refl, arith, ◌==◌, if◌then◌else◌,
}
use noe.Common.Integers.{pos}
use noe.Common.Maps.{lookup, insert, HasDistinctKeys}
use noe.Common.Strings.Parts.{cut, lacks, split, every, cut-append_one}
use noe.Hook.Events.{◌<>◌}
use noe.Registry.{Query}
use noe.Registry.Cache.{new_cache, load, live_value}
use noe.Registry.Cached.{request, hit_response, miss_response}
use noe.Registry.Requests.{
  Url, HttpRequest, HttpResponse, RegistryAuthResponse, Packages, challenge, set_all, realm,
  new_www_authenticate_request, challenged, realm_request, token_request, image_of,
  new_get_manifest_request, middle, drop_last_two, join,
}
use noe.Registry.Transport.{
  Replied, reply, lifetime, counts, finished, scoped, fetched, fetch_token, ask_realm, token_reply,
  decoded_token, head_request, token_key, store_token, round_trip,
}
use noe.Registry.Transport.Paths.{
  is_digit, is_authority, ReadsUrls, image_of-new_get_manifest_request,
}
use noe.Registry.Transport.Tokens.{set_value, token_reused, token_request-query}

-- net/url and the others on the texts below: a header has only a realm.
abbrev packages : Packages String
packages = record {
  reparse = λ u. some u;
  parse_url = λ s. some (record { base = s; path = ""; query = ("scope", "other" ∷ []) ∷ [] });
  parse_pairs = λ s. ("realm", s) ∷ ("service", "hub") ∷ [];
  decode = λ b. some (record { token = b; expires_in = pos 300 });
  key_sum = λ s. s;
}

-- A parser of the texts scheme://host/path
abbrev host_path : String → String × Option String → Option Url
host_path scheme (host, none) = none
host_path scheme (host, some rest) =
    some (record { base = scheme <> ("://" <> host); path = "/" <> rest; query = [] })

abbrev after_slash : String → String × Option String → Option Url
after_slash scheme (before, none) = none
after_slash scheme (before, some rest) = host_path scheme (cut b'/' rest)

abbrev after_slashes : String → String × Option String → Option Url
after_slashes scheme (before, none) = none
after_slashes scheme (before, some rest) = after_slash scheme (cut b'/' rest)

abbrev after_scheme : String × Option String → Option Url
after_scheme (scheme, none) = none
after_scheme (scheme, some rest) = after_slashes scheme (cut b'/' rest)

abbrev with_urls : Packages String
with_urls = record packages { parse_url = λ s. after_scheme (cut b':' s) }

digits_lack : (s : String) → every is_digit s ≡ true → lacks b'/' s ≡ true
unfolding every lacks
digits_lack [] h = refl
digits_lack (c ∷ s) h = ground (arith, digits_lack s)

authority_lacks : (s : String) → is_authority s ≡ true → lacks b'/' s ≡ true
unfolding is_authority lacks
authority_lacks [] h = refl
authority_lacks (c ∷ s) h = ground (arith, authority_lacks s, digits_lack s)

scheme_lacks : (s : String) → (s == "http" || s == "https") ≡ true → lacks b':' s ≡ true
unfolding lacks
scheme_lacks s h = elim (Bool-cases (s == "http")) [
  | inl plain ↦ subst (λ t. lacks b':' t ≡ true) (sym ((eq_iff s "http").0 plain)) refl
  | inr other ↦ subst (λ t. lacks b':' t ≡ true) (sym ((eq_iff s "https").0 (ground arith))) refl
]

cut_colon : (s t : String) → lacks b':' s ≡ true → cut b':' (s <> (":" <> t)) ≡ (s, some t)
cut_colon s t h = cut-append_one b':' _ s t h refl

cut_slash : (s t : String) → lacks b'/' s ≡ true → cut b'/' (s <> ("/" <> t)) ≡ (s, some t)
cut_slash s t h = cut-append_one b'/' _ s t h refl

cut_first : (t : String) → cut b'/' ("/" <> t) ≡ ("", some t)
unfolding lacks
cut_first t = ap (cut b'/') (sym (nil-append ("/" <> t))) ∙ cut_slash "" t refl

with_urls-ReadsUrls : ReadsUrls with_urls
with_urls-ReadsUrls = record {
  reads = λ scheme authority rest known host plain.
      let text = authority <> ("/" <> rest) in
      let whole : scheme <> ("://" <> text) ≡ scheme <> (":" <> ("/" <> ("/" <> text))) =
        ap (λ t. scheme <> t)
          (append_text ":" "//" text ∙ ap (λ t. ":" <> t) (append_text "/" "/" text)) in
      (
        scheme <> ("://" <> authority),
        ap (λ s. after_scheme (cut b':' s)) whole
            ∙ ap after_scheme (cut_colon scheme ("/" <> ("/" <> text)) (scheme_lacks scheme known))
            ∙ ap (after_slashes scheme) (cut_first ("/" <> text))
            ∙ ap (after_slash scheme) (cut_first text)
            ∙ ap (host_path scheme) (cut_slash authority rest (authority_lacks authority host)),
      );
}

abbrev alpine : Query
alpine = record {
  registry = "index.io:443";
  image = "library/alpine";
  reference = "3.20";
  auth = record { kind = ""; provider = ""; token = "" };
  accept_headers = [];
}

image_of-new_get_manifest_request_example :
    (r : HttpRequest) × ((new_get_manifest_request with_urls "https" alpine ≡ some r)
      × (image_of r.url.path ≡ some "library/alpine"))
unfolding is_authority every lacks
image_of-new_get_manifest_request_example =
    image_of-new_get_manifest_request with_urls "https" alpine with_urls-ReadsUrls refl refl refl
      refl refl

abbrev response_of : ℕ → HttpResponse String
response_of status = record {
  status_code = status;
  www_authenticate = "Bearer auth.io";
  body = "t";
}

-- A registry whose realm gives the token t to all; the world is the requests so far.
abbrev registry : HttpRequest → List HttpRequest → Replied String × List HttpRequest
registry q w = (
  if q.authorization == "Bearer t"
      then reply (response_of 200)
      else if q.url.base == "auth.io"
      then reply (response_of 200)
      else reply (response_of 401),
  q ∷ w,
)

abbrev url : Url
url = record { base = "https://index.io"; path = "/v2/app/manifests/latest"; query = [] }

abbrev asked : HttpRequest
asked = record { method = "GET"; url = url; authorization = ""; accept_headers = [] }

abbrev realm_asked : HttpRequest
realm_asked = record {
  method = "GET";
  url = record {
    base = "auth.io";
    path = "";
    query =
        ("scope", "repository:app:pull" ∷ [])
        ∷ ("realm", "auth.io" ∷ [])
        ∷ ("service", "hub" ∷ [])
        ∷ [];
  };
  authorization = "";
  accept_headers = [];
}

abbrev bearer : RegistryAuthResponse
bearer = record { token = "t"; expires_in = pos 300 }

asked_image : image_of asked.url.path ≡ some "app"
unfolding image_of split middle drop_last_two join
asked_image = refl

asked_head :
    registry (head_request asked url (load 0 (token_key packages "app" asked) (new_cache 0))) []
    ≡ (reply (response_of 401), head_request asked url none ∷ [])
unfolding head_request load live_value lookup new_cache token_key
asked_head = refl

asked_token :
    fetch_token packages registry "app" (response_of 401) (head_request asked url none ∷ [])
    ≡ (fetched "Bearer" bearer, realm_asked ∷ head_request asked url none ∷ [])
unfolding fetch_token ask_realm new_www_authenticate_request challenged realm_request token_request
    token_reply decoded_token scoped set_all realm lookup insert cut head_request
asked_token = refl

second_head :
    registry (head_request asked url (some "Bearer t")) []
    ≡ (reply (response_of 200), head_request asked url (some "Bearer t") ∷ [])
unfolding head_request
second_head = refl

token_reused_example :
    (round_trip packages registry true 0 1 asked [] (new_cache 0)
      ≡ some (
          finished
            (counts true (request ∷ miss_response ∷ []))
            (store_token 1
              (token_key packages "app" asked)
              ("Bearer" <> (" " <> "t"))
              bearer
              (new_cache 0))
            (registry
              (record asked { authorization = "Bearer" <> (" " <> "t") })
              (realm_asked ∷ head_request asked url none ∷ []))))
    × (round_trip packages registry true 299 300 asked [] (
          store_token 1
            (token_key packages "app" asked)
            ("Bearer" <> (" " <> "t"))
            bearer
            (new_cache 0))
        ≡ some (
            finished
              (counts true (request ∷ hit_response ∷ []))
              (store_token 1
                (token_key packages "app" asked)
                ("Bearer" <> (" " <> "t"))
                bearer
                (new_cache 0))
              (registry
                (record asked { authorization = "Bearer" <> (" " <> "t") })
                (head_request asked url (some "Bearer t") ∷ []))))
unfolding lifetime
token_reused_example =
    token_reused packages registry true 0 1 299 300 "app" asked asked url url []
      (head_request asked url none ∷ []) (realm_asked ∷ head_request asked url none ∷ []) []
      (head_request asked url (some "Bearer t") ∷ []) (new_cache 0) (response_of 401)
      (response_of 200) "Bearer" bearer refl asked_image refl asked_image refl asked_head refl
      asked_token (omega arith) (omega arith) second_head (omega arith)

abbrev realm_url : Url
realm_url = record { base = "auth.io"; path = ""; query = ("scope", "other" ∷ []) ∷ [] }

header_parts : cut b' ' "Bearer auth.io" ≡ ("Bearer", some "auth.io")
unfolding cut
header_parts = refl

distinct_pairs : HasDistinctKeys (packages.parse_pairs "auth.io")
unfolding lookup
distinct_pairs = (tt, (tt, tt))

realm_parsed :
    packages.parse_url (realm (lookup "realm" (packages.parse_pairs "auth.io"))) ≡ some realm_url
unfolding lookup realm
realm_parsed = refl

token_request-query_example :
    (q : HttpRequest) × ((new_www_authenticate_request packages "Bearer auth.io"
        ≡ challenge "Bearer" q)
      × (lookup "scope" (scoped "app" q).url.query ≡ (
          if "scope" == "scope"
          then some (("repository:" <> ("app" <> ":pull")) ∷ [])
          else set_value
              (lookup "scope" (packages.parse_pairs "auth.io"))
              (lookup "scope" realm_url.query))))
token_request-query_example =
    token_request-query packages "app" "Bearer" "auth.io" "Bearer auth.io" realm_url
      (record realm_url { query = set_all (packages.parse_pairs "auth.io") realm_url.query })
      "scope" (λ a b h. ground arith) header_parts distinct_pairs realm_parsed refl

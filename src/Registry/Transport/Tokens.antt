-- ===== src/Registry/Transport/Tokens.antt =====
-- The tokens that the transport asks for and caches.
use noe.Common.{
  ℕ, ◌+◌, ◌*◌, ◌<◌, Bool, true, false, String, Option, none, some, List, [], ◌∷◌, ◌≡◌, ◌≢◌, refl,
  ap, subst, inl, inr, Bool-cases, arith, ◌==◌, eq_iff, eq_refl, ltb, nat_eq, if◌then◌else◌,
}
use noe.Common.Maps.{Map, lookup, insert, lookup-insert, HasDistinctKeys, IsMissing}
use noe.Common.Strings.Parts.{cut}
use noe.Hook.Events.{◌<>◌}
use noe.Registry.Cache.{Cache, load, store, with_expiry, live_value, mutate}
use noe.Registry.Cached.{request, hit_response, miss_response}
use noe.Registry.Requests.{
  Url, HttpRequest, HttpResponse, RegistryAuthResponse, Packages, challenge, set_all, realm,
  challenged, new_www_authenticate_request, image_of, realm_request, token_request,
}
use noe.Registry.Transport.{
  Replied, reply, lifetime, second, fetched, scoped, fetch_token, counts, finished, store_token,
  use_token, use_cached, after_head, head_request, token_key, round_trip_image, round_trip_parsed,
  round_trip,
}

-- A token in the cache
load-store_token :
    (now later : ℕ) (key auth : String) (t : RegistryAuthResponse) (c : Cache String)
    → 0 < lifetime t.expires_in
    → later < now + lifetime t.expires_in * second
    → load later key (store_token now key auth t c) ≡ some auth
unfolding store_token load store mutate live_value with_expiry
load-store_token now later key auth t c lives before =
    let positive : ltb 0 (lifetime t.expires_in) ≡ true = ground (arith, lives) in
    rw
      (
        positive,
        lookup-insert key key
            (record { value = auth; expiry = now + lifetime t.expires_in * second }) c.cache,
        eq_refl key,
      )
      (ground (arith, before))

-- What a key has after q.Set, where the first is what is set and the second what was there
abbrev pub set_value : Option String → Option (List String) → Option (List String)
set_value none old = old
set_value (some v) old = some (v ∷ [])

missing_value :
    (o : Option String) (old : List String) → IsMissing o → set_value o (some old) ≡ some old
missing_value none old m = refl
missing_value (some v) old m = ground arith

set_all-lookup :
    (key : String) (pairs : Map String) (q : Map (List String))
    → HasDistinctKeys pairs
    → lookup key (set_all pairs q) ≡ set_value (lookup key pairs) (lookup key q)
unfolding set_all lookup
set_all-lookup key [] q d = refl
set_all-lookup key ((k, v) ∷ pairs) q (fresh, d) =
    rw (set_all-lookup key pairs (insert k (v ∷ []) q) d) (elim (Bool-cases (k == key)) [
      | inl same ↦
          rw (lookup-insert k key (v ∷ []) q, same)
            (missing_value (lookup key pairs) (v ∷ [])
              (subst (λ j. IsMissing (lookup j pairs)) ((eq_iff k key).0 same) fresh))
      | inr other ↦ rw (lookup-insert k key (v ∷ []) q, other) refl
    ])

-- The request for a token, for a header with a kind and pairs without a key twice, and a realm that
-- is parsed as an URL: its query has the scope of the image alone, whatever the header or the
-- realm's URL say of one, the other pairs of the header, and else what the realm's URL has. The
-- hypothesis on net/url is that the text of an URL has its query.
pub token_request-query :
    {B : Type 0} (lib : Packages B) (image kind pairs value : String) (u v : Url) (key : String)
    → ((a b : Url) → lib.reparse a ≡ some b → b.query ≡ a.query)
    → cut b' ' value ≡ (kind, some pairs)
    → HasDistinctKeys (lib.parse_pairs pairs)
    → lib.parse_url (realm (lookup "realm" (lib.parse_pairs pairs))) ≡ some u
    → lib.reparse (record u { query = set_all (lib.parse_pairs pairs) u.query }) ≡ some v
    → (q : HttpRequest) × ((new_www_authenticate_request lib value ≡ challenge kind q)
        × (lookup key (scoped image q).url.query ≡ (
            if "scope" == key
            then some (("repository:" <> (image <> ":pull")) ∷ [])
            else set_value (lookup key (lib.parse_pairs pairs)) (lookup key u.query))))
unfolding new_www_authenticate_request challenged realm_request token_request scoped
token_request-query lib image kind pairs value u v key keeps header distinct parsed made = (
  record { method = "GET"; url = v; authorization = ""; accept_headers = [] },
  (
    rw (header, parsed, made) refl,
    rw
        (
          lookup-insert "scope" key (("repository:" <> (image <> ":pull")) ∷ []) v.query,
          keeps (record u { query = set_all (lib.parse_pairs pairs) u.query }) v made,
          set_all-lookup key (lib.parse_pairs pairs) u.query distinct,
        )
        refl,
  ),
)

module _ {W B : Type 0} (lib : Packages B) (transport : HttpRequest → W → Replied B × W)
    (counted : Bool) where
  -- A token that a request was answered with is sent again with the next request for the same image
  -- with the same credentials, as long as it lives, and no other one is asked for: if the HEAD
  -- request of the first is answered by 401 and the realm gives a token with a lifetime, and the
  -- HEAD request of the second, with the token, is not answered by 401.
  pub token_reused :
      (now stored later again : ℕ) (image : String) (q p : HttpRequest) (u v : Url)
      (w w1 w2 x x1 : W) (c : Cache String) (r a : HttpResponse B) (kind : String)
      (t : RegistryAuthResponse)
      → lib.reparse q.url ≡ some u
      → image_of q.url.path ≡ some image
      → lib.reparse p.url ≡ some v
      → image_of p.url.path ≡ some image
      → p.authorization ≡ q.authorization
      → transport (head_request q u (load now (token_key lib image q) c)) w ≡ (reply r, w1)
      → r.status_code ≡ 401
      → fetch_token lib transport image r w1 ≡ (fetched kind t, w2)
      → 0 < lifetime t.expires_in
      → later < stored + lifetime t.expires_in * second
      → transport (head_request p v (some (kind <> (" " <> t.token)))) x ≡ (reply a, x1)
      → a.status_code ≢ 401
      → (round_trip lib transport counted now stored q w c
          ≡ some (
              finished
                (counts counted (request ∷ miss_response ∷ []))
                (store_token stored (token_key lib image q) (kind <> (" " <> t.token)) t c)
                (transport (record q { authorization = kind <> (" " <> t.token) }) w2)))
        × (round_trip lib transport counted later again p x
              (store_token stored (token_key lib image q) (kind <> (" " <> t.token)) t c)
            ≡ some (
                finished
                  (counts counted (request ∷ hit_response ∷ []))
                  (store_token stored (token_key lib image q) (kind <> (" " <> t.token)) t c)
                  (transport (record p { authorization = kind <> (" " <> t.token) }) x1)))
  unfolding round_trip round_trip_parsed round_trip_image after_head use_token use_cached token_key
  token_reused now stored later again image q p u v w w1 w2 x x1 c r a kind t qu qi pu pi same first
        unauthorized got lives before second_head accepted =
      let is_401 : nat_eq r.status_code 401 ≡ true = ground (arith, unauthorized) in
      let not_401 : nat_eq a.status_code 401 ≡ false = ground (arith, accepted) in
      let key_same : token_key lib image p ≡ token_key lib image q =
        ap (λ s. lib.key_sum (image <> s)) same in
      let loaded =
        load-store_token stored later (token_key lib image q) (kind <> (" " <> t.token)) t c lives
          before in
      (
        rw (qu, qi, first, is_401, got) refl,
        rw (pu, pi, key_same, loaded, second_head, not_401) refl,
      )

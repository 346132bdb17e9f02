-- ===== src/Registry/Listing.antt =====
-- What ListArchs of pkg/registry/registry.go returns.
use noe.Common.{
  Bool, true, false, not, ◌||◌, ◌&&◌, String, Option, none, some, List, [], ◌∷◌, ◌++◌, ◌≡◌, refl,
  arith, nat_eq, is_some, any, all, any-append, any_ext, ap, ◌∙◌, Option-cases, inl, inr,
}
use noe.Hook.{Platform}
use noe.Registry.{
  ManifestRef, ManifestListResponse, decoded, Response, Fetched, no_response, response,
  AuthenticationToken, Query,
}
use noe.Registry.Manifests.{
  ArchListResult, platform_result, error_result, is_manifest_list, is_wanted, pointed_manifest,
  send, sent_results, receive_results, fetch_pointed, fetch_first, read_body, read_response,
  list_archs_with_auth, default_platform, Listed, platforms, list_error, try_candidates, list_archs,
  no_candidate, defaulted,
}

abbrev pub is_error : ArchListResult → Bool
is_error (error_result err) = true
is_error (platform_result p) = false

abbrev pub is_platform : (Platform → Bool) → ArchListResult → Bool
is_platform p (error_result err) = false
is_platform p (platform_result q) = p q

-- The results arrive in some order: none is lost and none is made up.
abbrev pub IsReordering : (List ArchListResult → List ArchListResult) → Type 0
IsReordering order =
    (p : ArchListResult → Bool) (rs : List ArchListResult) → any p (order rs) ≡ any p rs

-- The registry serves the pointed manifest.
abbrev pub is_served : Fetched → Bool
is_served (no_response err) = false
is_served (response r) = nat_eq r.status_code 200

-- The registry neither serves the pointed manifest nor says that it is not found.
abbrev pub is_failing : Fetched → Bool
is_failing (no_response err) = true
is_failing (response r) = not (nat_eq r.status_code 200) && not (nat_eq r.status_code 404)

any-send :
    (p : ArchListResult → Bool) (platform : Platform) (f : Fetched) (rs : List ArchListResult)
    (e : Bool)
    → p (error_result "failed to get pointed manifest") ≡ e
    → ((err : String) → p (error_result err) ≡ e)
    → any p (send (pointed_manifest platform f) rs)
      ≡ ((is_failing f && e) || ((is_served f && p (platform_result platform)) || any p rs))
unfolding send pointed_manifest
any-send p platform (no_response err) rs e h k = ground (arith, k err)
any-send p platform (response r) rs e h k = ground arith

any-sent_results :
    (p : ArchListResult → Bool) (schedulable : List String) (fetch : ManifestRef → Fetched)
    (e : Bool) (ms : List ManifestRef)
    → ((err : String) → p (error_result err) ≡ e)
    → any p (sent_results schedulable fetch ms)
      ≡ any
          (λ m.
            is_wanted schedulable m
            && ((is_failing (fetch m) && e)
                || (is_served (fetch m) && p (platform_result m.platform))))
          ms
unfolding sent_results
any-sent_results p schedulable fetch e [] k = refl
any-sent_results p schedulable fetch e (m ∷ ms) k = ground (
  arith,
  any-sent_results p schedulable fetch e ms k,
  any-send p m.platform (fetch m) (sent_results schedulable fetch ms) e (k _) k,
)

receive_failed :
    (acc : List Platform) (rs : List ArchListResult)
    → any is_error rs ≡ true
    → receive_results acc rs ≡ ([], none)
unfolding receive_results
receive_failed acc [] h = ground arith
receive_failed acc (error_result err ∷ rs) h = refl
receive_failed acc (platform_result p ∷ rs) h = receive_failed (acc ++ p ∷ []) rs h

receive_served :
    (p : Platform → Bool) (acc : List Platform) (rs : List ArchListResult)
    → any is_error rs ≡ false
    → ((receive_results acc rs).1 ≡ none)
      × (any p (receive_results acc rs).0 ≡ (any p acc || any (is_platform p) rs))
unfolding receive_results
receive_served p acc [] h = (refl, ground arith)
receive_served p acc (error_result err ∷ rs) h = ground arith
receive_served p acc (platform_result q ∷ rs) h =
    ground (arith, receive_served p (acc ++ q ∷ []) rs, any-append p acc (q ∷ []))

abbrev pub is_list_error : Listed → Bool
is_list_error (platforms ps) = false
is_list_error (list_error err) = true

module _ (attempt : AuthenticationToken → List Platform × Option String) where
  -- The loop over the candidates ends in an error exactly if every candidate's attempt does, also
  -- if there is none.
  is_error-try_candidates :
      (err : Option String) (candidates : List AuthenticationToken)
      → is_list_error (try_candidates attempt err candidates)
        ≡ all (λ auth. is_some (attempt auth).1) candidates
  unfolding try_candidates no_candidate
  is_error-try_candidates none [] = refl
  is_error-try_candidates (some err) [] = refl
  is_error-try_candidates err (auth ∷ candidates) = elim (Option-cases (attempt auth).1) [
    | inl n ↦ rw (n, try_candidates) refl
    | inr (e, s) ↦ rw (s, try_candidates) (is_error-try_candidates (some e) candidates)
  ]

  try_candidates_first :
      (err : Option String) (auth : AuthenticationToken) (candidates : List AuthenticationToken)
      → (attempt auth).1 ≡ none
      → try_candidates attempt err (auth ∷ candidates) ≡ platforms (defaulted (attempt auth).0)
  unfolding try_candidates
  try_candidates_first err auth candidates n = rw (n, try_candidates) refl

module _ (client : Query → Fetched) (order : List ArchListResult → List ArchListResult)
    (schedulable : List String) (registry image tag : String) where
  -- ListArchs fails exactly if listArchsWithAuth does for every candidate, also if there is none.
  pub is_list_error-list_archs :
      (candidates : List AuthenticationToken)
      → is_list_error (list_archs client order schedulable candidates registry image tag)
        ≡ all
            (λ auth.
              is_some (list_archs_with_auth client order schedulable registry image tag auth).1)
            candidates
  unfolding list_archs
  is_list_error-list_archs candidates =
      is_error-try_candidates (list_archs_with_auth client order schedulable registry image tag)
        none candidates

  module _ (auth : AuthenticationToken) (r : Response) (b : ManifestListResponse)
      (fetched : fetch_first client order schedulable registry image tag auth ≡ response r)
      (ok : r.status_code ≡ 200) (body : r.body ≡ decoded b)
      (is_list : is_manifest_list r.content_type ≡ true) (reordering : IsReordering order) where
    list_archs_with_auth_list :
        list_archs_with_auth client order schedulable registry image tag auth
        ≡ receive_results [] (
            order (
              sent_results schedulable
                (fetch_pointed client order schedulable registry image tag auth)
                b.manifests))
    unfolding list_archs_with_auth read_response read_body
    list_archs_with_auth_list = rw (fetched, ok, body, is_list) refl

    any-error_result :
        any is_error (
          order (
            sent_results schedulable
              (fetch_pointed client order schedulable registry image tag auth)
              b.manifests))
        ≡ any
            (λ m.
              is_wanted schedulable m
              && is_failing (fetch_pointed client order schedulable registry image tag auth m))
            b.manifests
    any-error_result =
        reordering is_error _
        ∙ any-sent_results is_error schedulable
            (fetch_pointed client order schedulable registry image tag auth) true b.manifests
            (λ err. refl)
        ∙ any_ext _ _ b.manifests (λ m. ground arith)

    any-platform_result :
        (p : Platform → Bool)
        → any (is_platform p) (
            order (
              sent_results schedulable
                (fetch_pointed client order schedulable registry image tag auth)
                b.manifests))
          ≡ any
              (λ m.
                is_wanted schedulable m
                && (is_served (fetch_pointed client order schedulable registry image tag auth m)
                    && p m.platform))
              b.manifests
    any-platform_result p =
        reordering (is_platform p) _
        ∙ any-sent_results (is_platform p) schedulable
            (fetch_pointed client order schedulable registry image tag auth) false b.manifests
            (λ err. refl)
        ∙ any_ext _ _ b.manifests (λ m. ground arith)

    -- If the first candidate's request is answered by a manifest list that can be decoded, with
    -- status 200, and a wanted manifest of the list can neither be fetched nor is reported as not
    -- found, then ListArchs returns the default platform amd64/linux of an image without
    -- platforms, whatever the list says, whatever candidates are left, and in whatever order the
    -- goroutines end: their error is lost.
    pub list_archs_lost_error :
        (candidates : List AuthenticationToken)
        → any
            (λ m.
              is_wanted schedulable m
              && is_failing (fetch_pointed client order schedulable registry image tag auth m))
            b.manifests
          ≡ true
        → list_archs client order schedulable (auth ∷ candidates) registry image tag
          ≡ platforms (default_platform ∷ [])
    unfolding list_archs defaulted
    list_archs_lost_error candidates h =
        let lost = list_archs_with_auth_list ∙ receive_failed [] _ (any-error_result ∙ h) in
        try_candidates_first (list_archs_with_auth client order schedulable registry image tag) none
          auth candidates (ap (λ x. x.1) lost)
        ∙ ap (λ x. platforms (defaulted x.0)) lost

    -- If the request for the image is answered by a manifest list that can be decoded, with status
    -- 200, and every wanted manifest of the list is either fetched or reported as not found, then
    -- listArchsWithAuth returns no error, and its platforms are those of the wanted manifests that
    -- are fetched, in whatever order the goroutines end: a test holds for one of the platforms
    -- exactly if it does for the platform of such a manifest.
    pub list_archs_with_auth_platforms :
        (p : Platform → Bool)
        → any
            (λ m.
              is_wanted schedulable m
              && is_failing (fetch_pointed client order schedulable registry image tag auth m))
            b.manifests
          ≡ false
        → ((list_archs_with_auth client order schedulable registry image tag auth).1 ≡ none)
          × (any p (list_archs_with_auth client order schedulable registry image tag auth).0
              ≡ any
                  (λ m.
                    is_wanted schedulable m
                    && (is_served (fetch_pointed client order schedulable registry image tag auth m)
                        && p m.platform))
                  b.manifests)
    list_archs_with_auth_platforms p h =
        let (n, s) =
          receive_served p []
            (order (
              sent_results schedulable
                (fetch_pointed client order schedulable registry image tag auth) b.manifests))
            (any-error_result ∙ h) in
        rw list_archs_with_auth_list (n, s ∙ any-platform_result p)

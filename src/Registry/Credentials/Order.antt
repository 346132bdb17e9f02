-- ===== src/Registry/Credentials/Order.antt =====
-- The order of the candidates, and what it means for ListArchs.
use noe.Common.{
  Bool, true, false, ◌&&◌, not, String, Option, none, some, List, [], ◌∷◌, ◌++◌, append_assoc,
  append-nil, ◌≡◌, refl, sym, ◌∙◌, ap, subst, arith, ◌==◌, any, any-append, is_some, Option-cases,
  inl, inr,
}
use noe.Hook.{Platform}
use noe.Registry.{AuthenticationToken, Query, Fetched}
use noe.Registry.Manifests.{
  ArchListResult, platforms, defaulted, try_candidates, list_archs_with_auth, list_archs,
}
use noe.Registry.Patterns.{anonymous_candidates}
use noe.Registry.Credentials.{Host}
use noe.Registry.Credentials.Docker.{image_pull_secret_candidates, config_file_candidates}
use noe.Registry.Credentials.Containerd.{containerd_candidates}
use noe.Registry.Credentials.Authenticators.{
  Authenticator, authenticate_all, clean_registry_patterns, kubelet_authenticators,
  new_authenticator,
}

-- The attempt returns no error.
abbrev pub succeeds :
    (AuthenticationToken → List Platform × Option String) → AuthenticationToken → Bool
succeeds attempt a = not (is_some (attempt a).1)

first_succeeds :
    (attempt : AuthenticationToken → List Platform × Option String) (err : Option String)
    (x : AuthenticationToken) (xs : List AuthenticationToken)
    → (attempt x).1 ≡ none
    → try_candidates attempt err (x ∷ xs) ≡ platforms (defaulted (attempt x).0)
unfolding try_candidates
first_succeeds attempt err x xs fine = rw (try_candidates, fine) refl

first_fails :
    (attempt : AuthenticationToken → List Platform × Option String) (err : Option String)
    (x : AuthenticationToken) (xs : List AuthenticationToken) (e : String)
    → (attempt x).1 ≡ some e
    → try_candidates attempt err (x ∷ xs) ≡ try_candidates attempt (some e) xs
unfolding try_candidates
first_fails attempt err x xs e failing = rw (try_candidates, failing) refl

any_second :
    {A : Type 0} (p q : A → Bool) (xs : List A) → any (λ a. p a && q a) xs ≡ true → any q xs ≡ true
any_second p q [] h = ground arith
any_second p q (x ∷ xs) h = ground (arith, any_second p q xs)

-- What comes after a candidate that succeeds is not tried.
try_candidates-append :
    (attempt : AuthenticationToken → List Platform × Option String) (err : Option String)
    (xs ys : List AuthenticationToken)
    → any (succeeds attempt) xs ≡ true
    → try_candidates attempt err (xs ++ ys) ≡ try_candidates attempt err xs
unfolding try_candidates
try_candidates-append attempt err [] ys h = ground arith
try_candidates-append attempt err (x ∷ xs) ys h = elim (Option-cases (attempt x).1) [
  | inl fine ↦
      first_succeeds attempt err x (xs ++ ys) fine ∙ sym (first_succeeds attempt err x xs fine)
  | inr (e, failing) ↦
      first_fails attempt err x (xs ++ ys) e failing
      ∙ try_candidates-append attempt (some e) xs ys (ground arith)
      ∙ sym (first_fails attempt err x xs e failing)
]

-- A candidate with credentials
abbrev pub is_authenticated : AuthenticationToken → Bool
is_authenticated a = not (a.provider == "anonymous")

authenticate_all-append :
    (xs ys : List Authenticator) (secret registry image : String)
    → authenticate_all (xs ++ ys) secret registry image
      ≡ authenticate_all xs secret registry image ++ authenticate_all ys secret registry image
unfolding authenticate_all
authenticate_all-append [] ys secret registry image = refl
authenticate_all-append (x ∷ xs) ys secret registry image =
    rw (authenticate_all-append xs ys secret registry image)
      (sym (append_assoc (x secret registry image) _ _))

anonymous_only :
    (glob : String → String → Option Bool) (patterns : List String) (registry image : String)
    (test : AuthenticationToken → Bool)
    → any (λ a. is_authenticated a && test a) (anonymous_candidates glob patterns registry image)
      ≡ false
unfolding anonymous_candidates
anonymous_only glob patterns registry image test = ground arith

module _ (h : Host) (trim : String → String) (config bin_dir secret registry image : String) where
  -- All candidates but the anonymous one
  with_credentials : List AuthenticationToken
  with_credentials =
      image_pull_secret_candidates h secret registry image
      ++ (authenticate_all (kubelet_authenticators h trim config bin_dir) secret registry image
          ++ (containerd_candidates h registry ++ config_file_candidates h registry image))

  all_candidates :
      (patterns : List String)
      → authenticate_all (new_authenticator h trim config bin_dir patterns) secret registry image
        ≡ with_credentials
          ++ anonymous_candidates h.glob (clean_registry_patterns trim patterns) registry image
  unfolding authenticate_all new_authenticator with_credentials
  all_candidates patterns =
      ap (λ rest. image_pull_secret_candidates h secret registry image ++ rest)
        (authenticate_all-append (kubelet_authenticators h trim config bin_dir) _ secret registry
          image)
      ∙ simp (append_assoc, append-nil) refl

  -- The candidates after those of the image pull secret
  node_candidates : List AuthenticationToken
  node_candidates =
      authenticate_all (kubelet_authenticators h trim config bin_dir) secret registry image
      ++ (containerd_candidates h registry ++ config_file_candidates h registry image)

  secret_first :
      (rest : List AuthenticationToken)
      → with_credentials ++ rest
        ≡ image_pull_secret_candidates h secret registry image ++ (node_candidates ++ rest)
  unfolding with_credentials node_candidates
  secret_first rest = append_assoc (image_pull_secret_candidates h secret registry image) _ rest

  module _ (client : Query → Fetched) (order : List ArchListResult → List ArchListResult)
      (schedulable : List String) (tag : String) (patterns : List String) where
    -- If an attempt with the image pull secret succeeds, ListArchs with the candidates of
    -- NewAuthenticator answers as with those of the secret alone, whatever the files and the
    -- plugins of the machine give.
    list_archs_secret_first :
        any
            (succeeds (list_archs_with_auth client order schedulable registry image tag))
            (image_pull_secret_candidates h secret registry image)
          ≡ true
        → list_archs client order schedulable
            (authenticate_all
              (new_authenticator h trim config bin_dir patterns)
              secret
              registry
              image)
            registry
            image
            tag
          ≡ list_archs client order schedulable
              (image_pull_secret_candidates h secret registry image)
              registry
              image
              tag
    unfolding list_archs
    list_archs_secret_first found =
        let attempt = list_archs_with_auth client order schedulable registry image tag in
        let anon =
          anonymous_candidates h.glob (clean_registry_patterns trim patterns) registry image in
        rw (all_candidates patterns) (
          ap (try_candidates attempt none) (secret_first anon)
          ∙ try_candidates-append attempt none _ _ found)

    -- If an attempt with any credentials succeeds, whether they come from the image pull secret, a
    -- kubelet plugin or a file, the answer of ListArchs with the candidates of NewAuthenticator
    -- does not depend on the patterns of private registries.
    pub list_archs_anonymous_last :
        (others : List String)
        → any
            (λ a.
              is_authenticated a
              && succeeds (list_archs_with_auth client order schedulable registry image tag) a)
            (authenticate_all
              (new_authenticator h trim config bin_dir patterns)
              secret
              registry
              image)
          ≡ true
        → list_archs client order schedulable
            (authenticate_all
              (new_authenticator h trim config bin_dir patterns)
              secret
              registry
              image)
            registry
            image
            tag
          ≡ list_archs client order schedulable
              (authenticate_all
                (new_authenticator h trim config bin_dir others)
                secret
                registry
                image)
              registry
              image
              tag
    unfolding list_archs
    list_archs_anonymous_last others found =
        let attempt = list_archs_with_auth client order schedulable registry image tag in
        let anon : List String → List AuthenticationToken =
          λ ps. anonymous_candidates h.glob (clean_registry_patterns trim ps) registry image in
        let test : AuthenticationToken → Bool = λ a. is_authenticated a && succeeds attempt a in
        let early : any (succeeds attempt) with_credentials ≡ true =
          any_second is_authenticated (succeeds attempt) with_credentials (
            ground (
              arith,
              subst (λ cs. any test cs ≡ true) (all_candidates patterns) found,
              any-append test with_credentials (anon patterns),
              anonymous_only h.glob (clean_registry_patterns trim patterns) registry image
                  (succeeds attempt),
            )) in
        rw (all_candidates patterns, all_candidates others)
          (try_candidates-append attempt none with_credentials (anon patterns) early
            ∙ sym (try_candidates-append attempt none with_credentials (anon others) early))

-- ===== src/Registry/Credentials/Docker/Hub.antt =====
-- The entry of Docker Hub in a Docker configuration.
use text.Mathlib.TextLemmas.{cons-append}
use mathlib.Core.Bool.{false≢true}
use noe.Common.{
  false, String, some, List, append-nil, ◌≡◌, ◌≢◌, refl, ap, ◌∙◌, arith, ◌==◌, eq_iff, Bool-cases,
  inl, inr,
}
use noe.Common.Strings.Parts.{has_prefix}
use noe.Hook.Events.{◌<>◌}
use noe.Registry.Credentials.{Host}
use noe.Registry.Credentials.Docker.{
  looked_up, entry_registry, entry_matches, login_candidate, helper_candidates, entry_candidates,
  get_auth_candidates,
}

not_hub : (rest : String) → ("docker.io" == ("index.docker.io" <> rest)) ≡ false
unfolding has_prefix
not_hub rest = elim (Bool-cases ("docker.io" == ("index.docker.io" <> rest))) [
  | inl same ↦
      let e : "docker.io" ≡ "index.docker.io" <> rest =
        (eq_iff "docker.io" ("index.docker.io" <> rest)).0 same in
      let starts : false ≡ has_prefix ("index.docker.io" <> rest) "i" =
        ap (λ s. has_prefix s "i") e in
      absurd (false≢true (starts ∙ rw (cons-append _ _ rest) refl))
  | inr other ↦ other
]

-- A Docker configuration with the entry https://index.docker.io/v1/ alone, for an image of docker.io:
-- without a credential helper its login is a candidate; with one it is not, and only what the helper
-- returns is, also if that is nothing. The hypothesis on filepath.Match is that the pattern
-- docker.io, which has no special character, matches that text alone.
pub get_auth_candidates_hub :
    (h : Host) (store auth image : String)
    → store ≢ ""
    → auth ≢ ""
    → ((s : String) → h.glob "docker.io" s ≡ some ("docker.io" == s))
    → (get_auth_candidates h
          (record {
            auths = List.◌∷◌ ("https://index.docker.io/v1/", auth) List.[];
            creds_store = "";
          })
          "docker.io"
          image
        ≡ List.◌∷◌ auth List.[])
      × (get_auth_candidates h
            (record {
              auths = List.◌∷◌ ("https://index.docker.io/v1/", auth) List.[];
              creds_store = store;
            })
            "docker.io"
            image
          ≡ login_candidate h (h.run_helper store "index.docker.io"))
unfolding get_auth_candidates looked_up helper_candidates entry_candidates entry_registry
    entry_matches
get_auth_candidates_hub h store auth image helped given literal =
    let s : (store == "") ≡ false = ground (arith, eq_iff store "") in
    let a : (auth == "") ≡ false = ground (arith, eq_iff auth "") in
    (
      rw (literal ("docker.io" <> ("/" <> image)), a) (ground arith),
      rw (s, literal ("index.docker.io" <> ("/" <> image)), not_hub ("/" <> image)) (append-nil _),
    )

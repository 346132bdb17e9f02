-- ===== src/Registry/Credentials/Examples.antt =====
-- The authenticators on a concrete machine.
use mathlib.Core.Bool.{false≢true}
use noe.Common.{[], ◌∷◌, ◌≡◌, refl, eq_iff}
use noe.Registry.Credentials.TestHost.{host}
use noe.Registry.Credentials.Docker.{get_auth_candidates, login_candidate}
use noe.Registry.Credentials.Docker.Hub.{get_auth_candidates_hub}

get_auth_candidates_hub_example :
    (get_auth_candidates host
        (record { auths = ("https://index.docker.io/v1/", "dXNlcjpwYXNz") ∷ []; creds_store = "" })
        "docker.io"
        "library/alpine"
      ≡ "dXNlcjpwYXNz" ∷ [])
    × (get_auth_candidates host
          (record {
            auths = ("https://index.docker.io/v1/", "dXNlcjpwYXNz") ∷ [];
            creds_store = "desktop";
          })
          "docker.io"
          "library/alpine"
        ≡ login_candidate host (host.run_helper "desktop" "index.docker.io"))
get_auth_candidates_hub_example =
    get_auth_candidates_hub host "desktop" "dXNlcjpwYXNz" "library/alpine"
      (λ e. false≢true ((eq_iff "desktop" "").1 e))
      (λ e. false≢true ((eq_iff "dXNlcjpwYXNz" "").1 e)) (λ s. refl)

-- ===== src/Registry/Credentials/Authenticators.antt =====
-- pkg/registry/login.go
use noe.Common.{◌||◌, String, List, [], ◌∷◌, ◌++◌, ◌==◌, if◌then◌else◌}
use noe.Registry.{AuthenticationToken}
use noe.Registry.Patterns.{anonymous_candidates}
use noe.Registry.Credentials.{Host}
use noe.Registry.Credentials.Docker.{image_pull_secret_candidates, config_file_candidates}
use noe.Registry.Credentials.Containerd.{containerd_candidates}
use noe.Registry.Credentials.Kubelet.{kubelet_candidates}

-- Authenticator: what it sends for an image pull secret, a registry and an image
abbrev pub Authenticator : Type 0
Authenticator = String → String → String → List AuthenticationToken

-- (Authenticators).Authenticate
unfoldable pub authenticate_all : List Authenticator → Authenticator
authenticate_all [] secret registry image = []
authenticate_all (a ∷ rest) secret registry image =
    a secret registry image ++ authenticate_all rest secret registry image

-- cleanRegistryPatterns; strings.TrimSpace is a parameter.
unfoldable pub clean_registry_patterns : (String → String) → List String → List String
clean_registry_patterns trim [] = []
clean_registry_patterns trim (p ∷ ps) =
    let rest = clean_registry_patterns trim ps in if trim p == "" then rest else trim p ∷ rest

module _ (h : Host) (trim : String → String) where
  -- The kubelet's authenticator, if there is a file and a directory
  unfoldable pub kubelet_authenticators : String → String → List Authenticator
  kubelet_authenticators config bin_dir =
      if config == "" || bin_dir == ""
      then []
      else (λ secret registry image.
          kubelet_candidates h (record { bin_dir = bin_dir; config = config }) registry image)
        ∷ []

  -- NewAuthenticator
  unfoldable pub new_authenticator : String → String → List String → List Authenticator
  unfolding kubelet_authenticators clean_registry_patterns
  new_authenticator config bin_dir patterns =
      (λ secret registry image. image_pull_secret_candidates h secret registry image)
      ∷ (kubelet_authenticators config bin_dir
          ++ (λ secret registry image. containerd_candidates h registry)
            ∷ (λ secret registry image. config_file_candidates h registry image)
            ∷ (λ secret registry image.
                anonymous_candidates h.glob (clean_registry_patterns trim patterns) registry image)
            ∷ [])

-- ===== src/Registry/Credentials/Kubelet.antt =====
-- pkg/registry/kubelet_credentials.go, KubeletAuthenticator
use noe.Common.{Bool, String, Option, none, some, List, [], ◌∷◌, ◌++◌, ◌==◌, any, if◌then◌else◌}
use noe.Common.Maps.{Map}
use noe.Common.Strings.Parts.{trim_prefix}
use noe.Hook.Events.{◌<>◌}
use noe.Registry.{AuthenticationToken}
use noe.Registry.Patterns.{image_matches_login_pattern}
use noe.Registry.Credentials.{Host, CredentialProvider, AuthConfig}

-- KubeletAuthenticator, with the strings that configure it
pub record KubeletAuthenticator : Type 0 where
  pub bin_dir : String
  pub config : String

-- kubeToExec
unfoldable pub kube_to_exec : Map String → List String
kube_to_exec [] = []
kube_to_exec ((name, value) ∷ vars) = (name <> ("=" <> value)) ∷ kube_to_exec vars

module _ (h : Host) where
  -- providerMatchesImage
  unfoldable pub provider_matches_image : CredentialProvider → String → String → Bool
  provider_matches_image p registry image =
      any (image_matches_login_pattern h.glob registry image) p.match_images

  -- The loop over response.Auth
  unfoldable pub response_candidates : Map AuthConfig → String → String → List AuthenticationToken
  response_candidates [] registry image = []
  response_candidates ((key, value) ∷ auths) registry image =
      let rest = response_candidates auths registry image in
      if image_matches_login_pattern h.glob registry image key
      then record {
        kind = "Basic";
        token = h.base64 (value.username <> (":" <> value.password));
        provider = "kubelet";
      }
        ∷ rest
      else rest

  unfoldable pub parsed_response :
      Option (Map AuthConfig) → String → String → List AuthenticationToken
  unfolding response_candidates
  parsed_response none registry image = []
  parsed_response (some auths) registry image = response_candidates auths registry image

  -- From the plugin's output on
  unfoldable pub plugin_output : Option String → String → String → List AuthenticationToken
  unfolding parsed_response
  plugin_output none registry image = []
  plugin_output (some text) registry image = parsed_response (h.decode_response text) registry image

  module _ (r : KubeletAuthenticator) where
    -- From the serialised request on
    unfoldable pub run_plugin :
        Option String → CredentialProvider → String → String → List AuthenticationToken
    unfolding plugin_output kube_to_exec
    run_plugin none p registry image = []
    run_plugin (some stdin) p registry image =
        plugin_output (h.exec (kube_to_exec p.env) (h.join_path r.bin_dir p.name) p.args stdin)
          registry image

    unfoldable pub versioned :
        Option String → CredentialProvider → String → String → List AuthenticationToken
    unfolding run_plugin
    versioned none p registry image = []
    versioned (some gv) p registry image =
        run_plugin (h.serialise (registry <> ("/" <> trim_prefix image "/")) gv) p registry image

    -- tryIndividualKubeletProvider
    unfoldable pub try_individual_kubelet_provider :
        CredentialProvider → String → String → List AuthenticationToken
    unfolding versioned
    try_individual_kubelet_provider p registry image =
        if r.bin_dir == ""
        then []
        else versioned (h.parse_group_version p.api_version) p registry image

    -- The loop over config.Providers
    unfoldable pub try_providers :
        List CredentialProvider → String → String → List AuthenticationToken
    unfolding provider_matches_image try_individual_kubelet_provider
    try_providers [] registry image = []
    try_providers (p ∷ ps) registry image =
        let rest = try_providers ps registry image in
        if provider_matches_image p registry image
        then try_individual_kubelet_provider p registry image ++ rest
        else rest

    unfoldable pub unmarshalled :
        Option (List CredentialProvider) → String → String → List AuthenticationToken
    unfolding try_providers
    unmarshalled none registry image = []
    unmarshalled (some providers) registry image = try_providers providers registry image

    unfoldable pub config_text : Option String → String → String → List AuthenticationToken
    unfolding unmarshalled
    config_text none registry image = []
    config_text (some text) registry image = unmarshalled (h.decode_providers text) registry image

    -- (KubeletAuthenticator).Authenticate
    unfoldable pub kubelet_candidates : String → String → List AuthenticationToken
    unfolding config_text
    kubelet_candidates registry image =
        if r.config == ""
        then []
        else if r.bin_dir == ""
        then []
        else config_text (h.read_file r.config) registry image

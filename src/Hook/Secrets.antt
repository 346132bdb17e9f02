-- ===== src/Hook/Secrets.antt =====
-- pkg/arch/hook.go, GetImagePullSecretFromPodSpec. The API client and encoding/json are a
-- parameter: what they return for a secret, for its text and for a configuration.
use noe.Common.{
  Bool, true, false, String, Option, none, some, List, [], ◌∷◌, is_empty, if◌then◌else◌,
}
use noe.Common.Maps.{Map, insert}
use noe.Kube.{PodSpec}

-- registry.DockerConfig; the value of an entry of `auths` is its `auth`
pub record DockerConfig : Type 0 where
  pub auths : Map String
  pub creds_store : String

-- k8sClient.Get of a secret's ".dockerconfigjson", json.Unmarshal and json.Marshal; `none` is an
-- error.
pub record SecretReader : Type 0 where
  pub get_secret : String → String → Option String
  pub unmarshal : String → Option DockerConfig
  pub marshal : DockerConfig → Option String

-- for k, v := range cfg.Auths { dockerCfg.Auths[k] = v }
unfoldable pub merge_auths : Map String → Map String → Map String
merge_auths auths [] = auths
merge_auths auths ((k, v) ∷ more) = merge_auths (insert k v auths) more

-- The variables of the loop over the secrets: the entries so far, and `lastErr != nil`.
pub record Merged : Type 0 where
  pub auths : Map String
  pub failed : Bool

merge_config : Merged → Option DockerConfig → Merged
merge_config m none = record m { failed = true }
merge_config m (some cfg) = record m { auths = merge_auths m.auths cfg.auths }

merge_secret : SecretReader → Merged → Option String → Merged
merge_secret r m none = record m { failed = true }
merge_secret r m (some text) = merge_config m (r.unmarshal text)

unfoldable pub merge_secrets : SecretReader → String → Merged → List String → Merged
unfolding merge_secret merge_config
merge_secrets r ns m [] = m
merge_secrets r ns m (name ∷ names) =
    merge_secrets r ns (merge_secret r m (r.get_secret ns name)) names

unfoldable pub encoded : Option String → String
encoded none = ""
encoded (some text) = text

-- GetImagePullSecretFromPodSpec: the merged secret, and whether the error is not nil. The error is
-- always the same text, and an error of Marshal is only logged.
unfoldable pub get_image_pull_secret : SecretReader → String → PodSpec → String × Bool
unfolding merge_secrets encoded
get_image_pull_secret r ns spec =
    let m = merge_secrets r ns (record { auths = []; failed = false }) spec.image_pull_secrets in
    (
      if is_empty m.auths
          then ""
          else encoded (r.marshal (record { auths = m.auths; creds_store = "" })),
      m.failed,
    )

-- ===== src/Hook.antt =====
-- pkg/arch/hook.go: the admission hook, its options and the registry that it asks.
pub mod Options
pub mod Secrets
pub mod Selection
pub mod Labels
pub mod Architectures
pub mod Update
pub mod Events
pub mod Handle
pub mod TestData
mod Examples
mod HandleExamples
use noe.Common.{
  ℕ, Bool, true, false, String, Option, none, some, List, [], ◌∷◌, ◌==◌, is_empty, if◌then◌else◌,
}
use noe.Common.Sets.{contains}

-- registry.Platform
pub record Platform : Type 0 where
  pub architecture : String
  pub os : String
  pub variant : String

-- The fields of `Handler` that its decisions read. The registry, the API client and the decoder
-- are arguments of the functions that use them.
pub record Handler : Type 0 where
  pub match_node_labels : List String
  pub preferred_architecture : String
  pub schedulable_architectures : List String
  pub system_os : String

-- One increment of a counter of `HandlerMetrics`, with its labels.
pub data Metric : Type 0 where
  image_pull_secret_failed : String → Metric
  registry_errors : String → Metric
  update_skipped : String → Metric
  arch_selector_injected : String → String → Metric
  node_match_selector : String → String → Metric

-- const archKey
abbrev pub arch_key : String
arch_key = "kubernetes.io/arch"

-- "beta." + archKey
abbrev pub beta_arch_key : String
beta_arch_key = "beta.kubernetes.io/arch"

-- (*Handler).isArchSupported
unfoldable pub is_arch_supported : Handler → String → Bool
is_arch_supported h arch =
    if is_empty h.schedulable_architectures then true else contains h.schedulable_architectures arch

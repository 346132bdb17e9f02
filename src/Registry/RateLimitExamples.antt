-- ===== src/Registry/RateLimitExamples.antt =====
-- The rate limits of pkg/registry/registry.go on concrete headers.
use mathlib.Core.Bool.{false≢true}
use noe.Common.{String, some, [], ◌∷◌, ◌≡◌, refl, eq_iff, ◌==◌, if◌then◌else◌}
use noe.Common.Maps.{lookup}
use noe.Common.Strings.Parts.{lacks}
use noe.Registry.RateLimits.{get_rate_limit_headers, Gauges, update_remaining_rate_limits}
use noe.Registry.RateLimits.Documented.{quota, update_remaining_rate_limits-documented}

-- The numbers are kept as texts.
abbrev gauges : Gauges String
gauges = record {
  rate_limit_remaining = ("quay.io", "7") ∷ [];
  rate_limit_limit = [];
  rate_limit_window = [];
}

abbrev after : Gauges String
after =
    update_remaining_rate_limits (λ s. some s) "docker.io"
      (get_rate_limit_headers (quota "83" "21600") (quota "100" "21600")) gauges

update_remaining_rate_limits-documented_example :
    (lookup "docker.io" after.rate_limit_remaining ≡ (
      if "docker.io" == "docker.io"
      then some "83"
      else lookup "docker.io" gauges.rate_limit_remaining))
    × ((lookup "docker.io" after.rate_limit_limit ≡ (
          if "docker.io" == "docker.io"
          then some "100"
          else lookup "docker.io" gauges.rate_limit_limit))
        × (lookup "docker.io" after.rate_limit_window ≡ (
            if "docker.io" == "docker.io"
            then some "21600"
            else lookup "docker.io" gauges.rate_limit_window)))
unfolding lacks
update_remaining_rate_limits-documented_example =
    update_remaining_rate_limits-documented (λ s. some s) "docker.io" "docker.io" "83" "100" "21600"
      "83" "100" "21600" gauges refl refl refl refl (λ e. false≢true ((eq_iff "83" "").1 e))
      (λ e. false≢true ((eq_iff "100" "").1 e)) (λ e. false≢true ((eq_iff "21600" "").1 e)) refl
      refl refl

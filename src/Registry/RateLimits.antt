-- ===== src/Registry/RateLimits.antt =====
-- pkg/registry/registry.go: getRateLimitHeaders and updateRemaingRateLimits. A gauge is a map from its
-- label, the registry, to its value; strconv.ParseFloat is a parameter.
pub mod Documented
use noe.Common.{ℕ, Bool, String, Option, none, some, List, [], ◌∷◌, ◌==◌, if◌then◌else◌}
use noe.Common.Maps.{Map, insert}
use noe.Common.Strings.Parts.{split}
use noe.Registry.Patterns.{first_part, second_part}

-- What getRateLimitHeaders returns
pub record RateLimit : Type 0 where
  pub remaining : String
  pub limit : String
  pub window : String

-- The window in the second part of a header
unfoldable pub window_of : List String → String
unfolding second_part
window_of [] = ""
window_of (count ∷ []) = ""
window_of (count ∷ window ∷ parts) = second_part (split b'=' window)

-- getRateLimitHeaders on RateLimit-Remaining and RateLimit-Limit
unfoldable pub get_rate_limit_headers : String → String → RateLimit
unfolding first_part window_of
get_rate_limit_headers remaining limit =
    let window = window_of (split b';' remaining) in
    record {
      remaining = first_part (split b';' remaining);
      limit = first_part (split b';' limit);
      window = if window == "" then window_of (split b';' limit) else window;
    }

-- RateLimitRemaining, RateLimitLimit and RateLimitWindow of RegistryMetrics
pub record Gauges (F : Type 0) : Type 0 where
  pub rate_limit_remaining : Map F
  pub rate_limit_limit : Map F
  pub rate_limit_window : Map F

module _ {F : Type 0} (parse_float : String → Option F) where
  unfoldable pub set_parsed : String → Option F → Map F → Map F
  set_parsed registry none gauge = gauge
  set_parsed registry (some v) gauge = insert registry v gauge

  -- A gauge is set if there is a text, and it is a number.
  unfoldable pub set_gauge : String → String → Map F → Map F
  unfolding set_parsed
  set_gauge registry text gauge =
      if text == "" then gauge else set_parsed registry (parse_float text) gauge

  -- updateRemaingRateLimits
  unfoldable pub update_remaining_rate_limits : String → RateLimit → Gauges F → Gauges F
  unfolding set_gauge
  update_remaining_rate_limits registry r g = record {
    rate_limit_remaining = set_gauge registry r.remaining g.rate_limit_remaining;
    rate_limit_limit = set_gauge registry r.limit g.rate_limit_limit;
    rate_limit_window = set_gauge registry r.window g.rate_limit_window;
  }

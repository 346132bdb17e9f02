-- ===== src/Http/Caching.antt =====
-- pkg/httputils/cache.go and pkg/httputils/httputils.go. The default transport
-- and strconv.Itoa are parameters. Durations are in nanoseconds.
use Prim.Native.Nat.{◌/◌}
use noe.Common.{ℕ, ltb, if◌then◌else◌, String, Option, none, some, []}
use noe.Common.Integers.{ℤ, pos, negsuc}
use noe.Common.Maps.{Map, insert}
use noe.Hook.Events.{◌<>◌}

-- What a round tripper returns: an error, no response, or one with its headers, none for nil
pub data Reply : Type 0 where
  failed : String → Reply
  no_response : Reply
  response : Option (Map String) → Reply

-- nextRoundTripper
unfoldable pub next_round_tripper {ℓ} : {T : Type ℓ} → T → Option T → T
next_round_tripper default_transport none = default_transport
next_round_tripper default_transport (some transport) = transport

-- (RoundTripperFunc).RoundTrip
unfoldable pub round_tripper_func : {Q : Type 0} → Option (Q → Reply) → Q → Reply
round_tripper_func none q = failed "nil function provided"
round_tripper_func (some t) q = t q

-- The seconds of the cache's duration, a minute if it is not positive
unfoldable pub cache_seconds : ℤ → ℕ
cache_seconds (pos n) = if ltb 0 n then n / 1000000000 else 60
cache_seconds (negsuc n) = 60

unfoldable pub headers_of : Option (Map String) → Map String
headers_of none = []
headers_of (some headers) = headers

module _ (itoa : ℕ → String) where
  -- (*ForcedCacheTransport).RoundTrip after the inner round trip
  unfoldable pub force_cache : ℤ → Reply → Reply
  unfolding cache_seconds headers_of
  force_cache duration (failed err) = failed err
  force_cache duration no_response = no_response
  force_cache duration (response headers) = response (
      some
        (insert "Cache-Control" ("max-age=" <> itoa (cache_seconds duration)) (headers_of headers)))

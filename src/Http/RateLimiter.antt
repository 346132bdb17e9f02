-- ===== src/Http/RateLimiter.antt =====
-- pkg/httputils/rate_limiter.go: RateLimitedRoundTripper. A channel is unbuffered and has its
-- workers, the goroutines that run handleRequests; those that wait for a request are a number, since
-- they are all alike. A step is what a goroutine does under the mutex, or one communication.
pub mod Invariant
pub mod Entering
pub mod Serving
pub mod Leaving
pub mod Safety
pub mod Progress
use noe.Common.{
  ℕ, suc, [], ◌+◌, ◌-◌, ◌<◌, Bool, true, false, String, Option, none, some, ◌≡◌, ltb, if◌then◌else◌,
}
use noe.Common.Integers.{ℤ, pos, increment, decrement, is_zero}
use noe.Common.Maps.{Map, lookup, insert, delete}
use noe.Common.Families.{update}

-- A channel with the number of its workers that wait for a request
pub record Channel : Type 0 where
  pub free : ℕ
  pub closed : Bool

-- Where a caller of RoundTrip stands, with the channel that it uses: before getRequestChan, at the
-- send, with its request at a worker, after its wait and before `done`, and at the end.
pub data Caller : Type 0 where
  ready : Caller
  sending : ℕ → Caller
  running : ℕ → Caller
  answered : ℕ → Caller
  returned : Caller

-- The round tripper and its callers; `next` is the channel that is made next.
pub record System : Type 0 where
  pub requests_chans : Map ℕ
  pub in_flights : Map ℤ
  pub channels : ℕ → Channel
  pub next : ℕ
  pub callers : ℕ → Caller

-- t.inFlights[key], 0 for a missing key
abbrev pub flights : Option ℤ → ℤ
flights none = pos 0
flights (some n) = n

-- At least one worker, also for a limit that is not set.
unfoldable pub worker_count : ℕ → ℕ
worker_count limit = if ltb limit 1 then 1 else limit

-- getRequestChan after the test whether the key has a channel
unfoldable pub found_chan : ℕ → String → Option ℕ → System → System × ℕ
unfolding worker_count
found_chan limit key (some c) s = (
  record s { in_flights = insert key (increment (flights (lookup key s.in_flights))) s.in_flights },
  c,
)
found_chan limit key none s = (
  record s {
    requests_chans = insert key s.next s.requests_chans;
    in_flights = insert key (increment (flights (lookup key s.in_flights))) s.in_flights;
    channels = update s.channels s.next (record { free = worker_count limit; closed = false });
    next = s.next + 1;
  },
  s.next,
)

-- (*RateLimitedRoundTripper).getRequestChan
unfoldable pub get_request_chan : ℕ → String → System → System × ℕ
unfolding found_chan
get_request_chan limit key s = found_chan limit key (lookup key s.requests_chans) s

-- t.inFlights[key]--, if the key has a channel
unfoldable pub leave : String → Option ℕ → Map ℤ → Map ℤ
leave key none m = m
leave key (some c) m = insert key (decrement (flights (lookup key m))) m

-- close(requestsChan), if the key has a channel
unfoldable pub close_chan : Option ℕ → (ℕ → Channel) → ℕ → Channel
close_chan none channels = channels
close_chan (some c) channels = update channels c (record (channels c) { closed = true })

unfoldable pub done_left : String → Option ℕ → Map ℤ → System → System
unfolding close_chan
done_left key found left s =
    if is_zero (flights (lookup key left))
    then record s {
      requests_chans = delete key s.requests_chans;
      in_flights = delete key left;
      channels = close_chan found s.channels;
    }
    else record s { in_flights = left }

-- (*RateLimitedRoundTripper).done
unfoldable pub done : String → System → System
unfolding leave done_left
done key s =
    let found = lookup key s.requests_chans in done_left key found (leave key found s.in_flights) s

-- A caller moves on.
unfoldable pub move : ℕ → Caller → System → System
move i caller s = record s { callers = update s.callers i caller }

-- A channel's waiting workers become more or fewer.
unfoldable pub set_free : ℕ → ℕ → System → System
set_free c free s = record s {
  channels = update s.channels c (record (s.channels c) { free = free });
}

-- RoundTrip up to the channel
unfoldable pub enter : ℕ → String → ℕ → System → System
unfolding get_request_chan move
enter limit key i s = let (entered, c) = get_request_chan limit key s in move i (sending c) entered

-- A worker takes the request from the channel.
unfoldable pub receive : ℕ → ℕ → System → System
unfolding move set_free
receive i c s = move i (running c) (set_free c ((s.channels c).free - 1) s)

-- The worker's round trip ends: it sets the response, calls wg.Done and waits again.
unfoldable pub respond : ℕ → ℕ → System → System
unfolding move set_free
respond i c s = move i (answered c) (set_free c ((s.channels c).free + 1) s)

-- The rest of RoundTrip, with its deferred call of `done`
unfoldable pub leave_all : String → ℕ → System → System
unfolding done move
leave_all key i s = move i returned (done key s)

-- The `n` callers make one step each, or a worker does: those of callers are marked by `true`. The
-- caller `i` has the key `keys i`.
module _ (limit n : ℕ) (keys : ℕ → String) where
  pub data Step (s : System) : Bool → System → Type 0 where
    enters : (i : ℕ) → i < n → s.callers i ≡ ready → Step s true (enter limit (keys i) i s)
    receives :
        (i c : ℕ)
        → i < n
        → s.callers i ≡ sending c
        → (s.channels c).closed ≡ false
        → 0 < (s.channels c).free
        → Step s true (receive i c s)
    responds : (i c : ℕ) → i < n → s.callers i ≡ running c → Step s true (respond i c s)
    leaves : (i c : ℕ) → i < n → s.callers i ≡ answered c → Step s true (leave_all (keys i) i s)
    -- A waiting worker sees that the channel is closed, and ends.
    exits :
        (c : ℕ)
        → (s.channels c).closed ≡ true
        → 0 < (s.channels c).free
        → Step s false (set_free c ((s.channels c).free - 1) s)

  -- No call yet
  abbrev pub init : System
  init = record {
    requests_chans = [];
    in_flights = [];
    channels = λ _. record { free = 0; closed = true };
    next = 0;
    callers = λ _. ready;
  }

  -- The states that are reached, with the number of the callers' steps.
  pub data Reach : ℕ → System → Type 0 where
    start : Reach 0 init
    called : {m : ℕ} {s t : System} → Reach m s → Step s true t → Reach (suc m) t
    worked : {m : ℕ} {s t : System} → Reach m s → Step s false t → Reach m t

-- ===== src/Http/RateLimiter/Invariant.antt =====
-- What holds of the rate limiter between two steps.
use noe.Common.{ℕ, ◌+◌, ◌<◌, Bool, true, false, ◌&&◌, String, Option, none, some, ◌≡◌, ◌==◌, nat_eq}
use noe.Common.Integers.{ℤ, pos}
use noe.Common.Maps.{lookup}
use noe.Common.Families.{one_if, count, update, count-update}
use noe.Http.RateLimiter.{Caller, ready, sending, running, answered, returned, System, worker_count}

-- The channel that a caller uses
abbrev pub uses : Caller → Option ℕ
uses ready = none
uses (sending c) = some c
uses (running c) = some c
uses (answered c) = some c
uses returned = none

-- Between getRequestChan and `done`
abbrev pub is_active : Caller → Bool
is_active ready = false
is_active (sending c) = true
is_active (running c) = true
is_active (answered c) = true
is_active returned = false

-- Its request is at a worker of the channel.
abbrev pub runs_on : ℕ → Caller → Bool
runs_on c ready = false
runs_on c (sending d) = false
runs_on c (running d) = nat_eq d c
runs_on c (answered d) = false
runs_on c returned = false

-- Its request is at a worker.
abbrev pub is_running : Caller → Bool
is_running ready = false
is_running (sending c) = false
is_running (running c) = true
is_running (answered c) = false
is_running returned = false

abbrev pub is_returned : Caller → Bool
is_returned ready = false
is_returned (sending c) = false
is_returned (running c) = false
is_returned (answered c) = false
is_returned returned = true

abbrev pub Counts : Option ℤ → ℕ → Type 0
Counts none m = m ≡ 0
Counts (some z) m = (z ≡ pos m) × (0 < m)

abbrev pub Has : Option ℕ → ℕ → Type 0
Has none m = m ≡ 0
Has (some c) m = 0 < m

-- How many of the first `n` callers have this key and are active
abbrev pub members : ℕ → (ℕ → String) → String → (ℕ → Caller) → ℕ
members n keys k callers = count n (λ i. keys i == k && is_active (callers i))

-- How many requests of the first `n` callers are at the channel's workers
abbrev pub load : ℕ → ℕ → (ℕ → Caller) → ℕ
load n c callers = count n (λ i. runs_on c (callers i))

-- The channel is open, and each of its workers waits or has a request.
pub record IsOpen (limit n : ℕ) (s : System) (c : ℕ) : Type 0 where
  pub made : c < s.next
  pub open_channel : (s.channels c).closed ≡ false
  pub workers : (s.channels c).free + load n c s.callers ≡ worker_count limit

-- inFlights counts the active callers of each key; a key has a channel exactly while some are;
-- it is open, and no other key has it; a caller uses the channel of its key.
pub record IsConsistent (limit n : ℕ) (keys : ℕ → String) (s : System) : Type 0 where
  pub counts : (k : String) → Counts (lookup k s.in_flights) (members n keys k s.callers)
  pub has : (k : String) → Has (lookup k s.requests_chans) (members n keys k s.callers)
  pub opened : (k : String) (c : ℕ) → lookup k s.requests_chans ≡ some c → IsOpen limit n s c
  pub owner :
      (k j : String) (c : ℕ)
      → lookup k s.requests_chans ≡ some c
      → lookup j s.requests_chans ≡ some c
      → k ≡ j
  pub at :
      (i c : ℕ) → i < n → uses (s.callers i) ≡ some c → lookup (keys i) s.requests_chans ≡ some c

pub members-update :
    (n : ℕ) (keys : ℕ → String) (k : String) (callers : ℕ → Caller) (i : ℕ) (p : Caller)
    → i < n
    → members n keys k (update callers i p) + one_if (keys i == k && is_active (callers i))
      ≡ members n keys k callers + one_if (keys i == k && is_active p)
members-update n keys k callers i p = count-update (λ j q. keys j == k && is_active q) n callers i p

pub load-update :
    (n c : ℕ) (callers : ℕ → Caller) (i : ℕ) (p : Caller)
    → i < n
    → load n c (update callers i p) + one_if (runs_on c (callers i))
      ≡ load n c callers + one_if (runs_on c p)
load-update n c callers i p = count-update (λ j q. runs_on c q) n callers i p

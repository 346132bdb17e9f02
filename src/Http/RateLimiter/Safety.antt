-- ===== src/Http/RateLimiter/Safety.antt =====
-- What holds in every state that the rate limiter reaches.
use noe.Common.{
  ℕ, ◌+◌, ◌-◌, ◌<◌, ◌≤◌, Bool, true, false, ◌&&◌, String, none, some, ◌≡◌, refl, subst, ap, arith,
  ◌==◌, eq_iff, Option-cases, and_elim, inl, inr,
}
use noe.Common.Maps.{lookup}
use noe.Common.Families.{count, count-le, count_zero}
use noe.Http.RateLimiter.{
  Caller, ready, sending, running, answered, returned, System, worker_count, get_request_chan,
  enter, receive, respond, Step, enters, receives, responds, leaves, exits, init, Reach, start,
  called, worked,
}
use noe.Http.RateLimiter.Invariant.{uses, is_active, is_running, Has, members, load, IsConsistent}
use noe.Http.RateLimiter.Entering.{enter_found, enter_new}
use noe.Http.RateLimiter.Serving.{serve, exit_worker}
use noe.Http.RateLimiter.Leaving.{leave_keeps}

module _ (limit n : ℕ) (keys : ℕ → String) where
  pub Step-IsConsistent :
      {s t : System} {b : Bool}
      → IsConsistent limit n keys s
      → Step limit n keys s b t
      → IsConsistent limit n keys t
  unfolding enter get_request_chan receive respond
  Step-IsConsistent {s = s} v (enters i below e) =
      elim (Option-cases (lookup (keys i) s.requests_chans)) [
        | inl missing ↦ rw missing (enter_new limit n keys v i below e missing)
        | inr (c, found) ↦ rw found (enter_found limit n keys v i c below e found)
      ]
  Step-IsConsistent {s = s} v (receives i c below e opened waits) =
      serve limit n keys v i c ((s.channels c).free - 1) (running c) below (ap uses e) refl
        (ground (arith, e, waits))
  Step-IsConsistent {s = s} v (responds i c below e) =
      serve limit n keys v i c ((s.channels c).free + 1) (answered c) below (ap uses e) refl
        (ground (arith, e))
  Step-IsConsistent v (leaves i c below e) = leave_keeps limit n keys v i c below e
  Step-IsConsistent {s = s} v (exits c gone waits) =
      exit_worker limit n keys v c ((s.channels c).free - 1) gone

  init-IsConsistent : IsConsistent limit n keys (init limit n keys)
  unfolding lookup
  init-IsConsistent = record {
    counts = λ k. count_zero n _ (λ i below. ground arith);
    has = λ k. count_zero n _ (λ i below. ground arith);
    opened = λ k c g. ground arith;
    owner = λ k j c g. ground arith;
    at = λ i c below g. ground arith;
  }

  -- In every state that the rate limiter reaches, inFlights counts the active callers of each key, a
  -- key has a channel exactly while it has some, and so on.
  pub Reach-IsConsistent :
      {m : ℕ} {s : System} → Reach limit n keys m s → IsConsistent limit n keys s
  Reach-IsConsistent start = init-IsConsistent
  Reach-IsConsistent (called r step) = Step-IsConsistent (Reach-IsConsistent r) step
  Reach-IsConsistent (worked r step) = Step-IsConsistent (Reach-IsConsistent r) step

running_cases : (p : Caller) → is_running p ≡ true → (d : ℕ) × (p ≡ running d)
running_cases ready h = ground arith
running_cases (sending d) h = ground arith
running_cases (running d) h = (d, refl)
running_cases (answered d) h = ground arith
running_cases returned h = ground arith

running-active : (b : Bool) (p : Caller) → (b && is_running p) ≡ true → (b && is_active p) ≡ true
running-active b ready h = ground arith
running-active b (sending d) h = ground arith
running-active b (running d) h = h
running-active b (answered d) h = ground arith
running-active b returned h = ground arith

-- A request at a worker is at a worker of its key's channel.
running_load :
    (limit n : ℕ) (keys : ℕ → String) {s : System}
    → IsConsistent limit n keys s
    → (k : String) (c : ℕ) → lookup k s.requests_chans ≡ some c
    → count n (λ i. keys i == k && is_running (s.callers i)) ≤ load n c s.callers
running_load limit n keys {s = s} v k c found = count-le n _ _ λ i below passes.
    let (same, runs) = and_elim (keys i == k) (is_running (s.callers i)) passes in
    let (d, e) = running_cases (s.callers i) runs in
    let h : lookup k s.requests_chans ≡ some d =
      subst (λ j. lookup j s.requests_chans ≡ some d) ((eq_iff (keys i) k).0 same)
        (v.at i d below (ap uses e)) in
    let g : d ≡ c = ground arith in rw e (ground arith)

idle_key :
    (limit n : ℕ) (keys : ℕ → String) {s : System}
    → IsConsistent limit n keys s
    → (k : String) → lookup k s.requests_chans ≡ none
    → count n (λ i. keys i == k && is_running (s.callers i)) ≡ 0
idle_key limit n keys {s = s} v k missing =
    let none_active : members n keys k s.callers ≡ 0 =
      subst (λ o. Has o (members n keys k s.callers)) missing (v.has k) in
    let fewer : count n (λ i. keys i == k && is_running (s.callers i))
        ≤ members n keys k s.callers =
      count-le n _ _ (λ i below. running-active (keys i == k) (s.callers i)) in
    omega arith

-- In every state that is reached, at most `worker_count limit` requests with the same key are at
-- the inner round tripper, whichever of the callers run in between.
pub running-le-limit :
    (limit n : ℕ) (keys : ℕ → String) {m : ℕ} {s : System}
    → Reach limit n keys m s
    → (k : String) → count n (λ i. keys i == k && is_running (s.callers i)) ≤ worker_count limit
running-le-limit limit n keys {s = s} r k =
    let v = Reach-IsConsistent limit n keys r in
    elim (Option-cases (lookup k s.requests_chans)) [
      | inl missing ↦ omega (arith, idle_key limit n keys v k missing)
      | inr (c, found) ↦
          omega (arith, running_load limit n keys v k c found, (v.opened k c found).workers)
    ]

-- In every state that is reached, a channel that a caller uses, from getRequestChan to `done`, is
-- open, and it is the one that its key has: no caller sends on a closed channel, and what `done`
-- finds for a key is not closed a second time.
pub used-IsOpen :
    (limit n : ℕ) (keys : ℕ → String) {m : ℕ} {s : System} (i c : ℕ)
    → Reach limit n keys m s
    → i < n
    → uses (s.callers i) ≡ some c
    → ((s.channels c).closed ≡ false) × (lookup (keys i) s.requests_chans ≡ some c)
used-IsOpen limit n keys i c r below e =
    let v = Reach-IsConsistent limit n keys r in
    let found = v.at i c below e in ((v.opened (keys i) c found).open_channel, found)

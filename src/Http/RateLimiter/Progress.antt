-- ===== src/Http/RateLimiter/Progress.antt =====
-- The rate limiter lets every caller return, and frees what it held.
use noe.Common.{
  ℕ, zero, suc, ◌+◌, ◌-◌, ◌*◌, ◌<◌, true, false, String, Option, none, some, ◌≡◌, refl, ap, arith,
  nat_eq, Bool-cases, inl, inr, ◌⊎◌,
}
use noe.Common.Integers.{ℤ, is_zero}
use noe.Common.Maps.{lookup}
use noe.Common.Families.{
  count, count_zero, count_all, count_some, total, total-update, total_const, total_some,
  total_none,
}
use noe.Http.RateLimiter.{
  Caller, ready, sending, running, answered, returned, System, worker_count, flights, leave,
  get_request_chan, found_chan, enter, receive, respond, leave_all, done, done_left, set_free, move,
  Step, enters, receives, responds, leaves, exits, Reach, start, called, worked,
}
use noe.Http.RateLimiter.Invariant.{
  uses, is_returned, runs_on, Counts, Has, members, load, IsConsistent,
}
use noe.Http.RateLimiter.Safety.{Step-IsConsistent, Reach-IsConsistent}

-- How many steps a caller has left
abbrev pub steps_left : Caller → ℕ
steps_left ready = 4
steps_left (sending c) = 3
steps_left (running c) = 2
steps_left (answered c) = 1
steps_left returned = 0

-- How many steps the first `n` callers have left
abbrev pub work : ℕ → System → ℕ
work n s = total n (λ i. steps_left (s.callers i))

-- What a step does to the callers: one of them moves on, or none does.
found_callers :
    (limit : ℕ) (key : String) (o : Option ℕ) (s : System)
    → (found_chan limit key o s).0.callers ≡ s.callers
unfolding found_chan
found_callers limit key none s = refl
found_callers limit key (some c) s = refl

done-callers : (key : String) (s : System) → (done key s).callers ≡ s.callers
unfolding done done_left
done-callers key s =
    elim (Bool-cases
      (is_zero (flights (lookup key (leave key (lookup key s.requests_chans) s.in_flights))))) [
        | inl last ↦ rw last refl
        | inr others ↦ rw others refl
      ]

worker_count-pos : (limit : ℕ) → 0 < worker_count limit
unfolding worker_count
worker_count-pos limit = ground arith

runs_at : (c : ℕ) (p : Caller) → runs_on c p ≡ true → p ≡ running c
runs_at c ready h = ground arith
runs_at c (sending d) h = ground arith
runs_at c (running d) h = ap running (ground arith)
runs_at c (answered d) h = ground arith
runs_at c returned h = ground arith

none_left : (p : Caller) → steps_left p ≡ 0 → p ≡ returned
none_left ready h = absurd (omega (arith, h))
none_left (sending c) h = absurd (omega (arith, h))
none_left (running c) h = absurd (omega (arith, h))
none_left (answered c) h = absurd (omega (arith, h))
none_left returned h = refl

Has-none : (o : Option ℕ) (m : ℕ) → Has o m → m ≡ 0 → o ≡ none
Has-none none m h e = refl
Has-none (some c) m h e = ground arith

Counts-none : (o : Option ℤ) (m : ℕ) → Counts o m → m ≡ 0 → o ≡ none
Counts-none none m h e = refl
Counts-none (some z) m h e = ground arith

module _ (limit n : ℕ) (keys : ℕ → String) where
  Step-work : {s t : System} → Step limit n keys s true t → work n s ≡ work n t + 1
  unfolding enter receive respond leave_all get_request_chan move set_free
  Step-work {s = s} (enters i below e) =
      rw (found_callers limit (keys i) (lookup (keys i) s.requests_chans) s) (
        ground (
          arith,
          total-update steps_left n s.callers i (sending (get_request_chan limit (keys i) s).1)
              below,
          e,
        ))
  Step-work {s = s} (receives i c below e opened waits) =
      ground (arith, total-update steps_left n s.callers i (running c) below, e)
  Step-work {s = s} (responds i c below e) =
      ground (arith, total-update steps_left n s.callers i (answered c) below, e)
  Step-work {s = s} (leaves i c below e) =
      rw (done-callers (keys i) s)
        (ground (arith, total-update steps_left n s.callers i returned below, e))

  exit-work : {s t : System} → Step limit n keys s false t → work n s ≡ work n t
  unfolding set_free
  exit-work (exits c gone waits) = refl

  -- Every step of a caller takes one from the work.
  Reach-work : {m : ℕ} {s : System} → Reach limit n keys m s → m + work n s ≡ n * 4
  Reach-work start = omega (arith, total_const n 4)
  Reach-work (called r step) = omega (arith, Reach-work r, Step-work step)
  Reach-work (worked r step) = omega (arith, Reach-work r, exit-work step)

  -- Runs of the callers only, with their number of steps
  pub data Runs : ℕ → System → System → Type 0 where
    stays : {s : System} → Runs 0 s s
    goes : {m : ℕ} {s t u : System} → Step limit n keys s true t → Runs m t u → Runs (suc m) s u

  -- A caller at its send can go on, or one that has its channel's worker can.
  send-Step :
      {s : System}
      → IsConsistent limit n keys s
      → (i c : ℕ) → i < n
      → s.callers i ≡ sending c
      → (t : System) × Step limit n keys s true t
  send-Step {s = s} v i c below e =
      let o = v.opened (keys i) c (v.at i c below (ap uses e)) in
      elim (Bool-cases (nat_eq (s.channels c).free 0)) [
        | inl all_busy ↦
            let (j, (bound, runs)) = count_some n _ (busy all_busy o.workers) in
            (respond j c s, responds j c bound (runs_at c (s.callers j) runs))
        | inr waiting ↦ (receive i c s, receives i c below e o.open_channel (ground arith))
      ]
    where
      busy :
          (nat_eq (s.channels c).free 0) ≡ true
          → (s.channels c).free + load n c s.callers ≡ worker_count limit
          → 0 < load n c s.callers
      busy h w = ground (arith, worker_count-pos limit)

  -- A caller that has not returned can go on, or another one can.
  caller-Step :
      {s : System}
      → IsConsistent limit n keys s
      → (i : ℕ) → i < n
      → (p : Caller) → s.callers i ≡ p
      → 0 < steps_left p
      → (t : System) × Step limit n keys s true t
  caller-Step {s = s} v i below ready e h = (enter limit (keys i) i s, enters i below e)
  caller-Step v i below (sending c) e h = send-Step v i c below e
  caller-Step {s = s} v i below (running c) e h = (respond i c s, responds i c below e)
  caller-Step {s = s} v i below (answered c) e h = (leave_all (keys i) i s, leaves i c below e)
  caller-Step v i below returned e h = ground arith

  -- From a consistent state the callers can run until they have no work left.
  finish :
      (fuel : ℕ) {s : System}
      → IsConsistent limit n keys s
      → work n s ≡ fuel
      → (u : System) × (Runs fuel s u × (IsConsistent limit n keys u × (work n u ≡ 0)))
  finish zero {s = s} v h = (s, (stays, (v, h)))
  finish (suc fuel) {s = s} v h =
      let (i, (below, some_left)) =
        total_some n (λ i. steps_left (s.callers i)) (omega (arith, h)) in
      let (t, step) = caller-Step v i below (s.callers i) refl some_left in
      let (u, (runs, ended)) =
        finish fuel (Step-IsConsistent limit n keys v step) (omega (arith, h, Step-work step)) in
      (u, (goes step runs, ended))

  -- Without work left the callers have returned, and the maps have no entries.
  finished :
      {s : System}
      → IsConsistent limit n keys s
      → work n s ≡ 0
      → (count n (λ i. is_returned (s.callers i)) ≡ n)
        × ((k : String) → (lookup k s.requests_chans ≡ none) × (lookup k s.in_flights ≡ none))
  finished {s = s} v h =
      let ended : (i : ℕ) → i < n → s.callers i ≡ returned =
        λ i below. none_left (s.callers i) (total_none n _ h i below) in
      let empty : (k : String) → members n keys k s.callers ≡ 0 =
        λ k. count_zero n _ (λ i below. rw (ended i below) (ground arith)) in
      (
        count_all n _ (λ i below. rw (ended i below) refl),
        λ k. (
          Has-none (lookup k s.requests_chans) _ (v.has k) (empty k),
          Counts-none (lookup k s.in_flights) _ (v.counts k) (empty k),
        ),
      )

-- However the callers and the workers interleave, the `n` callers together make less than four times
-- `n` steps, or they have made just so many; then every caller has returned, and no key has a
-- channel or a count.
pub calls-le-work :
    (limit n : ℕ) (keys : ℕ → String) {m : ℕ} {s : System}
    → Reach limit n keys m s
    → (m < n * 4)
      ⊎ ((m ≡ n * 4)
          × ((count n (λ i. is_returned (s.callers i)) ≡ n)
              × ((k : String)
                  → (lookup k s.requests_chans ≡ none) × (lookup k s.in_flights ≡ none))))
calls-le-work limit n keys {s = s} r =
    let w = Reach-work limit n keys r in
    elim (Bool-cases (nat_eq (work n s) 0)) [
      | inl ended ↦
          let none_left : work n s ≡ 0 = ground (arith, ended) in
          inr (
            omega (arith, w, none_left),
            finished limit n keys (Reach-IsConsistent limit n keys r) none_left,
          )
      | inr more ↦
          inl (let some_left : 0 < work n s = ground (arith, more) in omega (arith, w, some_left))
    ]

-- From every state that is reached, the callers alone can go on until every one has returned, in as
-- many steps as are left of four for each, and then no key has a channel or a count.
pub callers_return :
    (limit n : ℕ) (keys : ℕ → String) {m : ℕ} {s : System}
    → Reach limit n keys m s
    → (u : System) × (Runs limit n keys (n * 4 - m) s u
        × ((count n (λ i. is_returned (u.callers i)) ≡ n)
            × ((k : String) → (lookup k u.requests_chans ≡ none) × (lookup k u.in_flights ≡ none))))
callers_return limit n keys {m = m} r =
    let v = Reach-IsConsistent limit n keys r in
    let (u, (runs, (w, ended))) =
      finish limit n keys (n * 4 - m) v (omega (arith, Reach-work limit n keys r)) in
    (u, (runs, finished limit n keys w ended))

-- ===== src/Http/RateLimiter/Entering.antt =====
-- A caller that enters keeps the rate limiter consistent.
use noe.Common.{
  ℕ, ◌+◌, ◌<◌, true, false, String, Option, none, some, ◌≡◌, refl, sym, subst, arith, ◌==◌, eq_iff,
  eq_refl, nat_eq, nat_eq_refl, if◌then◌else◌, Bool-cases, ◌⊎◌, inl, inr,
}
use noe.Common.Integers.{ℤ, increment}
use noe.Common.Maps.{lookup, insert, lookup-insert}
use noe.Common.Families.{update, count_zero}
use noe.Http.RateLimiter.{
  Caller, ready, sending, running, answered, returned, System, flights, found_chan, move,
}
use noe.Http.RateLimiter.Invariant.{
  uses, is_active, runs_on, Counts, members, load, IsOpen, IsConsistent, members-update,
  load-update,
}

-- One more caller is counted.
Counts-increment :
    (o : Option ℤ) (m : ℕ) → Counts o m → Counts (some (increment (flights o))) (m + 1)
Counts-increment none m h = ground arith
Counts-increment (some z) m h = ground arith

pub runs-uses : (c : ℕ) (p : Caller) → runs_on c p ≡ true → uses p ≡ some c
runs-uses c ready h = ground arith
runs-uses c (sending d) h = ground arith
runs-uses c (running d) h = ground arith
runs-uses c (answered d) h = ground arith
runs-uses c returned h = ground arith

pub uses-active : (c : ℕ) (p : Caller) → uses p ≡ some c → is_active p ≡ true
uses-active c ready h = ground arith
uses-active c (sending d) h = refl
uses-active c (running d) h = refl
uses-active c (answered d) h = refl
uses-active c returned h = ground arith

-- Who uses a channel after an update used it before, or is the caller that moved.
pub uses-update :
    (callers : ℕ → Caller) (i : ℕ) (p : Caller) (j d : ℕ)
    → uses (update callers i p j) ≡ some d
    → ((i ≡ j) × (uses p ≡ some d)) ⊎ (uses (callers j) ≡ some d)
uses-update callers i p j d = elim (Bool-cases (nat_eq i j)) [
  | inl same ↦ rw same (λ h. inl (ground arith, h))
  | inr other ↦ rw other (λ h. inr h)
]

module _ (limit n : ℕ) (keys : ℕ → String) {s : System} (v : IsConsistent limit n keys s) where
  -- A channel that is made next has no requests.
  load_next : load n s.next s.callers ≡ 0
  load_next = count_zero n _ λ i below. elim (Bool-cases (runs_on s.next (s.callers i))) [
    | inl runs ↦
        let o =
          v.opened (keys i) s.next (v.at i s.next below (runs-uses s.next (s.callers i) runs)) in
        absurd (omega (arith, o.made))
    | inr idle ↦ idle
  ]

  -- The caller `i`, which was not active, enters with the channel `c`.
  entered_members :
      (k : String) (i c : ℕ)
      → i < n
      → s.callers i ≡ ready
      → members n keys k (update s.callers i (sending c))
        ≡ (if keys i == k then members n keys k s.callers + 1 else members n keys k s.callers)
  entered_members k i c below e =
      ground (arith, members-update n keys k s.callers i (sending c) below, e)

  entered_load :
      (d i c : ℕ)
      → i < n
      → s.callers i ≡ ready
      → load n d (update s.callers i (sending c)) ≡ load n d s.callers
  entered_load d i c below e = ground (arith, load-update n d s.callers i (sending c) below, e)

  enter_counts :
      (i c : ℕ)
      → i < n
      → s.callers i ≡ ready
      → (k : String)
      → Counts
          (lookup k
            (insert (keys i) (increment (flights (lookup (keys i) s.in_flights))) s.in_flights))
          (members n keys k (update s.callers i (sending c)))
  enter_counts i c below e k =
      rw
        (
          lookup-insert (keys i) k (increment (flights (lookup (keys i) s.in_flights)))
              s.in_flights,
          entered_members k i c below e,
        )
        (elim (Bool-cases (keys i == k)) [
          | inl same ↦ rw same (
              subst
                (λ j.
                  Counts (some (increment (flights (lookup j s.in_flights))))
                    (members n keys k s.callers + 1))
                (sym ((eq_iff (keys i) k).0 same))
                (Counts-increment (lookup k s.in_flights) _ (v.counts k)))
          | inr other ↦ rw other (v.counts k)
        ])

  -- A caller that enters a key with a channel.
  pub enter_found :
      (i c : ℕ)
      → i < n
      → s.callers i ≡ ready
      → lookup (keys i) s.requests_chans ≡ some c
      → IsConsistent limit n keys (move i (sending c) (found_chan limit (keys i) (some c) s).0)
  unfolding move found_chan
  enter_found i c below e f = record {
    counts = enter_counts i c below e;
    has = λ k. rw (entered_members k i c below e) (elim (Bool-cases (keys i == k)) [
      | inl same ↦
          let g : lookup k s.requests_chans ≡ some c =
            subst (λ j. lookup j s.requests_chans ≡ some c) ((eq_iff (keys i) k).0 same) f in
          rw (same, g) (omega arith)
      | inr other ↦ rw other (v.has k)
    ]);
    opened = λ k d g.
        let o = v.opened k d g in
        record {
          made = o.made;
          open_channel = o.open_channel;
          workers = rw (entered_load d i c below e) o.workers;
        };
    owner = v.owner;
    at = λ j d bound u. elim (uses-update s.callers i (sending c) j d u) [
      | inl (same, g) ↦ let h : c ≡ d = ground arith in rw (← same, ← h) f
      | inr old ↦ v.at j d bound old
    ];
  }

  -- The channel that is made next is no key's.
  not_next : (k : String) (d : ℕ) → lookup k s.requests_chans ≡ some d → nat_eq s.next d ≡ false
  not_next k d g = ground (arith, (v.opened k d g).made)

  -- A caller that enters a key without a channel, and makes it.
  pub enter_new :
      (i : ℕ)
      → i < n
      → s.callers i ≡ ready
      → lookup (keys i) s.requests_chans ≡ none
      → IsConsistent limit n keys (move i (sending s.next) (found_chan limit (keys i) none s).0)
  unfolding move found_chan
  enter_new i below e f = record {
    counts = enter_counts i s.next below e;
    has = λ k.
        rw (entered_members k i s.next below e, lookup-insert (keys i) k s.next s.requests_chans)
          (elim (Bool-cases (keys i == k)) [
            | inl same ↦ rw same (omega arith)
            | inr other ↦ rw other (v.has k)
          ]);
    opened = λ k d.
        rw (lookup-insert (keys i) k s.next s.requests_chans) (elim (Bool-cases (keys i == k)) [
          | inl same ↦ rw same (λ g.
              let h : s.next ≡ d = ground arith in
              subst (IsOpen limit n _) h (record {
                made = omega arith;
                open_channel = rw (nat_eq_refl s.next) refl;
                workers =
                    rw (nat_eq_refl s.next, entered_load s.next i s.next below e, load_next)
                      (omega arith);
              }))
          | inr other ↦ rw other (λ g.
              let o = v.opened k d g in
              record {
                made = omega (arith, o.made);
                open_channel = rw (not_next k d g) o.open_channel;
                workers = rw (not_next k d g, entered_load d i s.next below e) o.workers;
              })
        ]);
    owner = λ k j d.
        rw
          (
            lookup-insert (keys i) k s.next s.requests_chans,
            lookup-insert (keys i) j s.next s.requests_chans,
          )
          (ground (
            arith,
            eq_iff (keys i) k,
            eq_iff (keys i) j,
            not_next k d,
            not_next j d,
            v.owner k j d,
          ));
    at = λ j d bound u.
        rw (lookup-insert (keys i) (keys j) s.next s.requests_chans)
          (elim (uses-update s.callers i (sending s.next) j d u) [
            | inl (same, g) ↦ rw (← same, eq_refl (keys i)) g
            | inr old ↦ ground (arith, v.at j d bound old, eq_iff (keys i) (keys j), f)
          ]);
  }

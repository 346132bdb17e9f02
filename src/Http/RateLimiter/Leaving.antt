-- ===== src/Http/RateLimiter/Leaving.antt =====
-- A caller that leaves keeps the rate limiter consistent.
use noe.Common.{
  ℕ, suc, ◌+◌, ◌<◌, true, false, ◌&&◌, String, Option, none, some, ◌≡◌, refl, ◌∙◌, subst, ap, arith,
  ◌==◌, eq_iff, eq_refl, nat_eq, if◌then◌else◌, Bool-cases, ◌⊎◌, inl, inr,
}
use noe.Common.Integers.{ℤ, pos, decrement, is_zero}
use noe.Common.Maps.{lookup, insert, delete, lookup-insert, lookup-delete}
use noe.Common.Families.{update, count_pos}
use noe.Http.RateLimiter.{
  answered, returned, System, flights, leave, close_chan, done_left, done, move, leave_all,
}
use noe.Http.RateLimiter.Invariant.{
  uses, is_active, Counts, Has, members, load, IsOpen, IsConsistent, members-update, load-update,
}
use noe.Http.RateLimiter.Entering.{uses-active, uses-update}

-- One caller less is counted, and the count's test for 0 is that none is left.
Counts-decrement : (o : Option ℤ) (m : ℕ) → Counts o (suc m) → decrement (flights o) ≡ pos m
Counts-decrement none m h = ground arith
Counts-decrement (some z) m (e, p) = rw e refl

zero_or_pos : (m : ℕ) → (m ≡ 0) ⊎ (0 < m)
zero_or_pos m = elim (Bool-cases (nat_eq m 0)) [
  | inl zero_left ↦ inl (ground arith)
  | inr some_left ↦ inr (ground arith)
]

module _ (limit n : ℕ) (keys : ℕ → String) {s : System} (v : IsConsistent limit n keys s) (i c : ℕ)
    (below : i < n) (e : s.callers i ≡ answered c) where
  left_members :
      (k : String)
      → members n keys k s.callers ≡ (
          if keys i == k
          then members n keys k (update s.callers i returned) + 1
          else members n keys k (update s.callers i returned))
  left_members k = ground (arith, members-update n keys k s.callers i returned below, e)

  left_load : (d : ℕ) → load n d (update s.callers i returned) ≡ load n d s.callers
  left_load d = ground (arith, load-update n d s.callers i returned below, e)

  -- inFlights after the decrement is the number of the others with the key.
  left_count :
      decrement (flights (lookup (keys i) s.in_flights))
      ≡ pos (members n keys (keys i) (update s.callers i returned))
  left_count = Counts-decrement (lookup (keys i) s.in_flights) _ (
      subst (Counts (lookup (keys i) s.in_flights))
        (ground (arith, left_members (keys i), eq_refl (keys i))) (v.counts (keys i)))

  -- If it is the last one with its key, the others have other keys.
  last_other :
      members n keys (keys i) (update s.callers i returned) ≡ 0
      → (j d : ℕ) → j < n
      → uses (update s.callers i returned j) ≡ some d
      → (keys i == keys j) ≡ false
  last_other last j d bound u = elim (Bool-cases (keys i == keys j)) [
    | inl same ↦
        let passes : (keys j == keys i && is_active (update s.callers i returned j)) ≡ true =
          ground (
            arith,
            eq_iff (keys i) (keys j),
            eq_iff (keys j) (keys i),
            uses-active d (update s.callers i returned j) u,
          ) in
        absurd (
          omega (
            arith,
            last,
            count_pos n (λ x. keys x == keys i && is_active (update s.callers i returned x)) j bound
                passes,
          ))
    | inr other ↦ other
  ]

  -- Who else uses a channel used it before.
  left_at :
      (j d : ℕ)
      → j < n
      → uses (update s.callers i returned j) ≡ some d
      → lookup (keys j) s.requests_chans ≡ some d
  left_at j d bound u = elim (uses-update s.callers i returned j d u) [
    | inl (same, g) ↦ ground arith
    | inr old ↦ v.at j d bound old
  ]

  left-IsOpen :
      (k : String) (d : ℕ)
      → lookup k s.requests_chans ≡ some d
      → IsOpen limit n (move i returned s) d
  unfolding move
  left-IsOpen k d g =
      let o = v.opened k d g in
      record { made = o.made; open_channel = o.open_channel; workers = rw (left_load d) o.workers }

  own_channel : lookup (keys i) s.requests_chans ≡ some c
  own_channel = v.at i c below (ground (arith, e))

  other_members :
      (k : String)
      → (keys i == k) ≡ false
      → members n keys k s.callers ≡ members n keys k (update s.callers i returned)
  other_members k other = ground (arith, left_members k)

  leave_others :
      (0 < members n keys (keys i) (update s.callers i returned))
      → IsConsistent limit n keys (
          move i returned (record s {
            in_flights =
                insert (keys i) (decrement (flights (lookup (keys i) s.in_flights))) s.in_flights;
          }))
  unfolding move
  leave_others some_left = record {
    counts = λ k.
        rw
          (
            lookup-insert (keys i) k (decrement (flights (lookup (keys i) s.in_flights)))
                s.in_flights,
            left_count,
          )
          (elim (Bool-cases (keys i == k)) [
            | inl same ↦ rw (same, ← (eq_iff (keys i) k).0 same) (refl, some_left)
            | inr other ↦
                rw other
                  (subst (Counts (lookup k s.in_flights)) (other_members k other) (v.counts k))
          ]);
    has = λ k. elim (Bool-cases (keys i == k)) [
      | inl same ↦ rw (← (eq_iff (keys i) k).0 same, own_channel) some_left
      | inr other ↦ subst (Has (lookup k s.requests_chans)) (other_members k other) (v.has k)
    ];
    opened = λ k d g.
        let o = left-IsOpen k d g in
        record { made = o.made; open_channel = o.open_channel; workers = o.workers };
    owner = v.owner;
    at = left_at;
  }

  other_channel :
      (k : String) (d : ℕ)
      → (keys i == k) ≡ false
      → lookup k s.requests_chans ≡ some d
      → nat_eq c d ≡ false
  other_channel k d other g = elim (Bool-cases (nat_eq c d)) [
    | inl same ↦
        let h : c ≡ d = ground arith in
        ground (arith, eq_iff (keys i) k, v.owner (keys i) k d (own_channel ∙ ap some h) g)
    | inr apart ↦ apart
  ]

  leave_last :
      members n keys (keys i) (update s.callers i returned) ≡ 0
      → IsConsistent limit n keys (
          move i returned (record s {
            requests_chans = delete (keys i) s.requests_chans;
            in_flights =
                delete (keys i) (
                  insert
                    (keys i)
                    (decrement (flights (lookup (keys i) s.in_flights)))
                    s.in_flights);
            channels = close_chan (some c) s.channels;
          }))
  unfolding move close_chan
  leave_last last = record {
    counts = λ k.
        rw
          (
            lookup-delete (keys i) k
                (insert (keys i) (decrement (flights (lookup (keys i) s.in_flights))) s.in_flights),
            lookup-insert (keys i) k (decrement (flights (lookup (keys i) s.in_flights)))
                s.in_flights,
          )
          (elim (Bool-cases (keys i == k)) [
            | inl same ↦ rw (same, ← (eq_iff (keys i) k).0 same) last
            | inr other ↦
                rw (other)
                  (subst (Counts (lookup k s.in_flights)) (other_members k other) (v.counts k))
          ]);
    has = λ k. rw (lookup-delete (keys i) k s.requests_chans) (elim (Bool-cases (keys i == k)) [
      | inl same ↦ rw (same, ← (eq_iff (keys i) k).0 same) last
      | inr other ↦
          rw other (subst (Has (lookup k s.requests_chans)) (other_members k other) (v.has k))
    ]);
    opened = λ k d.
        rw (lookup-delete (keys i) k s.requests_chans) (elim (Bool-cases (keys i == k)) [
          | inl same ↦ rw same (λ g. ground arith)
          | inr other ↦ rw other (λ g.
              let o = left-IsOpen k d g in
              let h : nat_eq c d ≡ false = other_channel k d other g in
              record {
                made = o.made;
                open_channel = rw h o.open_channel;
                workers = rw h o.workers;
              })
        ]);
    owner = λ k j d.
        rw (lookup-delete (keys i) k s.requests_chans, lookup-delete (keys i) j s.requests_chans)
          (ground (arith, v.owner k j d));
    at = λ j d bound u.
        rw (lookup-delete (keys i) (keys j) s.requests_chans, last_other last j d bound u)
          (left_at j d bound u);
  }

  left_is_zero :
      is_zero (decrement (flights (lookup (keys i) s.in_flights)))
      ≡ is_zero (pos (members n keys (keys i) (update s.callers i returned)))
  left_is_zero = ap is_zero left_count

  pub leave_keeps : IsConsistent limit n keys (leave_all (keys i) i s)
  unfolding leave_all done leave done_left
  leave_keeps =
      rw
        (
          own_channel,
          lookup-insert (keys i) (keys i) (decrement (flights (lookup (keys i) s.in_flights)))
              s.in_flights,
          eq_refl (keys i),
        )
        (elim (zero_or_pos (members n keys (keys i) (update s.callers i returned))) [
          | inl last ↦ rw (left_is_zero, last) (leave_last last)
          | inr some_left ↦
              let h : is_zero (pos (members n keys (keys i) (update s.callers i returned)))
                  ≡ false =
                ground arith in
              rw (left_is_zero, h) (leave_others some_left)
        ])

-- ===== src/Http/RateLimiter/Serving.antt =====
-- A worker that takes a request, ends it, or ends itself keeps the rate limiter consistent.
use noe.Common.{
  ℕ, ◌+◌, ◌<◌, true, false, String, some, ◌≡◌, refl, sym, ◌∙◌, subst, ap, arith, nat_eq, Bool-cases,
  inl, inr,
}
use noe.Common.Families.{one_if, update}
use noe.Http.RateLimiter.{
  Caller, ready, sending, running, answered, returned, System, move, set_free,
}
use noe.Http.RateLimiter.Invariant.{
  uses, runs_on, members, IsConsistent, members-update, load-update,
}
use noe.Http.RateLimiter.Entering.{uses-active, uses-update}

-- A caller is at the workers of its own channel at most.
runs_elsewhere : (c d : ℕ) (p : Caller) → uses p ≡ some c → nat_eq c d ≡ false → runs_on d p ≡ false
runs_elsewhere c d ready u other = refl
runs_elsewhere c d (sending e) u other = refl
runs_elsewhere c d (running e) u other = ground arith
runs_elsewhere c d (answered e) u other = refl
runs_elsewhere c d returned u other = refl

module _ (limit n : ℕ) (keys : ℕ → String) {s : System} (v : IsConsistent limit n keys s) where
  -- The caller `i` moves on with the same channel, whose workers wait or have its request.
  pub serve :
      (i c free : ℕ) (p : Caller)
      → i < n
      → uses (s.callers i) ≡ some c
      → uses p ≡ some c
      → free + one_if (runs_on c p) ≡ (s.channels c).free + one_if (runs_on c (s.callers i))
      → IsConsistent limit n keys (move i p (set_free c free s))
  unfolding move set_free
  serve i c free p below before after balance =
      let members_same : (k : String)
          → members n keys k (update s.callers i p) ≡ members n keys k s.callers =
        λ k. ground (
          arith,
          members-update n keys k s.callers i p below,
          uses-active c p after,
          uses-active c (s.callers i) before,
        ) in
      record {
        counts = λ k. rw (members_same k) (v.counts k);
        has = λ k. rw (members_same k) (v.has k);
        opened = λ k d g.
            let o = v.opened k d g in
            let l = load-update n d s.callers i p below in
            elim (Bool-cases (nat_eq c d)) [
              | inl same ↦
                  let h : c ≡ d = ground arith in
                  record {
                    made = o.made;
                    open_channel = rw (same, h) o.open_channel;
                    workers = rw same (
                        let b =
                          subst
                            (λ x.
                              free + one_if (runs_on x p)
                              ≡ (s.channels x).free + one_if (runs_on x (s.callers i)))
                            h balance in
                        omega (arith, o.workers, l, b));
                  }
              | inr other ↦ record {
                made = o.made;
                open_channel = rw other o.open_channel;
                workers = rw other (
                    omega (
                      arith,
                      o.workers,
                      l,
                      ap one_if (runs_elsewhere c d p after other),
                      ap one_if (runs_elsewhere c d (s.callers i) before other),
                    ));
              }
            ];
        owner = v.owner;
        at = λ j d bound u. elim (uses-update s.callers i p j d u) [
          | inl (same, g) ↦ rw (← same) (v.at i d below (before ∙ sym after ∙ g))
          | inr old ↦ v.at j d bound old
        ];
      }

  -- A worker of a closed channel ends.
  pub exit_worker :
      (c free : ℕ) → (s.channels c).closed ≡ true → IsConsistent limit n keys (set_free c free s)
  unfolding set_free
  exit_worker c free gone = record {
    counts = v.counts;
    has = v.has;
    opened = λ k d g.
        let o = v.opened k d g in
        let h : nat_eq c d ≡ false = elim (Bool-cases (nat_eq c d)) [
          | inl same ↦
              let e : c ≡ d = ground arith in
              ground (arith, o.open_channel, subst (λ x. (s.channels x).closed ≡ true) e gone)
          | inr other ↦ other
        ] in
        record { made = o.made; open_channel = rw h o.open_channel; workers = rw h o.workers };
    owner = v.owner;
    at = v.at;
  }

-- ===== src/Registry/Calls/Bounds.antt =====
-- How many calls of `miss` run at once for a key.
use noe.Common.{
  ℕ, ◌+◌, ◌≤◌, Bool, true, false, ◌&&◌, String, Option, none, some, List, ◌≡◌, refl, ap, arith,
  ◌==◌, eq_iff, nat_eq_refl, and_elim, ◌∙◌,
}
use noe.Common.Maps.{lookup}
use noe.Common.Families.{one_if, count, count-le-classes}
use noe.Registry.Calls.{
  Caller, ready, locking, loading, calling, storing, leaving, returned, System, Event, Reach,
  drops_of,
}
use noe.Registry.Calls.Invariant.{uses, holds, is_calling, made, present, IsConsistent}
use noe.Registry.Calls.Steps.{Reach-IsConsistent}

one_if-le : (b : Bool) → one_if b ≤ 1
one_if-le true = omega arith
one_if-le false = omega arith

present-le : (o : Option ℕ) → present o ≤ 1
present-le none = omega arith
present-le (some m) = omega arith

module _ {A : Type 0} where
  calling_at : (p : Caller A) → is_calling p ≡ true → (m : ℕ) × (p ≡ calling m)
  calling_at ready h = ground arith
  calling_at (locking m) h = ground arith
  calling_at (loading m) h = ground arith
  calling_at (calling m) h = (m, refl)
  calling_at (storing m v) h = ground arith
  calling_at (leaving m r) h = ground arith
  calling_at (returned r) h = ground arith

  -- Not more callers of a key are in `miss` than mutexes were made for it.
  calling-le-made :
      (n : ℕ) (keys : ℕ → String) {drops : String → ℕ} {s : System A}
      → IsConsistent n keys drops s
      → (k : String)
      → count n (λ i. keys i == k && is_calling (s.callers i)) ≤ made s.next s.made_for k
  calling-le-made n keys {s = s} v k =
      count-le-classes n s.next _ _ (λ m i. holds m (s.callers i))
        (λ i below passes.
          let (same, calls) = and_elim (keys i == k) (is_calling (s.callers i)) passes in
          let (m, e) = calling_at (s.callers i) calls in
          let (m_below, for_key) = v.bound i m below (ap uses e) in
          (
            m,
            (
              m_below,
              (
                (eq_iff (s.made_for m) k).1 (for_key ∙ (eq_iff (keys i) k).0 same),
                ap (holds m) e ∙ nat_eq_refl m,
              ),
            ),
          ))
        (λ m. omega (arith, v.held m, one_if-le (s.locked m)))

-- However the calls of LoadOrCall and the clean-ups interleave, at most one call of `miss` runs for a
-- key, and one more for each time that a clean-up has deleted the key's mutex.
pub calling-le-drops :
    {A : Type 0} (n : ℕ) (keys : ℕ → String) {duration : ℕ} {done : List (Event A)} {s : System A}
    → Reach n keys duration done s
    → (k : String) → count n (λ i. keys i == k && is_calling (s.callers i)) ≤ drops_of k done + 1
calling-le-drops n keys {s = s} r k =
    let v = Reach-IsConsistent n keys r in
    omega (arith, calling-le-made n keys v k, v.few k, present-le (lookup k s.mutexes))

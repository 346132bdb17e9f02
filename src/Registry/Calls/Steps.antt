-- ===== src/Registry/Calls/Steps.antt =====
-- Every step keeps the cache's mutexes consistent.
use noe.Common.{
  ℕ, ◌+◌, true, false, String, List, ◌≡◌, refl, ◌∙◌, subst, ap, arith, ◌==◌, nat_eq, nat_eq_refl,
  Bool-cases, Option-cases, if◌then◌else◌, inl, inr,
}
use noe.Common.Maps.{lookup}
use noe.Common.Families.{one_if, count, update, count_zero, count_pos}
use noe.Registry.Cache.{load}
use noe.Registry.Calls.{
  loading, leaving, returned, System, Event, called, stored, cleaned, dropped, move, set_locked,
  begin, lock, after_load, look, after_call, answer, put, unlock, begin_clean_up, delete_entry,
  end_clean_up, Step, begins, locks, looks, answers, stores, unlocks, cleans_up, finds_expired,
  deletes, drops_mutex, ends, init, Reach, start, next_step, drops_of,
}
use noe.Registry.Cache.{miss}
use noe.Registry.Calls.Invariant.{uses, holds, IsConsistent}
use noe.Registry.Calls.Moves.{
  uses-after_load, holds-after_load, uses-after_call, holds-after_call, moves, goes_on, begin_found,
  begin_new, drop_keeps,
}

-- A step of a caller that holds a mutex keeps it, until the Unlock.
module _ {A : Type 0} (n : ℕ) (keys : ℕ → String) where
  abbrev pub drops_after : (String → ℕ) → Event A → String → ℕ
  drops_after drops called k = drops k
  drops_after drops (stored i now v) k = drops k
  drops_after drops cleaned k = drops k
  drops_after drops (dropped key) k = (if key == k then 1 else 0) + drops k

  pub Step-IsConsistent :
      {drops : String → ℕ} {s t : System A} {e : Event A}
      → IsConsistent n keys drops s
      → Step n keys s e t
      → IsConsistent n keys (drops_after drops e) t
  unfolding begin lock look answer put unlock move set_locked begin_clean_up delete_entry
      end_clean_up
  Step-IsConsistent {s = s} v (begins i below e) = elim (Option-cases (lookup (keys i) s.mutexes)) [
    | inl missing ↦ rw missing (begin_new n keys v i below e missing)
    | inr (m, found) ↦ rw found (begin_found n keys v i m below e found)
  ]
  Step-IsConsistent {s = s} v (locks i m below e free) =
      moves n keys v i (loading m) (update s.locked m true) below
        (λ d u. v.bound i d below (ap uses e ∙ u))
        (λ d. elim (Bool-cases (nat_eq m d)) [
          | inl same ↦
              let h : m ≡ d = ground arith in
              let unlocked : s.locked d ≡ false = subst (λ x. s.locked x ≡ false) h free in
              rw (same, e, unlocked) refl
          | inr other ↦ rw (other, e) refl
        ])
  Step-IsConsistent {s = s} v (looks now i m below e) =
      goes_on n keys v i m (after_load m (load now (keys i) s.cache)) below (ap uses e)
        (λ d. ap (holds d) e) (uses-after_load m (load now (keys i) s.cache))
        (λ d. holds-after_load d m (load now (keys i) s.cache))
  Step-IsConsistent v (answers i m r below e) =
      goes_on n keys v i m (after_call m r) below (ap uses e) (λ d. ap (holds d) e)
        (uses-after_call m r) (λ d. holds-after_call d m r)
  Step-IsConsistent v (stores now i m w below e) =
      let c =
        goes_on n keys v i m (leaving m (miss w)) below (ap uses e) (λ d. ap (holds d) e) refl
          (λ d. refl) in
      record { held = c.held; bound = c.bound; mapped = c.mapped; few = c.few }
  Step-IsConsistent {s = s} v (unlocks i m r below e) =
      moves n keys v i (returned r) (update s.locked m false) below (λ d u. ground arith)
        (λ d. elim (Bool-cases (nat_eq m d)) [
          | inl same ↦
              let h : m ≡ d = ground arith in
              rw (same, e, h)
                (ground (arith, nat_eq_refl d, is_locked d (ground (arith, e, nat_eq_refl d))))
          | inr other ↦ rw (other, e, other) refl
        ])
    where
      is_locked : (d : ℕ) → holds d (s.callers i) ≡ true → one_if (s.locked d) ≡ 1
      is_locked d h =
          let some_hold = count_pos n (λ j. holds d (s.callers j)) i below h in
          ground (arith, v.held d)
  Step-IsConsistent v (cleans_up now e) = record {
    held = v.held;
    bound = v.bound;
    mapped = v.mapped;
    few = v.few;
  }
  Step-IsConsistent v (finds_expired now key x e f old) = record {
    held = v.held;
    bound = v.bound;
    mapped = v.mapped;
    few = v.few;
  }
  Step-IsConsistent v (deletes now key e) = record {
    held = v.held;
    bound = v.bound;
    mapped = v.mapped;
    few = v.few;
  }
  Step-IsConsistent v (drops_mutex now key e) = drop_keeps n keys v now key
  Step-IsConsistent v (ends now e) = record {
    held = v.held;
    bound = v.bound;
    mapped = v.mapped;
    few = v.few;
  }

  init-IsConsistent : (duration : ℕ) → IsConsistent {A = A} n keys (λ k. 0) (init n keys duration)
  unfolding lookup count
  init-IsConsistent duration = record {
    held = λ m. count_zero n _ (λ i below. refl);
    bound = λ i m below g. ground arith;
    mapped = λ k m g. ground arith;
    few = λ k. omega arith;
  }

  -- In every state that is reached, the cache's mutexes are consistent.
  pub Reach-IsConsistent :
      {duration : ℕ} {done : List (Event A)} {s : System A}
      → Reach n keys duration done s
      → IsConsistent n keys (λ k. drops_of k done) s
  Reach-IsConsistent {duration = duration} start = init-IsConsistent duration
  Reach-IsConsistent (next_step {e = called} r step) = Step-IsConsistent (Reach-IsConsistent r) step
  Reach-IsConsistent (next_step {e = stored i now v} r step) =
      Step-IsConsistent (Reach-IsConsistent r) step
  Reach-IsConsistent (next_step {e = cleaned} r step) =
      Step-IsConsistent (Reach-IsConsistent r) step
  Reach-IsConsistent (next_step {e = dropped key} r step) =
      Step-IsConsistent (Reach-IsConsistent r) step

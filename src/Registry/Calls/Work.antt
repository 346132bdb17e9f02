-- ===== src/Registry/Calls/Work.antt =====
-- What the callers of LoadOrCall have left to do, and how the steps use it up.
use noe.Common.{
  ℕ, ◌+◌, ◌*◌, ◌<◌, ◌≤◌, true, String, Option, none, some, List, ◌∷◌, ◌≡◌, refl, ap, arith,
}
use noe.Common.Maps.{lookup}
use noe.Common.Families.{total, total-update, total_const}
use noe.Registry.Cache.{Missed, value, error, load, miss}
use noe.Registry.Calls.{
  Caller, ready, locking, loading, calling, storing, leaving, returned, System, Event, called,
  stored, cleaned, dropped, move, set_locked, begun, begin, lock, after_load, look, after_call,
  answer, put, unlock, begin_clean_up, delete_entry, drop_mutex, end_clean_up, Step, begins, locks,
  looks, answers, stores, unlocks, cleans_up, finds_expired, deletes, drops_mutex, ends, Reach,
  start, next_step, calls_of,
}
use noe.Registry.Calls.Invariant.{holds, is_returned}

module _ {A : Type 0} where
  -- How many steps a caller has left at most
  abbrev pub steps_left : Caller A → ℕ
  steps_left ready = 6
  steps_left (locking m) = 5
  steps_left (loading m) = 4
  steps_left (calling m) = 3
  steps_left (storing m v) = 2
  steps_left (leaving m r) = 1
  steps_left (returned r) = 0

  abbrev pub work : ℕ → System A → ℕ
  work n s = total n (λ i. steps_left (s.callers i))

  abbrev pub by_caller : Event A → ℕ
  by_caller called = 1
  by_caller (stored k now v) = 1
  by_caller cleaned = 0
  by_caller (dropped k) = 0

  after_load_left : (m : ℕ) (o : Option A) → steps_left (after_load m o) ≤ 3
  unfolding after_load
  after_load_left m none = omega arith
  after_load_left m (some v) = omega arith

  after_call_left : (m : ℕ) (r : Missed A) → steps_left (after_call m r) ≤ 2
  unfolding after_call
  after_call_left m (value v) = omega arith
  after_call_left m (error err) = omega arith

  begun_callers :
      (n : ℕ) (key : String) (i : ℕ) (o : Option ℕ) (s : System A)
      → i < n
      → s.callers i ≡ ready
      → work n (begun key i o s) + 1 ≤ work n s
  unfolding begun move
  begun_callers n key i none s below e =
      ground (arith, total-update steps_left n s.callers i (locking s.next) below, e)
  begun_callers n key i (some m) s below e =
      ground (arith, total-update steps_left n s.callers i (locking m) below, e)

  pub holder_left :
      (m : ℕ) (p : Caller A) → holds m p ≡ true → (0 < steps_left p) × (steps_left p < 5)
  holder_left m ready h = ground arith
  holder_left m (locking d) h = ground arith
  holder_left m (loading d) h = omega arith
  holder_left m (calling d) h = omega arith
  holder_left m (storing d v) h = omega arith
  holder_left m (leaving d r) h = omega arith
  holder_left m (returned r) h = ground arith

  pub none_left : (p : Caller A) → steps_left p ≡ 0 → is_returned p ≡ true
  none_left ready h = ground arith
  none_left (locking d) h = ground arith
  none_left (loading d) h = ground arith
  none_left (calling d) h = ground arith
  none_left (storing d v) h = ground arith
  none_left (leaving d r) h = ground arith
  none_left (returned r) h = refl

module _ {A : Type 0} (n : ℕ) (keys : ℕ → String) where
  -- A step of a caller takes at least one from the work, and one of the clean-up nothing.
  pub Step-work :
      {s t : System A} {e : Event A} → Step n keys s e t → work n t + by_caller e ≤ work n s
  unfolding begin lock look answer put unlock move set_locked begin_clean_up delete_entry drop_mutex
      end_clean_up
  Step-work {s = s} (begins i below e) =
      begun_callers n (keys i) i (lookup (keys i) s.mutexes) s below e
  Step-work {s = s} (locks i m below e free) =
      ground (arith, total-update steps_left n s.callers i (loading m) below, e)
  Step-work {s = s} (looks now i m below e) =
      let p = after_load m (load now (keys i) s.cache) in
      omega (
        arith,
        total-update steps_left n s.callers i p below,
        ap steps_left e,
        after_load_left m (load now (keys i) s.cache),
      )
  Step-work {s = s} (answers i m r below e) = omega (
    arith,
    total-update steps_left n s.callers i (after_call m r) below,
    ap steps_left e,
    after_call_left m r,
  )
  Step-work {s = s} (stores now i m w below e) =
      ground (arith, total-update steps_left n s.callers i (leaving m (miss w)) below, e)
  Step-work {s = s} (unlocks i m r below e) =
      ground (arith, total-update steps_left n s.callers i (returned r) below, e)
  Step-work (cleans_up now e) = omega arith
  Step-work (finds_expired now key x e f old) = omega arith
  Step-work (deletes now key e) = omega arith
  Step-work (drops_mutex now key e) = omega arith
  Step-work (ends now e) = omega arith

  by_caller-calls_of :
      (e : Event A) (done : List (Event A)) → calls_of (e ∷ done) ≡ by_caller e + calls_of done
  by_caller-calls_of called done = refl
  by_caller-calls_of (stored k now v) done = refl
  by_caller-calls_of cleaned done = omega arith
  by_caller-calls_of (dropped k) done = omega arith

  pub Reach-work :
      {duration : ℕ} {done : List (Event A)} {s : System A}
      → Reach n keys duration done s
      → calls_of done + work n s ≤ n * 6
  Reach-work start = omega (arith, total_const n 6)
  Reach-work (next_step {done} {e = e} r step) =
      omega (arith, Reach-work r, Step-work step, by_caller-calls_of e done)

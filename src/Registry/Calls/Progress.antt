-- ===== src/Registry/Calls/Progress.antt =====
-- Every caller of LoadOrCall can return.
use noe.Common.{
  ℕ, zero, suc, ◌+◌, ◌*◌, ◌<◌, ◌≤◌, Bool, true, false, String, List, ◌≡◌, refl, arith, nat_eq,
  Bool-cases, inl, inr,
}
use noe.Common.Families.{one_if, count, count_zero, count_all, count_some, total_some, total_none}
use noe.Registry.Cache.{Missed}
use noe.Registry.Calls.{
  Caller, ready, locking, loading, calling, storing, leaving, returned, System, Event, called,
  stored, begin, lock, look, answer, put, unlock, Step, begins, locks, looks, answers, stores,
  unlocks, Reach, calls_of,
}
use noe.Registry.Calls.Invariant.{holds, holders, is_returned, IsConsistent}
use noe.Registry.Calls.Steps.{Step-IsConsistent, Reach-IsConsistent}
use noe.Registry.Calls.Work.{
  steps_left, work, by_caller, holder_left, none_left, Step-work, Reach-work,
}

is_unlocked : (b : Bool) → 0 ≡ one_if b → b ≡ false
is_unlocked true h = ground arith
is_unlocked false h = refl

module _ {A : Type 0} (n : ℕ) (keys : ℕ → String) where
  -- Runs of the callers only, with their number of steps
  pub data Runs : ℕ → System A → System A → Type 0 where
    stays : {s : System A} → Runs 0 s s
    goes :
        {m : ℕ} {s t u : System A} {e : Event A}
        → Step n keys s e t
        → by_caller e ≡ 1
        → Runs m t u
        → Runs (suc m) s u

  abbrev CanStep : System A → Type 0
  CanStep s = (e : Event A) × ((t : System A) × (Step n keys s e t × (by_caller e ≡ 1)))

  -- A caller that is not at the Lock can go on, whatever `miss` answers.
  module _ (now : ℕ) (answered : Missed A) where
    holder-CanStep :
        {s : System A} (i : ℕ)
        → i < n
        → (p : Caller A) → s.callers i ≡ p
        → 0 < steps_left p
        → steps_left p < 5
        → CanStep s
    holder-CanStep i below ready e h l = absurd (omega arith)
    holder-CanStep i below (locking m) e h l = absurd (omega arith)
    holder-CanStep {s = s} i below (loading m) e h l =
        (called, (look now (keys i) i m s, (looks now i m below e, refl)))
    holder-CanStep {s = s} i below (calling m) e h l =
        (called, (answer i m answered s, (answers i m answered below e, refl)))
    holder-CanStep {s = s} i below (storing m v) e h l =
        (stored i now v, (put now (keys i) i m v s, (stores now i m v below e, refl)))
    holder-CanStep {s = s} i below (leaving m r) e h l =
        (called, (unlock i m r s, (unlocks i m r below e, refl)))
    holder-CanStep i below (returned r) e h l = absurd (omega arith)

    -- A caller at the Lock can go on, or the one that holds its mutex can.
    lock-CanStep :
        {drops : String → ℕ} {s : System A}
        → IsConsistent n keys drops s
        → (i m : ℕ) → i < n
        → s.callers i ≡ locking m
        → CanStep s
    lock-CanStep {s = s} v i m below e = elim (Bool-cases (s.locked m)) [
      | inl taken ↦
          let (j, (bound, h)) = count_some n _ (taken_once taken (v.held m)) in
          let (some_left, l) = holder_left m (s.callers j) h in
          holder-CanStep j bound (s.callers j) refl some_left l
      | inr free ↦ (called, (lock i m s, (locks i m below e free, refl)))
    ]
      where
        taken_once :
            s.locked m ≡ true
            → holders n m s.callers ≡ one_if (s.locked m)
            → 0 < holders n m s.callers
        taken_once t h = ground arith

    caller-CanStep :
        {drops : String → ℕ} {s : System A}
        → IsConsistent n keys drops s
        → (i : ℕ) → i < n
        → (p : Caller A) → s.callers i ≡ p
        → 0 < steps_left p
        → CanStep s
    caller-CanStep {s = s} v i below ready e h =
        (called, (begin (keys i) i s, (begins i below e, refl)))
    caller-CanStep v i below (locking m) e h = lock-CanStep v i m below e
    caller-CanStep v i below (loading m) e h = holder-CanStep i below (loading m) e h (omega arith)
    caller-CanStep v i below (calling m) e h = holder-CanStep i below (calling m) e h (omega arith)
    caller-CanStep v i below (storing m w) e h =
        holder-CanStep i below (storing m w) e h (omega arith)
    caller-CanStep v i below (leaving m r) e h =
        holder-CanStep i below (leaving m r) e h (omega arith)
    caller-CanStep v i below (returned r) e h = ground arith

    -- The callers can run until they have no work left.
    finish :
        (fuel : ℕ) {drops : String → ℕ} {s : System A}
        → IsConsistent n keys drops s
        → work n s ≤ fuel
        → (m : ℕ) × ((u : System A) × (Runs m s u
              × ((m ≤ fuel)
                  × ((work n u ≡ 0) × ((c : ℕ) → holders n c u.callers ≡ one_if (u.locked c))))))
    finish zero {s = s} v h = (0, (s, (stays, (omega arith, (omega arith, v.held)))))
    finish (suc fuel) {s = s} v h = elim (Bool-cases (nat_eq (work n s) 0)) [
      | inl ended ↦ (0, (s, (stays, (omega arith, (ground arith, v.held)))))
      | inr more ↦
          let (i, (below, some_left)) =
            total_some n (λ i. steps_left (s.callers i)) (ground arith) in
          let (e, (t, (step, by))) = caller-CanStep v i below (s.callers i) refl some_left in
          let (m, (u, (runs, (l, ended)))) =
            finish fuel {s = t} (Step-IsConsistent n keys {t = t} {e = e} v step)
              (omega (arith, h, Step-work n keys {t = t} {e = e} step, by)) in
          (
            suc m,
            (u, (goes {m = m} {t = t} {u = u} {e = e} step by runs, (omega (arith, l), ended))),
          )
    ]

  -- A returned caller holds no mutex.
  returned_free : (c : ℕ) (p : Caller A) → steps_left p ≡ 0 → holds c p ≡ false
  returned_free c ready h = ground arith
  returned_free c (locking d) h = ground arith
  returned_free c (loading d) h = ground arith
  returned_free c (calling d) h = ground arith
  returned_free c (storing d v) h = ground arith
  returned_free c (leaving d r) h = ground arith
  returned_free c (returned r) h = refl

-- However the calls of LoadOrCall and the clean-ups interleave, the `n` callers never block each
-- other for good: whatever answer `miss` gives, the callers alone can go on until every one has
-- returned and every mutex is unlocked, also after clean-ups that deleted mutexes in use; and the
-- steps that the callers made and will make are not more than six for each.
pub load_or_calls_return :
    {A : Type 0} (n : ℕ) (keys : ℕ → String) (now : ℕ) (answered : Missed A) {duration : ℕ}
    {done : List (Event A)} {s : System A}
    → Reach n keys duration done s
    → (m : ℕ) × ((u : System A) × (Runs n keys m s u
          × ((calls_of done + m ≤ n * 6)
              × ((count n (λ i. is_returned (u.callers i)) ≡ n) × ((c : ℕ) → u.locked c ≡ false)))))
load_or_calls_return {A} n keys now answered {done = done} {s = s} r =
    let (m, (u, (runs, (l, (ended, held))))) =
      finish n keys now answered (work n s) (Reach-IsConsistent n keys r) (omega arith) in
    let no_work : (i : ℕ) → i < n → steps_left (u.callers i) ≡ 0 = total_none n _ ended in
    (
      m,
      (
        u,
        (
          runs,
          (
            omega (arith, l, Reach-work n keys r),
            (
              count_all n _ (λ i below. none_left (u.callers i) (no_work i below)),
              λ c. is_unlocked (u.locked c) (unheld c u no_work (held c)),
            ),
          ),
        ),
      ),
    )
  where
    unheld :
        (c : ℕ) (u : System A)
        → ((i : ℕ) → i < n → steps_left (u.callers i) ≡ 0)
        → holders n c u.callers ≡ one_if (u.locked c)
        → 0 ≡ one_if (u.locked c)
    unheld c u h e = omega (
      arith,
      e,
      count_zero n (λ i. holds c (u.callers i))
          (λ i below. returned_free n keys c (u.callers i) (h i below)),
    )

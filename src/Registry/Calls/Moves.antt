-- ===== src/Registry/Calls/Moves.antt =====
-- The moves of a caller, LoadOrStore and the deletion of a mutex keep the cache's mutexes consistent.
use noe.Common.{
  ℕ, ◌+◌, ◌<◌, Bool, false, String, Option, none, some, ◌≡◌, refl, sym, ◌∙◌, subst, ap, arith, ◌==◌,
  eq_iff, nat_eq, nat_eq_refl, Bool-cases, if◌then◌else◌, inl, inr, ◌⊎◌,
}
use noe.Common.Maps.{lookup, lookup-insert, lookup-delete}
use noe.Common.Families.{one_if, count, update, count-update, count-update_above}
use noe.Registry.Calls.{
  Caller, ready, locking, System, move, begun, after_load, after_call, drop_mutex,
}
use noe.Registry.Cache.{Missed, value, error}
use noe.Registry.Calls.Invariant.{uses, holds, IsConsistent}

module _ {A : Type 0} where
  uses-update :
      (callers : ℕ → Caller A) (i : ℕ) (p : Caller A) (j m : ℕ)
      → uses (update callers i p j) ≡ some m
      → ((i ≡ j) × (uses p ≡ some m)) ⊎ (uses (callers j) ≡ some m)
  uses-update callers i p j m = elim (Bool-cases (nat_eq i j)) [
    | inl same ↦ rw same (λ h. inl (ground arith, h))
    | inr other ↦ rw other (λ h. inr h)
  ]

  -- A caller that holds no mutex, one that holds the one it uses, and what `look` and `answer` make
  -- of it.
  pub uses-after_load : (m : ℕ) (o : Option A) → uses (after_load m o) ≡ some m
  unfolding after_load
  uses-after_load m none = refl
  uses-after_load m (some v) = refl

  pub holds-after_load : (d m : ℕ) (o : Option A) → holds d (after_load m o) ≡ nat_eq m d
  unfolding after_load
  holds-after_load d m none = refl
  holds-after_load d m (some v) = refl

  pub uses-after_call : (m : ℕ) (r : Missed A) → uses (after_call m r) ≡ some m
  unfolding after_call
  uses-after_call m (value v) = refl
  uses-after_call m (error err) = refl

  pub holds-after_call : (d m : ℕ) (r : Missed A) → holds d (after_call m r) ≡ nat_eq m d
  unfolding after_call
  holds-after_call d m (value v) = refl
  holds-after_call d m (error err) = refl

module _ {A : Type 0} (n : ℕ) (keys : ℕ → String) {drops : String → ℕ} {s : System A}
    (v : IsConsistent n keys drops s) where
  -- A caller moves on, and the mutexes become locked or unlocked as they become held or free.
  pub moves :
      (i : ℕ) (p : Caller A) (locked : ℕ → Bool)
      → i < n
      → ((m : ℕ) → uses p ≡ some m → (m < s.next) × (s.made_for m ≡ keys i))
      → ((m : ℕ)
          → one_if (holds m p) + one_if (s.locked m)
            ≡ one_if (holds m (s.callers i)) + one_if (locked m))
      → IsConsistent n keys drops (record s { callers = update s.callers i p; locked = locked })
  moves i p locked below own balance = record {
    held = λ m.
        omega (arith, count-update (λ j q. holds m q) n s.callers i p below, v.held m, balance m);
    bound = λ j m j_below u. elim (uses-update s.callers i p j m u) [
      | inl (same, g) ↦ let (b, f) = own m g in (b, f ∙ ap keys same)
      | inr old ↦ v.bound j m j_below old
    ];
    mapped = v.mapped;
    few = v.few;
  }

  -- A caller moves on with the mutex that it holds.
  pub goes_on :
      (i m : ℕ) (p : Caller A)
      → i < n
      → uses (s.callers i) ≡ some m
      → ((d : ℕ) → holds d (s.callers i) ≡ nat_eq m d)
      → uses p ≡ some m
      → ((d : ℕ) → holds d p ≡ nat_eq m d)
      → IsConsistent n keys drops (record s { callers = update s.callers i p })
  goes_on i m p below before held_before after held_after =
      moves i p s.locked below (λ d u. v.bound i d below (before ∙ sym after ∙ u))
        (λ d. rw (held_before d, held_after d) refl)

  -- LoadOrStore finds the key's mutex.
  pub begin_found :
      (i m : ℕ)
      → i < n
      → s.callers i ≡ ready
      → lookup (keys i) s.mutexes ≡ some m
      → IsConsistent n keys drops (begun (keys i) i (some m) s)
  unfolding begun move
  begin_found i m below e found =
      moves i (locking m) s.locked below
        (λ d u. let same : m ≡ d = ground arith in rw (← same) (v.mapped (keys i) m found))
        (λ d. rw e refl)

  -- LoadOrStore makes a mutex.
  pub begin_new :
      (i : ℕ)
      → i < n
      → s.callers i ≡ ready
      → lookup (keys i) s.mutexes ≡ none
      → IsConsistent n keys drops (begun (keys i) i none s)
  unfolding begun move count
  begin_new i below e missing = record {
    held = λ m.
        ground (
          arith,
          count-update (λ j q. holds m q) n s.callers i (locking s.next) below,
          v.held m,
          e,
        );
    bound = λ j m j_below u. elim (uses-update s.callers i (locking s.next) j m u) [
      | inl (same, g) ↦
          let h : s.next ≡ m = ground arith in
          rw (← h, nat_eq_refl s.next) (omega arith, ap keys same)
      | inr old ↦
          let (b, f) = v.bound j m j_below old in
          let h : nat_eq s.next m ≡ false = ground (arith, b) in rw h (omega (arith, b), f)
    ];
    mapped = λ k m.
        rw (lookup-insert (keys i) k s.next s.mutexes) (elim (Bool-cases (keys i == k)) [
          | inl same ↦ rw same (λ g.
              let h : s.next ≡ m = ground arith in
              rw (← h, nat_eq_refl s.next) (omega arith, (eq_iff (keys i) k).0 same))
          | inr other ↦ rw other (λ g.
              let (b, f) = v.mapped k m g in
              let h : nat_eq s.next m ≡ false = ground (arith, b) in rw h (omega (arith, b), f))
        ]);
    few = λ k. rw (lookup-insert (keys i) k s.next s.mutexes) (elim (Bool-cases (keys i == k)) [
      | inl same ↦
          let h = (eq_iff (keys i) k).0 same in
          let none_before : lookup k s.mutexes ≡ none =
            subst (λ j. lookup j s.mutexes ≡ none) h missing in
          ground (
            arith,
            same,
            none_before,
            v.few k,
            count-update_above (λ j (q : String). q == k) s.next s.made_for s.next (keys i),
          )
      | inr other ↦ ground (
        arith,
        other,
        v.few k,
        count-update_above (λ j (q : String). q == k) s.next s.made_for s.next (keys i),
      )
    ]);
  }

  -- The clean-up deletes the mutex of a key.
  pub drop_keeps :
      (now : ℕ) (key : String)
      → IsConsistent n keys (λ k. (if key == k then 1 else 0) + drops k) (drop_mutex now key s)
  unfolding drop_mutex
  drop_keeps now key = record {
    held = v.held;
    bound = v.bound;
    mapped = λ k m. rw (lookup-delete key k s.mutexes) (elim (Bool-cases (key == k)) [
      | inl same ↦ rw same (λ g. ground arith)
      | inr other ↦ rw other (v.mapped k m)
    ]);
    few = λ k. rw (lookup-delete key k s.mutexes) (elim (Bool-cases (key == k)) [
      | inl same ↦ rw same (ground (arith, v.few k))
      | inr other ↦ rw other (omega (arith, v.few k))
    ]);
  }

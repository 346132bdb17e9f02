-- ===== src/Registry/Calls/Invariant.antt =====
-- What holds of the cache's mutexes between two steps.
use noe.Common.{ℕ, ◌+◌, ◌<◌, ◌≤◌, Bool, true, false, String, Option, none, some, ◌≡◌, ◌==◌, nat_eq}
use noe.Common.Maps.{lookup}
use noe.Common.Families.{one_if, count}
use noe.Registry.Calls.{
  Caller, ready, locking, loading, calling, storing, leaving, returned, System,
}

module _ {A : Type 0} where
  -- The mutex that a caller got from `serialize`
  abbrev pub uses : Caller A → Option ℕ
  uses ready = none
  uses (locking m) = some m
  uses (loading m) = some m
  uses (calling m) = some m
  uses (storing m v) = some m
  uses (leaving m r) = some m
  uses (returned r) = none

  -- Between Lock and Unlock of the mutex
  abbrev pub holds : ℕ → Caller A → Bool
  holds m ready = false
  holds m (locking d) = false
  holds m (loading d) = nat_eq d m
  holds m (calling d) = nat_eq d m
  holds m (storing d v) = nat_eq d m
  holds m (leaving d r) = nat_eq d m
  holds m (returned r) = false

  -- In `miss`
  abbrev pub is_calling : Caller A → Bool
  is_calling ready = false
  is_calling (locking m) = false
  is_calling (loading m) = false
  is_calling (calling m) = true
  is_calling (storing m v) = false
  is_calling (leaving m r) = false
  is_calling (returned r) = false

  abbrev pub is_returned : Caller A → Bool
  is_returned ready = false
  is_returned (locking m) = false
  is_returned (loading m) = false
  is_returned (calling m) = false
  is_returned (storing m v) = false
  is_returned (leaving m r) = false
  is_returned (returned r) = true

  -- How many of the first `n` callers hold the mutex
  abbrev pub holders : ℕ → ℕ → (ℕ → Caller A) → ℕ
  holders n m callers = count n (λ i. holds m (callers i))

-- How many of the first `next` mutexes were made for the key
abbrev pub made : ℕ → (ℕ → String) → String → ℕ
made next made_for k = count next (λ m. made_for m == k)

abbrev pub present : Option ℕ → ℕ
present none = 0
present (some m) = 1

-- A mutex is locked exactly while one caller holds it; a caller uses a mutex that was made for its
-- key, and so does the map; and for each key at most one more was made than were deleted.
pub record IsConsistent {A : Type 0} (n : ℕ) (keys : ℕ → String) (drops : String → ℕ) (s : System A)
    : Type 0 where
  pub held : (m : ℕ) → holders n m s.callers ≡ one_if (s.locked m)
  pub bound :
      (i m : ℕ) → i < n → uses (s.callers i) ≡ some m → (m < s.next) × (s.made_for m ≡ keys i)
  pub mapped :
      (k : String) (m : ℕ) → lookup k s.mutexes ≡ some m → (m < s.next) × (s.made_for m ≡ k)
  pub few : (k : String) → made s.next s.made_for k ≤ drops k + present (lookup k s.mutexes)

-- ===== src/Registry/Calls.antt =====
-- pkg/registry/cache.go: the calls of LoadOrCall by several goroutines and the clean-ups, which
-- interleave. The function `miss` of each call is a parameter of the run: its answer is part of the step.
pub mod Invariant
pub mod Moves
pub mod Steps
pub mod Bounds
pub mod Work
pub mod Progress
pub mod Backed
pub mod Answers
mod Examples
use noe.Common.{
  ℕ, suc, ◌+◌, ◌<◌, Bool, true, false, String, Option, none, some, List, [], ◌∷◌, ◌≡◌, ltb,
  if◌then◌else◌, ◌==◌,
}
use noe.Common.Maps.{Map, lookup, insert, delete}
use noe.Common.Families.{update}
use noe.Registry.Cache.{
  CacheEntry, Cache, new_cache, load, store, Missed, value, error, Loaded, hit, miss, miss_error,
  effective_period,
}

-- Where a caller of LoadOrCall stands, with its mutex: before the call, at serialize.Lock, before
-- the Load, in `miss`, before the Store, at the deferred Unlock with its result, and at the end.
pub data Caller (A : Type 0) : Type 0 where
  ready : Caller A
  locking : ℕ → Caller A
  loading : ℕ → Caller A
  calling : ℕ → Caller A
  storing : ℕ → A → Caller A
  leaving : ℕ → Loaded A → Caller A
  returned : Loaded A → Caller A

-- The goroutine that has cleanupAccess: none, before the next entry, before the deletion of an entry
-- from `cache`, and before that of its mutex from `serialize`, each with its argument `now`.
pub data Cleaner : Type 0 where
  idle : Cleaner
  ranging : ℕ → Cleaner
  deleting : ℕ → String → Cleaner
  dropping : ℕ → String → Cleaner

-- Cache, its callers and its clean-up. The mutexes are numbers; `mutexes` is the field serialize, in
-- the place of that of `cache`. `next` is the mutex that is made next, which is unlocked as all after
-- it are; `made_for` says for which key each was made, which the code does not keep.
pub record System (A : Type 0) : Type 0 where
  pub cache : Cache A
  pub mutexes : Map ℕ
  pub locked : ℕ → Bool
  pub made_for : ℕ → String
  pub next : ℕ
  pub callers : ℕ → Caller A
  pub cleaner : Cleaner

-- What a step does, for the record: a caller's step, the Store of a caller's answer at a time, a
-- step of the clean-up, and its deletion of a key's mutex.
pub data Event (A : Type 0) : Type 0 where
  called : Event A
  stored : ℕ → ℕ → A → Event A
  cleaned : Event A
  dropped : String → Event A

module _ {A : Type 0} where
  -- A caller moves on.
  unfoldable pub move : ℕ → Caller A → System A → System A
  move i caller s = record s { callers = update s.callers i caller }

  unfoldable pub set_locked : ℕ → Bool → System A → System A
  set_locked m b s = record s { locked = update s.locked m b }

  -- serialize.LoadOrStore after its lookup
  unfoldable pub begun : String → ℕ → Option ℕ → System A → System A
  unfolding move
  begun key i (some m) s = move i (locking m) s
  begun key i none s = move i (locking s.next) (record s {
    mutexes = insert key s.next s.mutexes;
    made_for = update s.made_for s.next key;
    next = suc s.next;
  })

  unfoldable pub begin : String → ℕ → System A → System A
  unfolding begun
  begin key i s = begun key i (lookup key s.mutexes) s

  -- serialize.Lock
  unfoldable pub lock : ℕ → ℕ → System A → System A
  unfolding move set_locked
  lock i m s = move i (loading m) (set_locked m true s)

  unfoldable pub after_load : ℕ → Option A → Caller A
  after_load m none = calling m
  after_load m (some v) = leaving m (hit v)

  -- c.Load, at a time
  unfoldable pub look : ℕ → String → ℕ → ℕ → System A → System A
  unfolding move after_load
  look now key i m s = move i (after_load m (load now key s.cache)) s

  unfoldable pub after_call : ℕ → Missed A → Caller A
  after_call m (error err) = leaving m (miss_error err)
  after_call m (value v) = storing m v

  -- `miss` returns.
  unfoldable pub answer : ℕ → ℕ → Missed A → System A → System A
  unfolding move after_call
  answer i m r s = move i (after_call m r) s

  -- c.Store, at a time
  unfoldable pub put : ℕ → String → ℕ → ℕ → A → System A → System A
  unfolding move
  put now key i m v s =
      move i (leaving m (miss v)) (record s { cache = store now key v [] s.cache })

  -- The deferred Unlock, and the return
  unfoldable pub unlock : ℕ → ℕ → Loaded A → System A → System A
  unfolding move set_locked
  unlock i m r s = move i (returned r) (set_locked m false s)

  -- CleanUp up to its Range: it sets the period, and skips the rest where it is too early.
  unfoldable pub begin_clean_up : ℕ → System A → System A
  unfolding effective_period
  begin_clean_up now s = record s {
    cache = record s.cache { cleanup_period = effective_period s.cache };
    cleaner =
        if ltb now (s.cache.last_cleanup + effective_period s.cache) then idle else ranging now;
  }

  -- c.cache.Delete
  unfoldable pub delete_entry : ℕ → String → System A → System A
  delete_entry now key s = record s {
    cache = record s.cache { cache = delete key s.cache.cache };
    cleaner = dropping now key;
  }

  -- c.serialize.Delete
  unfoldable pub drop_mutex : ℕ → String → System A → System A
  drop_mutex now key s = record s { mutexes = delete key s.mutexes; cleaner = ranging now }

  -- c.lastCleanup = now
  unfoldable pub end_clean_up : ℕ → System A → System A
  end_clean_up now s = record s { cache = record s.cache { last_cleanup = now }; cleaner = idle }

  -- The caller `i` has the key `keys i`. Range may come to any entry, at any time of its loop: Go
  -- leaves open whether it sees what is stored meanwhile.
  module _ (n : ℕ) (keys : ℕ → String) where
    pub data Step (s : System A) : Event A → System A → Type 0 where
      begins : (i : ℕ) → i < n → s.callers i ≡ ready → Step s called (begin (keys i) i s)
      locks :
          (i m : ℕ)
          → i < n
          → s.callers i ≡ locking m
          → s.locked m ≡ false
          → Step s called (lock i m s)
      looks :
          (now i m : ℕ) → i < n → s.callers i ≡ loading m → Step s called (look now (keys i) i m s)
      answers :
          (i m : ℕ) (r : Missed A)
          → i < n
          → s.callers i ≡ calling m
          → Step s called (answer i m r s)
      stores :
          (now i m : ℕ) (v : A)
          → i < n
          → s.callers i ≡ storing m v
          → Step s (stored i now v) (put now (keys i) i m v s)
      unlocks :
          (i m : ℕ) (r : Loaded A)
          → i < n
          → s.callers i ≡ leaving m r
          → Step s called (unlock i m r s)
      cleans_up : (now : ℕ) → s.cleaner ≡ idle → Step s cleaned (begin_clean_up now s)
      finds_expired :
          (now : ℕ) (key : String) (e : CacheEntry A)
          → s.cleaner ≡ ranging now
          → lookup key s.cache.cache ≡ some e
          → e.expiry < now
          → Step s cleaned (record s { cleaner = deleting now key })
      deletes :
          (now : ℕ) (key : String)
          → s.cleaner ≡ deleting now key
          → Step s cleaned (delete_entry now key s)
      drops_mutex :
          (now : ℕ) (key : String)
          → s.cleaner ≡ dropping now key
          → Step s (dropped key) (drop_mutex now key s)
      ends : (now : ℕ) → s.cleaner ≡ ranging now → Step s cleaned (end_clean_up now s)

    -- A new cache with no call yet
    abbrev pub init : ℕ → System A
    init duration = record {
      cache = new_cache duration;
      mutexes = [];
      locked = λ _. false;
      made_for = λ _. "";
      next = 0;
      callers = λ _. ready;
      cleaner = idle;
    }

    -- The states that are reached, with what was done, the last first.
    pub data Reach (duration : ℕ) : List (Event A) → System A → Type 0 where
      start : Reach duration [] (init duration)
      next_step :
          {done : List (Event A)} {s t : System A} {e : Event A}
          → Reach duration done s
          → Step s e t
          → Reach duration (e ∷ done) t

-- How often the mutex of a key was deleted
abbrev pub drops_of : {A : Type 0} → String → List (Event A) → ℕ
drops_of k [] = 0
drops_of k (called ∷ done) = drops_of k done
drops_of k (stored i now v ∷ done) = drops_of k done
drops_of k (cleaned ∷ done) = drops_of k done
drops_of k (dropped key ∷ done) = (if key == k then 1 else 0) + drops_of k done

-- How many steps the callers made
abbrev pub calls_of : {A : Type 0} → List (Event A) → ℕ
calls_of [] = 0
calls_of (called ∷ done) = 1 + calls_of done
calls_of (stored i now v ∷ done) = 1 + calls_of done
calls_of (cleaned ∷ done) = calls_of done
calls_of (dropped key ∷ done) = calls_of done

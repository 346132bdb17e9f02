-- ===== src/Registry/Calls/Answers.antt =====
-- Where the values come from that interleaved calls of LoadOrCall find and return.
use noe.Common.{ℕ, ◌+◌, ◌<◌, String, some, List, ◌∷◌, ◌≡◌, refl, ◌∙◌, ap, subst, arith}
use noe.Common.Maps.{lookup}
use noe.Registry.Cache.{new_cache, load, Loaded}
use noe.Registry.Cache.Expiry.{load-some}
use noe.Registry.Calls.{
  loading, returned, System, Event, called, move, set_locked, begin, lock, after_load, look,
  after_call, answer, unlock, begin_clean_up, drop_mutex, end_clean_up, Step, begins, locks, looks,
  answers, stores, unlocks, cleans_up, finds_expired, deletes, drops_mutex, ends, Reach, start,
  next_step,
}
use noe.Registry.Calls.Backed.{
  IsStored, value_of, result_of, Stored, IsBacked, moves, looked, begun-IsBacked, answered, deleted,
  stored_answer,
}

module _ {A : Type 0} (n : ℕ) (keys : ℕ → String) where
  Step-IsBacked :
      {duration : ℕ} {done : List (Event A)} {s t : System A} {e : Event A}
      → IsBacked duration n keys done s
      → Step n keys s e t
      → IsBacked duration n keys (e ∷ done) t
  unfolding begin lock look answer unlock move set_locked begin_clean_up drop_mutex end_clean_up
  Step-IsBacked {duration} {s = s} b (begins i below e) =
      begun-IsBacked duration n keys b i (lookup (keys i) s.mutexes)
  Step-IsBacked {duration} b (locks i m below e free) =
      let c = moves duration n keys b i (loading m) called (λ v g. ground arith) in
      record { same_duration = c.same_duration; entries = c.entries; results = c.results }
  Step-IsBacked {duration} {s = s} b (looks now i m below e) =
      moves duration n keys b i (after_load m (load now (keys i) s.cache)) called
        (looked duration n keys b i m now (load now (keys i) s.cache) refl)
  Step-IsBacked {duration} b (answers i m r below e) =
      moves duration n keys b i (after_call m r) called (answered duration n keys b i m r e)
  Step-IsBacked {duration} b (stores now i m w below e) = stored_answer duration n keys b now i m w
  Step-IsBacked {duration} b (unlocks i m r below e) =
      let c =
        moves duration n keys b i (returned r) called
          (λ v g. b.results i v below (ap result_of e ∙ g)) in
      record { same_duration = c.same_duration; entries = c.entries; results = c.results }
  Step-IsBacked b (cleans_up now e) = record {
    same_duration = b.same_duration;
    entries = b.entries;
    results = b.results;
  }
  Step-IsBacked b (finds_expired now key x e f old) = record {
    same_duration = b.same_duration;
    entries = b.entries;
    results = b.results;
  }
  Step-IsBacked {duration} b (deletes now key e) = deleted duration n keys b now key
  Step-IsBacked b (drops_mutex now key e) = record {
    same_duration = b.same_duration;
    entries = b.entries;
    results = b.results;
  }
  Step-IsBacked b (ends now e) = record {
    same_duration = b.same_duration;
    entries = b.entries;
    results = b.results;
  }

  -- In every state that is reached, every entry and every result is backed.
  pub Reach-IsBacked :
      {duration : ℕ} {done : List (Event A)} {s : System A}
      → Reach n keys duration done s
      → IsBacked duration n keys done s
  unfolding new_cache lookup
  Reach-IsBacked start = record {
    same_duration = refl;
    entries = λ k e h. ground arith;
    results = λ i v below h. ground arith;
  }
  Reach-IsBacked (next_step r step) = Step-IsBacked (Reach-IsBacked r) step

-- However the calls of LoadOrCall and the clean-ups interleave, whatever Load finds for a key at a
-- time, in a state that is reached, is an answer that `miss` gave to a call with just this key, and less
-- than one duration of the cache has passed since that call stored it.
pub load_answers :
    {A : Type 0} (n : ℕ) (keys : ℕ → String) {duration : ℕ} {done : List (Event A)} {s : System A}
    (now : ℕ) (k : String) (v : A)
    → Reach n keys duration done s
    → load now k s.cache ≡ some v
    → (j : ℕ) × ((keys j ≡ k) × ((t : ℕ) × ((now < t + duration) × IsStored j t v done)))
load_answers n keys {done = done} {s = s} now k v r h =
    let b = Reach-IsBacked n keys r in
    let (e, (f, (x, y))) = load-some now k s.cache v h in
    let (j, (same, (t, (z, before)))) = b.entries k e f in
    (j, (same, (t, (omega (arith, y, z), subst (λ q. IsStored j t q done) x before))))

-- The value that a call has returned was stored by a call with the same key.
pub returned_answers :
    {A : Type 0} (n : ℕ) (keys : ℕ → String) {duration : ℕ} {done : List (Event A)} {s : System A}
    (i : ℕ) (r : Loaded A) (v : A)
    → Reach n keys duration done s
    → i < n
    → s.callers i ≡ returned r
    → value_of r ≡ some v
    → Stored keys (keys i) v done
returned_answers n keys i r v run below e h =
    let b = Reach-IsBacked n keys run in b.results i v below (ap result_of e ∙ h)

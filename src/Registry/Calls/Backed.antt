-- ===== src/Registry/Calls/Backed.antt =====
-- The entries of the cache and the results of the callers are values that a caller with the same
-- key stored.
use noe.Common.{
  ℕ, ◌+◌, ◌<◌, String, Option, none, some, List, [], ◌∷◌, ◌≡◌, refl, sym, ◌∙◌, ap, subst, arith,
  ◌==◌, eq_iff, nat_eq, Bool-cases, ◌⊎◌, inl, inr,
}
use noe.Common.Maps.{lookup, lookup-insert, lookup-delete}
use noe.Common.Families.{update}
use noe.Registry.Cache.{
  CacheEntry, load, store, mutate, Missed, value, error, Loaded, hit, miss, miss_error,
}
use noe.Registry.Cache.Expiry.{load-some}
use noe.Registry.Calls.{
  Caller, ready, locking, loading, calling, storing, leaving, returned, System, Event, called,
  stored, cleaned, dropped, move, begun, after_load, after_call, put, delete_entry,
}

module _ {A : Type 0} where
  -- The caller stored the value at this time.
  abbrev pub IsStored : ℕ → ℕ → A → List (Event A) → Type 0
  IsStored j t v [] = ⊥
  IsStored j t v (called ∷ done) = IsStored j t v done
  IsStored j t v (stored i now w ∷ done) = ((i ≡ j) × ((now ≡ t) × (w ≡ v))) ⊎ IsStored j t v done
  IsStored j t v (cleaned ∷ done) = IsStored j t v done
  IsStored j t v (dropped key ∷ done) = IsStored j t v done

  -- The value that LoadOrCall returns, if it returns no error
  abbrev pub value_of : Loaded A → Option A
  value_of (hit v) = some v
  value_of (miss v) = some v
  value_of (miss_error err) = none

  -- The result of a caller that has one
  abbrev pub result_of : Caller A → Option A
  result_of ready = none
  result_of (locking m) = none
  result_of (loading m) = none
  result_of (calling m) = none
  result_of (storing m v) = none
  result_of (leaving m r) = value_of r
  result_of (returned r) = value_of r

  -- Some caller with the key stored the value.
  abbrev pub Stored : (ℕ → String) → String → A → List (Event A) → Type 0
  Stored keys k v done = (j : ℕ) × ((keys j ≡ k) × ((t : ℕ) × IsStored j t v done))

  -- Every entry was stored by a caller with its key and expires one duration later, and every result
  -- was stored by a caller with the same key.
  pub record IsBacked (duration n : ℕ) (keys : ℕ → String) (done : List (Event A)) (s : System A)
      : Type 0 where
    pub same_duration : s.cache.cache_duration ≡ duration
    pub entries :
        (k : String) (e : CacheEntry A)
        → lookup k s.cache.cache ≡ some e
        → (j : ℕ) × ((keys j ≡ k)
            × ((t : ℕ) × ((e.expiry ≡ t + duration) × IsStored j t e.value done)))
    pub results :
        (i : ℕ) (v : A) → i < n → result_of (s.callers i) ≡ some v → Stored keys (keys i) v done

  IsStored-later :
      (k t : ℕ) (v : A) (e : Event A) (done : List (Event A))
      → IsStored k t v done
      → IsStored k t v (e ∷ done)
  IsStored-later k t v called done h = h
  IsStored-later k t v (stored i now w) done h = inr h
  IsStored-later k t v cleaned done h = h
  IsStored-later k t v (dropped key) done h = h

  result-update :
      (callers : ℕ → Caller A) (i : ℕ) (p : Caller A) (j : ℕ) (v : A)
      → result_of (update callers i p j) ≡ some v
      → ((i ≡ j) × (result_of p ≡ some v)) ⊎ (result_of (callers j) ≡ some v)
  result-update callers i p j v = elim (Bool-cases (nat_eq i j)) [
    | inl same ↦ rw same (λ h. inl (ground arith, h))
    | inr other ↦ rw other (λ h. inr h)
  ]

  some_inj : (v w : A) → some v ≡ some w → v ≡ w
  some_inj v w h = ground arith

  entry_fields :
      (v : A) (x : ℕ) (e : CacheEntry A)
      → some (record { value = v; expiry = x }) ≡ some e
      → (e.value ≡ v) × (e.expiry ≡ x)
  entry_fields v x e h = ground arith

module _ {A : Type 0} (duration n : ℕ) (keys : ℕ → String) {done : List (Event A)} {s : System A}
    (b : IsBacked duration n keys done s) where
  -- A caller moves on with a result that was stored, or with none.
  pub moves :
      (i : ℕ) (p : Caller A) (e : Event A)
      → ((v : A) → result_of p ≡ some v → Stored keys (keys i) v (e ∷ done))
      → IsBacked duration n keys (e ∷ done) (record s { callers = update s.callers i p })
  moves i p e own = record {
    same_duration = b.same_duration;
    entries = λ k x h.
        let (j, (same, (t, (y, z)))) = b.entries k x h in
        (j, (same, (t, (y, IsStored-later j t x.value e done z))));
    results = λ j v below h. elim (result-update s.callers i p j v h) [
      | inl (same, g) ↦ let (c, (k, z)) = own v g in (c, (k ∙ ap keys same, z))
      | inr old ↦
          let (c, (k, (t, z))) = b.results j v below old in
          (c, (k, (t, IsStored-later c t v e done z)))
    ];
  }

  pub looked :
      (i m now : ℕ) (o : Option A)
      → load now (keys i) s.cache ≡ o
      → (v : A) → result_of (after_load m o) ≡ some v
      → Stored keys (keys i) v (called ∷ done)
  unfolding after_load
  looked i m now none h v g = ground arith
  looked i m now (some w) h v g =
      let (e, (f, (x, y))) = load-some now (keys i) s.cache w h in
      let (j, (same, (t, (z, before)))) = b.entries (keys i) e f in
      (j, (same, (t, subst (λ q. IsStored j t q done) (x ∙ some_inj w v g) before)))

  -- LoadOrStore
  pub begun-IsBacked :
      (i : ℕ) (o : Option ℕ) → IsBacked duration n keys (called ∷ done) (begun (keys i) i o s)
  unfolding begun move
  begun-IsBacked i none =
      let c = moves i (locking s.next) called (λ v g. ground arith) in
      record { same_duration = c.same_duration; entries = c.entries; results = c.results }
  begun-IsBacked i (some m) = moves i (locking m) called (λ v g. ground arith)

  -- `miss` returns
  pub answered :
      (i m : ℕ) (r : Missed A)
      → s.callers i ≡ calling m
      → (v : A) → result_of (after_call m r) ≡ some v
      → Stored keys (keys i) v (called ∷ done)
  unfolding after_call
  answered i m (value w) e v g = ground arith
  answered i m (error err) e v g = ground arith

  -- The clean-up deletes an entry.
  pub deleted :
      (now : ℕ) (key : String) → IsBacked duration n keys (cleaned ∷ done) (delete_entry now key s)
  unfolding delete_entry
  deleted now key = record {
    same_duration = b.same_duration;
    entries = λ k e. rw (lookup-delete key k s.cache.cache) (elim (Bool-cases (key == k)) [
      | inl same ↦ rw same (λ h. ground arith)
      | inr other ↦ rw other (b.entries k e)
    ]);
    results = b.results;
  }

  -- A caller stores the answer of `miss`.
  pub stored_answer :
      (now i m : ℕ) (w : A)
      → IsBacked duration n keys (stored i now w ∷ done) (put now (keys i) i m w s)
  unfolding put move store mutate
  stored_answer now i m w = record {
    same_duration = b.same_duration;
    entries = λ k e.
        rw
          (lookup-insert (keys i) k (record { value = w; expiry = now + s.cache.cache_duration })
            s.cache.cache)
          (elim (Bool-cases (keys i == k)) [
            | inl same ↦ rw same (λ h.
                let (v, x) = entry_fields w (now + s.cache.cache_duration) e h in
                (
                  i,
                  (
                    (eq_iff (keys i) k).0 same,
                    (now, (omega (arith, x, b.same_duration), inl (refl, (refl, sym v)))),
                  ),
                ))
            | inr other ↦
                rw other
                  (λ h. let (j, (at, (t, (x, z)))) = b.entries k e h in (j, (at, (t, (x, inr z)))))
          ]);
    results =
        let c =
          moves i (leaving m (miss w)) (stored i now w)
            (λ v g. (i, (refl, (now, inl (refl, (refl, some_inj w v g)))))) in
        c.results;
  }

-- ===== src/Registry/Calls/Examples.antt =====
-- Three calls for one image, and a clean-up that deletes the mutex while a call holds it.
use noe.Common.{
  ℕ, ◌+◌, ◌*◌, ◌<◌, ◌≤◌, false, String, none, some, List, [], ◌∷◌, ◌≡◌, refl, arith, ◌&&◌, ◌==◌,
}
use noe.Common.Maps.{lookup, insert, delete}
use noe.Common.Families.{count}
use noe.Registry.Cache.{new_cache, load, live_value, store, mutate, value, miss, effective_period}
use noe.Registry.Calls.{
  System, Event, returned, called, stored, cleaned, dropped, move, set_locked, begun, begin, lock,
  after_load, look, after_call, answer, put, unlock, begin_clean_up, delete_entry, drop_mutex,
  deleting, begins, locks, looks, answers, stores, unlocks, cleans_up, finds_expired, deletes,
  drops_mutex, init, Reach, start, next_step, drops_of, calls_of,
}
use noe.Registry.Calls.Invariant.{is_calling, is_returned}
use noe.Registry.Calls.Bounds.{calling-le-drops}
use noe.Registry.Calls.Progress.{Runs, load_or_calls_return}
use noe.Registry.Calls.Answers.{load_answers}
use noe.Registry.Calls.Backed.{IsStored}
use noe.Registry.Cached.{cache_key}
use noe.Registry.Cached.Keys.{returned_same_credentials}
use noe.Common.Strings.Parts.{lacks}

abbrev one_image : ℕ → String
one_image i = ":alpine"

-- The first call ends at the time 2; an entry lives for 10.
abbrev first_returned : System String
first_returned = unlock 0 0 (miss "arm64") (
    put 2 ":alpine" 0 0 "arm64" (
      answer 0 0 (value "arm64")
        (look 1 ":alpine" 0 0 (lock 0 0 (begin ":alpine" 0 (init 3 one_image 10))))))

abbrev first_run : List (Event String)
first_run = called ∷ stored 0 2 "arm64" ∷ called ∷ called ∷ called ∷ called ∷ []

first_returned-reached : Reach 3 one_image 10 first_run first_returned
unfolding begin begun lookup lock look answer put unlock move set_locked after_load load live_value
    new_cache after_call
first_returned-reached =
    next_step
      (next_step
        (next_step
          (next_step
            (next_step (next_step start (begins 0 (omega arith) refl))
              (locks 0 0 (omega arith) refl refl))
            (looks 1 0 0 (omega arith) refl))
          (answers 0 0 (value "arm64") (omega arith) refl))
        (stores 2 0 0 "arm64" (omega arith) refl))
      (unlocks 0 0 (miss "arm64") (omega arith) refl)

-- The second call finds an expired entry, and is in `miss` when the clean-up comes.
abbrev second_calls : System String
second_calls = look 20 ":alpine" 1 0 (lock 1 0 (begin ":alpine" 1 first_returned))

abbrev late : ℕ
late = 400000000000

abbrev mutex_dropped : System String
mutex_dropped = drop_mutex late ":alpine" (
    delete_entry late ":alpine"
      (record (begin_clean_up late second_calls) { cleaner = deleting late ":alpine" }))

abbrev third_calls : System String
third_calls = look 30 ":alpine" 2 1 (lock 2 1 (begin ":alpine" 2 mutex_dropped))

abbrev whole_run : List (Event String)
whole_run =
    called
    ∷ called
    ∷ called
    ∷ dropped ":alpine"
    ∷ cleaned
    ∷ cleaned
    ∷ cleaned
    ∷ called
    ∷ called
    ∷ called
    ∷ first_run

third_calls-reached : Reach 3 one_image 10 whole_run third_calls
unfolding begin begun lookup insert delete lock look answer put unlock move set_locked after_load
    load live_value new_cache after_call store mutate begin_clean_up effective_period delete_entry
    drop_mutex
third_calls-reached =
    next_step
      (next_step
        (next_step
          (next_step
            (next_step
              (next_step
                (next_step
                  (next_step
                    (next_step (next_step first_returned-reached (begins 1 (omega arith) refl))
                      (locks 1 0 (omega arith) refl refl))
                    (looks 20 1 0 (omega arith) refl))
                  (cleans_up late refl))
                (finds_expired late ":alpine" (record { value = "arm64"; expiry = 12 }) refl refl
                  (omega arith)))
              (deletes late ":alpine" refl))
            (drops_mutex late ":alpine" refl))
          (begins 2 (omega arith) refl))
        (locks 2 1 (omega arith) refl refl))
      (looks 30 2 1 (omega arith) refl)

-- Two calls of `miss` for the same key at the same time
two_calls : count 3 (λ i. one_image i == ":alpine" && is_calling (third_calls.callers i)) ≡ 2
unfolding begin begun lookup insert delete lock look answer put unlock move set_locked after_load
    load live_value new_cache after_call store mutate begin_clean_up effective_period delete_entry
    drop_mutex count
two_calls = refl

calling-le-drops_example :
    count 3 (λ i. one_image i == ":alpine" && is_calling (third_calls.callers i))
    ≤ drops_of ":alpine" whole_run + 1
calling-le-drops_example = calling-le-drops 3 one_image third_calls-reached ":alpine"

load_or_calls_return_example :
    (m : ℕ) × ((u : System String) × (Runs 3 one_image m third_calls u
        × ((calls_of whole_run + m ≤ 3 * 6)
            × ((count 3 (λ i. is_returned (u.callers i)) ≡ 3) × ((c : ℕ) → u.locked c ≡ false)))))
load_or_calls_return_example =
    load_or_calls_return 3 one_image 40 (value "arm64") third_calls-reached

-- The entry is found at the time 11, and no longer at the time 12.
found_until : load 11 ":alpine" first_returned.cache ≡ some "arm64"
unfolding begin begun lookup insert lock look answer put unlock move set_locked after_load load
    live_value new_cache after_call store mutate
found_until = refl

expired_from : load 12 ":alpine" first_returned.cache ≡ none
unfolding begin begun lookup insert lock look answer put unlock move set_locked after_load load
    live_value new_cache after_call store mutate
expired_from = refl

load_answers_example :
    (j : ℕ) × ((one_image j ≡ ":alpine")
      × ((t : ℕ) × ((11 < t + 10) × IsStored j t "arm64" first_run)))
load_answers_example =
    load_answers 3 one_image 11 ":alpine" "arm64" first_returned-reached found_until

-- The requests are for alpine without a pull secret.
abbrev no_secret : ℕ → String
no_secret i = ""

abbrev alpine : ℕ → String
alpine i = "alpine"

requests_reached : Reach 3 (λ j. cache_key (no_secret j) (alpine j)) 10 first_run first_returned
unfolding cache_key
requests_reached = first_returned-reached

first_result : first_returned.callers 0 ≡ returned (miss "arm64")
unfolding unlock move set_locked
first_result = refl

returned_same_credentials_example :
    (j : ℕ) × ((no_secret j ≡ no_secret 0)
      × ((alpine j ≡ alpine 0) × ((t : ℕ) × IsStored j t "arm64" first_run)))
unfolding lacks
returned_same_credentials_example =
    returned_same_credentials 3 no_secret alpine 0 (miss "arm64") "arm64" (λ j. refl) (λ j. refl)
      requests_reached (omega arith) first_result refl

-- ===== src/Http/Examples.antt =====
-- pkg/httputils on concrete callers.
use noe.Common.{
  nat_eq, if◌then◌else◌, [], ◌∷◌, ℕ, ◌*◌, ◌-◌, ◌<◌, ◌≤◌, false, ◌&&◌, String, none, some, ◌≡◌, refl,
  arith, ◌⊎◌, ◌==◌,
}
use noe.Common.Maps.{lookup, insert}
use noe.Common.Families.{count}
use noe.Http.Monitored.{
  handler_labels, write_headers, write_header, standard_handler_labeller, host_of, LabelledRequest,
}
use noe.Http.RateLimiter.{
  System, worker_count, found_chan, get_request_chan, enter, receive, move, enters, receives, init,
  Reach, start, called,
}
use noe.Http.RateLimiter.Invariant.{is_running, is_returned, uses}
use noe.Http.RateLimiter.Safety.{running-le-limit, used-IsOpen}
use noe.Http.RateLimiter.Progress.{Runs, calls-le-work, callers_return}

-- Two callers with the same key and one worker; the request of the first one is at the worker.
abbrev same_key : ℕ → String
same_key i = "GET /"

abbrev both_entered : System
both_entered = enter 1 "GET /" 1 (enter 1 "GET /" 0 (init 1 2 same_key))

abbrev first_runs : System
first_runs = receive 0 0 both_entered

first_runs-reached : Reach 1 2 same_key 3 first_runs
unfolding enter get_request_chan found_chan lookup insert move worker_count
first_runs-reached =
    called (called (called start (enters 0 (omega arith) refl)) (enters 1 (omega arith) refl))
      (receives 0 0 (omega arith) refl refl (omega arith))

second_waits : uses (first_runs.callers 1) ≡ some 0
unfolding receive enter get_request_chan found_chan lookup insert move
second_waits = refl

running-le-limit_example :
    count 2 (λ i. same_key i == "GET /" && is_running (first_runs.callers i)) ≤ worker_count 1
running-le-limit_example = running-le-limit 1 2 same_key first_runs-reached "GET /"

used-IsOpen_example :
    ((first_runs.channels 0).closed ≡ false) × (lookup "GET /" first_runs.requests_chans ≡ some 0)
used-IsOpen_example = used-IsOpen 1 2 same_key 1 0 first_runs-reached (omega arith) second_waits

calls-le-work_example :
    (3 < 2 * 4)
    ⊎ ((3 ≡ 2 * 4)
        × ((count 2 (λ i. is_returned (first_runs.callers i)) ≡ 2)
            × ((k : String)
                → (lookup k first_runs.requests_chans ≡ none)
                  × (lookup k first_runs.in_flights ≡ none))))
calls-le-work_example = calls-le-work 1 2 same_key first_runs-reached

callers_return_example :
    (u : System) × (Runs 1 2 same_key (2 * 4 - 3) first_runs u
      × ((count 2 (λ i. is_returned (u.callers i)) ≡ 2)
          × ((k : String) → (lookup k u.requests_chans ≡ none) × (lookup k u.in_flights ≡ none))))
callers_return_example = callers_return 1 2 same_key first_runs-reached

-- A handler that writes no header answers with 200, but is counted with the code 0.
silent_handler :
    lookup "code" (
      handler_labels
        (λ n. if nat_eq n 0 then "0" else "?")
        standard_handler_labeller
        (record { host = "noe"; method = "POST"; authorization = "" })
        [])
    ≡ some "0"
unfolding handler_labels write_headers standard_handler_labeller host_of lookup insert
silent_handler = refl

-- The first code counts.
first_code :
    (write_headers (404 ∷ 200 ∷ []) (record { written = []; status_code = 0 })).status_code ≡ 404
unfolding write_headers write_header
first_code = refl

abbrev asked : LabelledRequest
asked = record { host = "docker.io"; method = "GET"; authorization = "Basic x" }

abbrev itoa : ℕ → String
itoa n = if nat_eq n 0 then "0" else "200"

-- ===== src/Http/Monitored.antt =====
-- pkg/httputils/monitored.go, the labellers of pkg/httputils and RegistryLabeller of
-- pkg/registry/registry.go. A counter is the list of its increments, by their labels; the observed
-- durations are left out. strconv.Itoa is a parameter.
pub mod Names
use noe.Common.{
  ℕ, Bool, String, Option, none, some, List, [], ◌∷◌, ◌++◌, ◌==◌, nat_eq, if◌then◌else◌,
}
use noe.Common.Maps.{Map, insert}

-- http.Request, with the parts that labels read
pub record LabelledRequest : Type 0 where
  pub host : String
  pub method : String
  pub authorization : String

-- http.Response, with the parts that labels read; `cached` is whether it has the header
-- X-From-Cache.
pub record LabelledResponse : Type 0 where
  pub status_code : ℕ
  pub content_type : String
  pub cached : Bool

-- prometheus.Labels
abbrev pub Labels : Type 0
Labels = Map String

unfoldable pub host_of : Option LabelledRequest → String
host_of none = ""
host_of (some q) = q.host

unfoldable pub cached_text : Option LabelledResponse → String
cached_text none = "false"
cached_text (some r) = if r.cached then "true" else "false"

-- StandardRoundTripLabeller
unfoldable pub standard_round_trip_labeller :
    Option LabelledRequest → Option LabelledResponse → Labels
unfolding host_of cached_text
standard_round_trip_labeller q r = ("host", host_of q) ∷ ("cached", cached_text r) ∷ []

-- StandardHandlerLabeller
unfoldable pub standard_handler_labeller : Option LabelledRequest → Option LabelledResponse → Labels
unfolding host_of
standard_handler_labeller q r = ("host", host_of q) ∷ []

-- The labels of RegistryLabeller that the request sets
unfoldable pub request_labels : Option LabelledRequest → Labels → Labels
request_labels none labels = labels
request_labels (some q) labels =
    let named = insert "method" q.method labels in
    if q.authorization == "" then named else insert "has_authorization" "true" named

-- trackCodeResponseWriter: its status code, and the codes that were written to the inner writer
pub record TrackCodeResponseWriter : Type 0 where
  pub written : List ℕ
  pub status_code : ℕ

-- (*trackCodeResponseWriter).WriteHeader
unfoldable pub write_header : ℕ → TrackCodeResponseWriter → TrackCodeResponseWriter
write_header code t = record {
  written = t.written ++ code ∷ [];
  status_code = if nat_eq t.status_code 0 then code else t.status_code;
}

-- What a handler writes, one code after another
unfoldable pub write_headers : List ℕ → TrackCodeResponseWriter → TrackCodeResponseWriter
unfolding write_header
write_headers [] t = t
write_headers (code ∷ codes) t = write_headers codes (write_header code t)

-- The keys of labels
unfoldable pub names : Labels → List String
names [] = []
names ((name, value) ∷ labels) = name ∷ names labels

-- labelNames of NewMonitoredRoundTripper and of InstrumentHandler
unfoldable pub label_names :
    (Option LabelledRequest → Option LabelledResponse → Labels) → List String
unfolding names
label_names labeller = names (labeller none none)

module _ (itoa : ℕ → String) where
  -- The labels of RegistryLabeller that the response sets
  unfoldable pub response_labels : Option LabelledResponse → Labels → Labels
  response_labels none labels = labels
  response_labels (some r) labels =
      insert "content_type" r.content_type (insert "status" (itoa r.status_code) labels)

  -- RegistryLabeller
  unfoldable pub registry_labeller : Option LabelledRequest → Option LabelledResponse → Labels
  unfolding request_labels response_labels standard_round_trip_labeller
  registry_labeller q r = response_labels r (
      request_labels q (
        insert "has_authorization" "false" (
          insert "content_type" ""
            (insert "status" "" (insert "method" "" (standard_round_trip_labeller q r))))))

  -- The code of a round trip, "0" without a response
  unfoldable pub code_of : Option LabelledResponse → String
  code_of none = "0"
  code_of (some r) = itoa r.status_code

  -- The deferred function of (*MonitoredRoundTripper).RoundTrip: the labels of CallsCounter's
  -- increment. What the inner transport returns is returned as it is.
  unfoldable pub round_trip_labels :
      (Option LabelledRequest → Option LabelledResponse → Labels)
      → LabelledRequest
      → Option LabelledResponse
      → Labels
  unfolding code_of
  round_trip_labels labeller q r = insert "code" (code_of r) (labeller (some q) r)

  -- The handler of InstrumentHandler, around one that writes these codes: the labels of the
  -- increment
  unfoldable pub handler_labels :
      (Option LabelledRequest → Option LabelledResponse → Labels)
      → LabelledRequest
      → List ℕ
      → Labels
  unfolding write_headers
  handler_labels labeller q codes =
      insert "code"
        (itoa (write_headers codes (record { written = []; status_code = 0 })).status_code)
        (labeller (some q) none)

-- ===== src/Http/Monitored/Names.antt =====
-- The names of the labels. A counter or a histogram panics if it gets other names than those that it
-- was made with.
use noe.Common.{
  ℕ, String, Option, none, some, List, [], ◌∷◌, ◌++◌, ◌≡◌, refl, ◌==◌, Bool-cases, inl, inr,
}
use noe.Common.Maps.{insert}
use noe.Http.Monitored.{
  LabelledRequest, LabelledResponse, names, label_names, standard_handler_labeller, request_labels,
  registry_labeller, round_trip_labels, handler_labels,
}

registry_names :
    (itoa : ℕ → String) (q : LabelledRequest) (r : Option LabelledResponse)
    → (names (registry_labeller itoa (some q) r) ≡ label_names (registry_labeller itoa))
      × (names (round_trip_labels itoa (registry_labeller itoa) q r)
          ≡ label_names (registry_labeller itoa) ++ "code" ∷ [])
unfolding names label_names registry_labeller round_trip_labels insert
registry_names itoa q none = elim (Bool-cases (q.authorization == "")) [
  | inl unauthorized ↦
      rw (registry_labeller, round_trip_labels, request_labels, unauthorized) (refl, refl)
  | inr authorized ↦
      rw (registry_labeller, round_trip_labels, request_labels, authorized) (refl, refl)
]
registry_names itoa q (some r) = elim (Bool-cases (q.authorization == "")) [
  | inl unauthorized ↦
      rw (registry_labeller, round_trip_labels, request_labels, unauthorized) (refl, refl)
  | inr authorized ↦
      rw (registry_labeller, round_trip_labels, request_labels, authorized) (refl, refl)
]

-- With RegistryLabeller the monitored round tripper, and with StandardHandlerLabeller the
-- instrumented handler, whatever the request, the response, if there is one, and the codes that the
-- handler writes: the labels have just the names that the histogram of the round tripper was made
-- with, and those of the counters the name code behind them.
pub labels-label_names :
    (itoa : ℕ → String) (q : LabelledRequest) (r : Option LabelledResponse) (codes : List ℕ)
    → (names (registry_labeller itoa (some q) r) ≡ label_names (registry_labeller itoa))
      × ((names (round_trip_labels itoa (registry_labeller itoa) q r)
            ≡ label_names (registry_labeller itoa) ++ "code" ∷ [])
          × (names (handler_labels itoa standard_handler_labeller q codes)
              ≡ label_names standard_handler_labeller ++ "code" ∷ []))
unfolding names label_names handler_labels insert standard_handler_labeller
labels-label_names itoa q r codes =
    let (timed, counted) = registry_names itoa q r in (timed, (counted, refl))

-- ===== src/Hook/Handle/Failures.antt =====
-- How the hook answers when it cannot constrain a pod, and what its events say.
use noe.Common.{
  ℕ, Bool, true, false, ◌||◌, String, Option, none, some, List, [], ◌∷◌, ◌==◌, ◌≡◌, refl, ap, ◌∙◌,
  arith, eq_iff, any, any-append, all, is_some, ltb, if◌then◌else◌, Bool-cases, inl, inr,
}
use noe.Kube.{Object, OwnerReference, Pod, DaemonSet, PodSpec, Event}
use noe.Hook.{Handler, Metric}
use noe.Hook.Architectures.{Arrival}
use noe.Hook.Architectures.Members.{is_arrived, arrival_offers}
use noe.Hook.Secrets.{SecretReader}
use noe.Hook.Selection.{node_architecture_selection}
use noe.Hook.Update.{UpdateError, warning, failure, Outcome}
use noe.Hook.Update.Errors.{update_pod_spec_failure_iff, failure_text, update_pod_spec-failure_text}
use noe.Hook.Events.{
  ◌<>◌, pod_succeeded, pod_failed, Upsert, mutate_event, generate_pod_injection_success_event,
  generate_pod_injection_failed_event, generate_injection_failed_event,
  generate_injection_success_event, owner_upserts, owner_object,
}
use noe.Hook.Handle.{
  Request, Encoded, bytes, encode_error, Codec, Admission, Handled, respond, after_update,
  pod_decoded, finish_pod, pod_outcome, finish_daemon_set, daemon_set_outcome, handle_pod,
  daemon_set_decoded, handle,
}

-- The types of events that Kubernetes knows.
abbrev pub is_event_type : String → Bool
is_event_type t = t == "Normal" || t == "Warning"

module _ (t₁ t₂ : ℕ) (evt : Event) where
  -- The event that a call leaves has a type that Kubernetes knows.
  abbrev pub leaves_event_type : Upsert → Bool
  leaves_event_type u = is_event_type (mutate_event u t₁ t₂ evt).type_name

  owners_no_type :
      (call : Object → Upsert) (namespace : String) (refs : List OwnerReference)
      → ((o : Object) → leaves_event_type (call o) ≡ false)
      → any leaves_event_type (owner_upserts call namespace refs) ≡ false
  unfolding owner_upserts
  owners_no_type call namespace [] h = refl
  owners_no_type call namespace (ref ∷ refs) h =
      ground (arith, h (owner_object namespace ref), owners_no_type call namespace refs h)

  pod_success_no_type :
      (pod : Pod) → any leaves_event_type (generate_pod_injection_success_event pod) ≡ false
  unfolding generate_pod_injection_success_event mutate_event
  pod_success_no_type pod =
      owners_no_type (pod_succeeded pod) pod.object.namespace pod.owner_references (λ o. refl)

  pod_failed_no_type :
      (pod : Pod) (err : String)
      → any leaves_event_type (generate_pod_injection_failed_event pod err) ≡ false
  unfolding generate_pod_injection_failed_event mutate_event
  pod_failed_no_type pod err =
      owners_no_type (pod_failed pod err) pod.object.namespace pod.owner_references (λ o. refl)

  success_no_type :
      (kind_text : String) (obj : Object)
      → any leaves_event_type (generate_injection_success_event kind_text obj) ≡ false
  unfolding generate_injection_success_event mutate_event
  success_no_type kind_text obj = refl

  failed_no_type :
      (kind_text : String) (obj : Object) (err : String)
      → any leaves_event_type (generate_injection_failed_event kind_text obj err) ≡ false
  unfolding generate_injection_failed_event mutate_event
  failed_no_type kind_text obj err = refl

  maybe_no_type :
      (a b : Bool) (events : List Upsert)
      → any leaves_event_type events ≡ false
      → any leaves_event_type (if a then [] else if b then events else []) ≡ false
  maybe_no_type true b events s = refl
  maybe_no_type false true events s = s
  maybe_no_type false false events s = refl

  module _ {R : Type 0} (adm : Admission R) where
    respond_no_type :
        (raw : String) (encoded : Encoded) (message : String) (ms : List Metric)
        (failed : String → List Upsert) (succeeded : List Upsert)
        → ((e : String) → any leaves_event_type (failed e) ≡ false)
        → any leaves_event_type succeeded ≡ false
        → any leaves_event_type (respond adm raw encoded message ms failed succeeded).events ≡ false
    unfolding respond
    respond_no_type raw (bytes b) message ms failed succeeded f s = maybe_no_type _ _ succeeded s
    respond_no_type raw (encode_error e) message ms failed succeeded f s =
        any-append leaves_event_type (failed ("failed to generate patch: " <> e)) _
        ∙ ground
            (arith, f ("failed to generate patch: " <> e), maybe_no_type errs patched succeeded s)
      where
        done : R × Option String
        done = adm.complete (
            if message == ""
            then adm.patch_response_from_raw raw none
            else adm.with_warnings (adm.patch_response_from_raw raw none) message)

        errs : Bool
        errs = is_some done.1

        patched : Bool
        patched = ltb 0 (adm.patches done.0)

    after_no_type :
        (o : Outcome) (failed : String → List Upsert) (finish : PodSpec → String → Handled R)
        (e : Option UpdateError)
        → ((x : String) → any leaves_event_type (failed x) ≡ false)
        → ((s : PodSpec) (m : String) → any leaves_event_type (finish s m).events ≡ false)
        → any leaves_event_type (after_update adm o failed finish e).events ≡ false
    unfolding after_update
    after_no_type o failed finish none f k = k o.spec ""
    after_no_type o failed finish (some (warning m)) f k = k o.spec m
    after_no_type o failed finish (some (failure m)) f k = f m

    module _ (h : Handler) (secrets : SecretReader) (codec : Codec) (arrivals : List Arrival) where
      pod_no_type :
          (req : Request) (pod : Pod) (err : Option String)
          → any leaves_event_type (pod_decoded adm h secrets codec arrivals req pod err).events
            ≡ false
      unfolding pod_decoded
      pod_no_type req pod (some err) = pod_failed_no_type pod _
      pod_no_type req pod none =
          let o = pod_outcome h secrets arrivals pod in
          after_no_type o (generate_pod_injection_failed_event pod)
            (finish_pod adm h secrets codec arrivals req pod o.metrics) o.error
            (pod_failed_no_type pod)
            (λ s m.
              respond_no_type req.raw (codec.encode_pod (record pod { spec = s })) m o.metrics
                (generate_pod_injection_failed_event pod) (generate_pod_injection_success_event pod)
                (pod_failed_no_type pod) (pod_success_no_type pod))

      daemon_set_no_type :
          (kind_text : String) (req : Request) (ds : DaemonSet) (err : Option String)
          → any leaves_event_type
              (daemon_set_decoded adm h secrets codec arrivals kind_text req ds err).events
            ≡ false
      unfolding daemon_set_decoded
      daemon_set_no_type kind_text req ds (some err) = failed_no_type kind_text ds.object _
      daemon_set_no_type kind_text req ds none =
          let o = daemon_set_outcome h secrets arrivals ds in
          after_no_type o (generate_injection_failed_event kind_text ds.object)
            (finish_daemon_set adm h secrets codec arrivals kind_text req ds o.metrics) o.error
            (failed_no_type kind_text ds.object)
            (λ s m.
              respond_no_type req.raw (codec.encode_daemon_set (record ds { template_spec = s })) m
                o.metrics (generate_injection_failed_event kind_text ds.object)
                (generate_injection_success_event kind_text ds.object)
                (failed_no_type kind_text ds.object) (success_no_type kind_text ds.object))

      handle_pod_no_type :
          (req : Request)
          → any leaves_event_type (handle_pod adm h secrets codec arrivals req).events ≡ false
      unfolding handle_pod
      handle_pod_no_type req = elim (Bool-cases (req.operation == "CREATE")) [
        | inl create ↦ rw create (pod_no_type req (codec.decode_pod req).0 (codec.decode_pod req).1)
        | inr other ↦ rw other
      ]

-- Whatever the hook handles, no event that it writes has a type that Kubernetes knows: the reason
-- of the event stands in the place of the type.
pub handle_event_types :
    {R : Type 0} (adm : Admission R) (h : Handler) (secrets : SecretReader) (codec : Option Codec)
    (arrivals : List Arrival) (kind_text : String) (req : Request) (t₁ t₂ : ℕ) (evt : Event)
    → any (leaves_event_type t₁ t₂ evt) (handle adm h secrets codec arrivals kind_text req).events
      ≡ false
unfolding handle
handle_event_types adm h secrets none arrivals kind_text req t₁ t₂ evt = refl
handle_event_types adm h secrets (some codec) arrivals kind_text req t₁ t₂ evt =
    elim (Bool-cases (req.kind == "Pod")) [
      | inl pod ↦ rw pod (handle_pod_no_type t₁ t₂ evt adm h secrets codec arrivals req)
      | inr other ↦ elim (Bool-cases (req.kind == "DaemonSet")) [
        | inl ds ↦
            rw (other, ds)
              (daemon_set_no_type t₁ t₂ evt adm h secrets codec arrivals kind_text req
                (codec.decode_daemon_set req).0 (codec.decode_daemon_set req).1)
        | inr neither ↦ rw (other, neither)
      ]
    ]

-- A pod that is being created, in reach of the hook, neither scheduled nor selecting an
-- architecture, is denied if the registry resolved some image and no architecture is offered by
-- every resolved image. The response is the denial, and the events report the failure.
pub handle-denied :
    {R : Type 0} (adm : Admission R) (h : Handler) (secrets : SecretReader) (codec : Codec)
    (arrivals : List Arrival) (kind_text : String) (req : Request) (pod : Pod)
    → req.kind ≡ "Pod"
    → req.operation ≡ "CREATE"
    → codec.decode_pod req ≡ (pod, none)
    → pod.spec.node_name ≡ ""
    → node_architecture_selection pod.spec ≡ none
    → any is_arrived arrivals ≡ true
    → ((a : String) → all (arrival_offers h a) arrivals ≡ false)
    → ((handle adm h secrets (some codec) arrivals kind_text req).response
        ≡ adm.denied failure_text)
      × ((handle adm h secrets (some codec) arrivals kind_text req).events
          ≡ generate_pod_injection_failed_event pod failure_text)
unfolding handle handle_pod pod_decoded after_update
handle-denied adm h secrets codec arrivals kind_text req pod k o d n s arrived nobody = ground (
  arith,
  eq_iff req.kind "Pod",
  eq_iff req.operation "CREATE",
  update_pod_spec-failure_text h pod.object.namespace pod.labels secrets pod.spec arrivals n s (
      (update_pod_spec_failure_iff h pod.object.namespace pod.labels secrets pod.spec arrivals n
          s).1
        (arrived, nobody)),
)

-- The call for a pod that is being created comes to `pod_decoded`.
handle_create :
    {R : Type 0} (adm : Admission R) (h : Handler) (secrets : SecretReader) (codec : Codec)
    (arrivals : List Arrival) (kind_text : String) (req : Request) (pod : Pod)
    → req.kind ≡ "Pod"
    → req.operation ≡ "CREATE"
    → codec.decode_pod req ≡ (pod, none)
    → handle adm h secrets (some codec) arrivals kind_text req
      ≡ pod_decoded adm h secrets codec arrivals req pod none
unfolding handle handle_pod
handle_create adm h secrets codec arrivals kind_text req pod k o d =
    let kind : (req.kind == "Pod") ≡ true = (eq_iff _ _).1 k in
    let create : (req.operation == "CREATE") ≡ true = (eq_iff _ _).1 o in
    rw (kind, create)
      (ap (λ (r : Pod × Option String). pod_decoded adm h secrets codec arrivals req r.0 r.1) d)

-- For a pod that is being created and decodes, and for which updatePodSpec returns no error, if the
-- changed pod cannot be encoded, the error is not the answer: the response is made of the patch
-- from the request's bytes to no bytes at all.
pub handle-encode_error :
    {R : Type 0} (adm : Admission R) (h : Handler) (secrets : SecretReader) (codec : Codec)
    (arrivals : List Arrival) (kind_text : String) (req : Request) (pod : Pod) (e : String)
    → req.kind ≡ "Pod"
    → req.operation ≡ "CREATE"
    → codec.decode_pod req ≡ (pod, none)
    → (pod_outcome h secrets arrivals pod).error ≡ none
    → codec.encode_pod (record pod { spec = (pod_outcome h secrets arrivals pod).spec })
      ≡ encode_error e
    → (handle adm h secrets (some codec) arrivals kind_text req).response
      ≡ (adm.complete (adm.patch_response_from_raw req.raw none)).0
unfolding respond pod_decoded
handle-encode_error adm h secrets codec arrivals kind_text req pod e k o d u enc = rw (
  handle_create adm h secrets codec arrivals kind_text req pod k o d,
  u,
  after_update,
  finish_pod,
  enc,
)

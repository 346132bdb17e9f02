-- ===== src/Hook/Events.antt =====
-- pkg/arch/hook.go, the events that tell users what the hook did. The calls of
-- upsertNodeSelectorInjectionEvent are values, in the order in which they are made; the function
-- that it hands to ctrl.CreateOrUpdate is `mutate_event`.
use Prim.Native.String
use noe.Common.{
  ℕ, ◌+◌, Bool, false, String, Option, none, some, List, [], ◌∷◌, nat_eq, if◌then◌else◌,
}
use Prim.Native.Nat.{◌%◌, ◌^◌}
use noe.Kube.{Object, OwnerReference, Pod, Event}

infixr 60 ◌<>◌
abbrev pub ◌<>◌ : String → String → String
s <> t = String.◌++◌ s t

-- The arguments of a call. Every message function of the hook ignores its argument, so it is the
-- text that it returns.
pub record Upsert : Type 0 where
  pub owner : Object
  pub pod_name : String
  pub event_type : String
  pub name_suffix : String
  pub message : String

-- The name of the event object.
pub event_name : Upsert → String
event_name u = u.owner.name <> ("-" <> u.name_suffix)

-- An int32 is incremented; it is kept as its bit pattern.
abbrev pub next_count : ℕ → ℕ
next_count c = (c + 1) % 2 ^ 32

series_start : Option ℕ → ℕ
series_start none = 0
series_start (some c) = c

-- The function that upsertNodeSelectorInjectionEvent hands to CreateOrUpdate; the two times are
-- what time.Now returns.
unfoldable pub mutate_event : Upsert → ℕ → ℕ → Event → Event
unfolding series_start
mutate_event u observed last evt = record {
  message = u.message <> ("\n" <> u.pod_name);
  type_name = u.event_type;
  count = next_count evt.count;
  series_count = some (next_count (series_start evt.series_count));
  last_observed_time = observed;
  reason = "AutomaticNodeSelectorInjection";
  component = "noe";
  first_timestamp = if nat_eq evt.first_timestamp 0 then last else evt.first_timestamp;
  last_timestamp = last;
  involved_object = u.owner;
}

-- ref.Controller != nil && *ref.Controller
abbrev pub is_controller : Option Bool → Bool
is_controller none = false
is_controller (some b) = b

-- The unstructured object that stands for the owner.
abbrev pub owner_object : String → OwnerReference → Object
owner_object namespace ref = record {
  api_version = ref.api_version;
  kind = ref.kind;
  name = ref.name;
  namespace = namespace;
  uid = ref.uid;
}

-- The loop over the owner references that both generatePod functions share.
unfoldable pub owner_upserts : (Object → Upsert) → String → List OwnerReference → List Upsert
owner_upserts call namespace [] = []
owner_upserts call namespace (ref ∷ refs) =
    let rest = owner_upserts call namespace refs in
    if is_controller ref.controller then call (owner_object namespace ref) ∷ rest else rest

-- The calls of this file pass the type of the event in the place of the pod's name, the reason in
-- that of the type, and the outcome as the suffix of the event's name.
abbrev pub succeeded : String → Object → Upsert
succeeded message owner = record {
  owner = owner;
  pod_name = "Normal";
  event_type = "InjectedNodeSelector";
  name_suffix = "injection-succeeded";
  message = message;
}

abbrev pub failed : String → Object → Upsert
failed message owner = record {
  owner = owner;
  pod_name = "Warning";
  event_type = "FailedToInjectNodeSelector";
  name_suffix = "injection-failed";
  message = message;
}

abbrev pub pod_succeeded : Pod → Object → Upsert
pod_succeeded pod = succeeded ("Injected node selector to pod " <> pod.object.name)

abbrev pub pod_failed : Pod → String → Object → Upsert
pod_failed pod err =
    failed ("Failed to inject node selector to pod " <> (pod.object.name <> (": " <> err)))

-- (*Handler).generatePodInjectionSuccessEvent
unfoldable pub generate_pod_injection_success_event : Pod → List Upsert
unfolding owner_upserts
generate_pod_injection_success_event pod =
    pod_succeeded pod pod.object
    ∷ owner_upserts (pod_succeeded pod) pod.object.namespace pod.owner_references

-- (*Handler).generatePodInjectionFailedEvent
unfoldable pub generate_pod_injection_failed_event : Pod → String → List Upsert
unfolding owner_upserts
generate_pod_injection_failed_event pod err =
    pod_failed pod err pod.object
    ∷ owner_upserts (pod_failed pod err) pod.object.namespace pod.owner_references

-- (*Handler).generateInjectionFailedEvent; `kind_text` is how fmt prints the object's kind
unfoldable pub generate_injection_failed_event : String → Object → String → List Upsert
generate_injection_failed_event kind_text obj err =
    failed
      ("Failed to inject node selector to " <> (kind_text <> (" " <> (obj.name <> (": " <> err)))))
      obj
    ∷ []

-- (*Handler).generateInjectionSuccessEvent
unfoldable pub generate_injection_success_event : String → Object → List Upsert
generate_injection_success_event kind_text obj =
    succeeded ("Injected node selector to " <> (kind_text <> (" " <> obj.name))) obj ∷ []

-- ===== src/Controller/Events.antt =====
-- pkg/controllers/pod.go: deletePodAndNotifyUser and upsertPodDeletionEvent.
use noe.Common.{
  ℕ, Bool, true, false, String, Option, none, some, List, [], ◌∷◌, ◌++◌, ◌==◌, nat_eq,
  if◌then◌else◌,
}
use noe.Kube.{Object, OwnerReference, Pod, Event}
use noe.Hook.Events.{◌<>◌, next_count, is_controller, owner_object}
use noe.Controller.{DeletionEvent, Reconciler}

series_start : Option ℕ → ℕ
series_start none = 0
series_start (some c) = c

-- The function that upsertPodDeletionEvent hands to CreateOrUpdate; the two times are what
-- time.Now returns.
unfoldable pub mutate_deletion_event : DeletionEvent → ℕ → ℕ → Event → Event
unfolding series_start
mutate_deletion_event d observed last evt = record {
  message = (if evt.message == "" then d.message_prefix else evt.message) <> ("\n" <> d.pod_name);
  type_name = d.event_type;
  count = next_count evt.count;
  series_count = some (next_count (series_start evt.series_count));
  last_observed_time = observed;
  reason = "PlatformMismatch";
  component = "noe";
  first_timestamp = if nat_eq evt.first_timestamp 0 then last else evt.first_timestamp;
  last_timestamp = last;
  involved_object = d.owner;
}

-- The call for an owner, after a deletion that failed or not.
abbrev pub deletion_event : Bool → String → Object → DeletionEvent
deletion_event false name owner = record {
  owner = owner;
  pod_name = name;
  event_type = "Normal";
  name_suffix = "-deleted-pod";
  message_prefix =
      "Pod(s) was deleted because it was scheduled on a node with a platform that is not supported by the image:";
}
deletion_event true name owner = record {
  owner = owner;
  pod_name = name;
  event_type = "Warning";
  name_suffix = "-failed-to-delete-pod";
  message_prefix =
      "Failed to delete pod(s) scheduled on a node with a platform that is not supported by the image. Pod(s):";
}

owner_events : Bool → String → String → List OwnerReference → List DeletionEvent
owner_events failed name namespace [] = []
owner_events failed name namespace (ref ∷ refs) =
    let rest = owner_events failed name namespace refs in
    if is_controller ref.controller
    then deletion_event failed name (owner_object namespace ref) ∷ rest
    else rest

-- (*PodReconciler).deletePodAndNotifyUser; `failed` says whether Client.Delete returned an error
unfoldable pub delete_pod_and_notify_user : Bool → Pod → Reconciler → Reconciler
unfolding owner_events
delete_pod_and_notify_user failed pod r = record r {
  deletions =
      r.deletions
      ++ record {
        pod = pod.object;
        namespace = pod.object.namespace;
        status = if failed then "failed" else "success";
      }
        ∷ [];
  events =
      r.events
      ++ deletion_event failed pod.object.name pod.object
        ∷ owner_events failed pod.object.name pod.object.namespace pod.owner_references;
}

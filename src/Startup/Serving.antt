-- ===== src/Startup/Serving.antt =====
-- cmd/noe/main.go: main with the manager. What the calls of controller-runtime return, and prometheus'
-- registry, are parameters.
pub mod Ending
mod Examples
use noe.Common.{
  ℕ, Bool, true, false, ◌&&◌, ◌||◌, not, String, Option, none, some, List, [], ◌∷◌, ◌++◌, ◌≡◌, refl,
  sym, ◌∙◌, ap, subst, arith, ◌==◌, eq_iff, any, all, map, Bool-cases, Option-cases, inl, inr,
  if◌then◌else◌, and_elim,
}
use noe.Common.Sets.{contains}
use noe.Common.Strings.Parts.{has_prefix}
use noe.Hook.Events.{◌<>◌}
use noe.Http.Monitored.{label_names, registry_labeller, standard_handler_labeller}
use noe.Metrics.{
  Collector, handler_metrics, controller_metrics, registry_metrics, cache_metrics,
  round_tripper_metrics, instrumented_metrics,
}
use noe.Startup.{Flags, refuses}

-- The flags that only the manager reads
pub record ManagerFlags : Type 0 where
  pub metrics_addr : String
  pub health_probe_addr : String
  pub cert_dir : String
  pub leader_elect : Bool

-- manager.Options, with the options of the webhook server and without the logger
pub record ManagerOptions : Type 0 where
  pub bind_address : String
  pub port : ℕ
  pub cert_dir : String
  pub health_probe_bind_address : String
  pub leader_election : Bool
  pub leader_election_id : String

unfoldable pub manager_options : ManagerFlags → ManagerOptions
manager_options f = record {
  bind_address = f.metrics_addr;
  port = 8443;
  cert_dir = f.cert_dir;
  health_probe_bind_address = f.health_probe_addr;
  leader_election = f.leader_elect;
  leader_election_id = "noe-controller-leader";
}

-- A call of the manager, which may return an error
pub data Call : Type 0 where
  new_manager : ManagerOptions → Call
  add_healthz_check : String → Call
  add_readyz_check : String → Call
  setup_pod_controller : Call
  start_manager : Call

-- What main does, one after another: such a call, a call of MustRegister, or of hookServer.Register
pub data Action : Type 0 where
  calls : Call → Action
  must_register : List Collector → Action
  serves : String → Action

-- How main ends
pub data End : Type 0 where
  returned : End
  exited : ℕ → End
  panicked : End

-- main after its check of the flags. The collectors of the hook's options are those of "noe".
unfoldable pub actions : (ℕ → String) → ManagerFlags → List Action
unfolding manager_options
actions itoa f =
    calls (new_manager (manager_options f))
    ∷ calls (add_healthz_check "healthz")
    ∷ calls (add_readyz_check "readyz")
    ∷ must_register
        (round_tripper_metrics "noe" "http_client" (label_names (registry_labeller itoa)))
    ∷ must_register (registry_metrics "noe")
    ∷ must_register (cache_metrics "noe" "registry_authentication")
    ∷ must_register (cache_metrics "noe" "registry")
    ∷ must_register (controller_metrics "noe")
    ∷ calls setup_pod_controller
    ∷ must_register (handler_metrics "noe")
    ∷ must_register (instrumented_metrics "noe" "webhook" (label_names standard_handler_labeller))
    ∷ serves "/mutate"
    ∷ calls start_manager
    ∷ []

-- prometheus.Registerer: a registration, which is refused by `none`, the names that are
-- registered, and the full name of options
pub record Registerer (S : Type 0) : Type 0 where
  pub register : Collector → S → Option S
  pub names : S → List String
  pub fq_name : String → String → String → String

module _ {S : Type 0} (reg : Registerer S) (fails : Call → Bool) where
  -- MustRegister: a collector that is refused is a panic.
  unfoldable pub must_register_all : List Collector → S → Option S
  must_register_all [] s = some s
  must_register_all (c ∷ cs) s = elim (reg.register c s) [
    | none ↦ none
    | some t ↦ must_register_all cs t
  ]

  -- The actions that are done, and the end
  unfoldable pub perform : List Action → S → List Action × End
  unfolding must_register_all
  perform [] s = ([], returned)
  perform (calls c ∷ rest) s =
      let (done, end) = perform rest s in
      if fails c then (calls c ∷ [], exited 1) else (calls c ∷ done, end)
  perform (must_register cs ∷ rest) s = elim (must_register_all cs s) [
    | none ↦ (must_register cs ∷ [], panicked)
    | some t ↦ (must_register cs ∷ (perform rest t).0, (perform rest t).1)
  ]
  perform (serves path ∷ rest) s = let (done, end) = perform rest s in (serves path ∷ done, end)

  -- main
  unfoldable pub main : (ℕ → String) → Flags → ManagerFlags → S → List Action × End
  unfolding perform actions
  main itoa f m s = if refuses f then ([], exited 1) else perform (actions itoa m) s

-- ===== src/Startup/Serving/Examples.antt =====
-- main with a registry of prometheus that keeps the names, and managers of which some calls fail.
use noe.Common.{
  Bool, ◌&&◌, not, true, false, String, none, some, List, [], ◌∷◌, ◌≡◌, refl, any, if◌then◌else◌,
}
use noe.Common.Sets.{contains}
use noe.Common.Strings.Parts.{has_prefix, split, every}
use noe.Hook.Events.{◌<>◌}
use noe.Metrics.{
  handler_metrics, controller_metrics, registry_metrics, cache_metrics, round_tripper_metrics,
  instrumented_metrics,
}
use noe.Common.Maps.{insert}
use noe.Http.Monitored.{label_names, registry_labeller, standard_handler_labeller}
use noe.Startup.{refuses, schedulable_slice}
use noe.Startup.Examples.{flags}
use noe.Startup.Serving.{
  ManagerFlags, Call, new_manager, add_healthz_check, add_readyz_check, setup_pod_controller,
  start_manager, exited, returned, actions, Registerer, must_register_all, perform, main,
}
use noe.Startup.Serving.Ending.{
  joined, is_valid, is_name, Registers, until_failure, is_failing, main_ends, is_start, is_serving,
  is_setup, main_serves_first,
}

abbrev names_only : Registerer (List String)
names_only = record {
  register = λ c s. if is_valid c && not (contains s (joined c)) then some (joined c ∷ s) else none;
  names = λ s. s;
  fq_name = λ ns sub name. ns <> ("_" <> (sub <> ("_" <> name)));
}

names_only-Registers : Registers names_only
names_only-Registers = record {
  joins = λ c v. refl;
  accepts = λ c s v h. (joined c ∷ s, (rw (v, h) refl, refl));
}

abbrev manager_flags : ManagerFlags
manager_flags = record {
  metrics_addr = ":8080";
  health_probe_addr = ":8081";
  cert_dir = "./";
  leader_elect = false;
}

-- The pod controller cannot be created.
abbrev no_controller : Call → Bool
no_controller (new_manager o) = false
no_controller (add_healthz_check name) = false
no_controller (add_readyz_check name) = false
no_controller setup_pod_controller = true
no_controller start_manager = false

main_ends_example :
    main names_only no_controller (λ n. "0") flags manager_flags ("go_goroutines" ∷ []) ≡ (
      if refuses flags then ([], exited 1) else (
        until_failure no_controller (actions (λ n. "0") manager_flags),
        if any (is_failing no_controller) (actions (λ n. "0") manager_flags)
            then exited 1
            else returned,
      ))
unfolding has_prefix
main_ends_example =
    main_ends names_only no_controller (λ n. "0") flags manager_flags ("go_goroutines" ∷ [])
      names_only-Registers refl

-- Nothing fails.
abbrev fine : Call → Bool
fine c = false

started :
    any is_start (main names_only fine (λ n. "0") flags manager_flags ("go_goroutines" ∷ [])).0
    ≡ true
unfolding main refuses schedulable_slice contains split actions handler_metrics controller_metrics
    registry_metrics cache_metrics round_tripper_metrics instrumented_metrics must_register_all
    perform is_name every label_names registry_labeller insert has_prefix standard_handler_labeller
started = refl

main_serves_first_example :
    let done = (main names_only fine (λ n. "0") flags manager_flags ("go_goroutines" ∷ [])).0 in
    (any is_serving done ≡ true)
    × ((any is_setup done ≡ true) × (fine setup_pod_controller ≡ false))
unfolding has_prefix
main_serves_first_example =
    main_serves_first names_only fine (λ n. "0") flags manager_flags ("go_goroutines" ∷ [])
      names_only-Registers refl started

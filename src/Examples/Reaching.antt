-- ===== src/Examples/Reaching.antt =====
-- Reconciliations that scale the target.
use wing.Base.{pos, Dict, lookup, insert, now, tick, Exact, exact, refl, none, [], ◌∷◌}
use wing.Api.Gvkr.{GroupVersionKindResource}
use wing.Api.Condition.{set_condition}
use wing.Engine.Interfaces.{ScalerOutput}
use wing.Plugins.Simple.{History, get_desired_replicas}
use wing.Utils.Gvkr.{parse_gvkr, get_resource, group_version_of, get_group_resource_known_scalable}
use wing.Utils.PanicMode.{is_panic_mode_configured, still_in_panic_mode}
use wing.Utils.ReplicaPatches.{get_replica_patches}
use wing.Scheduling.{get_scheduled_settings_raw, hit_schedule_settings, get_replica_patch}
use wing.Controller.State.{State}
use wing.Controller.Target.{get_scale_target, is_target_scalable, scale_or_error, remember_scalable}
use wing.Controller.Exhaust.{on_pending, exhaust_test, update_exhausted_autoscaler}
use wing.Controller.Scaling.{dry_run_flag}
use wing.Controller.Targets.{ask_scalers, ask_scaler, call_scaler, after_scaler}
use wing.Controller.Limits.{
  Bounds, normalize, working_bounds, get_working_replica_patch, patch_bounds, spec_bounds,
}
use wing.Controller.Autoscaling.{selected_replicator, is_cold, call_replicator}
use wing.Controller.Reconcile.{observe, reconcile}
use wing.Controller.Updates.Reaches.{Reaches, reconcile_static-Reaches}
use wing.Controller.Updates.Reaching.{purged, reconcile_targets-Reaches}
use wing.Examples.Data.{
  utc, patch_json, test_cluster, default_plugins, web_autoscaler, web_spec, web_scale, state_of,
}

abbrev deployments : GroupVersionKindResource
deployments = record {
  group = "apps";
  version = "v1";
  kind = "Deployment";
  resource = "deployments";
}

-- A target that is to have four replicas, whatever its scalers say.
abbrev fixed : State History
fixed = state_of (record web_autoscaler { spec = record web_spec { min_replicas = none } })

abbrev fixed_target : State History
fixed_target = (get_scale_target test_cluster fixed).1

reconcile_static-Reaches_example :
    Reaches
      (pos 4)
      web_scale
      fixed
      (reconcile Exact ⦃f = exact⦄ utc patch_json test_cluster default_plugins fixed).1
unfolding get_scale_target parse_gvkr get_resource group_version_of is_target_scalable
    scale_or_error remember_scalable update_exhausted_autoscaler on_pending exhaust_test
    get_group_resource_known_scalable dry_run_flag lookup
reconcile_static-Reaches_example =
    reconcile_static-Reaches Exact ⦃f = exact⦄ utc patch_json test_cluster default_plugins
      deployments web_scale fixed fixed_target
      (update_exhausted_autoscaler test_cluster web_scale fixed_target).1 (pos 0) refl refl refl
      refl refl

-- The states of a reconciliation whose scaler asks for five replicas.
abbrev begin : State History
begin = state_of web_autoscaler

abbrev target : State History
target = (get_scale_target test_cluster begin).1

abbrev tested : State History
tested = (update_exhausted_autoscaler test_cluster web_scale target).1

abbrev observed : State History
observed = observe Exact ⦃f = exact⦄ web_scale tested

abbrev answered : State History
answered =
    (ask_scalers utc test_cluster default_plugins (now observed.clock) "app=web" web_scale
      web_spec.targets [] [] (record observed { clock = tick observed.clock })).1

abbrev five_outputs : Dict ScalerOutput
five_outputs = ("cpu", record { desired_replicas = pos 5; managed_target_status = [] }) ∷ []

abbrev purged_state : State History
purged_state =
    purged Exact ⦃f = exact⦄ utc patch_json test_cluster default_plugins deployments web_scale []
      answered

abbrev replicated : State History
replicated =
    (call_replicator
      (get_desired_replicas (record { downscale_stabilization_window = pos 30_000_000_000 }))
      web_scale five_outputs (record purged_state { clock = tick (tick answered.clock) })).1

abbrev one_to_four : Bounds
one_to_four = record { max_replicas = pos 4; min_replicas = pos 1 }

reconcile_targets-Reaches_example :
    Reaches
      (normalize one_to_four (pos 5)).0
      web_scale
      begin
      (reconcile Exact ⦃f = exact⦄ utc patch_json test_cluster default_plugins begin).1
unfolding get_scale_target parse_gvkr get_resource group_version_of is_target_scalable
    scale_or_error remember_scalable update_exhausted_autoscaler on_pending exhaust_test
    get_group_resource_known_scalable dry_run_flag lookup insert observe still_in_panic_mode
    is_panic_mode_configured is_cold ask_scalers get_scheduled_settings_raw hit_schedule_settings
    ask_scaler call_scaler after_scaler selected_replicator call_replicator get_desired_replicas
    working_bounds get_working_replica_patch patch_bounds get_replica_patches get_replica_patch
    spec_bounds set_condition
reconcile_targets-Reaches_example =
    reconcile_targets-Reaches Exact ⦃f = exact⦄ utc patch_json test_cluster default_plugins
      deployments web_scale begin target tested answered replicated
      (working_bounds utc patch_json replicated).1 (pos 0) (pos 1) "app=web" observed.clock
      five_outputs []
      (get_desired_replicas (record { downscale_stabilization_window = pos 30_000_000_000 }))
      (pos 5) one_to_four refl refl refl refl refl refl refl refl refl refl refl

-- ===== src/Examples/Control.antt =====
-- The controller.
use wing.Base.{◌≤ℤ◌, pos, lookup, panic, Exact, exact, ◌≡◌, refl, ◌↔◌, none, some, [], ◌∷◌}
use wing.Api.Types.{Exhaust, exhaust_on_pending}
use wing.Api.Gvkr.{GroupVersionKindResource}
use wing.Utils.PanicMode.{is_panic_mode_configured, still_in_panic_mode}
use wing.Plugins.Simple.{History}
use wing.Controller.State.{not_ready, State, default_requeue_delay}
use wing.Controller.Panics.Exhausting.{Unset, update_exhausted_autoscaler_panics}
use wing.Examples.Returning.{test_cluster-IsCalmCluster}
use wing.Controller.Limits.{Bounds, normalize}
use wing.Controller.Limits.Laws.{normalize_within}
use wing.Controller.Target.{get_scale_target, is_target_scalable, scale_or_error, remember_scalable}
use wing.Controller.Exhaust.{on_pending, exhaust_test, update_exhausted_autoscaler}
use wing.Controller.Reconcile.{
  reconcile, unless_deleted, after_target, after_exhaust, observe, scale_target, declare_ready,
}
use wing.Utils.Gvkr.{parse_gvkr, get_resource, group_version_of, get_group_resource_known_scalable}
use wing.Controller.Autoscaling.{
  reconcile_autoscaling, with_selector, scale_by_targets, is_cold, scale_unless_cold, after_targets,
}
use wing.Controller.Targets.{ask_scalers, ask_scaler}
use wing.Scheduling.{get_scheduled_settings_raw, hit_schedule_settings}
use wing.Controller.Reconcile.Ready.{SaysReady, reconcile-SaysReady}
use wing.Controller.Updates.{Sends}
use wing.Controller.Updates.Working.{MayWant}
use wing.Controller.Updates.Whole.{reconcile_updates}
use wing.Examples.Data.{
  utc, patch_json, test_cluster, default_plugins, web_autoscaler, web_spec, web_scale, state_of,
}

reconcile_updates_example :
    Sends
      (MayWant utc patch_json web_autoscaler)
      (state_of web_autoscaler)
      (reconcile Exact ⦃f = exact⦄ utc patch_json test_cluster default_plugins
        (state_of web_autoscaler)).1
reconcile_updates_example =
    reconcile_updates utc patch_json Exact ⦃f = exact⦄ test_cluster default_plugins
      (state_of web_autoscaler)

abbrev one_to_four : Bounds
one_to_four = record { max_replicas = pos 4; min_replicas = pos 1 }

normalize_within_example :
    (pos 1 ≤ℤ (normalize one_to_four (pos 9)).0)
    × (pos 1 ≤ℤ pos 4 → (normalize one_to_four (pos 9)).0 ≤ℤ pos 4)
    × (pos 1 ≤ℤ pos 9 → pos 9 ≤ℤ pos 4 → normalize one_to_four (pos 9) ≡ (pos 9, ""))
normalize_within_example = normalize_within one_to_four (pos 9)

abbrev half_set : Exhaust
half_set = record { type = exhaust_on_pending; pending = none }

abbrev half_exhausted : State History
half_exhausted =
    state_of (record web_autoscaler { spec = record web_spec { exhaust = some half_set } })

update_exhausted_autoscaler_panics_example :
    ((update_exhausted_autoscaler test_cluster web_scale half_exhausted).0 ≡ panic) ↔ (
      (exhaust : Exhaust) × (half_exhausted.autoscaler.spec.exhaust ≡ some exhaust)
      × Unset test_cluster test_cluster-IsCalmCluster web_scale half_exhausted exhaust)
update_exhausted_autoscaler_panics_example =
    update_exhausted_autoscaler_panics test_cluster test_cluster-IsCalmCluster web_scale
      half_exhausted

abbrev deployments : GroupVersionKindResource
deployments = record {
  group = "apps";
  version = "v1";
  kind = "Deployment";
  resource = "deployments";
}

-- A scaler that the engine does not have.
abbrev lost : State History
lost = state_of (record web_autoscaler {
  spec = record web_spec {
    targets =
        record {
          metric = "gpu";
          metric_type = "Utilization";
          settings = record { default = some "{}"; schedules = [] };
        }
        ∷ [];
  };
})

reconcile-SaysReady_example :
    SaysReady Exact ⦃f = exact⦄
      (reconcile Exact ⦃f = exact⦄ utc patch_json test_cluster default_plugins lost).1
unfolding reconcile unless_deleted get_scale_target parse_gvkr get_resource group_version_of
    is_target_scalable scale_or_error remember_scalable after_target update_exhausted_autoscaler
    on_pending exhaust_test after_exhaust observe scale_target reconcile_autoscaling with_selector
    scale_by_targets still_in_panic_mode is_panic_mode_configured is_cold scale_unless_cold
    ask_scalers get_scheduled_settings_raw hit_schedule_settings ask_scaler lookup not_ready
    after_targets declare_ready get_group_resource_known_scalable
reconcile-SaysReady_example =
    reconcile-SaysReady Exact ⦃f = exact⦄ utc patch_json test_cluster default_plugins deployments
      web_scale lost (get_scale_target test_cluster lost).1 (pos 0) default_requeue_delay refl refl
      refl refl

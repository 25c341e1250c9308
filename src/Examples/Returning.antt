-- ===== src/Examples/Returning.antt =====
-- A reconciliation that returns.
use wing.Base.{
  none-ne-some, ℤ, lookup-All, ok, panic, Duration, Exact, exact, String, ◌≡◌, ◌≢◌, ◌==◌,
}
use wing.Api.Types.{IntOrString, int_value, text_value}
use wing.Plugins.Simple.{get_desired_replicas}
use wing.Utils.Timerange.Safety.{IsCalm, if-ne-panic}
use wing.Controller.Exhaust.{on_pending}
use wing.Controller.Reconcile.{reconcile}
use wing.Controller.Panics.{IsCalmCluster, IsCalmEngine, IsFilled}
use wing.Controller.Panics.Returns.{reconcile_returns}
use wing.Examples.Data.{
  utc, date_at, patch_json, test_cluster, default_plugins, web_autoscaler, web_spec, state_of,
}

date_at-ne-panic : (text : String) → date_at text ≢ panic
date_at-ne-panic text =
    if-ne-panic (text == "2022-01-01 00:00") _ _ (λ _ q. cc)
      (λ _.
        if-ne-panic (text == "2022-01-02 00:00") _ _ (λ _ q. cc)
          (λ _. if-ne-panic (text == "2022-01-03 00:00") _ _ (λ _ q. cc) (λ _ q. cc)))

utc-IsCalm : IsCalm utc
utc-IsCalm = record {
  load_location_calm = λ name. if-ne-panic (name == "UTC") _ _ (λ _ q. cc) (λ _ q. cc);
  parse_in_location_calm = λ text l. date_at-ne-panic text;
  parse_standard_calm = λ spec.
      if-ne-panic (spec == "0 8 * * *") _ _ (λ _ q. cc)
        (λ _. if-ne-panic (spec == "0 20 * * *") _ _ (λ _ q. cc) (λ _ q. cc));
}

patch_json-ne-panic : (text : String) → patch_json.unmarshal text ≢ panic
patch_json-ne-panic text =
    if-ne-panic (text == "[]") _ _ (λ _ q. cc)
      (λ _. if-ne-panic (text == "[new year]") _ _ (λ _ q. cc) (λ _ q. cc))

scaled_value-ne-panic : (v : IntOrString) (total : ℤ) → test_cluster.scaled_value v total ≢ panic
scaled_value-ne-panic (int_value n) total = λ q. cc
scaled_value-ne-panic (text_value t) total = λ q. cc

pub test_cluster-IsCalmCluster : IsCalmCluster test_cluster
test_cluster-IsCalmCluster = record {
  parse_group_version_calm = λ text q. cc;
  rest_mapping_calm = λ group kind version q. cc;
  get_scale_calm = λ gr namespace name q. cc;
  parse_selector_calm = λ text q. cc;
  list_pods_calm = λ namespace selector q. cc;
  scaled_value_calm = scaled_value-ne-panic;
  merge_patch_calm = λ a b q. cc;
}

default_plugins-IsCalmEngine : IsCalmEngine default_plugins
unfolding get_desired_replicas
default_plugins-IsCalmEngine = record {
  scaler_calm = λ name scaler c x found.
      lookup-All (λ y. (y c x).0 ≢ panic) name default_plugins.scalers scaler ((λ q. cc), tt) found;
  replicator_calm = λ name replicator c x found.
      lookup-All (λ y. (y c x).0 ≢ panic) name default_plugins.replicators replicator
        ((λ q. cc), tt) found;
}

web_spec-IsFilled : IsFilled web_spec
unfolding on_pending
web_spec-IsFilled = record {
  targets_filled = (((λ q. cc), tt), tt);
  pending_filled = λ e found. absurd (none-ne-some found);
}

reconcile_returns_example :
    (delay : Duration) × ((reconcile Exact ⦃f = exact⦄ utc patch_json test_cluster default_plugins
        (state_of web_autoscaler)).0
      ≡ ok delay)
reconcile_returns_example =
    reconcile_returns Exact ⦃f = exact⦄ utc patch_json test_cluster default_plugins
      (state_of web_autoscaler) utc-IsCalm patch_json-ne-panic test_cluster-IsCalmCluster
      default_plugins-IsCalmEngine web_spec-IsFilled

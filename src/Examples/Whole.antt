-- ===== src/Examples/Whole.antt =====
-- Whole reconciliations and requests.
use wing.Base.{All, OkThen, external, ok, Exact, exact, ◌≡◌, refl, ◌⊎◌, true, false, some, [], ◌∷◌}
use wing.Api.Condition.{
  new_condition, found, condition_ready, condition_panic_mode, condition_true, condition_false,
}
use wing.Api.Condition.Unique.{IsUnique}
use wing.Plugins.Simple.{History}
use wing.Plugins.Setup.{start_engine}
use wing.Controller.State.{State}
use wing.Controller.Reconcile.{reconcile}
use wing.Controller.Entry.{ApiServer, reconcile_request}
use wing.Controller.Entry.Request.{Request, reconcile_request-Request}
use wing.Controller.Conditions.Program.{engine_plugins}
use wing.Controller.Conditions.Life.{born, reconciled, edited, Life-IsUnique}
use wing.Controller.Conditions.Requests.{WritesUnique, reconcile_request-IsUnique}
use wing.Examples.Data.{
  utc, patch_json, test_cluster, default_plugins, web_autoscaler, no_status, state_of,
}
use wing.Examples.Usage.{environment}

-- An autoscaler that has two conditions.
abbrev conditioned : State History
conditioned = state_of (record web_autoscaler {
  status = record no_status {
    conditions =
        new_condition condition_ready condition_true "" ""
        ∷ new_condition condition_panic_mode condition_false "" ""
        ∷ [];
  };
})

conditioned-IsUnique : IsUnique conditioned.autoscaler.status.conditions
unfolding found
conditioned-IsUnique = (refl, (refl, tt))

-- It is reconciled, its annotations are deleted, and it is reconciled again.
abbrev later : State History
later =
    (reconcile Exact ⦃f = exact⦄ utc patch_json test_cluster
      (engine_plugins (start_engine Exact ⦃f = exact⦄ environment).1) conditioned).1

abbrev unannotated : State History
unannotated = record later { autoscaler = record later.autoscaler { annotations = [] } }

abbrev latest : State History
latest =
    (reconcile Exact ⦃f = exact⦄ utc patch_json test_cluster
      (engine_plugins (start_engine Exact ⦃f = exact⦄ environment).1) unannotated).1

Life-IsUnique_example :
    IsUnique latest.autoscaler.status.conditions
    × ((found conditioned.autoscaler.status.conditions condition_ready ≡ false)
        ⊎ (found latest.autoscaler.status.conditions condition_ready ≡ true))
unfolding start_engine exact
Life-IsUnique_example =
    Life-IsUnique Exact ⦃f = exact⦄ environment utc patch_json conditioned latest condition_ready
      refl (reconciled test_cluster (edited unannotated refl (reconciled test_cluster born)))
      conditioned-IsUnique

-- An API server that refuses every patch.
abbrev refusing : ApiServer
refusing = record {
  equal_annotations = λ a b. true;
  equal_status = λ a b. false;
  answer = λ patch. some (external "conflict");
}

reconcile_request-Request_example :
    Request Exact ⦃f = exact⦄ utc patch_json test_cluster refusing default_plugins
      (ok web_autoscaler)
      conditioned
      (reconcile_request Exact ⦃f = exact⦄ utc patch_json test_cluster refusing default_plugins
        (ok web_autoscaler)
        conditioned)
reconcile_request-Request_example =
    reconcile_request-Request Exact ⦃f = exact⦄ utc patch_json test_cluster refusing default_plugins
      (ok web_autoscaler) conditioned

reconcile_request-IsUnique_example :
    OkThen
      (λ a. All WritesUnique a.1)
      (reconcile_request Exact ⦃f = exact⦄ utc patch_json test_cluster refusing
        (engine_plugins (start_engine Exact ⦃f = exact⦄ environment).1)
        (ok conditioned.autoscaler)
        conditioned).0
unfolding start_engine exact
reconcile_request-IsUnique_example =
    reconcile_request-IsUnique Exact ⦃f = exact⦄ environment utc patch_json test_cluster refusing
      conditioned.autoscaler conditioned refl conditioned-IsUnique

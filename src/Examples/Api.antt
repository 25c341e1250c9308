-- ===== src/Examples/Api.antt =====
-- Conditions and target statuses.
use wing.Base.{pos, ◌*◌, String, ◌≡◌, none, [], ◌∷◌}
use wing.Api.Types.{
  Condition, Conditions, ReplicaAutoscalerStatus, TargetStatus, average_value_metric_type,
}
use wing.Api.Condition.{
  new_condition, condition_ready, condition_panic_mode, condition_true, condition_false,
}
use wing.Utils.Status.{purge_target_status}
use wing.Utils.Status.Laws.{occurrences, multiplicity, repeated, purge_target_status_lem}
use wing.Examples.Data.{no_status}

abbrev on : Condition
on = new_condition condition_panic_mode condition_true "" ""

abbrev two : Conditions
two =
    new_condition condition_ready condition_true "" ""
    ∷ new_condition condition_panic_mode condition_false "" ""
    ∷ []

abbrev cpu_status : TargetStatus
cpu_status = record {
  target = "cpu";
  scaler = "cpu";
  desired_replicas = pos 3;
  metric = record {
    type = average_value_metric_type;
    value = none;
    average_value = none;
    average_utilization = none;
  };
}

abbrev cpu_known : ReplicaAutoscalerStatus
cpu_known = record no_status { targets = cpu_status ∷ [] }

purge_target_status_lem_example :
    (purge_target_status ("cpu" ∷ "cpu" ∷ []) cpu_known
      ≡ record cpu_known { targets = repeated ("cpu" ∷ "cpu" ∷ []) cpu_known.targets })
    × ((name : String)
        → occurrences name (purge_target_status ("cpu" ∷ "cpu" ∷ []) cpu_known).targets
          ≡ occurrences name cpu_known.targets * multiplicity name ("cpu" ∷ "cpu" ∷ []))
purge_target_status_lem_example = purge_target_status_lem ("cpu" ∷ "cpu" ∷ []) cpu_known

-- ===== src/Examples/Data.antt =====
-- The inputs of the examples: a time library, a cluster, and an autoscaler.
use wing.Base.{
  if◌then◌else◌, ◌+ℤ◌, ◌-ℤ◌, ltb_ℤ, leb_ℤ, pos, Result, external, ok, err, Time, stopped, String,
  Bool, true, false, ◌&&◌, none, some, [], ◌∷◌, ◌==◌,
}
use wing.Api.Types.{
  ReplicaAutoscaler, ReplicaAutoscalerSpec, ReplicaAutoscalerStatus, ReplicaPatch,
  dry_run_annotation, replica_patches_annotation, int_value, text_value,
}
use wing.Kubernetes.{Scale, Pod, pod_pending}
use wing.Utils.Timerange.{TimeLibrary}
use wing.Utils.ReplicaPatches.{PatchCodec}
use wing.Engine.Interfaces.{Scaler}
use wing.Controller.State.{State, Cluster, Plugins, not_found}
use wing.Plugins.Simple.{History, get_desired_replicas}

-- One time zone. Of the two schedules `sparse` is at every instant but those from 1 to 99, and
-- `dense` at every instant.
unfoldable pub next_instant : Bool → Unit {0} → Time → Time
unfolding ◌+ℤ◌
next_instant sparse l t =
    if sparse && leb_ℤ (pos 0) t && ltb_ℤ t (pos 99) then pos 100 else t +ℤ pos 1

unfoldable pub previous_instant : Bool → Unit {0} → Time → Time
unfolding ◌-ℤ◌
previous_instant sparse l t =
    if sparse && ltb_ℤ (pos 1) t && leb_ℤ t (pos 100) then pos 0 else t -ℤ pos 1

abbrev pub date_at : String → Result Time
date_at text =
    if text == "2022-01-01 00:00"
    then ok (pos 100)
    else if text == "2022-01-02 00:00"
    then ok (pos 200)
    else if text == "2022-01-03 00:00"
    then ok (pos 300)
    else err (external "cannot parse")

abbrev pub utc : TimeLibrary
utc = record {
  Location = Unit {0};
  load_location = λ name. if name == "UTC" then ok tt else err (external "unknown time zone");
  parse_in_location = λ text l. date_at text;
  Schedule = Bool;
  parse_standard = λ spec.
      if spec == "0 8 * * *"
      then ok true
      else if spec == "0 20 * * *"
      then ok false
      else err (external "bad spec");
  next = next_instant;
  prev = previous_instant;
}

abbrev pub new_year_patch : ReplicaPatch
new_year_patch = record {
  timezone = "UTC";
  start = "2022-01-01 00:00";
  end = "2022-01-02 00:00";
  retention_seconds = none;
  min_replicas = pos 6;
  max_replicas = pos 8;
}

-- The JSON of an empty list and of one list.
abbrev pub patch_json : PatchCodec
patch_json = record {
  unmarshal = λ text.
      if text == "[]"
      then ok (some [])
      else if text == "[new year]"
      then ok (some (new_year_patch ∷ []))
      else err (external "bad json");
  marshal = λ ps. elim ps [ [] ↦ ok "[]" | _ ∷ _ ↦ err (external "unsupported") ];
}

abbrev pub web_scale : Scale
web_scale = record {
  namespace = "default";
  name = "web";
  spec_replicas = pos 2;
  status_replicas = pos 2;
  status_selector = "app=web";
}

abbrev pub pending_pod : Pod
pending_pod = record {
  name = "db-0";
  creation_timestamp = pos 5;
  deletion_timestamp = none;
  containers = [];
  status = record { phase = pod_pending; conditions = []; start_time = none };
}

abbrev pub test_cluster : Cluster
test_cluster = record {
  mapper = record {
    parse_group_version = λ text. ok ("apps", "v1");
    rest_mapping = λ group kind version. err (external "no mapping");
  };
  get_scale = λ resource namespace name. ok web_scale;
  get_object = λ gvkr namespace name. not_found;
  update_scale = λ resource scale. none;
  parse_selector = λ text. ok text;
  list_pods = λ namespace selector. ok (pending_pod ∷ []);
  scaled_value = λ v total. elim v [ int_value n ↦ ok n | text_value t ↦ err (external "percent") ];
  merge_patch = λ a b. ok b;
}

-- A scaler that asks for five replicas.
abbrev pub five : Scaler
five c s = (ok (record { desired_replicas = pos 5; managed_target_status = [] }), s)

abbrev pub default_plugins : Plugins History
default_plugins = record {
  scalers = ("cpu", five) ∷ [];
  replicators =
      (
        "simple",
        get_desired_replicas (record { downscale_stabilization_window = pos 30_000_000_000 }),
      )
      ∷ [];
}

abbrev pub no_status : ReplicaAutoscalerStatus
no_status = record {
  observed_generation = none;
  last_scale_time = none;
  current_replicas = pos 2;
  desired_replicas = pos 2;
  targets = [];
  conditions = [];
}

abbrev pub web_spec : ReplicaAutoscalerSpec
web_spec = record {
  replicator = none;
  replicator_settings = none;
  scale_target_ref = record { kind = "Deployment"; name = "web"; api_version = "apps/v1" };
  min_replicas = some (pos 1);
  max_replicas = pos 4;
  targets =
      record {
        metric = "cpu";
        metric_type = "Utilization";
        settings = record { default = some "{}"; schedules = [] };
      }
      ∷ [];
  strategy = none;
  exhaust = none;
}

abbrev pub web_autoscaler : ReplicaAutoscaler
web_autoscaler = record {
  name = "web";
  namespace = "default";
  generation = pos 1;
  deletion_timestamp = none;
  annotations = (dry_run_annotation, "false") ∷ [];
  spec = web_spec;
  status = no_status;
}

abbrev pub patched_autoscaler : ReplicaAutoscaler
patched_autoscaler = record web_autoscaler {
  annotations = (replica_patches_annotation, "[new year]") ∷ [];
}

abbrev pub state_of : ReplicaAutoscaler → State History
state_of a = record {
  autoscaler = a;
  clock = stopped (pos 1000);
  events = [];
  updates = [];
  replicator = [];
  known_scalable = [];
}

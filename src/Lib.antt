-- ===== src/Lib.antt =====
-- Verification of wing, a replica autoscaler for Kubernetes.
--
-- The program. A controller (controllers/) reconciles one ReplicaAutoscaler (api/v1/) at a time: it
-- reads the Scale of the target, asks a scaler (plugins/, utils/scalerprovider/) for each target of the
-- spec, lets a replicator join their answers, limits the result by the spec or by a replica patch in
-- the annotations, updates the Scale, and keeps conditions and target statuses. Settings and patches
-- may hold for a period of time only (core/scheduling/, utils/timerange/).
--
-- The files.
--   Base: Booleans, integers, words, lists, texts, Go's results, times and float64.
--   Api: api/v1/. Condition is condition.go, Types the types, Gvkr gvkr.go.
--   Utils: utils/. Status is status.go, PanicMode panicmode.go, ReplicaPatches replicapatche.go, Gvkr
--     gvkr.go, Strings string.go, Timerange the package timerange.
--   HttpClient: utils/http/client/, by its files options.go, request.go (Requester) and client.go.
--   Scheduling: core/scheduling/. Engine: the interfaces of core/engine/, and
--     Registry its arc.go and loadPlugins of engine.go.
--   Metrics: utils/metrics/utilization.go, and Metrics/Client its client.go. PodResource and
--     Prometheus: the two packages of utils/scalerprovider/.
--   Plugins: Simple is plugins/replicator_simple/replicator.go, Rabbitmq plugins/scaler_rabbitmq/
--     (Queues api.go, Settings and Requests settings.go, Scaler setup.go), Setup the file setup.go of
--     each plugin with GetPluginConfig of core/engine/engine.go.
--   Discovery: generate_plugin_discovery.go. Declared is what plugin.conf declares, without the loop.
--   Controller: controllers/replicaautoscaler_reconcile.go. State is what a reconciliation reads and
--     changes, Target getScaleTarget and isTargetScalable, Scaling scaleReplicas, Exhaust
--     updateExhaustedAutoscaler, Targets, Autoscaling and Limits reconcileAutoscaling in the order of
--     its text, Reconcile reconcile, Entry replicaautoscaler_controller.go. Updates is about what is
--     sent to the cluster, Conditions about the conditions after a whole reconciliation, Panics
--     about what it dereferences.
--   Kubernetes: the fields of Kubernetes objects that the code reads. Examples: concrete runs.
--
-- The model. A function that may fail returns `Result`: a value, an error, or a panic (a nil
-- dereference, a division by zero). A function that changes a shared object takes the state and
-- returns it with its result, on every path. int32 and int64 are integers that wrap where the code
-- calculates with them; times and durations are nanoseconds as integers, without Go's saturation. The
-- clock is a sequence of readings of which every call of time.Now, time.Since or metav1.Now takes the
-- next one, so that two calls may differ. float64 is a record of operations that the definitions take
-- as an argument: how it rounds is left open, and NaN is among its values. A map is an
-- association list, in which each key stands once, in the order in which the map is walked. Loops are
-- recursions over the list that the code ranges over, or over the number of their rounds, so that
-- none needs fuel.
--
-- Parameters are the code that is not in this repository: time zones, date parsing and cron
-- schedules (`TimeLibrary`), encoding/json (`PatchCodec`, the unmarshal functions), jsonpatch, the
-- REST mapper, the scale client, the pod lister and the selectors (`Cluster`, `Mapper`, `PodSource`),
-- HTTP (`Http`, and `Network` for resty and the names of headers), net/url (`UrlLibrary`), AMQP
-- (`Amqp`), the metrics APIs (`MetricsApi`), YAML, and FarmHash. A scaler of the controller is any function of its context, the
-- status and the clock, and a replicator any function of its context, its own state and the clock.
--
-- Not modelled: logs and counters, the construction of clients and informers, the flags and files of
-- the program's start, and generated code.
pub mod Base
pub mod Api
pub mod Utils
pub mod HttpClient
pub mod Kubernetes
pub mod Scheduling
pub mod Metrics
pub mod PodResource
pub mod Prometheus
pub mod Controller
pub mod Engine
pub mod Discovery
pub mod Plugins
pub mod Examples

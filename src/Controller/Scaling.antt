-- ===== src/Controller/Scaling.antt =====
-- controllers/replicaautoscaler_reconcile.go: `scaleReplicas`.
use wing.Base.{
  if◌then◌else◌, ℤ, eqb_ℤ, lookup, ◌<>◌, Error, error_text, M, ok, err, now, tick, String, Option,
  none, some, ◌∷◌, ◌==◌,
}
use wing.Api.Types.{dry_run_annotation}
use wing.Api.Gvkr.{GroupVersionKindResource, group_resource}
use wing.Kubernetes.{Scale}
use wing.Controller.State.{State, Cluster, set_status, status_of, not_ready}

module _ {R : Type 0} where
  -- An annotation that is not there reads as the empty text.
  unfoldable pub dry_run_flag : State R → String
  unfolding lookup
  dry_run_flag s = elim (lookup dry_run_annotation s.autoscaler.annotations) [
    | none ↦ ""
    | some flag ↦ flag
  ]

  unfoldable pub want_replicas : ℤ → State R → State R
  want_replicas desired s = set_status (record (status_of s) { desired_replicas = desired }) s

  unfoldable pub stamp_scale_time : State R → State R
  stamp_scale_time s =
      record (set_status (record (status_of s) { last_scale_time = some (now s.clock) }) s) {
        clock = tick s.clock;
      }

  -- The answer to the update.
  unfoldable pub after_update : Option Error → M (State R) (Unit {0})
  unfolding not_ready stamp_scale_time error_text
  after_update none s = (ok tt, stamp_scale_time s)
  after_update (some e) s =
      (err e, not_ready "FailedToScale" ("Failed to scale target: " <> error_text e) s)

  unfoldable pub scale_replicas :
      Cluster → GroupVersionKindResource → Scale → ℤ → M (State R) (Unit {0})
  unfolding dry_run_flag want_replicas stamp_scale_time after_update group_resource
  scale_replicas cluster gvkr scale desired s =
      let wanted = want_replicas desired s in
      let scaled = record scale { spec_replicas = desired } in
      if eqb_ℤ scale.spec_replicas desired
      then (ok tt, wanted)
      else if dry_run_flag s == "false"
      then after_update (cluster.update_scale (group_resource gvkr) scaled)
          (record wanted { updates = scaled ∷ wanted.updates })
      else (ok tt, stamp_scale_time wanted)

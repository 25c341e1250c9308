-- ===== src/Controller/Target.antt =====
-- controllers/replicaautoscaler_reconcile.go: `getScaleTarget` and `isTargetScalable`, and errors.go.
use wing.Base.{
  if◌then◌else◌, Error, Result, M, bind_at, pure, message, ok, err, panic, String, true, ◌||◌, ◌==◌,
}
use wing.Api.Gvkr.{GroupVersionKindResource, group_resource}
use wing.Kubernetes.{Scale}
use wing.Utils.Gvkr.{
  parse_gvkr, group_resource_text, get_group_resource_known_scalable,
  set_group_resource_known_scalable,
}
use wing.Controller.State.{State, Cluster, Existence, exists, not_found, unknown}

abbrev pub ref_target_is_not_exists : Error
ref_target_is_not_exists = message "ref target is not exists"

abbrev pub ref_target_is_not_scalable : Error
ref_target_is_not_scalable = message "ref target is not scalable"

abbrev pub ref_missing : Error
ref_missing =
    message "autoscaler.Spec.ScaleTargetRef.Name or autoscaler.Spec.ScaleTargetRef.Kind missing"

-- Why a target without a Scale is not scalable.
unfoldable pub unscalable : Existence → Error
unscalable exists = ref_target_is_not_scalable
unscalable not_found = ref_target_is_not_exists
unscalable (unknown e) = e

module _ {R : Type 0} where
  unfoldable pub remember_scalable : String → State R → State R
  unfolding get_group_resource_known_scalable set_group_resource_known_scalable
  remember_scalable key s =
      if (get_group_resource_known_scalable s.known_scalable key).0
      then s
      else record s { known_scalable = set_group_resource_known_scalable s.known_scalable key true }

  -- The Scale, or the error.
  unfoldable pub scale_or_error :
      Cluster → GroupVersionKindResource → String → String → Result Scale → M (State R) Scale
  unfolding unscalable remember_scalable group_resource
  scale_or_error cluster gvkr namespace name (ok scale) s =
      (ok scale, remember_scalable (group_resource_text (group_resource gvkr)) s)
  scale_or_error cluster gvkr namespace name (err e) s =
      (err (unscalable (cluster.get_object gvkr namespace name)), s)
  scale_or_error cluster gvkr namespace name panic s = (panic, s)

  unfoldable pub is_target_scalable :
      Cluster → GroupVersionKindResource → String → String → M (State R) Scale
  unfolding scale_or_error group_resource
  is_target_scalable cluster gvkr namespace name =
      scale_or_error cluster gvkr namespace name
        (cluster.get_scale (group_resource gvkr) namespace name)

  unfoldable pub get_scale_target : Cluster → M (State R) (GroupVersionKindResource × Scale)
  unfolding is_target_scalable parse_gvkr
  get_scale_target cluster s =
      let ref = s.autoscaler.spec.scale_target_ref in
      if ref.name == "" || ref.kind == ""
      then (err ref_missing, s)
      else bind_at (parse_gvkr cluster.mapper ref.api_version ref.kind, s)
          λ gvkr s'.
            bind_at (is_target_scalable cluster gvkr s'.autoscaler.namespace ref.name s')
              λ scale. pure (gvkr, scale)

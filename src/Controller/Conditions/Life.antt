-- ===== src/Controller/Conditions/Life.antt =====
-- The life of an autoscaler: reconciliations in a row, and what happens to it between them.
use wing.Base.{Bool-cases, ok, before, Float64, String, ◌≡◌, sym, subst, ◌⊎◌, inl, inr, true, false}
use wing.Api.Types.{Conditions}
use wing.Api.Condition.{found}
use wing.Api.Condition.Unique.{IsUnique, set_condition-IsUnique, found_stays}
use wing.Utils.Timerange.{TimeLibrary}
use wing.Utils.ReplicaPatches.{PatchCodec}
use wing.Plugins.Simple.{History}
use wing.Plugins.Setup.{Environment, start_engine}
use wing.Controller.State.{State, Cluster}
use wing.Controller.Reconcile.{reconcile}
use wing.Controller.Conditions.{Keeps}
use wing.Controller.Conditions.Program.{engine_plugins, program-Holds}

module _ (F : Type 0) ⦃f : Float64 F⦄ (env : Environment F) (lib : TimeLibrary)
    (json : PatchCodec) where
  -- From one state to a later one. Each reconciliation meets a cluster of its own. Between two of
  -- them anything but the status may change: the spec and the annotations are edited, time
  -- passes, and the program starts anew without the replicator's history.
  pub data Life (s : State History) : State History → Type 0 where
    born : Life s s
    reconciled :
        {t : State History} (cluster : Cluster)
        → Life s t
        → Life s (reconcile F lib json cluster (engine_plugins (start_engine F env).1) t).1
    edited :
        {t : State History} (u : State History)
        → u.autoscaler.status ≡ t.autoscaler.status
        → Life s t
        → Life s u

  Life-Holds :
      (P : Conditions → Type 0) (s t : State History)
      → Keeps P
      → (start_engine F env).0 ≡ ok tt
      → Life s t
      → P s.autoscaler.status.conditions
      → P t.autoscaler.status.conditions
  Life-Holds P s t keeps started born h = h
  Life-Holds P s t keeps started (reconciled {t = before} cluster life) h =
      program-Holds F P env lib json cluster before keeps started
        (Life-Holds P s before keeps started life h)
  Life-Holds P s t keeps started (edited {t = before} u same life) h =
      subst (λ status. P status.conditions) (sym same) (Life-Holds P s before keeps started life h)

  -- If the program starts, then through the whole life of an autoscaler no type of condition stands
  -- twice if none does at its start, and a type that stands there once is never lost.
  pub Life-IsUnique :
      (s t : State History) (type : String)
      → (start_engine F env).0 ≡ ok tt
      → Life s t
      → IsUnique s.autoscaler.status.conditions
      → IsUnique t.autoscaler.status.conditions
        × ((found s.autoscaler.status.conditions type ≡ false)
            ⊎ (found t.autoscaler.status.conditions type ≡ true))
  Life-IsUnique s t type started life unique = (
    Life-Holds IsUnique s t set_condition-IsUnique started life unique,
    elim (Bool-cases (found s.autoscaler.status.conditions type)) [
      | inl stood ↦ inr (
          Life-Holds (λ cs. found cs type ≡ true) s t (λ cs new k. found_stays cs new k type)
            started life stood)
      | inr missing ↦ inl missing
    ],
  )

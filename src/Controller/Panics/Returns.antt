-- ===== src/Controller/Panics/Returns.antt =====
-- The result of a whole reconciliation.
use wing.Base.{Result, ok, err, panic, Duration, Float64, String, ◌≡◌, refl, ◌≢◌}
use wing.Utils.Timerange.{TimeLibrary}
use wing.Utils.ReplicaPatches.{PatchCodec}
use wing.Utils.Timerange.Safety.{IsCalm}
use wing.Controller.State.{State, Cluster, Plugins}
use wing.Controller.Reconcile.{reconcile}
use wing.Controller.Reconcile.Answers.{NoError, reconcile-NoError}
use wing.Controller.Panics.{IsCalmCluster, IsCalmEngine, IsFilled}
use wing.Controller.Panics.Whole.{reconcile-ne-panic}

a_value {ℓ} : {A : Type ℓ} (r : Result A) → NoError r → r ≢ panic → (a : A) × (r ≡ ok a)
a_value (ok a) h k = (a, refl)
a_value (err e) h k = absurd h
a_value panic h k = absurd (k refl)

-- A reconciliation returns a delay, and neither fails nor panics: if no plugin and no library panics,
-- every target has default settings and settings for each of its schedules, and an exhaust setting of
-- type `Pending` has its part.
pub reconcile_returns :
    (F : Type 0) ⦃f : Float64 F⦄ {R : Type 0} (lib : TimeLibrary) (json : PatchCodec)
    (cluster : Cluster) (plugins : Plugins R) (s : State R)
    → IsCalm lib
    → ((text : String) → json.unmarshal text ≢ panic)
    → IsCalmCluster cluster
    → IsCalmEngine plugins
    → IsFilled s.autoscaler.spec
    → (delay : Duration) × ((reconcile F lib json cluster plugins s).0 ≡ ok delay)
reconcile_returns F lib json cluster plugins s times calm_json calm engine filled =
    a_value (reconcile F lib json cluster plugins s).0
      (reconcile-NoError F lib json cluster plugins s)
      (reconcile-ne-panic F lib json cluster plugins times calm_json calm engine s filled)

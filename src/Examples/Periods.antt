-- ===== src/Examples/Periods.antt =====
-- Dates, cron schedules and patches.
use wing.Base.{
  pos, Fails, ok, stopped, stopped-IsMonotonic, ◌≡◌, refl, subst, ◌≢◌, ◌⊎◌, Bool, true, false,
  Option, some, [], ◌∷◌,
}
use wing.Api.Types.{ReplicaPatch, ScheduleTargetSettings}
use wing.Utils.Timerange.{DateScheduler, CronScheduler, cron, new_date_scheduler, contains}
use wing.Utils.ReplicaPatches.{PatchState, purge_unused_replica_patches, get_replica_patches}
use wing.Utils.ReplicaPatches.Laws.{RoundTrips, IsPurged, purge_unused_replica_patches-IsPurged}
use wing.Scheduling.{get_replica_patch, get_scheduler, get_scheduled_settings_raw}
use wing.Scheduling.Laws.{
  Hits, FirstHit, get_replica_patch_outcome, BlockedBy, get_scheduled_settings_raw_first,
}
use wing.Examples.Data.{
  next_instant, previous_instant, utc, patch_json, new_year_patch, patched_autoscaler,
}

abbrev new_year : DateScheduler (Unit {0})
new_year = record {
  timezone = tt;
  raw_start = "2022-01-01 00:00";
  raw_end = "2022-01-02 00:00";
  start_time = pos 100;
  end_time = pos 200;
}

new_year_built : new_date_scheduler utc tt "2022-01-01 00:00" "2022-01-02 00:00" ≡ ok new_year
unfolding new_date_scheduler
new_year_built = refl

-- From a sparse start to a dense end.
abbrev working_hours : CronScheduler (Unit {0}) Bool
working_hours = record {
  timezone = tt;
  raw_start = "0 8 * * *";
  raw_end = "0 20 * * *";
  start_sched = true;
  end_sched = false;
}

abbrev purge_start : PatchState
purge_start = record { autoscaler = patched_autoscaler; clock = stopped (pos 1000) }

patch_json-RoundTrips : RoundTrips patch_json
patch_json-RoundTrips [] text h =
    let e : "[]" ≡ text = cc in subst (λ x. patch_json.unmarshal x ≡ ok (some [])) e refl
patch_json-RoundTrips (p ∷ ps) text h = cc

purge_unused_replica_patches-IsPurged_example :
    let (r, s') = purge_unused_replica_patches utc patch_json purge_start in
    ((r ≡ ok tt) × IsPurged utc patch_json (new_year_patch ∷ []) purge_start s')
    ⊎ ((r ≢ ok tt) × (s'.autoscaler ≡ patched_autoscaler))
unfolding get_replica_patches
purge_unused_replica_patches-IsPurged_example =
    purge_unused_replica_patches-IsPurged utc patch_json purge_start (new_year_patch ∷ [])
      patch_json-RoundTrips (stopped-IsMonotonic (pos 1000)) refl

get_replica_patch_outcome_example :
    ((found : Option ReplicaPatch) × (get_replica_patch utc (pos 150) (new_year_patch ∷ [])
        ≡ ok found)
      × FirstHit utc (pos 150) (new_year_patch ∷ []) found)
    ⊎ (((p : ReplicaPatch) × BlockedBy utc (pos 150) (new_year_patch ∷ []) p)
        × Fails (get_replica_patch utc (pos 150) (new_year_patch ∷ [])))
get_replica_patch_outcome_example = get_replica_patch_outcome utc (pos 150) (new_year_patch ∷ [])

abbrev night : ScheduleTargetSettings
night = record {
  timezone = "UTC";
  start = "0 8 * * *";
  end = "0 20 * * *";
  settings = some "night";
}

night_hit : Hits utc (pos 50) true (get_scheduler utc night)
unfolding get_scheduler contains next_instant previous_instant
night_hit = (cron working_hours, refl, refl)

get_scheduled_settings_raw_first_example :
    get_scheduled_settings_raw utc
      (λ a b. ok b)
      (pos 50)
      (record {
        default = some "day";
        schedules = night ∷ record night { settings = some "other" } ∷ [];
      })
    ≡ ok "night"
get_scheduled_settings_raw_first_example =
    get_scheduled_settings_raw_first utc (λ a b. ok b) (pos 50) "day" "night" []
      (record night { settings = some "other" } ∷ []) night tt night_hit refl

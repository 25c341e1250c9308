-- ===== src/Plugins/Simple/Trace.antt =====
-- Many calls of the simple replicator for one autoscaler.
use wing.Base.{
  ℤ, ◌-ℤ◌, ◌≤ℤ◌, -ℤ_parts, Stands, All-Stands, lookup-insert, Time, Duration, Clock, now, tick,
  IsMonotonic, ◌+◌, ◌≤◌, String, ◌≡◌, refl, sym, ◌∙◌, subst, List, [], ◌∷◌, arith, eq_iff,
}
use wing.Engine.Interfaces.{ReplicatorState}
use wing.Plugins.Simple.{
  TimestampedRecommendation, History, recommendations, stabilized, stabilize_recommendation,
}
use wing.Plugins.Simple.Window.{IsFresh, stabilized_largest, stabilized_keeps}

-- The calls of `stabilizeRecommendation` with these demands, one after another.
unfoldable pub calls :
    Duration → String → List ℤ → ReplicatorState History → ReplicatorState History
calls window key [] s = s
calls window key (d ∷ ds) s = calls window key ds (stabilize_recommendation window key d s).1

-- What one call does to the clock and to the recommendations of its key.
stabilize_recommendation_lem :
    (window : Duration) (key : String) (d : ℤ) (s : ReplicatorState History)
    → let (result, s') = stabilize_recommendation window key d s in
      let out =
        stabilized (now s.clock -ℤ window) (now (tick s.clock)) d (recommendations s.own key) in
      (result ≡ out.0)
      × (recommendations s'.own key ≡ out.1)
      × (s'.clock.reading ≡ s.clock.reading)
      × (s'.clock.reads ≡ s.clock.reads + 2)
unfolding stabilize_recommendation recommendations
stabilize_recommendation_lem window key d s =
    let out =
      stabilized (now s.clock -ℤ window) (now (tick s.clock)) d (recommendations s.own key) in
    (refl, ground (arith, eq_iff key key, lookup-insert key key out.1 s.own), refl, omega arith)

clock-calls :
    (window : Duration) (key : String) (ds : List ℤ) (s : ReplicatorState History)
    → ((calls window key ds s).clock.reading ≡ s.clock.reading)
      × (s.clock.reads ≤ (calls window key ds s).clock.reads)
unfolding calls
clock-calls window key [] s = (refl, omega arith)
clock-calls window key (d ∷ ds) s =
    let (_, _, same, later) = stabilize_recommendation_lem window key d s in
    let (same', later') = clock-calls window key ds (stabilize_recommendation window key d s).1 in
    (same' ∙ same, omega arith)

IsMonotonic-of_reading : (j k : Clock) → j.reading ≡ k.reading → IsMonotonic k → IsMonotonic j
IsMonotonic-of_reading j k e m = λ a b h. rw e (m a b h)

-- What is not older than a late cutoff is not older than an early one.
IsFresh-earlier :
    (window : Duration) (a b : Time) (r : TimestampedRecommendation)
    → a ≤ℤ b
    → IsFresh (b -ℤ window) r
    → IsFresh (a -ℤ window) r
IsFresh-earlier window a b r h fresh = ground (arith, -ℤ_parts a window, -ℤ_parts b window)

-- The time of a call is not after that of the calls behind it.
now-calls :
    (window : Duration) (key : String) (ds : List ℤ) (s : ReplicatorState History)
    → IsMonotonic s.clock
    → now s.clock ≤ℤ now (calls window key ds s).clock
now-calls window key ds s m =
    let (same, later) = clock-calls window key ds s in
    let reads = (calls window key ds s).clock.reads in
    subst (λ reading. now s.clock ≤ℤ reading reads) (sym same) (m s.clock.reads reads later)

-- A recommendation that is still inside the window at the last call was inside it at each call
-- before, and so is still there.
Stands-calls :
    (window : Duration) (key : String) (ds : List ℤ) (s : ReplicatorState History)
    (r : TimestampedRecommendation)
    → IsMonotonic s.clock
    → IsFresh (now (calls window key ds s).clock -ℤ window) r
    → Stands r (recommendations s.own key)
    → Stands r (recommendations (calls window key ds s).own key)
unfolding calls
Stands-calls window key [] s r m fresh stands = stands
Stands-calls window key (d ∷ ds) s r m fresh stands =
    let s' = (stabilize_recommendation window key d s).1 in
    let (_, list, same, _) = stabilize_recommendation_lem window key d s in
    let now_fresh =
      IsFresh-earlier window (now s.clock) (now (calls window key (d ∷ ds) s).clock) r
        (now-calls window key (d ∷ ds) s m) fresh in
    let kept =
      (stabilized_keeps (now s.clock -ℤ window) (now (tick s.clock)) d
          (recommendations s.own key)).1
        r stands now_fresh in
    Stands-calls window key ds s' r (IsMonotonic-of_reading s'.clock s.clock same m) fresh
      (rw list kept)

-- A call with demand `d` holds up every later call for the same autoscaler for as long as the time
-- of the later call, less the window, is not after the time at which `d` was recorded: whatever calls
-- come between, the later recommendation is at least `d`. The clock is assumed not to run backwards.
pub stabilize_recommendation_holds :
    (window : Duration) (key : String) (d : ℤ) (ds : List ℤ) (e : ℤ) (s : ReplicatorState History)
    → IsMonotonic s.clock
    → now (calls window key (d ∷ ds) s).clock -ℤ window ≤ℤ now (tick s.clock)
    → d ≤ℤ (stabilize_recommendation window key e (calls window key (d ∷ ds) s)).0
unfolding calls
stabilize_recommendation_holds window key d ds e s m h =
    let first = (stabilize_recommendation window key d s).1 in
    let last = calls window key ds first in
    let sample : TimestampedRecommendation = record {
      timestamp = now (tick s.clock);
      replicas = d;
    } in
    let (_, list, same, _) = stabilize_recommendation_lem window key d s in
    let (result, _, _, _) = stabilize_recommendation_lem window key e last in
    let fresh : IsFresh (now last.clock -ℤ window) sample = ground arith in
    let added =
      (stabilized_keeps (now s.clock -ℤ window) (now (tick s.clock)) d
        (recommendations s.own key)).0 in
    let still =
      Stands-calls window key ds first sample (IsMonotonic-of_reading first.clock s.clock same m)
        fresh (rw list added) in
    let (_, all, _) =
      stabilized_largest (now last.clock -ℤ window) (now (tick last.clock)) e
        (recommendations last.own key) in
    rw result (All-Stands _ sample (recommendations last.own key) all still fresh)

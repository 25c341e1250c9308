-- ===== src/Utils/PanicMode/Laws.antt =====
-- Laws of utils/panicmode.go.
use wing.Base.{
  if◌then◌else◌, none-ne-some, true-ne-false, ℤ, ◌-ℤ◌, ◌<ℤ◌, ltb_ℤ, eqb_ℤ, ltb_ℤ_iff, pos, Time,
  seconds, Clock, now, tick, Float64, ◌≡◌, refl, sym, ◌≢◌, ◌↔◌, ◌⊎◌, Bool, true, false, not, ◌&&◌,
  ◌||◌, Option, none, some, arith, ◌==◌, eq_iff,
}
use wing.Api.Types.{ReplicaAutoscalerStrategy, ReplicaAutoscalerStatus, Quantity}
use wing.Api.Condition.{get_condition, condition_panic_mode, condition_true}
use wing.Utils.PanicMode.{
  is_panic_mode_configured, reaches, should_enter_panic_mode, is_within, still_in_panic_mode,
  panic_threshold, panic_window, is_some,
}

-- A strategy with both fields of the panic mode: a threshold and a window in seconds.
pub record IsConfigured (strategy : Option ReplicaAutoscalerStrategy) (t : Quantity) (w : ℤ)
    : Type 0 where
  pub set : ReplicaAutoscalerStrategy
  pub is_set : strategy ≡ some set
  pub has_threshold : set.panic_threshold ≡ some t
  pub has_window : set.panic_window_seconds ≡ some w

-- The panic mode is configured, some replicas are wanted, and either none run and more than none
-- are wanted, or the wanted replicas over the running ones reach the threshold.
abbrev pub Enters : (F : Type 0) ⦃f : Float64 F⦄ → ℤ → ℤ → Option ReplicaAutoscalerStrategy → Type 0
Enters F ⦃f⦄ desired current strategy =
    (t : Quantity) × (w : ℤ) × IsConfigured strategy t w
    × (desired ≢ pos 0)
    × (((current ≡ pos 0) × (pos 0 <ℤ desired))
        ⊎ (f.le (f.of_milli t) (f.div (f.of_int desired) (f.of_int current)) ≡ true))

-- The panic mode is configured, its condition is true, and less than the window has passed since
-- the condition last changed.
abbrev pub Stays : ReplicaAutoscalerStatus → Option ReplicaAutoscalerStrategy → Time → Type 0
Stays status strategy at =
    let c = get_condition status.conditions condition_panic_mode in
    (t : Quantity) × (w : ℤ) × IsConfigured strategy t w
    × (c.type ≡ condition_panic_mode)
    × (c.status ≡ condition_true)
    × (at -ℤ c.last_transition_time <ℤ seconds w)

is_panic_mode_configured-IsConfigured :
    (strategy : Option ReplicaAutoscalerStrategy)
    → is_panic_mode_configured strategy ≡ true
    → (t : Quantity) × (w : ℤ) × IsConfigured strategy t w
unfolding is_panic_mode_configured
is_panic_mode_configured-IsConfigured none h = absurd (true-ne-false (sym h))
is_panic_mode_configured-IsConfigured (some set) h =
    both set.panic_threshold set.panic_window_seconds refl refl h
  where
    both :
        (threshold : Option Quantity) (window : Option ℤ)
        → set.panic_threshold ≡ threshold
        → set.panic_window_seconds ≡ window
        → is_some threshold && is_some window ≡ true
        → (t : Quantity) × (w : ℤ) × IsConfigured (some set) t w
    both (some t) (some w) a b q =
        (t, w, record { set = set; is_set = refl; has_threshold = a; has_window = b })
    both none window a b q = absurd (true-ne-false (sym q))
    both (some t) none a b q = absurd (true-ne-false (sym q))

is_panic_mode_configured_of :
    (strategy : Option ReplicaAutoscalerStrategy) (t : Quantity) (w : ℤ)
    → IsConfigured strategy t w
    → (is_panic_mode_configured strategy ≡ true)
      × (panic_threshold strategy ≡ some t)
      × (panic_window strategy ≡ some w)
unfolding is_panic_mode_configured
is_panic_mode_configured_of none t w h = absurd (none-ne-some h.is_set)
is_panic_mode_configured_of (some x) t w h =
    let same : x ≡ h.set = ground arith in
    rw same (rw (h.has_threshold, h.has_window) (refl, refl, refl))

entering :
    (configured : Bool) (desired current : ℤ) (reached : Bool)
    → ((if not configured || eqb_ℤ desired (pos 0)
          then false
          else if eqb_ℤ current (pos 0) && ltb_ℤ (pos 0) desired
          then true
          else reached)
        ≡ true)
      ↔ ((configured ≡ true)
          × (desired ≢ pos 0)
          × (((current ≡ pos 0) × (pos 0 <ℤ desired)) ⊎ (reached ≡ true)))
entering false desired current reached =
    ((λ h. absurd (true-ne-false (sym h))), λ h. absurd (true-ne-false (sym h.0)))
entering true desired current reached =
    ((λ h. (refl, ground arith, ground arith)), λ (_, wanted, why). ground arith)

module _ (F : Type 0) ⦃f : Float64 F⦄ where
  pub should_enter_panic_mode-Enters :
      (desired current : ℤ) (strategy : Option ReplicaAutoscalerStrategy)
      → (should_enter_panic_mode F desired current strategy ≡ true)
        ↔ Enters F desired current strategy
  unfolding should_enter_panic_mode reaches
  should_enter_panic_mode-Enters desired current strategy =
      let enters =
        entering (is_panic_mode_configured strategy) desired current
          (reaches F (panic_threshold strategy) (f.div (f.of_int desired) (f.of_int current))) in
      (
        (λ h.
            let (configured, wanted, why) = enters.0 h in
            let (t, w, c) = is_panic_mode_configured-IsConfigured strategy configured in
            let (_, threshold, _) = is_panic_mode_configured_of strategy t w c in
            (t, w, c, wanted, rw threshold at why)),
        (λ (t, w, c, wanted, why).
            let (configured, threshold, _) = is_panic_mode_configured_of strategy t w c in
            enters.1 (configured, wanted, rw threshold why)),
      )

staying :
    (configured named on : Bool) (early : Bool) (k k' : Clock)
    → ((if◌then◌else◌ {A = Bool × Clock}
          (not configured)
          (false, k)
          (if◌then◌else◌ {A = Bool × Clock} (named && on) (early, k') (false, k))).0
        ≡ true)
      ↔ ((configured ≡ true) × (named ≡ true) × (on ≡ true) × (early ≡ true))
staying configured named on early k k' = ground arith

pub still_in_panic_mode-Stays :
    (status : ReplicaAutoscalerStatus) (strategy : Option ReplicaAutoscalerStrategy) (k : Clock)
    → ((still_in_panic_mode status strategy k).0 ≡ true) ↔ Stays status strategy (now k)
unfolding still_in_panic_mode is_within
still_in_panic_mode-Stays status strategy k =
    let c = get_condition status.conditions condition_panic_mode in
    let stays =
      staying (is_panic_mode_configured strategy) (c.type == condition_panic_mode)
        (c.status == condition_true)
        (is_within (panic_window strategy) c.last_transition_time (now k)) k (tick k) in
    (
      (λ h.
          let (configured, named, on, early) = stays.0 h in
          let (t, w, d) = is_panic_mode_configured-IsConfigured strategy configured in
          let (_, _, window) = is_panic_mode_configured_of strategy t w d in
          let before' : is_within (some w) c.last_transition_time (now k) ≡ true =
            rw window at early in
          (
            t,
            w,
            d,
            (eq_iff c.type condition_panic_mode).0 named,
            (eq_iff c.status condition_true).0 on,
            (ltb_ℤ_iff (now k -ℤ c.last_transition_time) (seconds w)).0 before',
          )),
      (λ (t, w, d, named, on, early).
          let (configured, _, window) = is_panic_mode_configured_of strategy t w d in
          stays.1 (
            configured,
            (eq_iff c.type condition_panic_mode).1 named,
            (eq_iff c.status condition_true).1 on,
            rw window ((ltb_ℤ_iff (now k -ℤ c.last_transition_time) (seconds w)).1 early),
          )),
    )

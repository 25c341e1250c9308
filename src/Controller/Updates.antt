-- ===== src/Controller/Updates.antt =====
-- Which updates of the target a reconciliation sends: what each step leaves of the updates, the
-- annotations and the spec.
pub mod Steps
pub mod Bounded
pub mod Working
pub mod Whole
pub mod Reaches
pub mod Reaching
use wing.Base.{
  if◌then◌else◌, ℤ, Result, M, bind_at, OkThen, ok, err, panic, ◌≡◌, refl, sym, ap, ◌∙◌, Bool, true,
  false, ◌∷◌,
}
use wing.Kubernetes.{Scale}
use wing.Controller.State.{State}
use wing.Controller.Scaling.{dry_run_flag}

module _ {R : Type 0} where
  -- No update is sent, and the annotations and the spec stay.
  pub record Quiet (s t : State R) : Type 0 where
    pub same_updates : t.updates ≡ s.updates
    pub same_annotations : t.autoscaler.annotations ≡ s.autoscaler.annotations
    pub same_spec : t.autoscaler.spec ≡ s.autoscaler.spec

  -- At most one update is sent: only if the dry-run annotation is `false`, and for replicas that
  -- satisfy `P`.
  pub data Sends (P : ℤ → Type 0) (s t : State R) : Type 0 where
    sends_nothing : t.updates ≡ s.updates → Sends P s t
    sends_one :
        (x : Scale)
        → dry_run_flag s ≡ "false"
        → t.updates ≡ x ∷ s.updates
        → P x.spec_replicas
        → Sends P s t

  pub Quiet-refl : (s : State R) → Quiet s s
  Quiet-refl s = record { same_updates = refl; same_annotations = refl; same_spec = refl }

  pub Quiet-trans : {s t u : State R} → Quiet s t → Quiet t u → Quiet s u
  Quiet-trans a b = record {
    same_updates = b.same_updates ∙ a.same_updates;
    same_annotations = b.same_annotations ∙ a.same_annotations;
    same_spec = b.same_spec ∙ a.same_spec;
  }

  pub dry_run_flag_congr :
      (s t : State R)
      → t.autoscaler.annotations ≡ s.autoscaler.annotations
      → dry_run_flag t ≡ dry_run_flag s
  unfolding dry_run_flag
  dry_run_flag_congr s t e = rw e refl

  pub Quiet-then-Sends : (P : ℤ → Type 0) {s t u : State R} → Quiet s t → Sends P t u → Sends P s u
  Quiet-then-Sends P q (sends_nothing f) = sends_nothing (f ∙ q.same_updates)
  Quiet-then-Sends P {s} {t} q (sends_one x flag sent p) =
      sends_one x (sym (dry_run_flag_congr s t q.same_annotations) ∙ flag)
        (sent ∙ ap (◌∷◌ x) q.same_updates) p

  pub Sends-then-Quiet : (P : ℤ → Type 0) {s t u : State R} → Sends P s t → Quiet t u → Sends P s u
  Sends-then-Quiet P (sends_nothing f) q = sends_nothing (q.same_updates ∙ f)
  Sends-then-Quiet P (sends_one x flag sent p) q = sends_one x flag (q.same_updates ∙ sent) p

  pub Sends-map :
      (P Q : ℤ → Type 0) {s t : State R} → ((n : ℤ) → P n → Q n) → Sends P s t → Sends Q s t
  Sends-map P Q h (sends_nothing f) = sends_nothing f
  Sends-map P Q h (sends_one x flag sent p) = sends_one x flag sent (h x.spec_replicas p)

  -- Steps in a row.
  pub bind_at-Quiet {ℓ κ} :
      {A : Type ℓ} {B : Type κ} (s : State R) (x : Result A × State R) (g : A → M (State R) B)
      → Quiet s x.1
      → ((a : A) (t : State R) → Quiet s t → Quiet s (g a t).1)
      → Quiet s (bind_at x g).1
  bind_at-Quiet s (ok a, t) g h k = k a t h
  bind_at-Quiet s (err e, t) g h k = h
  bind_at-Quiet s (panic, t) g h k = h

  pub bind_at-Sends {ℓ κ} :
      {A : Type ℓ} {B : Type κ} (P : ℤ → Type 0) (Good : A → Type 0) (s : State R)
      (x : Result A × State R) (g : A → M (State R) B)
      → Quiet s x.1
      → OkThen Good x.0
      → ((a : A) (t : State R) → Good a → Quiet s t → Sends P s (g a t).1)
      → Sends P s (bind_at x g).1
  bind_at-Sends P Good s (ok a, t) g h good k = k a t good h
  bind_at-Sends P Good s (err e, t) g h good k = sends_nothing h.same_updates
  bind_at-Sends P Good s (panic, t) g h good k = sends_nothing h.same_updates

  pub if-Quiet {ℓ} :
      {A : Type ℓ} (s : State R) (b : Bool) (x y : A × State R)
      → Quiet s x.1
      → Quiet s y.1
      → Quiet s (if b then x else y).1
  if-Quiet s true x y h k = h
  if-Quiet s false x y h k = k

  pub if_state-Quiet :
      (s : State R) (b : Bool) (x y : State R)
      → Quiet s x
      → Quiet s y
      → Quiet s (if b then x else y)
  if_state-Quiet s true x y h k = h
  if_state-Quiet s false x y h k = k

  pub if-Sends {ℓ} :
      {A : Type ℓ} (P : ℤ → Type 0) (s : State R) (b : Bool) (x y : A × State R)
      → (b ≡ true → Sends P s x.1)
      → (b ≡ false → Sends P s y.1)
      → Sends P s (if b then x else y).1
  if-Sends P s true x y h k = h refl
  if-Sends P s false x y h k = k refl

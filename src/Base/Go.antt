-- ===== src/Base/Go.antt =====
-- Go's results. A fallible function returns a value, an error, or panics (a nil dereference, an
-- index out of range); a method that changes a shared object or reads the clock is a function from
-- the state that it may change to a result and the new state.
use Prim.Native.String.{String}
use mathlib.Core.Logic.{◌≢◌}
use mathlib.Core.Path.{◌≡◌, refl}
use mathlib.Core.Option.{Option, none, some}
use wing.Base.Text.{◌<>◌}

-- `message` is errors.New or fmt.Errorf by its text, `wrapped` is fmt.Errorf with an error behind its
-- text, `external` an error that code outside the repository returned.
pub data Error : Type 0 where
  message : String → Error
  wrapped : String → Error → Error
  external : String → Error

-- The text that `%v` and `%s` print of an error.
unfoldable pub error_text : Error → String
error_text (message s) = s
error_text (wrapped s e) = s <> error_text e
error_text (external s) = s

pub data Result {ℓ} (A : Type ℓ) : Type ℓ where
  ok : A → Result A
  err : Error → Result A
  panic : Result A

abbrev pub and_then {ℓ κ} : {A : Type ℓ} {B : Type κ} → Result A → (A → Result B) → Result B
and_then (ok a) f = f a
and_then (err e) f = err e
and_then panic f = panic

-- An error is wrapped in a text, by fmt.Errorf.
abbrev pub explain {ℓ} : {A : Type ℓ} → String → Result A → Result A
explain text (ok a) = ok a
explain text (err e) = err (wrapped text e)
explain text panic = panic

-- A dereference: nil panics.
abbrev pub deref {ℓ} : {A : Type ℓ} → Option A → Result A
deref none = panic
deref (some a) = ok a

-- A computation over a state `S`, which keeps its changes when it fails.
abbrev pub M {ℓ κ} : Type ℓ → Type κ → Type (ℓ ⊔ κ)
M S A = S → Result A × S

abbrev pub bind_at {ℓ κ μ} :
    {S : Type ℓ} {A : Type κ} {B : Type μ} → Result A × S → (A → M S B) → Result B × S
bind_at (ok a, s) f = f a s
bind_at (err e, s) f = (err e, s)
bind_at (panic, s) f = (panic, s)

infixl 5 ◌>>=◌ ◌>>◌
abbrev pub ◌>>=◌ {ℓ κ μ} : {S : Type ℓ} {A : Type κ} {B : Type μ} → M S A → (A → M S B) → M S B
◌>>=◌ m f s = bind_at (m s) f

abbrev pub ◌>>◌ {ℓ κ} : {S : Type ℓ} {B : Type κ} → M S (Unit {0}) → M S B → M S B
◌>>◌ m k s = bind_at (m s) (λ _. k)

abbrev pub pure {ℓ κ} : {S : Type ℓ} {A : Type κ} → A → M S A
pure a s = (ok a, s)

-- A function without effects, run where effects are allowed.
abbrev pub lift {ℓ κ} : {S : Type ℓ} {A : Type κ} → Result A → M S A
lift r s = (r, s)

-- Inversion of a chain that gave a value.
pub and_then-eq-ok {ℓ κ} :
    {A : Type ℓ} {B : Type κ} (m : Result A) (f : A → Result B) {b : B}
    → and_then m f ≡ ok b
    → (a : A) × (m ≡ ok a) × (f a ≡ ok b)
and_then-eq-ok (ok a) f h = (a, refl, h)
and_then-eq-ok (err e) f h = cc
and_then-eq-ok panic f h = cc

pub and_then-ne-panic {ℓ κ} :
    {A : Type ℓ} {B : Type κ} (m : Result A) (f : A → Result B)
    → m ≢ panic
    → ((a : A) → f a ≢ panic)
    → and_then m f ≢ panic
and_then-ne-panic (ok a) f h k = k a
and_then-ne-panic (err e) f h k = λ q. cc
and_then-ne-panic panic f h k = λ q. h refl

pub ok-injective {ℓ} : {A : Type ℓ} {a b : A} → ok a ≡ ok b → a ≡ b
ok-injective h = cc

pub err-ne-ok {ℓ} : {A : Type ℓ} {e : Error} {a : A} → err e ≢ ok a
err-ne-ok h = cc

pub panic-ne-ok {ℓ} : {A : Type ℓ} {a : A} → panic ≢ ok a
panic-ne-ok h = cc

-- An error or a panic.
abbrev pub Fails {ℓ} : {A : Type ℓ} → Result A → Type ℓ
Fails {A} r = (a : A) → r ≢ ok a

-- What holds of a value, if there is one.
abbrev pub OkThen {ℓ} : {A : Type ℓ} → (A → Type 0) → Result A → Type 0
OkThen P (ok a) = P a
OkThen P (err e) = Unit {0}
OkThen P panic = Unit {0}

pub OkThen-inversion {ℓ} :
    {A : Type ℓ} (P : A → Type 0) (r : Result A) → ((a : A) → r ≡ ok a → P a) → OkThen P r
OkThen-inversion P (ok a) h = h a refl
OkThen-inversion P (err e) h = tt
OkThen-inversion P panic h = tt

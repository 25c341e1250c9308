-- ===== src/Plugins/Rabbitmq/Settings/Laws.antt =====
-- Laws of plugins/scaler_rabbitmq/settings.go.
use mathlib.Core.List.{Permᴰ}
use wing.Base.{
  if◌then◌else◌, Bool-cases, Option-cases, All, Result, and_then, and_then-eq-ok, err-ne-ok, ok,
  Float64, String, ◌≡◌, sym, subst, ◌≢◌, ◌⊎◌, inl, inr, Bool, true, false, not, ◌&&◌, Option, none,
  some, List, [], ◌∷◌, arith, ◌==◌, eq_iff,
}
use wing.Plugins.Rabbitmq.Settings.{
  Settings, first_hit, checks, validate, infer_protocol, fill_message_type, mode_message_rate,
  mode_queue_length, message_type_all, message_type_ready, message_type_unacknowledged, is_negative,
}

-- A test that does not hit.
abbrev pub Misses : String × Bool → Type 0
Misses check = check.1 ≡ false

some_is_none :
    (c : String × Bool) (rest : Option String)
    → c.1 ≡ true
    → (if c.1 then some c.0 else rest) ≢ none
some_is_none c rest hit = rw hit (λ e. cc)

known_mode :
    (mode : String)
    → not (mode == mode_message_rate) && not (mode == mode_queue_length) ≡ false
    → (mode ≡ mode_message_rate) ⊎ (mode ≡ mode_queue_length)
known_mode mode h = ground (arith, eq_iff mode mode_message_rate, eq_iff mode mode_queue_length)

first_hit-Misses : (cs : List (String × Bool)) → first_hit cs ≡ none → All Misses cs
unfolding first_hit
first_hit-Misses [] h = tt
first_hit-Misses (c ∷ cs) h = elim (Bool-cases c.1) [
  | inl hit ↦ absurd (some_is_none c (first_hit cs) hit h)
  | inr missed ↦ (missed, first_hit-Misses cs (rw missed at h))
]

All-perm : {A : Type 0} (P : A → Type 0) {xs ys : List A} → Permᴰ xs ys → All P ys → All P xs
All-perm P Permᴰ.nil all = tt
All-perm P (Permᴰ.cons e p) (h, all) = (subst P (sym e) h, All-perm P p all)
All-perm P (Permᴰ.swap e d) (h, (k, all)) = (subst P (sym e) k, (subst P (sym d) h, all))
All-perm P (Permᴰ.trans p q) all = All-perm P p (All-perm P q all)

module _ (F : Type 0) ⦃f : Float64 F⦄ where
  fill_message_type-known :
      (s s' : Settings F)
      → fill_message_type F s ≡ ok s'
      → (s'.message_type ≡ message_type_all)
        ⊎ ((s'.message_type ≡ message_type_unacknowledged) ⊎ (s'.message_type ≡ message_type_ready))
  unfolding fill_message_type
  fill_message_type-known s s' h = ground (
    arith,
    eq_iff s.message_type message_type_all,
    eq_iff s.message_type message_type_unacknowledged,
    eq_iff s.message_type message_type_ready,
  )

  -- In whatever order the map of tests is walked, settings that are accepted have a known mode, a
  -- value that is not zero or less, a queue name and a timeout that is not negative; and as the
  -- validation leaves them, a known type of message.
  pub validate_accepts :
      (parse_scheme : String → Result String) (walk : List (String × Bool) → List (String × Bool))
      (s s' : Settings F)
      → ((cs : List (String × Bool)) → Permᴰ cs (walk cs))
      → validate F parse_scheme walk s ≡ ok s'
      → ((s.mode ≡ mode_message_rate) ⊎ (s.mode ≡ mode_queue_length))
        × (f.le s.value (f.constant 0 1) ≡ false)
        × (s.queue_name ≢ "")
        × (is_negative s.timeout ≡ false)
        × ((s'.message_type ≡ message_type_all)
            ⊎ ((s'.message_type ≡ message_type_unacknowledged)
                ⊎ (s'.message_type ≡ message_type_ready)))
  unfolding validate checks
  validate_accepts parse_scheme walk s s' any h =
      let scheme = parse_scheme s.host in
      elim (Option-cases (first_hit (walk (checks F scheme s)))) [
        | inl clean ↦
            let (mode, (value, (_, (timeout, (queue, _))))) =
              All-perm Misses (any (checks F scheme s))
                (first_hit-Misses (walk (checks F scheme s)) clean) in
            let (text, _, rest) =
              and_then-eq-ok scheme (λ t. and_then (infer_protocol F t s) (fill_message_type F))
                (rw (clean, validate) at h) in
            let (inferred, _, filled) =
              and_then-eq-ok (infer_protocol F text s) (fill_message_type F) rest in
            (
              known_mode s.mode mode,
              value,
              (λ e. let empty : s.queue_name == "" ≡ true = (eq_iff s.queue_name "").1 e in cc),
              timeout,
              fill_message_type-known inferred s' filled,
            )
        | inr (why, hit) ↦ absurd (err-ne-ok (rw (hit, validate) at h))
      ]

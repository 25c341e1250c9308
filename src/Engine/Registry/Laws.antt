-- ===== src/Engine/Registry/Laws.antt =====
-- Laws of the plugin registry.
use wing.Base.{
  if◌then◌else◌, Bool-cases, Option-cases, some-injective, All, Dict, lookup, insert, lookup-insert,
  Result, explain, M, bind_at, err-ne-ok, panic-ne-ok, ok, err, panic, String, ◌≡◌, refl, ap, ◌∙◌,
  subst, ◌≢◌, inl, inr, ◌&&◌, Option, none, some, List, [], ◌∷◌, ◌==◌, eq_iff,
}
use wing.Engine.Registry.{
  Plugin, Provisioner, Registry, plugins_of, get_plugin, register_plugin, set_up, load_endpoint,
  load_plugins, plugin_endpoint_scaler, plugin_endpoint_replicator,
}

-- A chain whose result is a value.
bind_at-eq-ok :
    {A B T : Type 0} (x : Result A × T) (g : A → M T B) (b : B)
    → (bind_at x g).0 ≡ ok b
    → (a : A) × (t : T) × (x ≡ (ok a, t)) × ((g a t).0 ≡ ok b)
bind_at-eq-ok (ok a, t) g b h = (a, t, refl, h)
bind_at-eq-ok (err e, t) g b h = cc
bind_at-eq-ok (panic, t) g b h = cc

-- The same with the state that is left.
pub bind_at-inversion :
    {A B T : Type 0} (x : Result A × T) (g : A → M T B) (b : B) (u : T)
    → bind_at x g ≡ (ok b, u)
    → (a : A) × (t : T) × (x ≡ (ok a, t)) × (g a t ≡ (ok b, u))
bind_at-inversion (ok a, t) g b u h = (a, t, refl, h)
bind_at-inversion (err e, t) g b u h = absurd (err-ne-ok (ap (λ x. x.0) h))
bind_at-inversion (panic, t) g b u h = absurd (panic-ne-ok (ap (λ x. x.0) h))

-- The same of a computation that leaves the state alone.
pub lift-inversion :
    {A B T : Type 0} (r : Result A) (p : T) (g : A → M T B) (b : B) (u : T)
    → bind_at (r, p) g ≡ (ok b, u)
    → (a : A) × (r ≡ ok a) × (g a p ≡ (ok b, u))
lift-inversion (ok a) p g b u h = (a, refl, h)
lift-inversion (err e) p g b u h = absurd (err-ne-ok (ap (λ x. x.0) h))
lift-inversion panic p g b u h = absurd (panic-ne-ok (ap (λ x. x.0) h))

explained :
    {T : Type 0} (text : String) (r : Result (Unit {0})) (p t : T)
    → ◌≡◌ {A = Result (Unit {0}) × T} (explain text r, p) (ok tt, t)
    → ◌≡◌ {A = Result (Unit {0}) × T} (r, p) (ok tt, t)
explained text (ok a) p t h = h
explained text (err e) p t h = absurd (err-ne-ok (ap (λ x. x.0) h))
explained text panic p t h = absurd (panic-ne-ok (ap (λ x. x.0) h))

module _ {S R : Type 0} where
  plugins_of-insert :
      (written endpoint : String) (ps : Dict (Plugin S R)) (registered : Registry S R)
      → plugins_of endpoint (insert written ps registered)
        ≡ (if written == endpoint then ps else plugins_of endpoint registered)
  unfolding plugins_of
  plugins_of-insert written endpoint ps registered = elim (Bool-cases (written == endpoint)) [
    | inl same ↦ rw (lookup-insert written endpoint ps registered, same, plugins_of) refl
    | inr different ↦ rw (lookup-insert written endpoint ps registered, different, plugins_of) refl
  ]

  get_plugin-insert :
      (name : String) (plugin : Plugin S R) (registered : Registry S R)
      (written endpoint other : String)
      → get_plugin endpoint other
          (insert written (insert name plugin (plugins_of written registered)) registered)
        ≡ (if (written == endpoint) && (name == other)
            then some plugin
            else get_plugin endpoint other registered)
  unfolding get_plugin
  get_plugin-insert name plugin registered written endpoint other =
      elim (Bool-cases (written == endpoint)) [
        | inl same ↦
            let e : written ≡ endpoint = (eq_iff written endpoint).0 same in
            rw
              (
                plugins_of-insert written endpoint
                    (insert name plugin (plugins_of written registered)) registered,
                same,
              )
              (lookup-insert name other plugin (plugins_of written registered)
                ∙ ap
                    (λ (x : String).
                      if name == other then some plugin else lookup other (plugins_of x registered))
                    e)
        | inr different ↦
            rw
              (
                plugins_of-insert written endpoint
                    (insert name plugin (plugins_of written registered)) registered,
                different,
              )
              refl
      ]

  -- A plugin that is registered is found under its endpoint and name, and every other pair of an
  -- endpoint and a name finds what it found before.
  pub get-register_plugin :
      (name : String) (plugin : Plugin S R) (before_it after_it : Registry S R)
      (endpoint other : String)
      → register_plugin name plugin before_it ≡ ok after_it
      → get_plugin endpoint other after_it ≡ (
          if (plugin.endpoint == endpoint) && (name == other)
          then some plugin
          else get_plugin endpoint other before_it)
  unfolding register_plugin get_plugin plugins_of
  get-register_plugin name plugin before_it after_it endpoint other h =
      elim (Bool-cases (name == "")) [
        | inl nameless ↦ cc (rw (nameless, register_plugin) at h)
        | inr named ↦ elim (Option-cases (get_plugin plugin.endpoint name before_it)) [
          | inr (old, taken) ↦ cc (rw (named, taken, register_plugin) at h)
          | inl fresh ↦
              let stored = rw (named, fresh, register_plugin) at h in
              let same : insert plugin.endpoint
                    (insert name plugin (plugins_of plugin.endpoint before_it)) before_it
                  ≡ after_it =
                cc in
              subst
                (λ (x : Registry S R). get_plugin endpoint other x ≡ (
                  if (plugin.endpoint == endpoint) && (name == other)
                  then some plugin
                  else get_plugin endpoint other before_it))
                same (get_plugin-insert name plugin before_it plugin.endpoint endpoint other)
        ]
      ]

  set_up_missing :
      (endpoint name : String) (found : Option (Plugin S R)) (p : Provisioner S R) (a : Unit {0})
      (t : Provisioner S R)
      → found ≡ none
      → set_up endpoint name found p ≢ (ok a, t)
  unfolding set_up
  set_up_missing endpoint name none p a t e = λ h. err-ne-ok (ap (λ x. x.0) h)
  set_up_missing endpoint name (some plugin) p a t e = λ h. cc

  set_up-inversion :
      (endpoint name : String) (found : Option (Plugin S R)) (plugin : Plugin S R)
      (p t : Provisioner S R)
      → found ≡ some plugin
      → set_up endpoint name found p ≡ (ok tt, t)
      → plugin.setup p ≡ (ok tt, t)
  unfolding set_up
  set_up-inversion endpoint name none plugin p t e h = cc
  set_up-inversion endpoint name (some other) plugin p t e h =
      subst (λ (x : Plugin S R). x.setup p ≡ (ok tt, t)) (some-injective e)
        (explained _ (other.setup p).0 (other.setup p).1 t h)

  -- A list that is loaded without an error: the setup of the first plugin, and the rest.
  pub load_endpoint-cons :
      (endpoint name : String) (names : List String) (registered : Registry S R)
      (plugin : Plugin S R) (p t : Provisioner S R)
      → get_plugin endpoint name registered ≡ some plugin
      → load_endpoint endpoint registered (name ∷ names) p ≡ (ok tt, t)
      → (q : Provisioner S R) × (plugin.setup p ≡ (ok tt, q))
        × (load_endpoint endpoint registered names q ≡ (ok tt, t))
  unfolding load_endpoint
  load_endpoint-cons endpoint name names registered plugin p t found h =
      let (a, q, first, rest) =
        bind_at-inversion (set_up endpoint name (get_plugin endpoint name registered) p)
          (λ _. load_endpoint endpoint registered names) tt t h in
      (q, set_up-inversion endpoint name _ plugin p q found first, rest)

  -- Every name of a list that is loaded without an error is registered.
  load_endpoint-IsRegistered :
      (endpoint : String) (registered : Registry S R) (names : List String) (p : Provisioner S R)
      → (load_endpoint endpoint registered names p).0 ≡ ok tt
      → All (λ name. get_plugin endpoint name registered ≢ none) names
  unfolding load_endpoint
  load_endpoint-IsRegistered endpoint registered [] p h = tt
  load_endpoint-IsRegistered endpoint registered (name ∷ names) p h =
      let (a, t, first, rest) =
        bind_at-eq-ok (set_up endpoint name (get_plugin endpoint name registered) p)
          (λ _. load_endpoint endpoint registered names) tt h in
      (
        (λ missing. set_up_missing endpoint name _ p a t missing first),
        load_endpoint-IsRegistered endpoint registered names t rest,
      )

  -- If the engine loads, every replicator and every scaler that it lists is registered.
  pub load_plugins-IsRegistered :
      (replicators scalers : List String) (registered : Registry S R) (p : Provisioner S R)
      → (load_plugins replicators scalers registered p).0 ≡ ok tt
      → All (λ name. get_plugin plugin_endpoint_replicator name registered ≢ none) replicators
        × All (λ name. get_plugin plugin_endpoint_scaler name registered ≢ none) scalers
  unfolding load_plugins
  load_plugins-IsRegistered replicators scalers registered p h =
      let (_, t, first, rest) =
        bind_at-eq-ok (load_endpoint plugin_endpoint_replicator registered replicators p)
          (λ _. load_endpoint plugin_endpoint_scaler registered scalers) tt h in
      (
        load_endpoint-IsRegistered plugin_endpoint_replicator registered replicators p
            (ap (λ x. x.0) first),
        load_endpoint-IsRegistered plugin_endpoint_scaler registered scalers t rest,
      )

-- ===== src/Engine/Registry.antt =====
-- core/engine/arc.go and engine.go: the registry of plugins, and the engine that they set up. The
-- lists of names that are loaded are generated by the build.
pub mod Laws
use wing.Base.{
  if◌then◌else◌, Dict, lookup, insert, ◌<>◌, Result, explain, bind_at, message, ok, err, panic,
  String, not, Option, none, some, List, [], ◌∷◌, ◌++◌, ◌==◌,
}

abbrev pub plugin_endpoint_scaler : String
plugin_endpoint_scaler = "Scaler"

abbrev pub plugin_endpoint_replicator : String
plugin_endpoint_replicator = "Replicator"

-- Of the engine what a plugin's setup changes: the scalers `S` and the replicators `R`, by name.
pub record Provisioner (S R : Type 0) : Type 0 where
  pub scalers : Dict S
  pub replicators : Dict R

pub record Plugin (S R : Type 0) : Type 0 where
  pub endpoint : String
  pub setup : Provisioner S R → Result (Unit {0}) × Provisioner S R

-- The plugins by endpoint and name.
abbrev pub Registry : Type 0 → Type 0 → Type 0
Registry S R = Dict (Dict (Plugin S R))

module _ {S R : Type 0} where
  unfoldable pub add_replicator : String → R → Provisioner S R → Provisioner S R
  unfolding insert
  add_replicator name replicator p = record p { replicators = insert name replicator p.replicators }

  unfoldable pub add_scaler : String → S → Provisioner S R → Provisioner S R
  unfolding insert
  add_scaler name scaler p = record p { scalers = insert name scaler p.scalers }

  unfoldable pub get_scaler : String → Provisioner S R → Option S
  unfolding lookup
  get_scaler name p = lookup name p.scalers

  unfoldable pub get_replicator : String → Provisioner S R → Option R
  unfolding lookup
  get_replicator name p = lookup name p.replicators

  -- The plugins of an endpoint; a missing map reads as an empty one.
  unfoldable pub plugins_of : String → Registry S R → Dict (Plugin S R)
  unfolding lookup
  plugins_of endpoint registered = elim (lookup endpoint registered) [ none ↦ [] | some ps ↦ ps ]

  unfoldable pub get_plugin : String → String → Registry S R → Option (Plugin S R)
  unfolding plugins_of lookup
  get_plugin endpoint name registered = lookup name (plugins_of endpoint registered)

  -- The loop over the plugins of an endpoint, of which the names are appended.
  unfoldable pub list_names : String → Dict (Plugin S R) → Dict (List String) → Dict (List String)
  unfolding lookup insert
  list_names endpoint [] names = names
  list_names endpoint (plugin ∷ plugins) names =
      let so_far : List String = elim (lookup endpoint names) [ none ↦ [] | some ns ↦ ns ] in
      list_names endpoint plugins (insert endpoint (so_far ++ (plugin.0 ∷ [])) names)

  unfoldable pub list_from : Registry S R → Dict (List String) → Dict (List String)
  unfolding list_names
  list_from [] names = names
  list_from (entry ∷ rest) names = list_from rest (list_names entry.0 entry.1 names)

  -- The names by endpoint, in the order in which the maps are walked.
  unfoldable pub list_plugins : Registry S R → Dict (List String)
  unfolding list_from
  list_plugins registered = list_from registered []

  -- The registry, or the panic on a missing or repeated name.
  unfoldable pub register_plugin : String → Plugin S R → Registry S R → Result (Registry S R)
  unfolding get_plugin plugins_of insert
  register_plugin name plugin registered =
      if name == "" then panic else elim (get_plugin plugin.endpoint name registered) [
        | some _ ↦ panic
        | none ↦ ok (
            insert plugin.endpoint (insert name plugin (plugins_of plugin.endpoint registered))
              registered)
      ]

  -- The answer of a plugin's setup, by the loop that calls it.
  unfoldable pub set_up :
      String → String → Option (Plugin S R) → Provisioner S R → Result (Unit {0}) × Provisioner S R
  set_up endpoint name none p = (err (message (endpoint <> " plugin " <> name <> " not exists")), p)
  set_up endpoint name (some plugin) p =
      let (r, p') = plugin.setup p in
      (explain (endpoint <> " plugin " <> name <> " failed to setup: ") r, p')

  unfoldable pub load_endpoint :
      String → Registry S R → List String → Provisioner S R → Result (Unit {0}) × Provisioner S R
  unfolding set_up get_plugin
  load_endpoint endpoint registered [] p = (ok tt, p)
  load_endpoint endpoint registered (name ∷ names) p =
      bind_at (set_up endpoint name (get_plugin endpoint name registered) p)
        (λ _. load_endpoint endpoint registered names)

  unfoldable pub load_plugins :
      List String
      → List String
      → Registry S R
      → Provisioner S R
      → Result (Unit {0}) × Provisioner S R
  unfolding load_endpoint
  load_plugins replicators scalers registered p =
      bind_at (load_endpoint plugin_endpoint_replicator registered replicators p)
        (λ _. load_endpoint plugin_endpoint_scaler registered scalers)

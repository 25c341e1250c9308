-- ===== src/Examples/Discovery.antt =====
-- The generator on the repository's plugin.conf, and on one that names a plugin twice.
use wing.Base.{
  lookup, insert, split_on, and_then, ok, err, String, ◌≡◌, refl, ◌⊎◌, Bool, true, List, [], ◌∷◌,
  map, arith,
}
use wing.Discovery.{
  PluginInfo, Reader, PluginMap, initial, scaler_flag, replicator_flag, plugins_at, read_lines,
  gen_directives, gen_imports, is_listed,
}
use wing.Discovery.Declared.{declared, line_of, IsUnique}
use wing.Discovery.Laws.{duplicate, read_lines_outcome}
use wing.Discovery.RoundTrip.{IsPlain, conf_lines, located, read_lines-conf_lines}

abbrev all_local : String → Bool
all_local path = true

abbrev in_order : PluginMap → PluginMap
in_order mapping = mapping

abbrev plugin_conf : List String
plugin_conf =
    "# Directives are registered in the order they should be executed." ∷ "" ∷ ">>> Scaler"
    ∷ "cpu:scaler_cpu" ∷ "memory:scaler_memory" ∷ "prometheus:scaler_prometheus" ∷ ""
    ∷ ">>> Replicator" ∷ "simple:replicator_simple" ∷ []

-- What is written to core/engine/pluginz.go before it is formatted.
directives_of_plugin_conf :
    and_then
      (read_lines all_local plugin_conf initial)
      (λ r. ok (gen_directives "engine" r.plugins_mapping))
    ≡ ok (
        "// generated by generate_plugin_discovery.go; DO NOT EDIT\n\npackage engine\n\n\tvar (\t\n\t\tScalers = []string{\"cpu\",\"memory\",\"prometheus\"}\n\n\t\tReplicators = []string{\"simple\"}\n\t)\n")
unfolding read_lines gen_directives lookup insert split_on
directives_of_plugin_conf = refl

imports_of_plugin_conf :
    and_then
      (read_lines all_local (">>> Scaler" ∷ "cpu:scaler_cpu" ∷ []) initial)
      (λ r. ok (gen_imports in_order "plugin" r.plugins_mapping))
    ≡ ok (
        "// generated by generate_plugin_discovery.go; DO NOT EDIT\n\npackage plugin\n\nimport (\n\t// Include all plugins.\n\t_ \"github.com/xscaling/wing/plugins/scaler_cpu\"\n)\n")
unfolding read_lines gen_imports lookup insert split_on
imports_of_plugin_conf = refl

read_lines_outcome_example :
    ((r : Reader) × (read_lines all_local plugin_conf initial ≡ ok r)
      × ((flag : String)
          → (plugins_at flag r.plugins_mapping
              ≡ declared all_local flag "" (map line_of plugin_conf))
            × IsUnique (plugins_at flag r.plugins_mapping)))
    ⊎ ((name : String) × (read_lines all_local plugin_conf initial ≡ err (duplicate name))
        × ((flag : String) × ¬ IsUnique (declared all_local flag "" (map line_of plugin_conf))))
read_lines_outcome_example = read_lines_outcome all_local plugin_conf

abbrev cpu_info : PluginInfo
cpu_info = record { name = "cpu"; repo = "scaler_cpu" }

abbrev simple_info : PluginInfo
simple_info = record { name = "simple"; repo = "replicator_simple" }

cpu_info-IsPlain : IsPlain cpu_info
cpu_info-IsPlain = record {
  name_Avoids = ground arith;
  repo_Avoids = ground arith;
  no_comment = refl;
}

simple_info-IsPlain : IsPlain simple_info
simple_info-IsPlain = record {
  name_Avoids = ground arith;
  repo_Avoids = ground arith;
  no_comment = refl;
}

read_lines-conf_lines_example :
    (r : Reader) × (read_lines all_local (conf_lines (cpu_info ∷ []) (simple_info ∷ [])) initial
      ≡ ok r)
    × (plugins_at scaler_flag r.plugins_mapping ≡ located all_local (cpu_info ∷ []))
    × (plugins_at replicator_flag r.plugins_mapping ≡ located all_local (simple_info ∷ []))
unfolding is_listed
read_lines-conf_lines_example =
    read_lines-conf_lines all_local (cpu_info ∷ []) (simple_info ∷ []) (cpu_info-IsPlain, tt)
      (simple_info-IsPlain, tt) (refl, tt) (refl, tt)

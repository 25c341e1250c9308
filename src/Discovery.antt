-- ===== src/Discovery.antt =====
-- generate_plugin_discovery.go: the build step that reads plugin.conf and writes the lists of the
-- plugins. The lines of the file, os.Stat, go/format, os.WriteFile, and the order in which a map is
-- walked are arguments.
pub mod Declared
pub mod Laws
pub mod RoundTrip
use wing.Base.{
  ltb, if◌then◌else◌, length, Dict, lookup, insert, ◌<>◌, split_on, Error, Result, and_then, M,
  bind_at, message, ok, err, ◌+◌, String, Bool, false, ◌||◌, Option, none, some, List, [], ◌∷◌,
  ◌++◌, ◌==◌, starts_with,
}

pub record PluginInfo : Type 0 where
  pub name : String
  pub repo : String

abbrev pub PluginMap : Type 0
PluginMap = Dict (List PluginInfo)

abbrev pub plugin_path : String
plugin_path = "github.com/xscaling/wing/plugins/"

abbrev pub plugin_fs_path : String
plugin_fs_path = "plugins/"

abbrev pub header : String
header = "// generated by generate_plugin_discovery.go; DO NOT EDIT\n\n"

abbrev pub scaler_flag_line : String
scaler_flag_line = ">>> Scaler"

abbrev pub replicator_flag_line : String
replicator_flag_line = ">>> Replicator"

-- The keys of the map, which are the values of the flag.
abbrev pub scaler_flag : String
scaler_flag = "scaler"

abbrev pub replicator_flag : String
replicator_flag = "replicator"

-- The variables of the loop over the lines.
pub record Reader : Type 0 where
  pub flag : String
  pub plugins_mapping : PluginMap

abbrev pub initial : Reader
initial = record { flag = ""; plugins_mapping = (scaler_flag, []) ∷ (replicator_flag, []) ∷ [] }

-- A missing key reads as no plugins.
unfoldable pub plugins_at : String → PluginMap → List PluginInfo
unfolding lookup
plugins_at flag mapping = elim (lookup flag mapping) [ none ↦ [] | some ps ↦ ps ]

unfoldable pub is_listed : String → List PluginInfo → Bool
is_listed name [] = false
is_listed name (item ∷ items) = item.name == name || is_listed name items

-- `exists` is whether os.Stat finds the file.
unfoldable pub path_of : (String → Bool) → String → String
path_of exists repo = if exists (plugin_fs_path <> repo) then plugin_path <> repo else repo

-- A line of two fields. The error is log.Fatalf, which ends the program.
unfoldable pub add_plugin : (String → Bool) → String → String → Reader → Result Reader
unfolding plugins_at is_listed path_of insert
add_plugin exists name repo r =
    let items = plugins_at r.flag r.plugins_mapping in
    if is_listed name items
    then err (message ("Duplicate entry \"" <> name <> "\""))
    else ok (record r {
      plugins_mapping =
          insert r.flag (items ++ (record { name = name; repo = path_of exists repo } ∷ []))
            r.plugins_mapping;
    })

unfoldable pub read_fields : (String → Bool) → List String → Reader → Result Reader
unfolding add_plugin
read_fields exists (name ∷ repo ∷ []) r = add_plugin exists name repo r
read_fields exists _ r = ok r

unfoldable pub read_line : (String → Bool) → String → Reader → Result Reader
unfolding read_fields split_on
read_line exists line r =
    if starts_with line "#"
    then ok r
    else if line == scaler_flag_line
    then ok (record r { flag = scaler_flag })
    else if line == replicator_flag_line
    then ok (record r { flag = replicator_flag })
    else read_fields exists (split_on b':' line) r

unfoldable pub read_lines : (String → Bool) → List String → Reader → Result Reader
unfolding read_line
read_lines exists [] r = ok r
read_lines exists (line ∷ lines) r = and_then (read_line exists line r) (read_lines exists lines)

unfoldable pub import_lines : List PluginInfo → String
import_lines [] = ""
import_lines (plugin ∷ plugins) = "\t_ \"" <> plugin.repo <> "\"\n" <> import_lines plugins

unfoldable pub all_imports : PluginMap → String
unfolding import_lines
all_imports [] = ""
all_imports ((flag, plugins) ∷ rest) = import_lines plugins <> all_imports rest

unfoldable pub gen_imports : (PluginMap → PluginMap) → String → PluginMap → String
unfolding plugins_at all_imports
gen_imports walk pack mapping =
    let count =
      length (plugins_at scaler_flag mapping) + length (plugins_at replicator_flag mapping) in
    header
    <> "package "
    <> pack
    <> "\n\nimport ("
    <> (if ltb 0 count then "\n" else "")
    <> "\t// Include all plugins.\n"
    <> all_imports (walk mapping)
    <> ")\n"

-- The names in quotes, and `strings.Join`.
unfoldable pub quoted : List PluginInfo → List String
quoted [] = []
quoted (plugin ∷ plugins) = ("\"" <> plugin.name <> "\"") ∷ quoted plugins

unfoldable pub join_commas : List String → String
join_commas [] = ""
join_commas (s ∷ []) = s
join_commas (s ∷ t ∷ rest) = s <> "," <> join_commas (t ∷ rest)

unfoldable pub gen_directives : String → PluginMap → String
unfolding plugins_at quoted join_commas
gen_directives pack mapping =
    header
    <> "package "
    <> pack
    <> "\n\n\tvar (\t\n\t\tScalers = []string{"
    <> join_commas (quoted (plugins_at scaler_flag mapping))
    <> "}\n\n\t\tReplicators = []string{"
    <> join_commas (quoted (plugins_at replicator_flag mapping))
    <> "}\n\t)\n"

-- The files that are written, by their names.
abbrev pub Files : Type 0
Files = Dict String

-- go/format, and whether os.WriteFile fails.
pub record Output : Type 0 where
  pub format : String → Result String
  pub write_error : String → Option Error

unfoldable pub format_and_write : Output → String → String → M Files (Unit {0})
unfolding insert
format_and_write out file text files =
    bind_at (out.format text, files)
      λ res written. elim (out.write_error file) [
        | none ↦ (ok tt, insert file res written)
        | some e ↦ (err e, written)
      ]

-- The imports first, then the lists. An error is log.Fatalf, which leaves what was written.
unfoldable pub write_all : Output → (PluginMap → PluginMap) → Reader → M Files (Unit {0})
unfolding format_and_write gen_imports gen_directives
write_all out walk r files =
    let mapping = r.plugins_mapping in
    bind_at
      (format_and_write out "core/engine/plugin/pluginz.go" (gen_imports walk "plugin" mapping)
        files)
      λ _. format_and_write out "core/engine/pluginz.go" (gen_directives "engine" mapping)

-- The program, on the lines of the file.
unfoldable pub generate :
    (String → Bool) → Output → (PluginMap → PluginMap) → List String → M Files (Unit {0})
unfolding read_lines write_all
generate exists out walk lines files =
    bind_at (read_lines exists lines initial, files) (write_all out walk)

-- ===== src/Discovery/Laws.antt =====
-- Laws of generate_plugin_discovery.go.
use mathlib.Core.List.{append_assoc, append-nil}
use mathlib.Core.Path.{fun_ext}
use wing.Base.{
  if◌then◌else◌, Bool-cases, true-ne-false, lookup, insert, lookup-insert, ◌<>◌, Error, Result,
  and_then, message, ok, err, String, ◌≡◌, refl, sym, ap, ◌∙◌, subst, ◌⊎◌, inl, inr, Bool, true,
  false, List, [], ◌∷◌, ◌++◌, map, arith, ◌==◌, eq_iff,
}
use wing.Discovery.{
  PluginInfo, PluginMap, Reader, initial, plugins_at, is_listed, add_plugin, read_lines,
}
use wing.Discovery.Declared.{
  Line, skipped, section, declaration, line_of, info, declared, IsUnique, read_of,
  read_line-read_of, IsUnique-before, IsUnique-concat,
}

abbrev read_all : (String → Bool) → List Line → Reader → Result Reader
read_all exists [] r = ok r
read_all exists (line ∷ lines) r = and_then (read_of exists line r) (read_all exists lines)

read_lines-read_all :
    (exists : String → Bool) (lines : List String) (r : Reader)
    → read_lines exists lines r ≡ read_all exists (map line_of lines) r
unfolding read_lines
read_lines-read_all exists [] r = refl
read_lines-read_all exists (line ∷ lines) r =
    ap (λ x. and_then x (read_lines exists lines)) (read_line-read_of exists line r)
    ∙ ap (and_then (read_of exists (line_of line) r)) (fun_ext (read_lines-read_all exists lines))

plugins_at-insert :
    (written flag : String) (ps : List PluginInfo) (mapping : PluginMap)
    → plugins_at flag (insert written ps mapping)
      ≡ (if written == flag then ps else plugins_at flag mapping)
unfolding plugins_at
plugins_at-insert written flag ps mapping = elim (Bool-cases (written == flag)) [
  | inl same ↦ rw (lookup-insert written flag ps mapping, same, plugins_at) refl
  | inr other ↦ rw (lookup-insert written flag ps mapping, other, plugins_at) refl
]

-- The reader after a declaration whose name is new.
abbrev added : (String → Bool) → String → String → Reader → Reader
added exists name repo r = record r {
  plugins_mapping =
      insert r.flag (plugins_at r.flag r.plugins_mapping ++ (info exists name repo ∷ []))
        r.plugins_mapping;
}

abbrev pub duplicate : String → Error
duplicate name = message ("Duplicate entry \"" <> name <> "\"")

add_plugin_new :
    (exists : String → Bool) (name repo : String) (r : Reader)
    → is_listed name (plugins_at r.flag r.plugins_mapping) ≡ false
    → add_plugin exists name repo r ≡ ok (added exists name repo r)
unfolding add_plugin
add_plugin_new exists name repo r e = rw e refl

add_plugin_old :
    (exists : String → Bool) (name repo : String) (r : Reader)
    → is_listed name (plugins_at r.flag r.plugins_mapping) ≡ true
    → add_plugin exists name repo r ≡ err (duplicate name)
unfolding add_plugin
add_plugin_old exists name repo r e = rw e refl

-- What a reader has of a section, and what the lines still declare.
abbrev expected : (String → Bool) → String → List Line → Reader → List PluginInfo
expected exists flag lines r =
    plugins_at flag r.plugins_mapping ++ declared exists flag r.flag lines

expected-added :
    (exists : String → Bool) (flag name repo : String) (lines : List Line) (r : Reader)
    → expected exists flag lines (added exists name repo r)
      ≡ expected exists flag (declaration name repo ∷ lines) r
unfolding declared
expected-added exists flag name repo lines r = elim (Bool-cases (r.flag == flag)) [
  | inl same ↦
      let rest = info exists name repo ∷ declared exists flag r.flag lines in
      rw (plugins_at-insert r.flag flag _ r.plugins_mapping, same)
        (append_assoc (plugins_at r.flag r.plugins_mapping) (info exists name repo ∷ [])
            (declared exists flag r.flag lines)
          ∙ ap (λ (x : String). plugins_at x r.plugins_mapping ++ rest)
              ((eq_iff r.flag flag).0 same))
  | inr other ↦ rw (plugins_at-insert r.flag flag _ r.plugins_mapping, other) refl
]

-- The invariant: no section has a name twice.
abbrev pub AllUnique : PluginMap → Type 0
AllUnique mapping = (flag : String) → IsUnique (plugins_at flag mapping)

added-AllUnique :
    (exists : String → Bool) (name repo : String) (r : Reader)
    → AllUnique r.plugins_mapping
    → is_listed name (plugins_at r.flag r.plugins_mapping) ≡ false
    → AllUnique (added exists name repo r).plugins_mapping
added-AllUnique exists name repo r all new flag = elim (Bool-cases (r.flag == flag)) [
  | inl same ↦
      rw (plugins_at-insert r.flag flag _ r.plugins_mapping, same)
        (IsUnique-concat (plugins_at r.flag r.plugins_mapping) (info exists name repo) (all r.flag)
          new)
  | inr other ↦ rw (plugins_at-insert r.flag flag _ r.plugins_mapping, other) (all flag)
]

-- A file is read whole, or it ends at a name that its section has twice.
abbrev Outcome : (String → Bool) → List Line → Reader → Result Reader → Type 0
Outcome exists lines r result =
    ((r' : Reader) × (result ≡ ok r')
      × ((flag : String) → plugins_at flag r'.plugins_mapping ≡ expected exists flag lines r)
      × AllUnique r'.plugins_mapping)
    ⊎ ((name : String) × (result ≡ err (duplicate name))
        × ((flag : String) × ¬ IsUnique (expected exists flag lines r)))

-- The two ways of a declaration.
Outcome-old :
    (exists : String → Bool) (name repo : String) (lines : List Line) (r : Reader)
    → is_listed name (plugins_at r.flag r.plugins_mapping) ≡ true
    → ¬ IsUnique (expected exists r.flag (declaration name repo ∷ lines) r)
unfolding declared
Outcome-old exists name repo lines r old =
    let here : (r.flag == r.flag) ≡ true = (eq_iff r.flag r.flag).1 refl in
    rw here λ u. true-ne-false (
      sym old
      ∙ IsUnique-before (plugins_at r.flag r.plugins_mapping) (info exists name repo)
          (declared exists r.flag r.flag lines) u)

Outcome-new :
    (exists : String → Bool) (name repo : String) (lines : List Line) (r : Reader)
    (result : Result Reader)
    → Outcome exists lines (added exists name repo r) result
    → Outcome exists (declaration name repo ∷ lines) r result
Outcome-new exists name repo lines r result (inl (r', e, same, all)) =
    inl (r', e, (λ flag. same flag ∙ expected-added exists flag name repo lines r), all)
Outcome-new exists name repo lines r result (inr (twice, e, (flag, u))) =
    inr
      (twice, e, (flag, subst (λ x. ¬ IsUnique x) (expected-added exists flag name repo lines r) u))

read_all-Outcome :
    (exists : String → Bool) (lines : List Line) (r : Reader)
    → AllUnique r.plugins_mapping
    → Outcome exists lines r (read_all exists lines r)
unfolding declared
read_all-Outcome exists [] r all =
    inl (r, refl, (λ flag. sym (append-nil (plugins_at flag r.plugins_mapping))), all)
read_all-Outcome exists (skipped ∷ lines) r all = read_all-Outcome exists lines r all
read_all-Outcome exists (section s ∷ lines) r all =
    read_all-Outcome exists lines (record r { flag = s }) all
read_all-Outcome exists (declaration name repo ∷ lines) r all =
    let later = λ (new : is_listed name (plugins_at r.flag r.plugins_mapping) ≡ false).
      read_all-Outcome exists lines (added exists name repo r)
        (added-AllUnique exists name repo r all new) in
    elim (Bool-cases (is_listed name (plugins_at r.flag r.plugins_mapping))) [
      | inl old ↦ inr (
        name,
        rw (add_plugin_old exists name repo r old) refl,
        (r.flag, Outcome-old exists name repo lines r old),
      )
      | inr new ↦
          rw (add_plugin_new exists name repo r new)
            (Outcome-new exists name repo lines r _ (later new))
    ]

initial_empty : (flag : String) → plugins_at flag initial.plugins_mapping ≡ []
unfolding plugins_at lookup
initial_empty flag = ground arith

initial-AllUnique : AllUnique initial.plugins_mapping
initial-AllUnique flag = rw (initial_empty flag) tt

-- A plugin.conf is read into the lists that it declares for each section, in their order and with
-- no name twice; or it declares for some section a name twice, and the program ends with an error.
pub read_lines_outcome :
    (exists : String → Bool) (lines : List String)
    → ((r : Reader) × (read_lines exists lines initial ≡ ok r)
        × ((flag : String)
            → (plugins_at flag r.plugins_mapping ≡ declared exists flag "" (map line_of lines))
              × IsUnique (plugins_at flag r.plugins_mapping)))
      ⊎ ((name : String) × (read_lines exists lines initial ≡ err (duplicate name))
          × ((flag : String) × ¬ IsUnique (declared exists flag "" (map line_of lines))))
read_lines_outcome exists lines = rw (read_lines-read_all exists lines initial) (
    from_initial (read_all exists (map line_of lines) initial)
      (read_all-Outcome exists (map line_of lines) initial initial-AllUnique))
  where
    from_initial :
        (result : Result Reader)
        → Outcome exists (map line_of lines) initial result
        → ((r : Reader) × (result ≡ ok r)
            × ((flag : String)
                → (plugins_at flag r.plugins_mapping ≡ declared exists flag "" (map line_of lines))
                  × IsUnique (plugins_at flag r.plugins_mapping)))
          ⊎ ((name : String) × (result ≡ err (duplicate name))
              × ((flag : String) × ¬ IsUnique (declared exists flag "" (map line_of lines))))
    from_initial result (inl (r, e, same, all)) =
        inl (r, e, λ flag. (rw (initial_empty flag) at (same flag), all flag))
    from_initial result (inr (name, e, (flag, u))) =
        inr (name, e, (flag, rw (initial_empty flag) at u))

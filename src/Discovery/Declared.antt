-- ===== src/Discovery/Declared.antt =====
-- What a plugin.conf declares, without the loop: the plugins of each section, in their order.
use wing.Base.{
  if◌then◌else◌, Bool-cases, split_on, Result, ok, String, ◌≡◌, refl, inl, inr, Bool, false, List,
  [], ◌∷◌, ◌++◌, arith, ◌==◌, starts_with, eq_iff,
}
use wing.Discovery.{
  PluginInfo, Reader, scaler_flag_line, replicator_flag_line, scaler_flag, replicator_flag,
  is_listed, path_of, add_plugin, read_fields, read_line,
}

-- What a line says.
pub data Line : Type 0 where
  skipped : Line
  section : String → Line
  declaration : String → String → Line

abbrev pub fields_line : List String → Line
fields_line (name ∷ repo ∷ []) = declaration name repo
fields_line _ = skipped

unfoldable pub line_of : String → Line
line_of line =
    if starts_with line "#"
    then skipped
    else if line == scaler_flag_line
    then section scaler_flag
    else if line == replicator_flag_line
    then section replicator_flag
    else fields_line (split_on b':' line)

abbrev pub info : (String → Bool) → String → String → PluginInfo
info exists name repo = record { name = name; repo = path_of exists repo }

-- The plugins of the section `flag`, where the lines start in the section `current`.
unfoldable pub declared : (String → Bool) → String → String → List Line → List PluginInfo
declared exists flag current [] = []
declared exists flag current (skipped ∷ lines) = declared exists flag current lines
declared exists flag current (section s ∷ lines) = declared exists flag s lines
declared exists flag current (declaration name repo ∷ lines) =
    let rest = declared exists flag current lines in
    if current == flag then info exists name repo ∷ rest else rest

-- No name stands twice.
abbrev pub IsUnique : List PluginInfo → Type 0
IsUnique [] = Unit {0}
IsUnique (p ∷ ps) = (is_listed p.name ps ≡ false) × IsUnique ps

abbrev pub read_of : (String → Bool) → Line → Reader → Result Reader
read_of exists skipped r = ok r
read_of exists (section s) r = ok (record r { flag = s })
read_of exists (declaration name repo) r = add_plugin exists name repo r

read_fields-read_of :
    (exists : String → Bool) (fields : List String) (r : Reader)
    → read_fields exists fields r ≡ read_of exists (fields_line fields) r
unfolding read_fields
read_fields-read_of exists [] r = refl
read_fields-read_of exists (a ∷ []) r = refl
read_fields-read_of exists (a ∷ b ∷ []) r = refl
read_fields-read_of exists (a ∷ b ∷ c ∷ rest) r = refl

pub read_line-read_of :
    (exists : String → Bool) (line : String) (r : Reader)
    → read_line exists line r ≡ read_of exists (line_of line) r
unfolding read_line line_of
read_line-read_of exists line r = elim (Bool-cases (starts_with line "#")) [
  | inl a ↦ rw (a, read_line, line_of) refl
  | inr a ↦ elim (Bool-cases (line == scaler_flag_line)) [
    | inl b ↦ rw (a, b, read_line, line_of) refl
    | inr b ↦ elim (Bool-cases (line == replicator_flag_line)) [
      | inl c ↦ rw (a, b, c, read_line, line_of) refl
      | inr c ↦ rw (a, b, c, read_line, line_of) (read_fields-read_of exists (split_on b':' line) r)
    ]
  ]
]

is_listed-append :
    (name : String) (ps : List PluginInfo) (p : PluginInfo) (qs : List PluginInfo)
    → is_listed name (ps ++ (p ∷ qs)) ≡ false
    → (is_listed name ps ≡ false) × (p.name == name ≡ false)
unfolding is_listed
is_listed-append name [] p qs h = (refl, ground arith)
is_listed-append name (q ∷ ps) p qs h =
    let ih = is_listed-append name ps p qs (ground arith) in (ground (arith, ih), ih.1)

is_listed-concat :
    (name : String) (ps : List PluginInfo) (p : PluginInfo)
    → is_listed name ps ≡ false
    → p.name == name ≡ false
    → is_listed name (ps ++ (p ∷ [])) ≡ false
unfolding is_listed
is_listed-concat name [] p h e = ground arith
is_listed-concat name (q ∷ ps) p h e = ground (arith, is_listed-concat name ps p)

-- A name that stands before makes the list not unique.
pub IsUnique-before :
    (ps : List PluginInfo) (p : PluginInfo) (qs : List PluginInfo)
    → IsUnique (ps ++ (p ∷ qs))
    → is_listed p.name ps ≡ false
unfolding is_listed
IsUnique-before [] p qs u = refl
IsUnique-before (q ∷ ps) p qs (fresh, u) =
    let (_, other) = is_listed-append q.name ps p qs fresh in
    ground (arith, eq_iff q.name p.name, eq_iff p.name q.name, IsUnique-before ps p qs u)

pub IsUnique-concat :
    (ps : List PluginInfo) (p : PluginInfo)
    → IsUnique ps
    → is_listed p.name ps ≡ false
    → IsUnique (ps ++ (p ∷ []))
unfolding is_listed
IsUnique-concat [] p u h = (refl, tt)
IsUnique-concat (q ∷ ps) p (fresh, u) h = (
  is_listed-concat q.name ps p fresh (ground (arith, eq_iff q.name p.name, eq_iff p.name q.name)),
  IsUnique-concat ps p u (ground arith),
)

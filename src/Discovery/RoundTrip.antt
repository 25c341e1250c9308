-- ===== src/Discovery/RoundTrip.antt =====
-- A plugin.conf that is written in the documented format is read back by
-- generate_plugin_discovery.go.
use Prim.Native.Char.{code}
use text.Mathlib.TextLemmas.{cons-append, nil-append}
use wing.Base.{
  eqb, if◌then◌else◌, Bool-cases, All, ◌<>◌, split_on, eq-false_of_ne, ok, ℕ, String, ◌≡◌, refl,
  sym, ap, ◌∙◌, subst, ◌≢◌, inl, inr, Bool, false, List, [], ◌∷◌, ◌++◌, map, arith, ◌==◌,
  starts_with, eq_iff,
}
use mathlib.Core.List.{append-nil}
use wing.Discovery.{
  is_listed, PluginInfo, Reader, initial, scaler_flag, replicator_flag, scaler_flag_line,
  replicator_flag_line, plugins_at, read_lines,
}
use wing.Discovery.Declared.{declaration, line_of, info, declared, IsUnique}
use wing.Discovery.Laws.{read_lines_outcome}

-- No character of the text has this code.
abbrev pub Avoids : ℕ → String → Type 0
Avoids at String.[] = Unit {0}
Avoids at (String.◌∷◌ c s) = (eqb (code c) at ≡ false) × Avoids at s

split_on-Avoids : (at : ℕ) (s : String) → Avoids at s → split_on at s ≡ s ∷ []
unfolding split_on
split_on-Avoids at String.[] a = refl
split_on-Avoids at (String.◌∷◌ c s) (e, a) = rw (e, split_on-Avoids at s a) refl

split_on-separator : (t : String) → split_on b':' (":" <> t) ≡ "" ∷ split_on b':' t
unfolding split_on
split_on-separator t =
    ap (split_on b':') (cons-append ":" "" t)
    ∙ ap (λ (x : String). "" ∷ split_on b':' x) (nil-append t)

split_on-colon :
    (s t : String) → Avoids b':' s → split_on b':' (s <> (":" <> t)) ≡ s ∷ split_on b':' t
unfolding split_on
split_on-colon String.[] t a = ap (split_on b':') (nil-append (":" <> t)) ∙ split_on-separator t
split_on-colon (String.◌∷◌ c s) t (e, a) =
    ap (split_on b':') (cons-append c s (":" <> t)) ∙ rw (e, split_on-colon s t a) refl

-- A plugin of the file: a name that is no comment, and neither field has a colon.
pub record IsPlain (p : PluginInfo) : Type 0 where
  pub name_Avoids : Avoids b':' p.name
  pub repo_Avoids : Avoids b':' p.repo
  pub no_comment : starts_with (p.name <> (":" <> p.repo)) "#" ≡ false

abbrev pub plugin_line : PluginInfo → String
plugin_line p = p.name <> (":" <> p.repo)

-- The file of two lists of plugins.
abbrev pub conf_lines : List PluginInfo → List PluginInfo → List String
conf_lines scalers replicators =
    scaler_flag_line
    ∷ (map plugin_line scalers ++ (replicator_flag_line ∷ map plugin_line replicators))

split_plugin_line :
    (p : PluginInfo) → IsPlain p → split_on b':' (plugin_line p) ≡ p.name ∷ p.repo ∷ []
split_plugin_line p plain =
    split_on-colon p.name p.repo plain.name_Avoids
    ∙ ap (◌∷◌ p.name) (split_on-Avoids b':' p.repo plain.repo_Avoids)

-- A line without a colon is not that of a plugin.
not_flag_line :
    (p : PluginInfo) (flag_line : String)
    → IsPlain p
    → Avoids b':' flag_line
    → plugin_line p == flag_line ≡ false
not_flag_line p flag_line plain bare = eq-false_of_ne (plugin_line p) flag_line λ e. one-ne-two (
    sym (split_on-Avoids b':' flag_line bare)
    ∙ (ap (split_on b':') (sym e) ∙ split_plugin_line p plain))
  where
    one-ne-two : {a b c : String} → a ∷ [] ≢ b ∷ c ∷ []
    one-ne-two h = cc

line_of-plugin_line :
    (p : PluginInfo) → IsPlain p → line_of (plugin_line p) ≡ declaration p.name p.repo
unfolding line_of
line_of-plugin_line p plain =
    rw
      (
        plain.no_comment,
        not_flag_line p scaler_flag_line plain (ground arith),
        not_flag_line p replicator_flag_line plain (ground arith),
        split_plugin_line p plain,
      )
      refl

-- The plugins as the generator finds their packages.
abbrev pub located : (String → Bool) → List PluginInfo → List PluginInfo
located exists [] = []
located exists (p ∷ ps) = info exists p.name p.repo ∷ located exists ps

declared-plugins :
    (exists : String → Bool) (flag current : String) (ps : List PluginInfo) (rest : List String)
    → All IsPlain ps
    → declared exists flag current (map line_of (map plugin_line ps ++ rest))
      ≡ (if current == flag then located exists ps else [])
        ++ declared exists flag current (map line_of rest)
unfolding declared
declared-plugins exists flag current [] rest plain = elim (Bool-cases (current == flag)) [
  | inl e ↦ rw e refl
  | inr e ↦ rw e refl
]
declared-plugins exists flag current (p ∷ ps) rest (q, plain) =
    let ih = declared-plugins exists flag current ps rest plain in
    elim (Bool-cases (current == flag)) [
      | inl e ↦ rw (line_of-plugin_line p q, e) (ap (◌∷◌ (info exists p.name p.repo)) (rw e at ih))
      | inr e ↦ rw (line_of-plugin_line p q, e) (rw e at ih)
    ]

-- What the file declares in any section.
conf_lines-declare :
    (exists : String → Bool) (flag : String) (scalers replicators : List PluginInfo)
    → All IsPlain scalers
    → All IsPlain replicators
    → declared exists flag "" (map line_of (conf_lines scalers replicators))
      ≡ (if scaler_flag == flag then located exists scalers else [])
        ++ (if replicator_flag == flag then located exists replicators else [])
unfolding declared line_of
conf_lines-declare exists flag scalers replicators plain plain' =
    let last : declared exists flag replicator_flag (map line_of (map plugin_line replicators))
        ≡ (if replicator_flag == flag then located exists replicators else []) =
      ap (λ x. declared exists flag replicator_flag (map line_of x))
        (sym (append-nil (map plugin_line replicators)))
      ∙ (declared-plugins exists flag replicator_flag replicators [] plain' ∙ append-nil _) in
    declared-plugins exists flag scaler_flag scalers
      (replicator_flag_line ∷ map plugin_line replicators) plain
    ∙ ap (λ x. (if scaler_flag == flag then located exists scalers else []) ++ x) last

is_listed-located :
    (exists : String → Bool) (name : String) (ps : List PluginInfo)
    → is_listed name (located exists ps) ≡ is_listed name ps
unfolding is_listed
is_listed-located exists name [] = refl
is_listed-located exists name (p ∷ ps) = rw (is_listed-located exists name ps) refl

located-IsUnique :
    (exists : String → Bool) (ps : List PluginInfo) → IsUnique ps → IsUnique (located exists ps)
located-IsUnique exists [] u = tt
located-IsUnique exists (p ∷ ps) (fresh, u) =
    (is_listed-located exists p.name ps ∙ fresh, located-IsUnique exists ps u)

-- Whatever the section, the file declares no name twice.
conf_lines-IsUnique :
    (exists : String → Bool) (flag : String) (scalers replicators : List PluginInfo)
    → IsUnique scalers
    → IsUnique replicators
    → IsUnique (
        (if scaler_flag == flag then located exists scalers else [])
        ++ (if replicator_flag == flag then located exists replicators else []))
conf_lines-IsUnique exists flag scalers replicators u u' = elim (Bool-cases (scaler_flag == flag)) [
  | inl e ↦
      let e' : replicator_flag == flag ≡ false =
        subst (λ (x : String). replicator_flag == x ≡ false) ((eq_iff scaler_flag flag).0 e) refl in
      rw (e, e', append-nil (located exists scalers)) (located-IsUnique exists scalers u)
  | inr e ↦ elim (Bool-cases (replicator_flag == flag)) [
    | inl e' ↦ rw (e, e') (located-IsUnique exists replicators u')
    | inr e' ↦ rw (e, e') tt
  ]
]

-- A file in the documented format, with no name twice in a section, is read back: the generator has
-- exactly the plugins of the two lists, in their order.
pub read_lines-conf_lines :
    (exists : String → Bool) (scalers replicators : List PluginInfo)
    → All IsPlain scalers
    → All IsPlain replicators
    → IsUnique scalers
    → IsUnique replicators
    → (r : Reader) × (read_lines exists (conf_lines scalers replicators) initial ≡ ok r)
      × (plugins_at scaler_flag r.plugins_mapping ≡ located exists scalers)
      × (plugins_at replicator_flag r.plugins_mapping ≡ located exists replicators)
read_lines-conf_lines exists scalers replicators plain plain' u u' =
    let says = λ (flag : String). conf_lines-declare exists flag scalers replicators plain plain' in
    elim (read_lines_outcome exists (conf_lines scalers replicators)) [
      | inl (r, e, all) ↦ (
        r,
        e,
        (all scaler_flag).0 ∙ (says scaler_flag ∙ append-nil (located exists scalers)),
        (all replicator_flag).0 ∙ says replicator_flag,
      )
      | inr (name, e, (flag, twice)) ↦ absurd (
          twice (
            subst IsUnique (sym (says flag))
              (conf_lines-IsUnique exists flag scalers replicators u u')))
    ]

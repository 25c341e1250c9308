-- ===== src/Base/Lists.antt =====
-- Lists measured by native numbers, and maps with text keys as association lists.
use Prim.Native.Nat.{ℕ, suc, ◌+◌}
use Prim.Native.String.{String}
use mathlib.Core.Path.{◌≡◌, refl, subst}
use mathlib.Core.Logic.{◌⊎◌, inl, inr}
use mathlib.Core.Bool.{true}
use mathlib.Core.Option.{Option, none, some}
use mathlib.Core.List.{List, [], ◌∷◌, ◌++◌}
use native.Mathlib.Omega.{arith}
use text.Mathlib.Text.{◌==◌}
use text.Mathlib.TextEquality.{eq_iff}
use wing.Base.Tests.{Bool-cases, some-injective, none-ne-some, if◌then◌else◌}

module _ {ℓ} {A : Type ℓ} where
  abbrev pub length : List A → ℕ
  length [] = 0
  length (x ∷ xs) = suc (length xs)

  pub length-append : (xs ys : List A) → length (xs ++ ys) ≡ length xs + length ys
  length-append [] ys = omega arith
  length-append (x ∷ xs) ys = omega (arith, length-append xs ys)

  -- A predicate of every element.
  abbrev pub All {κ} : (A → Type κ) → List A → Type κ
  All P [] = Unit
  All P (x ∷ xs) = P x × All P xs

  pub All-append {κ} : (P : A → Type κ) (xs ys : List A) → All P xs → All P ys → All P (xs ++ ys)
  All-append P [] ys h k = k
  All-append P (x ∷ xs) ys (h, hs) k = (h, All-append P xs ys hs k)

-- An element of a list, at some place of it.
abbrev pub Stands : {A : Type 0} → A → List A → Type 0
Stands r [] = ⊥
Stands r (x ∷ xs) = (x ≡ r) ⊎ Stands r xs

pub Stands-append :
    {A : Type 0} (r : A) (xs ys : List A) → Stands r xs ⊎ Stands r ys → Stands r (xs ++ ys)
Stands-append r [] ys (inl s) = elim s [ ]
Stands-append r [] ys (inr s) = s
Stands-append r (x ∷ xs) ys (inl (inl e)) = inl e
Stands-append r (x ∷ xs) ys (inl (inr s)) = inr (Stands-append r xs ys (inl s))
Stands-append r (x ∷ xs) ys (inr s) = inr (Stands-append r xs ys (inr s))

pub All-Stands : {A : Type 0} (P : A → Type 0) (r : A) (xs : List A) → All P xs → Stands r xs → P r
All-Stands P r [] all s = elim s [ ]
All-Stands P r (x ∷ xs) (p, all) (inl e) = subst P e p
All-Stands P r (x ∷ xs) (p, all) (inr s) = All-Stands P r xs all s

-- A Go map with text keys: every key once, in the order of its first insertion.
abbrev pub Dict {ℓ} : Type ℓ → Type ℓ
Dict V = List (String × V)

module _ {ℓ} {V : Type ℓ} where
  -- Reading a missing key gives nothing: Go's second result is false.
  unfoldable pub lookup : String → Dict V → Option V
  lookup key [] = none
  lookup key (entry ∷ rest) = if entry.0 == key then some entry.1 else lookup key rest

  -- `m[key] = value`.
  unfoldable pub insert : String → V → Dict V → Dict V
  insert key value [] = (key, value) ∷ []
  insert key value (entry ∷ rest) =
      if entry.0 == key then (key, value) ∷ rest else entry ∷ insert key value rest

  -- `delete(m, key)`.
  unfoldable pub delete : String → Dict V → Dict V
  delete key [] = []
  delete key (entry ∷ rest) = if entry.0 == key then delete key rest else entry ∷ delete key rest

  pub lookup-insert :
      (written read : String) (value : V) (dict : Dict V)
      → lookup read (insert written value dict)
        ≡ (if written == read then some value else lookup read dict)
  unfolding lookup insert
  lookup-insert written read value [] = refl
  lookup-insert written read value ((other, w) ∷ rest) = ground (
    arith,
    lookup-insert written read value rest,
    eq_iff other written,
    eq_iff other read,
    eq_iff written read,
  )

  pub lookup-insert_self :
      (key : String) (value : V) (dict : Dict V) → lookup key (insert key value dict) ≡ some value
  lookup-insert_self key value dict =
      let same : (key == key) ≡ true = (eq_iff key key).1 refl in
      rw (lookup-insert key key value dict, same) refl

  pub lookup-delete :
      (gone read : String) (dict : Dict V)
      → lookup read (delete gone dict) ≡ (if gone == read then none else lookup read dict)
  unfolding lookup delete
  lookup-delete gone read [] = ground arith
  lookup-delete gone read ((other, w) ∷ rest) =
      ground (
        arith,
        lookup-delete gone read rest,
        eq_iff other gone,
        eq_iff other read,
        eq_iff gone read,
      )

  -- What holds of every value holds of one that is read.
  pub lookup-All {κ} :
      (Q : V → Type κ) (key : String) (dict : Dict V) (value : V)
      → All (λ entry. Q entry.1) dict
      → lookup key dict ≡ some value
      → Q value
  unfolding lookup
  lookup-All Q key [] value all h = absurd (none-ne-some h)
  lookup-All Q key (entry ∷ rest) value (q, qs) h = elim (Bool-cases (entry.0 == key)) [
    | inl here ↦ subst Q (some-injective (rw (here, lookup) at h)) q
    | inr there ↦ lookup-All Q key rest value qs (rw (there, lookup) at h)
  ]

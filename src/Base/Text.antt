-- ===== src/Base/Text.antt =====
-- Text: decimal numbers, and the splitting of a text at blanks.
use Prim.Native.Nat.{ℕ, zero, suc, ◌/◌, ◌%◌}
use Prim.Native.Char.{Char, code}
use Prim.Native.String.{String, ◌++◌}
use mathlib.Core.Path.{◌≡◌, refl}
use mathlib.Core.Logic.{◌≢◌, inl, inr}
use mathlib.Core.Bool.{Bool, true, false, ◌||◌}
use mathlib.Core.List.{List, [], ◌∷◌}
use text.Mathlib.Text.{◌==◌}
use text.Mathlib.TextEquality.{eq_iff}
use wing.Base.Tests.{Bool-cases, ltb, eqb, if◌then◌else◌}
use wing.Base.Int.{ℤ, pos, negsuc}

infixr 66 ◌<>◌
-- Go's `+` on strings.
abbrev pub ◌<>◌ : String → String → String
s <> t = s ++ t

digit : ℕ → String
digit zero = "0"
digit (suc zero) = "1"
digit (suc (suc zero)) = "2"
digit (suc (suc (suc zero))) = "3"
digit (suc (suc (suc (suc zero)))) = "4"
digit (suc (suc (suc (suc (suc zero))))) = "5"
digit (suc (suc (suc (suc (suc (suc zero)))))) = "6"
digit (suc (suc (suc (suc (suc (suc (suc zero))))))) = "7"
digit (suc (suc (suc (suc (suc (suc (suc (suc zero)))))))) = "8"
digit _ = "9"

-- A number below 10 ^ 20 has at most 20 digits, so an int64 is printed whole.
decimal : ℕ → ℕ → String
unfolding digit
decimal zero n = ""
decimal (suc fuel) n =
    let front = decimal fuel (n / 10) in if ltb n 10 then digit n else front <> digit (n % 10)

-- What the verb %d prints.
unfoldable pub itoa : ℤ → String
unfolding decimal
itoa (pos n) = decimal 20 n
itoa (negsuc n) = "-" <> decimal 20 (suc n)

-- The fields of `strings.Split(s, " ")`: the list before the first blank grows from its end.
unfoldable pub split_blanks : String → List String
split_blanks String.[] = "" ∷ []
split_blanks (String.◌∷◌ c s) = start (eqb (code c) 32) (split_blanks s)
  where
    start : Bool → List String → List String
    start true fields = "" ∷ fields
    start false [] = []
    start false (f ∷ fields) = String.◌∷◌ c f ∷ fields

-- A separator starts a field, another character joins the first one.
abbrev pub prepend : Bool → Char → List String → List String
prepend true c fields = "" ∷ fields
prepend false c [] = []
prepend false c (f ∷ fields) = String.◌∷◌ c f ∷ fields

-- `strings.Split` at one character, given by its code.
unfoldable pub split_on : ℕ → String → List String
split_on at String.[] = "" ∷ []
split_on at (String.◌∷◌ c s) = prepend (eqb (code c) at) c (split_on at s)

-- `strings.ContainsAny(s, "*/-,")`.
unfoldable pub contains_range_character : String → Bool
contains_range_character String.[] = false
contains_range_character (String.◌∷◌ c s) =
    eqb (code c) b'*'
    || eqb (code c) b'/'
    || eqb (code c) b'-'
    || eqb (code c) b','
    || contains_range_character s

pub eq-false_of_ne : (s t : String) → s ≢ t → s == t ≡ false
eq-false_of_ne s t different = elim (Bool-cases (s == t)) [
  | inl same ↦ absurd (different ((eq_iff s t).0 same))
  | inr other ↦ other
]

itoa_test : itoa (negsuc 1041) ≡ "-1042"
unfolding itoa
itoa_test = refl

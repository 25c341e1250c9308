-- ===== src/Base/Float.antt =====
-- What the code does with a float64. The type and its operations are a parameter of the model;
-- `exact` is one such type, fractions without rounding, on which examples run.
use Prim.Native.Nat.{ℕ, suc, ◌+◌, ◌-◌, ◌*◌, ◌/◌}
use mathlib.Core.Bool.{Bool}
use wing.Base.Tests.{eqb, if◌then◌else◌}
use wing.Base.Int.{ℤ, pos, negsuc, sub_ℕ, ◌+ℤ◌, ◌-ℤ◌, ◌*ℤ◌, quot, ltb_ℤ, leb_ℤ, eqb_ℤ}
use wing.Base.Word.{wrap32, wrap64}

pub record Float64 (F : Type 0) : Type 0 where
  -- float64(n), and the decimal constant a / b.
  pub of_int : ℤ → F
  pub constant : ℕ → ℕ → F
  pub add : F → F → F
  pub sub : F → F → F
  pub mul : F → F → F
  pub div : F → F → F
  pub abs : F → F
  pub ceil : F → F
  pub lt : F → F → Bool
  pub le : F → F → Bool
  pub eq : F → F → Bool
  -- int32(x) and int64(x), and what `AsApproximateFloat64` gives for thousandths.
  pub to_int32 : F → ℤ
  pub to_int64 : F → ℤ
  pub of_milli : ℤ → F
  -- math.MaxFloat64.
  pub max_float : F

-- A numerator over a denominator.
abbrev pub Exact : Type 0
Exact = ℤ × ℕ

abbrev divide : ℤ → ℕ → ℤ → ℕ → Exact
unfolding ◌*ℤ◌
divide a b (pos c) d = (a *ℤ pos d, b * c)
divide a b (negsuc c) d = (sub_ℕ 0 d *ℤ a, b * suc c)

abbrev absolute : ℤ → ℤ
absolute (pos n) = pos n
absolute (negsuc n) = pos (suc n)

abbrev ceiling : ℤ → ℕ → ℤ
ceiling (pos n) d = pos ((n + d - 1) / d)
ceiling (negsuc n) d = sub_ℕ 0 (suc n / d)

unfoldable pub exact : Float64 Exact
unfolding ◌+ℤ◌ ◌-ℤ◌ ◌*ℤ◌ quot wrap32 wrap64
exact = record {
  of_int = λ n. (n, 1);
  constant = λ a b. (pos a, b);
  add = λ x y. (x.0 *ℤ pos y.1 +ℤ y.0 *ℤ pos x.1, x.1 * y.1);
  sub = λ x y. (x.0 *ℤ pos y.1 -ℤ y.0 *ℤ pos x.1, x.1 * y.1);
  mul = λ x y. (x.0 *ℤ y.0, x.1 * y.1);
  div = λ x y. divide x.0 x.1 y.0 y.1;
  abs = λ x. (absolute x.0, x.1);
  ceil = λ x. if eqb x.1 0 then x else (ceiling x.0 x.1, 1);
  lt = λ x y. ltb_ℤ (x.0 *ℤ pos y.1) (y.0 *ℤ pos x.1);
  le = λ x y. leb_ℤ (x.0 *ℤ pos y.1) (y.0 *ℤ pos x.1);
  eq = λ x y. eqb_ℤ (x.0 *ℤ pos y.1) (y.0 *ℤ pos x.1);
  to_int32 = λ x. wrap32 (quot x.0 (pos x.1));
  to_int64 = λ x. wrap64 (quot x.0 (pos x.1));
  of_milli = λ n. (n, 1000);
  max_float = (pos 1_000_000_000_000_000_000_000, 1);
}

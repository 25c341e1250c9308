-- ===== src/Base/Word.antt =====
-- Two's complement: what an int32 or int64 holds after an operation whose exact value is `z`.
use Prim.Native.Nat.{ℕ, ◌+◌, ◌-◌, ◌%◌, ◌^◌}
use mathlib.Core.Path.{◌≡◌, refl}
use native.Mathlib.Omega.{arith}
use wing.Base.Tests.{ltb, if◌then◌else◌}
use wing.Base.Int.{ℤ, pos, negsuc, sub_ℕ, ◌+ℤ◌}

-- The bit pattern of `z` in 64 bits, as a number below 2 ^ 64.
abbrev pub bits64 : ℤ → ℕ
bits64 (pos n) = n % 2 ^ 64
bits64 (negsuc n) = 2 ^ 64 - 1 - n % 2 ^ 64

unfoldable pub wrap64 : ℤ → ℤ
wrap64 z = if ltb (bits64 z) (2 ^ 63) then pos (bits64 z) else negsuc (2 ^ 64 - 1 - bits64 z)

abbrev pub bits32 : ℤ → ℕ
bits32 (pos n) = n % 2 ^ 32
bits32 (negsuc n) = 2 ^ 32 - 1 - n % 2 ^ 32

unfoldable pub wrap32 : ℤ → ℤ
wrap32 z = if ltb (bits32 z) (2 ^ 31) then pos (bits32 z) else negsuc (2 ^ 32 - 1 - bits32 z)

-- int64 addition.
unfoldable pub add64 : ℤ → ℤ → ℤ
add64 a b = wrap64 (a +ℤ b)

-- The bit pattern of an integer that is written as a difference.
bits64-sub_ℕ : (a b : ℕ) → bits64 (sub_ℕ a b) ≡ (a % 2 ^ 64 + 2 ^ 64 - b % 2 ^ 64) % 2 ^ 64
bits64-sub_ℕ a b = ground arith

bits64-+ℤ : (a b : ℤ) → bits64 (a +ℤ b) ≡ (bits64 a + bits64 b) % 2 ^ 64
unfolding ◌+ℤ◌
bits64-+ℤ a b = ground arith

bits64-wrap64 : (z : ℤ) → bits64 (wrap64 z) ≡ bits64 z
unfolding wrap64
bits64-wrap64 z = ground arith

wrap64_congr : (x y : ℤ) → bits64 x ≡ bits64 y → wrap64 x ≡ wrap64 y
unfolding wrap64
wrap64_congr x y h = ground arith

-- The order of two summands does not matter, whatever wraps.
pub add64_swap : (s a b : ℤ) → add64 (add64 s a) b ≡ add64 (add64 s b) a
unfolding add64
add64_swap s a b = wrap64_congr (wrap64 (s +ℤ a) +ℤ b) (wrap64 (s +ℤ b) +ℤ a) (
    omega (
      arith,
      bits64-+ℤ (wrap64 (s +ℤ a)) b,
      bits64-+ℤ (wrap64 (s +ℤ b)) a,
      bits64-wrap64 (s +ℤ a),
      bits64-wrap64 (s +ℤ b),
      bits64-+ℤ s a,
      bits64-+ℤ s b,
    ))

wrap32_id : wrap32 (negsuc 4) ≡ negsuc 4
unfolding wrap32
wrap32_id = refl

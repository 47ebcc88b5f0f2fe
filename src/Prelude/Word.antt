-- ===== src/Prelude/Word.antt =====
-- The 64-bit integers of the program: `i64` as an integer in its range, with the wrap-around of a
-- release build written out.
use Prim.Native.Nat.{ℕ, ◌-◌, ◌%◌, ◌^◌, ◌<◌, ◌≤◌}
use mathlib.Core.Path.{◌≡◌}
use native.Mathlib.Omega.{arith}
use spritexai_pay_core.Prelude.Tests.{ltb, if◌then◌else◌}
use spritexai_pay_core.Prelude.Int.{ℤ, pos, negsuc, pos_part, neg_part, ◌+ℤ◌, -ℤ◌, ◌*ℤ◌}

-- The bit pattern of the low 64 bits.
abbrev pub u64_of : ℤ → ℕ
u64_of (pos n) = n % 2 ^ 64
u64_of (negsuc n) = 2 ^ 64 - 1 - n % 2 ^ 64

-- The signed reading of a bit pattern.
abbrev pub i64_of : ℕ → ℤ
i64_of u = if ltb u (2 ^ 63) then pos u else negsuc (2 ^ 64 - 1 - u)

unfoldable pub wrap64 : ℤ → ℤ
wrap64 a = i64_of (u64_of a)

unfoldable pub add64 : ℤ → ℤ → ℤ
add64 a b = wrap64 (a +ℤ b)

unfoldable pub mul64 : ℤ → ℤ → ℤ
mul64 a b = wrap64 (a *ℤ b)

unfoldable pub neg64 : ℤ → ℤ
neg64 a = wrap64 (-ℤ◌ a)

-- The range of `i64`.
abbrev pub InI64 : ℤ → Type 0
InI64 a = (pos_part a < 2 ^ 63) × (neg_part a ≤ 2 ^ 63)

pub wrap64_id : (a : ℤ) → InI64 a → wrap64 a ≡ a
unfolding wrap64
wrap64_id (pos n) h = ground arith
wrap64_id (negsuc n) h = ground arith

pub wrap64-InI64 : (a : ℤ) → InI64 (wrap64 a)
unfolding wrap64
wrap64-InI64 (pos n) = ground arith
wrap64-InI64 (negsuc n) = ground arith

-- The negation of a positive amount does not overflow.
pub neg64-pos : (n : ℕ) → n < 2 ^ 63 → neg64 (pos n) ≡ -ℤ◌ (pos n)
unfolding neg64 wrap64 -ℤ◌
neg64-pos n h = ground arith

-- Wrapping a part of a sum first makes no difference.
pub wrap64-add : (a b : ℤ) → wrap64 (wrap64 a +ℤ b) ≡ wrap64 (a +ℤ b)
unfolding wrap64 ◌+ℤ◌
wrap64-add a b = ground arith

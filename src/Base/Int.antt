-- ===== src/Base/Int.antt =====
-- The integers, as differences of natural numbers.
use Prim.Native.Nat.{ℕ, suc, ◌-◌, ◌<◌}
use mathlib.Core.Path.{◌≡◌}
use mathlib.Core.Logic.{◌≢◌}
use mathlib.Core.Bool.{Bool, true, false}
use native.Mathlib.Omega.{arith}
use c_ares.Base.Tests.{leb, if◌then◌else◌}

pub data ℤ : Type 0 where
  pos negsuc : ℕ → ℤ

-- `a - b` in an `int`, of small values
abbrev pub sub : ℕ → ℕ → ℤ
sub a b = if leb b a then pos (a - b) else negsuc (b - a - 1)

abbrev pub is_neg : ℤ → Bool
is_neg (pos n) = false
is_neg (negsuc n) = true

abbrev pub neg : ℤ → ℤ
neg (pos n) = if leb n 0 then pos 0 else negsuc (n - 1)
neg (negsuc n) = pos (suc n)

pub neg-sub : (a b : ℕ) → neg (sub a b) ≡ sub b a
neg-sub a b = ground arith

pub sub-is_neg : (a b : ℕ) → is_neg (sub a b) ≡ true → a < b
sub-is_neg a b h = ground arith

pub is_neg-sub : (a b : ℕ) → a < b → is_neg (sub a b) ≡ true
is_neg-sub a b h = ground arith

pub sub_ne : (a b : ℕ) → a ≢ b → sub a b ≢ pos 0
sub_ne a b h e = ground arith

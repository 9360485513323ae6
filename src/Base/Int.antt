-- ===== src/Base/Int.antt =====
-- Signed integers over the native numbers, and a 32-bit `int` read off its bit pattern.
use lua_mtint.Base.Tests.{ltb, leb, if◌then◌else◌}
use Prim.Native.Nat.{ℕ, suc, ◌+◌, ◌-◌, ◌*◌, ◌^◌}
use mathlib.Core.Bool.{Bool, true, ◌&&◌}
use mathlib.Core.Path.{◌≡◌}
use native.Mathlib.Omega.{arith}

-- `negsuc n` is -(n + 1).
pub data ℤ : Type 0 where
  pos : ℕ → ℤ
  negsuc : ℕ → ℤ

abbrev pub pos_part : ℤ → ℕ
pos_part (pos n) = n
pos_part (negsuc n) = 0

abbrev pub neg_part : ℤ → ℕ
neg_part (pos n) = 0
neg_part (negsuc n) = suc n

abbrev pub ltb_ℤ : ℤ → ℤ → Bool
ltb_ℤ a b = ltb (pos_part a + neg_part b) (pos_part b + neg_part a)

abbrev pub eqb_ℤ : ℤ → ℤ → Bool
eqb_ℤ a b =
    leb (pos_part a + neg_part b) (pos_part b + neg_part a)
    && leb (pos_part b + neg_part a) (pos_part a + neg_part b)

-- a + k and a * k at a number k.
abbrev pub add_ℕ : ℤ → ℕ → ℤ
add_ℕ (pos a) k = pos (a + k)
add_ℕ (negsuc a) k = if ltb a k then pos (k - suc a) else negsuc (a - k)

abbrev pub mul_ℕ : ℤ → ℕ → ℤ
mul_ℕ (pos a) k = pos (a * k)
mul_ℕ (negsuc a) k = if ltb 0 k then negsuc (suc a * k - 1) else pos 0

-- The `int` whose two's complement pattern is `w`, below 2 ^ 32.
abbrev pub signed32 : ℕ → ℤ
signed32 w = if ltb w (2 ^ 31) then pos w else negsuc (2 ^ 32 - suc w)

-- Whether an `int` of 32 bits has the value.
abbrev pub is_int : ℤ → Bool
is_int (pos n) = ltb n (2 ^ 31)
is_int (negsuc n) = ltb n (2 ^ 31)

pub eqb_ℤ_parts : (a b : ℤ) → eqb_ℤ a b ≡ true → pos_part a ≡ pos_part b
eqb_ℤ_parts (pos a) (pos b) h = ground arith
eqb_ℤ_parts a b h = ground arith

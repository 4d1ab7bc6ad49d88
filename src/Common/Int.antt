-- ===== src/Common/Int.antt =====
-- Signed integers over the native numbers (the library's ℤ stands on the unary ones), and the
-- bounds of the C++ type int32_t.
use Prim.Native.Nat.{ℕ, suc, ◌+◌, ◌-◌, ◌≤◌, ◌<◌}
use mathlib.Core.Path.{◌≡◌, refl}
use mathlib.Core.Logic.{◌↔◌}
use mathlib.Core.Bool.{Bool, true, false}
use native.Mathlib.Omega.{arith}
use aim_server.Common.Tests.{ltb, leb, ◌==◌, if◌then◌else◌}

-- `negsuc n` is -(n + 1).
pub data ℤ : Type 0 where
  pos : ℕ → ℤ
  negsuc : ℕ → ℤ

abbrev pub pos_part : ℤ → ℕ
pos_part (pos n) = n
pos_part (negsuc n) = 0

abbrev pub neg_part : ℤ → ℕ
neg_part (pos n) = 0
neg_part (negsuc n) = suc n

infix 50 ◌<ℤ◌ ◌≤ℤ◌
abbrev pub ◌≤ℤ◌ : ℤ → ℤ → Type 0
a ≤ℤ b = pos_part a + neg_part b ≤ pos_part b + neg_part a

abbrev pub ◌<ℤ◌ : ℤ → ℤ → Type 0
a <ℤ b = pos_part a + neg_part b < pos_part b + neg_part a

abbrev pub ltb_ℤ : ℤ → ℤ → Bool
ltb_ℤ a b = ltb (pos_part a + neg_part b) (pos_part b + neg_part a)

abbrev pub leb_ℤ : ℤ → ℤ → Bool
leb_ℤ a b = leb (pos_part a + neg_part b) (pos_part b + neg_part a)

-- Equality of integers as a test; its law is `eqb_iff`.
unfoldable pub eqb : ℤ → ℤ → Bool
eqb (pos a) (pos b) = a == b
eqb (negsuc a) (negsuc b) = a == b
eqb _ _ = false

pub eqb_iff : (a b : ℤ) → (eqb a b ≡ true) ↔ (a ≡ b)
unfolding eqb
eqb_iff (pos a) (pos b) = ground arith
eqb_iff (negsuc a) (negsuc b) = ground arith
eqb_iff (pos a) (negsuc b) = ground arith
eqb_iff (negsuc a) (pos b) = ground arith

pub eqb_refl : (a : ℤ) → eqb a a ≡ true
eqb_refl a = (eqb_iff a a).1 refl

abbrev pub int32_max : ℤ
int32_max = pos 2147483647

abbrev pub int32_min : ℤ
int32_min = negsuc 2147483647

-- `x + 1` on int32_t: it wraps at the largest value.
pub succ_int32 : ℤ → ℤ
succ_int32 (pos n) = if n == 2147483647 then int32_min else pos (n + 1)
succ_int32 (negsuc n) = if n == 0 then pos 0 else negsuc (n - 1)

-- Below a bound within int32_t the step is by one.
pub succ_int32-grows :
    (a b : ℤ) → a <ℤ b → b ≤ℤ int32_max → (a <ℤ succ_int32 a) × (succ_int32 a ≤ℤ b)
unfolding succ_int32
succ_int32-grows (pos n) b h k = ground arith
succ_int32-grows (negsuc n) b h k = ground arith

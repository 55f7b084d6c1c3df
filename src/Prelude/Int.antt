-- ===== src/Prelude/Int.antt =====
-- Signed integers over the native numbers, and the two's complement form of 64 bits.
use Prim.Native.Nat.{ℕ, suc, ◌+◌, ◌-◌, ◌≤◌, ◌<◌, ◌^◌}
use mathlib.Core.Path.{◌≡◌}
use mathlib.Core.Bool.{Bool}
use native.Mathlib.Omega.{arith}
use ledger_avalanche.Prelude.Tests.{ltb, leb, if◌then◌else◌}

-- `negsuc n` is -(n + 1).
pub data ℤ : Type 0 where
  pos : ℕ → ℤ
  negsuc : ℕ → ℤ

abbrev pub pos_part : ℤ → ℕ
pos_part (pos n) = n
pos_part (negsuc n) = 0

abbrev pub neg_part : ℤ → ℕ
neg_part (pos n) = 0
neg_part (negsuc n) = suc n

abbrev pub leb_ℤ : ℤ → ℤ → Bool
leb_ℤ a b = leb (pos_part a + neg_part b) (pos_part b + neg_part a)

infix 50 ◌<ℤ◌
abbrev pub ◌<ℤ◌ : ℤ → ℤ → Type 0
a <ℤ b = pos_part a + neg_part b < pos_part b + neg_part a

abbrev pub IsI64 : ℤ → Type 0
IsI64 a = (pos_part a < 2 ^ 63) × (neg_part a ≤ 2 ^ 63)

-- The `i64` that a 64-bit pattern stands for, and the pattern of an `i64`.
unfoldable pub u64_to_i64 : ℕ → ℤ
u64_to_i64 n = if ltb n (2 ^ 63) then pos n else negsuc (2 ^ 64 - 1 - n)

unfoldable pub i64_to_u64 : ℤ → ℕ
i64_to_u64 (pos n) = n
i64_to_u64 (negsuc n) = 2 ^ 64 - 1 - n

pub u64_to_i64-i64_to_u64 : (a : ℤ) → IsI64 a → u64_to_i64 (i64_to_u64 a) ≡ a
unfolding u64_to_i64 i64_to_u64
u64_to_i64-i64_to_u64 (pos n) h = ground arith
u64_to_i64-i64_to_u64 (negsuc n) h = ground arith

pub i64_to_u64-u64_to_i64 :
    (n : ℕ) → n < 2 ^ 64 → (i64_to_u64 (u64_to_i64 n) ≡ n) × IsI64 (u64_to_i64 n)
unfolding u64_to_i64 i64_to_u64
i64_to_u64-u64_to_i64 n h = ground arith

pub i64_to_u64-lt : (a : ℤ) → IsI64 a → i64_to_u64 a < 2 ^ 64
unfolding i64_to_u64
i64_to_u64-lt (pos n) h = omega arith
i64_to_u64-lt (negsuc n) h = omega arith

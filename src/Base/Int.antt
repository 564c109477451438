-- ===== src/Base/Int.antt =====
-- Signed integers over the native numbers, and the casts between `u64` and `i64`.
use Prim.Native.Nat.{ℕ, suc, ◌+◌, ◌-◌, ◌^◌, ◌<◌}
use mathlib.Core.Path.{◌≡◌}
use native.Mathlib.Omega.{arith}
use solana_smart_tx.Base.Tests.{ltb, leb, if◌then◌else◌}

-- `negsuc n` is -(n + 1).
pub data ℤ : Type 0 where
  pos : ℕ → ℤ
  negsuc : ℕ → ℤ

abbrev pos_part : ℤ → ℕ
pos_part (pos n) = n
pos_part (negsuc n) = 0

abbrev neg_part : ℤ → ℕ
neg_part (pos n) = 0
neg_part (negsuc n) = suc n

-- a - b, as an integer.
abbrev sub_ℕ : ℕ → ℕ → ℤ
sub_ℕ a b = if leb b a then pos (a - b) else negsuc (b - a - 1)

infixl 65 ◌-ℤ◌
unfoldable pub ◌-ℤ◌ : ℤ → ℤ → ℤ
a -ℤ b = sub_ℕ (pos_part a + neg_part b) (neg_part a + pos_part b)

abbrev pub u64_bound : ℕ
u64_bound = 2 ^ 64

-- `n as i64`: two's complement.
unfoldable pub to_i64 : ℕ → ℤ
to_i64 n = if ltb n (2 ^ 63) then pos n else negsuc (2 ^ 64 - 1 - n)

-- `n as u64`.
unfoldable pub from_i64 : ℤ → ℕ
from_i64 (pos n) = n
from_i64 (negsuc n) = 2 ^ 64 - 1 - n

pub from_i64-to_i64 : (n : ℕ) → n < u64_bound → from_i64 (to_i64 n) ≡ n
unfolding from_i64 to_i64
from_i64-to_i64 n h = ground arith

-- ===== src/Prelude/Integers.antt =====
-- Integers over the native numbers, and Go's 64-bit `int`.
use Prim.Native.Nat.{ℕ, zero, suc, ◌+◌, ◌-◌, ◌%◌}
use mathlib.Core.Bool.{Bool, true, false}
use tradeverse_api.Prelude.Tests.{ltb, if◌then◌else◌}
use tradeverse_api.Prelude.Words.{u64_mod}

pub data ℤ : Type 0 where
  pos : ℕ → ℤ
  -- negsuc n is - (n + 1)
  negsuc : ℕ → ℤ

-- `n == 0`
abbrev pub is_zero : ℤ → Bool
is_zero (ℤ.pos zero) = true
is_zero (ℤ.pos (suc n)) = false
is_zero (ℤ.negsuc n) = false

-- 2 ^ 63
abbrev pub i64_half : ℕ
i64_half = 9223372036854775808

-- What the 64-bit `int` holds after an operation whose exact result is not negative.
abbrev pub int64 : ℕ → ℤ
int64 n = let m = n % u64_mod in if ltb m i64_half then ℤ.pos m else ℤ.negsuc (u64_mod - 1 - m)

-- The same when the exact result is - (n + 1).
abbrev pub int64_negsuc : ℕ → ℤ
int64_negsuc n =
    let m = n % u64_mod in if ltb m i64_half then ℤ.negsuc m else ℤ.pos (u64_mod - 1 - m)

-- a - b
abbrev pub sub_int : ℤ → ℤ → ℤ
sub_int (ℤ.pos a) (ℤ.pos b) = if ltb a b then int64_negsuc (b - a - 1) else int64 (a - b)
sub_int (ℤ.pos a) (ℤ.negsuc b) = int64 (a + b + 1)
sub_int (ℤ.negsuc a) (ℤ.pos b) = int64_negsuc (a + b)
sub_int (ℤ.negsuc a) (ℤ.negsuc b) = if ltb b a then int64_negsuc (a - b - 1) else int64 (b - a)

-- a > n, for n not negative
abbrev pub above : ℤ → ℕ → Bool
above (ℤ.pos a) n = ltb n a
above (ℤ.negsuc a) n = false

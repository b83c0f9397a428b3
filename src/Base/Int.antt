-- ===== src/Base/Int.antt =====
-- Go's signed and unsigned 64-bit integers.
use Prim.Native.Nat.{ℕ, suc, ◌-◌, ◌%◌, ◌^◌, ◌<◌}
use native.Mathlib.Omega.{arith}

-- `negsuc n` is -(n + 1).
pub data ℤ : Type 0 where
  pos : ℕ → ℤ
  negsuc : ℕ → ℤ

abbrev pub u64_mod : ℕ
u64_mod = 2 ^ 64

-- `uint64(v)` of a signed integer: the value modulo 2^64.
unfoldable pub to_uint64 : ℤ → ℕ
to_uint64 (pos n) = n % u64_mod
to_uint64 (negsuc n) = (u64_mod - suc n % u64_mod) % u64_mod

pub to_uint64-lt : (v : ℤ) → to_uint64 v < u64_mod
unfolding to_uint64
to_uint64-lt (pos n) = omega arith
to_uint64-lt (negsuc n) = omega arith

-- ===== src/Prelude/Numbers.antt =====
-- Identifiers, times and machine integers. A Uuid and an instant are compared only, so they are
-- numbers; an `i64` that can be negative is a ℤ.
use Prim.Native.Nat.{ℕ, ◌+◌, ◌-◌, ◌≤◌, ◌<◌, min}
use mathlib.Core.Path.{◌≡◌}
use native.Mathlib.Omega.{arith}
use scriptum.Prelude.Tests.{if◌then◌else◌, nat_beq, leb}

abbrev pub Uuid : Type 0
Uuid = ℕ

-- A key of two identifiers.
abbrev pub pair_key : Uuid → Uuid → Uuid × Uuid
pair_key a b = (a, b)

-- A point in time, in the smallest unit of the clock.
abbrev pub Instant : Type 0
Instant = ℕ

abbrev pub i64_max : ℕ
i64_max = 9223372036854775807

abbrev pub u32_max : ℕ
u32_max = 4294967295

-- `saturating_add` on a nonnegative `i64`.
abbrev pub saturating_add_i64 : ℕ → ℕ → ℕ
saturating_add_i64 a b = min (a + b) i64_max

-- `negsuc n` is -(n + 1).
pub data ℤ : Type 0 where
  pos : ℕ → ℤ
  negsuc : ℕ → ℤ

-- `n - 1` on an `i64` that starts at 0 or above.
abbrev pub pred_i64 : ℕ → ℤ
pred_i64 n = if nat_beq n 0 then negsuc 0 else pos (n - 1)

-- The eight bytes of an `i64`, as the `u64` of the same bits, and back.
abbrev pub to_u64 : ℤ → ℕ
to_u64 (pos n) = n
to_u64 (negsuc n) = 18446744073709551615 - n

abbrev pub from_u64 : ℕ → ℤ
from_u64 n = if leb n i64_max then pos n else negsuc (18446744073709551615 - n)

abbrev pub IsI64 : ℤ → Type 0
IsI64 (pos n) = n ≤ i64_max
IsI64 (negsuc n) = n ≤ i64_max

pub from-to_u64 : (z : ℤ) → IsI64 z → from_u64 (to_u64 z) ≡ z
from-to_u64 (pos n) h = ground arith
from-to_u64 (negsuc n) h = ground arith

pub to_u64-lt : (z : ℤ) → IsI64 z → to_u64 z < 18446744073709551616
to_u64-lt (pos n) h = omega arith
to_u64-lt (negsuc n) h = omega arith

pub to-from_u64 : (n : ℕ) → n < 18446744073709551616 → to_u64 (from_u64 n) ≡ n
to-from_u64 n h = ground arith

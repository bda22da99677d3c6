-- ===== src/Prelude/Int.antt =====
-- The integers over the native numbers: return codes and 64-bit signed quantities.
use Prim.Native.Nat.{ℕ, zero, suc, ◌+◌, ◌-◌, ◌/◌, ◌%◌, ◌^◌, ◌<◌}
use mathlib.Core.Path.{◌≡◌}
use native.Mathlib.Omega.{arith}
use tani_dvr.Prelude.Tests.{ltb, leb, if◌then◌else◌}

-- `negsuc n` is -(n + 1).
pub data ℤ : Type 0 where
  pos : ℕ → ℤ
  negsuc : ℕ → ℤ

-- The literal -n of the source.
abbrev pub minus : ℕ → ℤ
minus zero = pos 0
minus (suc n) = negsuc n

abbrev pub pos_part : ℤ → ℕ
pos_part (pos n) = n
pos_part (negsuc n) = 0

abbrev pub neg_part : ℤ → ℕ
neg_part (pos n) = 0
neg_part (negsuc n) = suc n

abbrev pub abs_ℤ : ℤ → ℕ
abs_ℤ (pos n) = n
abs_ℤ (negsuc n) = suc n

-- a - b, as an integer.
abbrev pub sub_ℕ : ℕ → ℕ → ℤ
sub_ℕ a b = if leb b a then pos (a - b) else negsuc (b - a - 1)

-- The division of C, towards 0.
abbrev pub quot : ℤ → ℕ → ℤ
quot (pos n) d = pos (n / d)
quot (negsuc n) d = minus (suc n / d)

-- A difference of two `uint64_t` values, stored into an `int64_t`.
unfoldable pub i64_diff : ℕ → ℕ → ℤ
i64_diff a b =
    let d = (a % 2 ^ 64 + 2 ^ 64 - b % 2 ^ 64) % 2 ^ 64 in
    if ltb d (2 ^ 63) then pos d else minus (2 ^ 64 - d)

-- A `uint64_t` with an `int64_t` added.
unfoldable pub u64_add : ℕ → ℤ → ℕ
u64_add a (pos n) = (a + n) % 2 ^ 64
u64_add a (negsuc n) = (a + 2 ^ 64 - suc n % 2 ^ 64) % 2 ^ 64

-- Below 2 ^ 63 nothing wraps.
pub i64_diff-sub_ℕ : (a b : ℕ) → a < 2 ^ 63 → b < 2 ^ 63 → i64_diff a b ≡ sub_ℕ a b
unfolding i64_diff
i64_diff-sub_ℕ a b h k = ground arith

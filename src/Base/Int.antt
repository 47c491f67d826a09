-- ===== src/Base/Int.antt =====
-- Signed integers over the native numbers, under the library's names (its ℤ stands on the unary ℕ).
use Prim.Native.Nat.{ℕ, suc, ◌+◌, ◌-◌, ◌^◌, ◌%◌}
use mathlib.Core.Bool.{Bool}
use iot_server.Base.Tests.{ltb, if◌then◌else◌}

-- `negsuc n` is -(n + 1).
pub data ℤ : Type 0 where
  pos : ℕ → ℤ
  negsuc : ℕ → ℤ

abbrev pos_part : ℤ → ℕ
pos_part (pos n) = n
pos_part (negsuc n) = 0

abbrev neg_part : ℤ → ℕ
neg_part (pos n) = 0
neg_part (negsuc n) = suc n

abbrev pub ltb_ℤ : ℤ → ℤ → Bool
ltb_ℤ a b = ltb (pos_part a + neg_part b) (pos_part b + neg_part a)

-- The integer that the low `w` bits of `v` stand for in two's complement: Go's `int32(v)` and
-- `int64(v)` of a `uint64`.
unfoldable pub signed : ℕ → ℕ → ℤ
signed w v = let u = v % 2 ^ w in if ltb u (2 ^ (w - 1)) then pos u else negsuc (2 ^ w - u - 1)

-- The `w`-bit two's complement pattern of an integer: C's `(uint64_t)(int64_t)x` at width 64.
unfoldable pub unsigned : ℕ → ℤ → ℕ
unsigned w (pos n) = n % 2 ^ w
unsigned w (negsuc n) = (2 ^ w - suc n % 2 ^ w) % 2 ^ w

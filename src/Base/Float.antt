-- ===== src/Base/Float.antt =====
-- IEEE 754 binary64 numbers, exactly: a finite one is a whole multiple of 2^-1074.
use Prim.Native.Nat.{ℕ, ◌+◌, ◌*◌, ◌/◌, ◌%◌, ◌^◌}
use mathlib.Core.Bool.{Bool, false, not, ◌&&◌}
use iot_server.Base.Tests.{ltb, ◌==◌, if◌then◌else◌}

-- `finite neg m` is m * 2^-1074, negated if `neg`; `infinite true` is -Inf.
pub data Float64 : Type 0 where
  nan : Float64
  infinite : Bool → Float64
  finite : Bool → ℕ → Float64

abbrev pub zero_float : Float64
zero_float = finite false 0

-- A whole number.
abbrev pub of_nat : ℕ → Float64
of_nat n = finite false (n * 2 ^ 1074)

-- Go's `a < b`: no NaN is less than anything, and -0 is not less than 0.
unfoldable pub ltb_float : Float64 → Float64 → Bool
ltb_float (finite a m) (finite b n) =
    ltb ((if a then 0 else m) + (if b then n else 0)) ((if b then 0 else n) + (if a then m else 0))
ltb_float (finite a m) (infinite b) = not b
ltb_float (infinite a) (finite b n) = a
ltb_float (infinite a) (infinite b) = a && not b
ltb_float _ _ = false

-- Go's `float64(math.Float32frombits(raw))`: sign, 8 bits of exponent, 23 of fraction.
unfoldable pub float32_from_bits : ℕ → Float64
float32_from_bits raw =
    let neg = raw / 2 ^ 31 % 2 == 1 in
    let exponent = raw / 2 ^ 23 % 256 in
    let fraction = raw % 2 ^ 23 in
    if exponent == 255
    then (if fraction == 0 then infinite neg else nan)
    else if exponent == 0
    then finite neg (fraction * 2 ^ 925)
    else finite neg ((fraction + 2 ^ 23) * 2 ^ (exponent + 924))

-- ===== src/Base/Format.antt =====
-- Numbers in decimal, as Go's fmt writes them for `%d` and `%.nf`.
use Prim.Native.Nat.{ℕ, zero, suc, ◌+◌, ◌*◌, ◌/◌, ◌%◌, ◌^◌}
use mathlib.Core.Bool.{◌&&◌, ◌||◌}
use mathlib.Core.List.{[], ◌∷◌, ◌++◌}
use iot_server.Base.Tests.{ltb, ◌==◌, if◌then◌else◌}
use iot_server.Base.Int.{ℤ, pos, negsuc}
use iot_server.Base.Float.{Float64, nan, infinite, finite}
use iot_server.Base.Text.{Bytes, utf8, digits}

-- `%d`
pub format_int : ℤ → Bytes
format_int (pos n) = digits n
format_int (negsuc n) = b'-' ∷ digits (suc n)

-- The last `p` decimal digits.
padded : ℕ → ℕ → Bytes
padded zero n = []
padded (suc p) n = padded p (n / 10) ++ ((48 + n % 10) ∷ [])

-- `%.pf`, for p above 0: the nearest decimal, and of two the one with an even last digit.
pub format_fixed : ℕ → Float64 → Bytes
format_fixed p nan = utf8 "NaN"
format_fixed p (infinite neg) = if neg then utf8 "-Inf" else utf8 "+Inf"
format_fixed p (finite neg m) =
    let scaled = m * 10 ^ p in
    let below = scaled / 2 ^ 1074 in
    let over = scaled % 2 ^ 1074 in
    let up = ltb (2 ^ 1073) over || over == 2 ^ 1073 && below % 2 == 1 in
    let nearest = if up then below + 1 else below in
    (if neg then b'-' ∷ [] else []) ++ (digits (nearest / 10 ^ p) ++ (b'.' ∷ padded p nearest))

-- ===== src/Decoder/Outcome.antt =====
-- What a call of the decoder comes to: Go's (value, error) pair, a run-time panic, or a loop that
-- has not ended when the rounds that it was given are used up.
use mathlib.Core.Path.{◌≡◌, refl}
use mathlib.Core.Logic.{◌≢◌}
use iot_server.Base.{ℕ}

-- `eof` to `overflow` are the errors of Go's io and encoding/binary packages, and
-- `negative_position` is that of bytes.Reader.Seek.
pub data WireError : Type 0 where
  eof unexpected_eof overflow negative_position : WireError
  unsupported_wire_type : ℕ → WireError

pub data Outcome {ℓ} (A : Type ℓ) : Type ℓ where
  ok : A → Outcome A
  err : WireError → Outcome A
  panic : Outcome A
  unfinished : Outcome A

infixl 5 ◌>>=◌ ◌>>◌
abbrev pub ◌>>=◌ {ℓ κ} : {A : Type ℓ} {B : Type κ} → Outcome A → (A → Outcome B) → Outcome B
ok a >>= f = f a
err e >>= f = err e
panic >>= f = panic
unfinished >>= f = unfinished

abbrev pub ◌>>◌ {ℓ} : {B : Type ℓ} → Outcome (Unit {0}) → Outcome B → Outcome B
m >> k = m >>= λ _. k

-- Inversion of a successful bind.
pub >>=-eq-ok {ℓ κ} :
    {A : Type ℓ} {B : Type κ} (o : Outcome A) (f : A → Outcome B) {b : B}
    → (o >>= f) ≡ ok b
    → (a : A) × (o ≡ ok a) × (f a ≡ ok b)
>>=-eq-ok (ok a) f h = (a, refl, h)
>>=-eq-ok (err e) f h = cc
>>=-eq-ok panic f h = cc
>>=-eq-ok unfinished f h = cc

-- A bind is finished if both its parts are.
pub >>=-ne-unfinished {ℓ κ} :
    {A : Type ℓ} {B : Type κ} (o : Outcome A) (f : A → Outcome B)
    → o ≢ unfinished
    → ((a : A) → o ≡ ok a → f a ≢ unfinished)
    → (o >>= f) ≢ unfinished
>>=-ne-unfinished (ok a) f h k = k a refl
>>=-ne-unfinished (err e) f h k = λ p. cc
>>=-ne-unfinished panic f h k = λ p. cc
>>=-ne-unfinished unfinished f h k = absurd (h refl)

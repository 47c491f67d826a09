-- ===== src/Edge/Window.antt =====
-- Runs of slots of the array of edge/middleware/telemetry/telemetry_buffer.c, and what writing a
-- slot does to them.
use iot_server.Base.{
  ℕ, zero, suc, ◌+◌, ◌-◌, ◌%◌, ◌<◌, ◌≡◌, ◌≢◌, refl, sym, ap, subst, List, [], ◌∷◌, ◌++◌, length,
  arith,
}
use iot_server.Serializer.Telemetry.{TelemetryData}
use iot_server.Edge.Buffer.{set, get_or, zero_data}

-- The next `n` messages from a slot on, round the end of the array.
abbrev pub window : List TelemetryData → ℕ → ℕ → List TelemetryData
window items at zero = []
window items at (suc n) = get_or items at zero_data ∷ window items ((at + 1) % 32) n

pub length-set {ℓ} : {A : Type ℓ} (xs : List A) (i : ℕ) (x : A) → length (set xs i x) ≡ length xs
length-set [] i x = refl
length-set (y ∷ ys) zero x = refl
length-set (y ∷ ys) (suc i) x = ap suc (length-set ys i x)

pub get_or-set_self {ℓ} :
    {A : Type ℓ} (xs : List A) (i : ℕ) (x d : A) → i < length xs → get_or (set xs i x) i d ≡ x
get_or-set_self [] i x d h = absurd (omega arith)
get_or-set_self (y ∷ ys) zero x d h = refl
get_or-set_self (y ∷ ys) (suc i) x d h = get_or-set_self ys i x d (omega arith)

pub get_or-set_ne {ℓ} :
    {A : Type ℓ} (xs : List A) (i j : ℕ) (x d : A) → i ≢ j → get_or (set xs i x) j d ≡ get_or xs j d
get_or-set_ne [] i j x d h = refl
get_or-set_ne (y ∷ ys) zero zero x d h = absurd (h refl)
get_or-set_ne (y ∷ ys) zero (suc j) x d h = refl
get_or-set_ne (y ∷ ys) (suc i) zero x d h = refl
get_or-set_ne (y ∷ ys) (suc i) (suc j) x d h = get_or-set_ne ys i j x d (λ e. h (ap suc e))

pub length-window : (items : List TelemetryData) (at n : ℕ) → length (window items at n) ≡ n
length-window items at zero = refl
length-window items at (suc n) = ap suc (length-window items ((at + 1) % 32) n)

-- Writing the slot behind a window of less than 32 messages puts the message behind them.
pub window-set :
    (items : List TelemetryData) (at n : ℕ) (t : TelemetryData)
    → length items ≡ 32
    → at < 32
    → n < 32
    → window (set items ((at + n) % 32) t) at (suc n) ≡ window items at n ++ (t ∷ [])
window-set items at zero t size inside few =
    let here : (at + 0) % 32 ≡ at = omega arith in
    ap (λ x. x ∷ []) (rw here (get_or-set_self items at t zero_data (omega arith)))
window-set items at (suc n) t size inside few =
    let later : (at + suc n) % 32 ≡ ((at + 1) % 32 + n) % 32 = omega arith in
    let apart : (at + suc n) % 32 ≢ at = λ e. omega arith in
    let one = get_or-set_ne items ((at + suc n) % 32) at t zero_data apart in
    let more = window-set items ((at + 1) % 32) n t size (omega arith) (omega arith) in
    let more' =
      subst
        (λ i.
          window (set items i t) ((at + 1) % 32) (suc n)
          ≡ window items ((at + 1) % 32) n ++ (t ∷ []))
        (sym later) more in
    (λ i. one i ∷ more' i)

pub window_unfold :
    (items : List TelemetryData) (at n : ℕ)
    → n ≢ 0
    → window items at n ≡ get_or items at zero_data ∷ window items ((at + 1) % 32) (n - 1)
window_unfold items at zero h = absurd (h refl)
window_unfold items at (suc n) h =
    ap (λ k. get_or items at zero_data ∷ window items ((at + 1) % 32) k)
      (let e : n ≡ suc n - 1 = omega arith in e)

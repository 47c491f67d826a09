-- ===== src/Base/Cells.antt =====
-- Lists as a store of cells: reading and updating at an index.
use Prim.Native.Nat.{ℕ, zero, suc, ◌<◌}
use mathlib.Core.Path.{◌≡◌, refl, ap}
use mathlib.Core.Logic.{◌≢◌}
use mathlib.Core.Option.{Option, none, some}
use mathlib.Core.List.{List, [], ◌∷◌, ◌++◌}
use native.Mathlib.Omega.{arith}
use iot_server.Base.Lists.{length}

module _ {ℓ} {A : Type ℓ} where
  abbrev pub get_elem? : List A → ℕ → Option A
  get_elem? [] i = none
  get_elem? (x ∷ xs) zero = some x
  get_elem? (x ∷ xs) (suc i) = get_elem? xs i

  -- The write goes to the cell that is there; out of bounds it changes nothing.
  abbrev pub update : ℕ → (A → A) → List A → List A
  update i f [] = []
  update zero f (x ∷ xs) = f x ∷ xs
  update (suc i) f (x ∷ xs) = x ∷ update i f xs

module _ {ℓ} {A : Type ℓ} (f : A → A) where
  pub get_elem?-update_self :
      (xs : List A) (i : ℕ) (x : A)
      → get_elem? xs i ≡ some x
      → get_elem? (update i f xs) i ≡ some (f x)
  get_elem?-update_self [] i x e = cc
  get_elem?-update_self (y ∷ ys) zero x e = ground arith
  get_elem?-update_self (y ∷ ys) (suc i) x e = get_elem?-update_self ys i x e

  pub get_elem?-update_ne :
      (xs : List A) (i j : ℕ) → i ≢ j → get_elem? (update i f xs) j ≡ get_elem? xs j
  get_elem?-update_ne [] i j h = refl
  get_elem?-update_ne (y ∷ ys) zero zero h = absurd (h refl)
  get_elem?-update_ne (y ∷ ys) zero (suc j) h = refl
  get_elem?-update_ne (y ∷ ys) (suc i) zero h = refl
  get_elem?-update_ne (y ∷ ys) (suc i) (suc j) h = get_elem?-update_ne ys i j (λ e. h (ap suc e))

  length-update : (i : ℕ) (xs : List A) → length (update i f xs) ≡ length xs
  length-update i [] = refl
  length-update zero (y ∷ ys) = refl
  length-update (suc i) (y ∷ ys) = ap suc (length-update i ys)

module _ {ℓ} {A : Type ℓ} where
  pub get_elem?-append_left :
      (xs ys : List A) (i : ℕ) (x : A) → get_elem? xs i ≡ some x → get_elem? (xs ++ ys) i ≡ some x
  get_elem?-append_left [] ys i x e = cc
  get_elem?-append_left (y ∷ xs) ys zero x e = e
  get_elem?-append_left (y ∷ xs) ys (suc i) x e = get_elem?-append_left xs ys i x e

  pub get_elem?-append_length :
      (xs : List A) (x : A) → get_elem? (xs ++ (x ∷ [])) (length xs) ≡ some x
  get_elem?-append_length [] x = refl
  get_elem?-append_length (y ∷ xs) x = get_elem?-append_length xs x

  get_elem?-lt : (xs : List A) (i : ℕ) (x : A) → get_elem? xs i ≡ some x → i < length xs
  get_elem?-lt [] i x e = cc
  get_elem?-lt (y ∷ xs) zero x e = omega arith
  get_elem?-lt (y ∷ xs) (suc i) x e = omega (arith, get_elem?-lt xs i x e)

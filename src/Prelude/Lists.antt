-- ===== src/Prelude/Lists.antt =====
-- Lists measured by native numbers, and the predicates and tests on lists that the parts share.
use Prim.Native.Nat.{ℕ, suc, ◌+◌, ◌≤◌}
use mathlib.Core.Path.{◌≡◌, refl}
use mathlib.Core.Logic.{◌↔◌}
use mathlib.Core.Bool.{Bool, false, ◌||◌}
use mathlib.Core.List.{List, [], ◌∷◌, map}
use native.Mathlib.Omega.{arith}
use split_bill_app.Prelude.Tests.{◌==◌, if◌then◌else◌}

module _ {ℓ} {A : Type ℓ} where
  abbrev pub length : List A → ℕ
  length [] = 0
  length (x ∷ xs) = suc (length xs)

  abbrev pub All {κ} : (A → Type κ) → List A → Type κ
  All P [] = Unit
  All P (x ∷ xs) = P x × All P xs

  -- `xs.some(p)`
  abbrev pub any : (A → Bool) → List A → Bool
  any p [] = false
  any p (x ∷ xs) = p x || any p xs

  abbrev pub sum_of : (A → ℕ) → List A → ℕ
  sum_of f [] = 0
  sum_of f (x ∷ xs) = f x + sum_of f xs

pub length-map {ℓ κ} :
    {A : Type ℓ} {B : Type κ} (f : A → B) (xs : List A) → length (map f xs) ≡ length xs
length-map f [] = refl
length-map f (x ∷ xs) = omega (arith, length-map f xs)

-- `xs.includes(x)` on ids
abbrev pub includes : List ℕ → ℕ → Bool
includes [] x = false
includes (y ∷ ys) x = x == y || includes ys x

-- No id stands twice.
abbrev pub Distinct : List ℕ → Type 0
Distinct [] = Unit
Distinct (x ∷ xs) = (includes xs x ≡ false) × Distinct xs

-- `new Set(xs).size`
abbrev pub set_size : List ℕ → ℕ
set_size [] = 0
set_size (x ∷ xs) = if includes xs x then set_size xs else suc (set_size xs)

pub set_size-le-length : (xs : List ℕ) → set_size xs ≤ length xs
set_size-le-length [] = omega arith
set_size-le-length (x ∷ xs) = ground (arith, set_size-le-length xs)

-- `new Set(xs).size === xs.length` decides that no id stands twice.
pub set_size-eq-length_iff : (xs : List ℕ) → (set_size xs ≡ length xs) ↔ Distinct xs
set_size-eq-length_iff [] = (λ _. tt, λ _. refl)
set_size-eq-length_iff (x ∷ xs) = ground (arith, set_size-eq-length_iff xs, set_size-le-length xs)

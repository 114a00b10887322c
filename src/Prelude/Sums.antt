-- ===== src/Prelude/Sums.antt =====
-- Sums do not depend on the order of the list.
use Prim.Native.Nat.{ℕ}
use mathlib.Core.Path.{◌≡◌, refl, ap, ◌∙◌}
use mathlib.Core.Logic.{∥∥₁_elim}
use mathlib.Core.List.{List, Perm, Permᴰ}
use native.Mathlib.Omega.{arith}
use native.Mathlib.Nat.{ℕ_set}
use split_bill_app.Prelude.Lists.{sum_of}

module _ {A : Type 0} (f : A → ℕ) where
  sum_of-Permᴰ : {xs ys : List A} → Permᴰ xs ys → sum_of f xs ≡ sum_of f ys
  sum_of-Permᴰ Permᴰ.nil = refl
  sum_of-Permᴰ (Permᴰ.cons e p) = omega (arith, ap f e, sum_of-Permᴰ p)
  sum_of-Permᴰ (Permᴰ.swap e₁ e₂) = omega (arith, ap f e₁, ap f e₂)
  sum_of-Permᴰ (Permᴰ.trans p q) = sum_of-Permᴰ p ∙ sum_of-Permᴰ q

  pub sum_of-Perm : {xs ys : List A} → Perm xs ys → sum_of f xs ≡ sum_of f ys
  sum_of-Perm p = ∥∥₁_elim p (ℕ_set _ _) sum_of-Permᴰ

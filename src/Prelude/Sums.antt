-- ===== src/Prelude/Sums.antt =====
-- Sums of a weight over a list.
use Prim.Native.Nat.{ℕ, ◌+◌}
use mathlib.Core.Path.{◌≡◌}
use mathlib.Core.List.{List, [], ◌∷◌, ◌++◌}
use native.Mathlib.Omega.{arith}

module _ {ℓ} {A : Type ℓ} (f : A → ℕ) where
  abbrev pub sum : List A → ℕ
  sum [] = 0
  sum (x ∷ xs) = f x + sum xs

  pub sum-append : (xs ys : List A) → sum (xs ++ ys) ≡ sum xs + sum ys
  sum-append [] ys = omega arith
  sum-append (x ∷ xs) ys = omega (arith, sum-append xs ys)

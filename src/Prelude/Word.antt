-- ===== src/Prelude/Word.antt =====
-- `int64` as its bit pattern, a number below 2^64: subtraction and addition wrap around. Equality
-- and the test against zero, all that the comparison code asks of a difference, are those of the
-- patterns.
use Prim.Native.Nat.{ℕ, ◌+◌, ◌-◌, ◌%◌, ◌^◌}
use mathlib.Core.Path.{◌≡◌, refl}
use mathlib.Core.List.{List, [], ◌∷◌}
use native.Mathlib.Omega.{arith}

abbrev pub word_mod : ℕ
word_mod = 2 ^ 64

unfoldable pub add64 : ℕ → ℕ → ℕ
add64 a b = (a + b) % word_mod

unfoldable pub sub64 : ℕ → ℕ → ℕ
sub64 a b = (a + (word_mod - b % word_mod)) % word_mod

module _ {ℓ} {A : Type ℓ} where
  -- The wrapped total of one field over a list.
  unfoldable pub total : (A → ℕ) → List A → ℕ
  unfolding add64
  total f [] = 0
  total f (x ∷ xs) = add64 (f x) (total f xs)

pub sub64_self : (a : ℕ) → sub64 a a ≡ 0
unfolding sub64
sub64_self a = omega arith

pub sub64-add64 : (a b c d : ℕ) → sub64 (add64 a b) (add64 c d) ≡ add64 (sub64 a c) (sub64 b d)
unfolding sub64 add64
sub64-add64 a b c d = omega arith

pub add64-zero_total {ℓ} : {A : Type ℓ} (f : A → ℕ) (l : List A) → add64 0 (total f l) ≡ total f l
unfolding total add64
add64-zero_total f [] = refl
add64-zero_total f (x ∷ xs) = omega arith

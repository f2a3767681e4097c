-- ===== src/Prelude/Bytes.antt =====
-- Go strings: lists of bytes, compared byte by byte, as `<` and `==` on strings do.
use Prim.Native.Nat.{ℕ, compare, Ordering, ◌<◌}
use Prim.Native.Char.{code}
use Prim.Native.String.{String}
use mathlib.Core.Path.{◌≡◌, refl, ap}
use mathlib.Core.Logic.{◌↔◌}
use mathlib.Core.Bool.{Bool, true, false}
use mathlib.Core.List.{List, [], ◌∷◌, ◌++◌}
use native.Mathlib.Omega.{arith}

abbrev pub Bytes : Type 0
Bytes = List ℕ

-- The bytes of an ASCII literal.
abbrev pub text : String → Bytes
text String.[] = []
text (String.◌∷◌ c s) = code c ∷ text s

pub compare_bytes : Bytes → Bytes → Ordering
compare_bytes [] [] = Ordering.eq
compare_bytes [] (y ∷ ys) = Ordering.lt
compare_bytes (x ∷ xs) [] = Ordering.gt
compare_bytes (x ∷ xs) (y ∷ ys) = elim (compare x y) [
  | Ordering.lt ↦ Ordering.lt
  | Ordering.eq ↦ compare_bytes xs ys
  | Ordering.gt ↦ Ordering.gt
]

-- `a < b` on Go strings.
unfoldable pub less : Bytes → Bytes → Bool
unfolding compare_bytes
less a b = elim (compare_bytes a b) [ Ordering.lt ↦ true | _ ↦ false ]

-- `a == b` on Go strings.
unfoldable pub same : Bytes → Bytes → Bool
unfolding compare_bytes
same a b = elim (compare_bytes a b) [ Ordering.eq ↦ true | _ ↦ false ]

compare_bytes_refl : (a : Bytes) → compare_bytes a a ≡ Ordering.eq
unfolding compare_bytes
compare_bytes_refl [] = refl
compare_bytes_refl (x ∷ xs) = ground (arith, compare_bytes_refl xs)

eq_of_compare_bytes : (a b : Bytes) → compare_bytes a b ≡ Ordering.eq → a ≡ b
unfolding compare_bytes
eq_of_compare_bytes [] [] h = refl
eq_of_compare_bytes [] (y ∷ ys) h = ground arith
eq_of_compare_bytes (x ∷ xs) [] h = ground arith
eq_of_compare_bytes (x ∷ xs) (y ∷ ys) h = ground (arith, eq_of_compare_bytes xs ys)

pub same-iff_eq : (a b : Bytes) → (same a b ≡ true) ↔ (a ≡ b)
unfolding less same
same-iff_eq a b = (
  λ h. eq_of_compare_bytes a b (ground arith),
  λ e. ground (arith, ap (λ (x : Bytes). compare_bytes a x) e, compare_bytes_refl a),
)

pub same_refl : (a : Bytes) → same a a ≡ true
same_refl a = (same-iff_eq a a).1 refl

pub less-head : (a b : ℕ) (r s : Bytes) → a < b → less (a ∷ r) (b ∷ s) ≡ true
unfolding less
less-head a b r s h = ground arith

-- A common beginning does not matter.
pub less-append : (xs r s : Bytes) → less (xs ++ r) (xs ++ s) ≡ less r s
unfolding less
less-append [] r s = refl
less-append (x ∷ xs) r s = ground (arith, less-append xs r s)

pub less_irrefl : (a : Bytes) → less a a ≡ false
unfolding less
less_irrefl a = ground (arith, compare_bytes_refl a)

pub less_trans : (a b c : Bytes) → less a b ≡ true → less b c ≡ true → less a c ≡ true
unfolding less
less_trans [] [] c h k = ground arith
less_trans [] (y ∷ ys) [] h k = ground arith
less_trans [] (y ∷ ys) (z ∷ zs) h k = refl
less_trans (x ∷ xs) [] c h k = ground arith
less_trans (x ∷ xs) (y ∷ ys) [] h k = ground arith
less_trans (x ∷ xs) (y ∷ ys) (z ∷ zs) h k = ground (arith, less_trans xs ys zs)

pub less-connected : (a b : Bytes) → less a b ≡ false → less b a ≡ false → a ≡ b
unfolding less
less-connected [] [] h k = refl
less-connected [] (y ∷ ys) h k = ground arith
less-connected (x ∷ xs) [] h k = ground arith
less-connected (x ∷ xs) (y ∷ ys) h k = ground (arith, less-connected xs ys)

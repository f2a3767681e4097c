-- ===== src/Prelude/Strings.antt =====
-- The parts of Go's package strings that the program calls, on byte strings.
use Prim.Native.Nat.{ℕ}
use mathlib.Core.Path.{◌≡◌, refl, sym, ap, ap₂, ◌∙◌}
use mathlib.Core.Logic.{inl, inr, ◌≢◌}
use mathlib.Core.Bool.{Bool, true, false, ◌||◌}
use mathlib.Core.Option.{Option, none, some}
use mathlib.Core.List.{List, [], ◌∷◌, ◌++◌}
use native.Mathlib.Omega.{arith}
use etcd_space_inspector.Prelude.Tests.{◌==◌, ==_iff, Bool-cases, if◌then◌else◌}
use etcd_space_inspector.Prelude.Bytes.{Bytes}

abbrev pub extend : ℕ → List Bytes → List Bytes
extend c [] = (c ∷ []) ∷ []
extend c (w ∷ ws) = (c ∷ w) ∷ ws

-- strings.Split, at a separator of one byte.
unfoldable pub split : ℕ → Bytes → List Bytes
split sep [] = [] ∷ []
split sep (c ∷ cs) = let rest = split sep cs in if c == sep then [] ∷ rest else extend c rest

-- strings.Join, with a separator of one byte.
unfoldable pub join_with : ℕ → List Bytes → Bytes
join_with sep [] = []
join_with sep (w ∷ []) = w
join_with sep (w ∷ v ∷ ws) = w ++ (sep ∷ join_with sep (v ∷ ws))

-- The text behind a prefix, if it has that prefix.
unfoldable pub strip_prefix : Bytes → Bytes → Option Bytes
strip_prefix [] s = some s
strip_prefix (p ∷ ps) [] = none
strip_prefix (p ∷ ps) (c ∷ cs) = if p == c then strip_prefix ps cs else none

abbrev pub is_some {ℓ} : {A : Type ℓ} → Option A → Bool
is_some none = false
is_some (some a) = true

-- strings.HasPrefix
unfoldable pub has_prefix : Bytes → Bytes → Bool
unfolding strip_prefix
has_prefix s p = is_some (strip_prefix p s)

-- strings.TrimPrefix
unfoldable pub trim_prefix : Bytes → Bytes → Bytes
unfolding strip_prefix
trim_prefix s p = elim (strip_prefix p s) [ none ↦ s | some rest ↦ rest ]

-- strings.TrimLeft, strings.TrimRight and strings.Trim, at one byte.
unfoldable pub trim_left : ℕ → Bytes → Bytes
trim_left c [] = []
trim_left c (x ∷ xs) = if x == c then trim_left c xs else x ∷ xs

-- A byte in front of a text that was trimmed at its end.
abbrev keep_byte : ℕ → ℕ → Bytes → Bytes
keep_byte c x [] = if x == c then [] else x ∷ []
keep_byte c x (y ∷ ys) = x ∷ y ∷ ys

unfoldable pub trim_right : ℕ → Bytes → Bytes
trim_right c [] = []
trim_right c (x ∷ xs) = keep_byte c x (trim_right c xs)

unfoldable pub trim : ℕ → Bytes → Bytes
unfolding trim_left trim_right
trim c s = trim_right c (trim_left c s)

-- strings.Contains, for one byte.
unfoldable pub contains_byte : ℕ → Bytes → Bool
contains_byte c [] = false
contains_byte c (x ∷ xs) = x == c || contains_byte c xs

-- A split has at least one part.
pub split-nonempty :
    (sep : ℕ) (s : Bytes) → (w : Bytes) × (ws : List Bytes) × (split sep s ≡ w ∷ ws)
unfolding split
split-nonempty sep [] = ([], [], refl)
split-nonempty sep (c ∷ cs) =
    let (w, ws, e) = split-nonempty sep cs in
    elim (Bool-cases (c == sep)) [
      | inl hit ↦ ([], split sep cs, rw hit)
      | inr miss ↦ (c ∷ w, ws, rw miss (rw e))
    ]

join_with-cons :
    (sep : ℕ) (w v : Bytes) (vs : List Bytes) (l : List Bytes)
    → l ≡ v ∷ vs
    → join_with sep (w ∷ l) ≡ w ++ (sep ∷ join_with sep l)
unfolding join_with
join_with-cons sep w v vs l e = rw e

join_with-extend : (sep c : ℕ) (l : List Bytes) → join_with sep (extend c l) ≡ c ∷ join_with sep l
unfolding join_with
join_with-extend sep c [] = refl
join_with-extend sep c (w ∷ []) = refl
join_with-extend sep c (w ∷ v ∷ vs) = refl

-- strings.Join undoes strings.Split.
pub join_with-split : (sep : ℕ) (s : Bytes) → join_with sep (split sep s) ≡ s
unfolding split
join_with-split sep [] = unfold join_with in refl
join_with-split sep (c ∷ cs) = elim (Bool-cases (c == sep)) [
  | inl hit ↦ rw hit (
      let (w, ws, e) = split-nonempty sep cs in
      join_with-cons sep [] w ws (split sep cs) e
      ∙ ap₂ (λ (x : ℕ) (y : Bytes). x ∷ y) (sym ((==_iff c sep).0 hit)) (join_with-split sep cs))
  | inr miss ↦
      rw miss
        (join_with-extend sep c (split sep cs) ∙ ap (λ (y : Bytes). c ∷ y) (join_with-split sep cs))
]

-- A part that has no separator, and then a separator.
pub split-part :
    (sep : ℕ) (w rest : Bytes)
    → contains_byte sep w ≡ false
    → split sep (w ++ (sep ∷ rest)) ≡ w ∷ split sep rest
unfolding split contains_byte
split-part sep [] rest h = ground arith
split-part sep (c ∷ cs) rest h = ground (arith, split-part sep cs rest)

pub split-plain : (sep : ℕ) (w : Bytes) → contains_byte sep w ≡ false → split sep w ≡ w ∷ []
unfolding split contains_byte
split-plain sep [] h = refl
split-plain sep (c ∷ cs) h = ground (arith, split-plain sep cs)

-- A prefix that is there is stripped.
pub strip_prefix-append : (p s : Bytes) → strip_prefix p (p ++ s) ≡ some s
unfolding strip_prefix
strip_prefix-append [] s = refl
strip_prefix-append (x ∷ xs) s = ground (arith, strip_prefix-append xs s)

trim_left-plain : (c : ℕ) (w : Bytes) → contains_byte c w ≡ false → trim_left c w ≡ w
unfolding trim_left contains_byte
trim_left-plain c [] h = refl
trim_left-plain c (x ∷ xs) h = ground arith

trim_right-plain : (c : ℕ) (w : Bytes) → contains_byte c w ≡ false → trim_right c w ≡ w
unfolding trim_right contains_byte
trim_right-plain c [] h = refl
trim_right-plain c (x ∷ xs) h = ground (arith, trim_right-plain c xs)

keep_byte-nonempty : (c x : ℕ) (l : Bytes) → l ≢ [] → keep_byte c x l ≡ x ∷ l
keep_byte-nonempty c x [] h = absurd (h refl)
keep_byte-nonempty c x (y ∷ ys) h = refl

append-nonempty : (xs w : Bytes) → w ≢ [] → xs ++ w ≢ []
append-nonempty [] w h = h
append-nonempty (x ∷ xs) w h = λ e. cc

trim_right-append :
    (c : ℕ) (xs w : Bytes) → w ≢ [] → contains_byte c w ≡ false → trim_right c (xs ++ w) ≡ xs ++ w
unfolding trim_right
trim_right-append c [] w n h = trim_right-plain c w h
trim_right-append c (x ∷ xs) w n h =
    rw (trim_right-append c xs w n h) (keep_byte-nonempty c x (xs ++ w) (append-nonempty xs w n))

-- A text that begins and ends with another byte is left alone.
pub trim-around :
    (c : ℕ) (x : ℕ) (xs w : Bytes)
    → (x == c) ≡ false
    → w ≢ []
    → contains_byte c w ≡ false
    → trim c ((x ∷ xs) ++ w) ≡ (x ∷ xs) ++ w
unfolding trim
trim-around c x xs w hx n h = rw hx (trim_right-append c (x ∷ xs) w n h)

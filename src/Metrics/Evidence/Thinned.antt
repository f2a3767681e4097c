-- ===== src/Metrics/Evidence/Thinned.antt =====
-- What the browser sees of a long curve.
use etcd_space_inspector.Prelude.{
  ℕ, zero, suc, ◌≡◌, refl, true, false, List, [], ◌∷◌, drop, if◌then◌else◌, All,
}
use etcd_space_inspector.Metrics.Curves.{Numbers, Sample}

module _ {A : Type 0} where
  drop-nil : (n : ℕ) → drop {A = A} n [] ≡ []
  drop-nil zero = refl
  drop-nil (suc n) = refl

  -- Some member of the list.
  pub data Some (P : A → Type 0) : List A → Type 0 where
    this : {x : A} {xs : List A} → P x → Some P (x ∷ xs)
    that : {x : A} {xs : List A} → Some P xs → Some P (x ∷ xs)

module _ {F : Type 0} where
  -- A time has one value.
  abbrev pub Single : Sample F → Sample F → Type 0
  Single a b = a.observed_at ≡ b.observed_at → a ≡ b

  abbrev pub Singles : List (Sample F) → Type 0
  Singles l = All (λ (a : Sample F). All (Single a) l) l

-- Numbers that are compared as a linear order compares them.
pub record Ordered {F : Type 0} (n : Numbers F) : Type 0 where
  pub irreflexive : (a : F) → n.less a a ≡ false
  pub weak : (a b c : F) → n.less a b ≡ false → n.less b c ≡ false → n.less a c ≡ false
  pub asymmetric : (a b : F) → n.less a b ≡ true → n.less b a ≡ false

module _ {F : Type 0} (n : Numbers F) (laws : Ordered n) where
  -- Some point of the list is as high, and some as low.
  pub record Kept (kept : List (Sample F)) (x : Sample F) : Type 0 where
    pub as_high : Some (λ (y : Sample F). n.less y.value x.value ≡ false) kept
    pub as_low : Some (λ (y : Sample F). n.less x.value y.value ≡ false) kept

  -- Between the two.
  abbrev Within : Sample F × Sample F → Sample F → Type 0
  Within (lo, hi) x = (n.less x.value lo.value ≡ false) × (n.less hi.value x.value ≡ false)

  abbrev lower : Sample F → Sample F → Sample F
  lower x lo = if n.less x.value lo.value then x else lo

  abbrev higher : Sample F → Sample F → Sample F
  higher x hi = if n.less hi.value x.value then x else hi

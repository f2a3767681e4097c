-- ===== src/Metrics/Evidence/Growth.antt =====
-- The steepest rise of a curve.
use etcd_space_inspector.Prelude.{
  ℕ, ◌≡◌, ◌⊎◌, inl, inr, refl, Bool, true, false, ◌&&◌, Option, none, some, List, [], ◌∷◌,
  if◌then◌else◌, arith,
}
use etcd_space_inspector.Metrics.Curves.{
  Numbers, Sample, Interval, is_apart, rises, growth_from, largest_growth,
}

module _ {F : Type 0} (n : Numbers F) (median : ℕ) where
  abbrev pub rise : Sample F → Sample F → F
  rise x y = n.sub y.value x.value

  -- Neighbours that are near enough to be compared, and rise.
  abbrev pub Rises : Sample F → Sample F → Type 0
  Rises x y = (is_apart median x y ≡ false) × (n.less n.zero (rise x y) ≡ true)

  -- What holds of each two neighbours that rise.
  abbrev pub Each : (Sample F → Sample F → Type 0) → List (Sample F) → Type 0
  Each P [] = Unit
  Each P (x ∷ []) = Unit
  Each P (x ∷ y ∷ ys) = (Rises x y → P x y) × Each P (y ∷ ys)

  -- The interval is one of those rises.
  pub data From (i : Interval F) : List (Sample F) → Type 0 where
    this :
        {x y : Sample F} {ys : List (Sample F)}
        → Rises x y
        → i ≡ record { since = x.observed_at; until = y.observed_at; delta_bytes = rise x y }
        → From i (x ∷ y ∷ ys)
    that : {x : Sample F} {ys : List (Sample F)} → From i ys → From i (x ∷ ys)

  -- No rise is larger, and it is the best one so far or a rise that is larger than that.
  pub record Beats (best : Option (Interval F)) (points : List (Sample F)) (i : Interval F)
      : Type 0 where
    pub largest : Each (λ (x y : Sample F). n.less i.delta_bytes (rise x y) ≡ false) points
    pub found : (best ≡ some i) ⊎ From i points
    pub better :
        (b : Interval F) → best ≡ some b → (b ≡ i) ⊎ (n.less b.delta_bytes i.delta_bytes ≡ true)

  abbrev pub Grown : Option (Interval F) → List (Sample F) → Option (Interval F) → Type 0
  Grown best points none = (best ≡ none) × Each (λ (x y : Sample F). ⊥) points
  Grown best points (some i) = Beats best points i

  abbrev interval : Sample F → Sample F → Interval F
  interval x y = record { since = x.observed_at; until = y.observed_at; delta_bytes = rise x y }

  -- One pair of neighbours.
  abbrev after : Option (Interval F) → Sample F → Sample F → Option (Interval F)
  after best x y =
      if is_apart median x y
      then best
      else if n.less n.zero (rise x y) && rises n best (rise x y)
      then some (interval x y)
      else best

  -- The pair did not count, or it did not rise above the best, or it is the best now.
  data Pair (best : Option (Interval F)) (x y : Sample F) : Option (Interval F) → Type 0 where
    flat : ((Rises x y) → ⊥) → Pair best x y best
    lower :
        (b : Interval F)
        → best ≡ some b
        → n.less b.delta_bytes (rise x y) ≡ false
        → Pair best x y best
    new : Rises x y → rises n best (rise x y) ≡ true → Pair best x y (some (interval x y))

  pair_of :
      (best : Option (Interval F)) (x y : Sample F) (a : Bool)
      → is_apart median x y ≡ a
      → (b : Bool) → n.less n.zero (rise x y) ≡ b
      → (c : Bool) → rises n best (rise x y) ≡ c
      → Pair best x y (if a then best else if b && c then some (interval x y) else best)
  pair_of best x y true e b f c g = flat (λ r. absurd (ground arith))
  pair_of best x y false e false f c g = flat (λ r. absurd (ground arith))
  pair_of best x y false e true f true g = new (e, f) g
  pair_of none x y false e true f false g = absurd (ground arith)
  pair_of (some b) x y false e true f false g = lower b refl g

  pair : (best : Option (Interval F)) (x y : Sample F) → Pair best x y (after best x y)
  pair best x y =
      pair_of best x y (is_apart median x y) refl (n.less n.zero (rise x y)) refl
        (rises n best (rise x y)) refl

  module _ (irreflexive : (a : F) → n.less a a ≡ false)
      (trans : (a b c : F) → n.less a b ≡ true → n.less b c ≡ true → n.less a c ≡ true) where
    not_above :
        (b i : Interval F) (d : F)
        → n.less b.delta_bytes d ≡ false
        → (b ≡ i) ⊎ (n.less b.delta_bytes i.delta_bytes ≡ true)
        → n.less i.delta_bytes d ≡ false
    not_above b i d h (inl e) = rw e at h
    not_above b i d h (inr l) = ground (arith, trans b.delta_bytes i.delta_bytes d)

    still_better :
        (b c i : Interval F)
        → n.less b.delta_bytes c.delta_bytes ≡ true
        → (c ≡ i) ⊎ (n.less c.delta_bytes i.delta_bytes ≡ true)
        → n.less b.delta_bytes i.delta_bytes ≡ true
    still_better b c i h (inl e) = rw e at h
    still_better b c i h (inr l) = trans b.delta_bytes c.delta_bytes i.delta_bytes h l

    beats_best :
        (best : Option (Interval F)) (b : Interval F) (d : F)
        → rises n best d ≡ true
        → best ≡ some b
        → n.less b.delta_bytes d ≡ true
    beats_best none b d h e = absurd (ground arith)
    beats_best (some c) b d h e = ground arith

    step_none :
        (best : Option (Interval F)) (x y : Sample F) (ys : List (Sample F))
        (m : Option (Interval F))
        → Pair best x y m
        → Grown m (y ∷ ys) none
        → Grown best (x ∷ y ∷ ys) none
    step_none best x y ys m (flat h) (e, k) = (e, (h, k))
    step_none best x y ys m (lower b h l) (e, k) = absurd (ground arith)
    step_none best x y ys m (new r h) (e, k) = absurd (ground arith)

    step_some :
        (best : Option (Interval F)) (x y : Sample F) (ys : List (Sample F))
        (m : Option (Interval F)) (i : Interval F)
        → Pair best x y m
        → Beats m (y ∷ ys) i
        → Beats best (x ∷ y ∷ ys) i
    step_some best x y ys m i (flat h) k = record {
      largest = (λ r. absurd (h r), k.largest);
      found = elim k.found [ inl e ↦ inl e | inr f ↦ inr (that f) ];
      better = k.better;
    }
    step_some best x y ys m i (lower b h l) k = record {
      largest = (λ r. not_above b i (rise x y) l (k.better b h), k.largest);
      found = elim k.found [ inl e ↦ inl e | inr f ↦ inr (that f) ];
      better = k.better;
    }
    step_some best x y ys m i (new r h) k = record {
      largest = (
        λ q.
            not_above (interval x y) i (rise x y) (irreflexive (rise x y))
              (k.better (interval x y) refl),
        k.largest,
      );
      found = elim k.found [ inl e ↦ inr (this r (ground arith)) | inr f ↦ inr (that f) ];
      better = λ b e. inr (
          still_better b (interval x y) i (beats_best best b (rise x y) h e)
            (k.better (interval x y) refl));
    }

    grown :
        (best : Option (Interval F)) (x y : Sample F) (ys : List (Sample F))
        (m : Option (Interval F))
        → Pair best x y m
        → (r : Option (Interval F)) → Grown m (y ∷ ys) r
        → Grown best (x ∷ y ∷ ys) r
    grown best x y ys m q none g = step_none best x y ys m q g
    grown best x y ys m q (some i) g = step_some best x y ys m i q g

    unchanged :
        (best : Option (Interval F)) (l : List (Sample F))
        → ((P : Sample F → Sample F → Type 0) → Each P l)
        → Grown best l best
    unchanged none l h = (refl, h (λ x y. ⊥))
    unchanged (some b) l h = record {
      largest = h (λ x y. n.less b.delta_bytes (rise x y) ≡ false);
      found = inl refl;
      better = λ c e. inl (ground arith);
    }

    growth_from-Grown :
        (best : Option (Interval F)) (points : List (Sample F))
        → Grown best points (growth_from n median best points)
    unfolding growth_from
    growth_from-Grown best [] = unchanged best [] (λ P. tt)
    growth_from-Grown best (x ∷ []) = unchanged best (x ∷ []) (λ P. tt)
    growth_from-Grown best (x ∷ y ∷ ys) =
        grown best x y ys (after best x y) (pair best x y)
          (growth_from n median (after best x y) (y ∷ ys))
          (growth_from-Grown (after best x y) (y ∷ ys))

    -- The interval that is reported lies between two neighbours of the curve that are near enough
    -- and rise, and no such rise is larger; none is reported only where there is no such rise.
    pub largest_growth-Grown :
        (points : List (Sample F)) → Grown none points (largest_growth n points median)
    unfolding largest_growth
    largest_growth-Grown points = growth_from-Grown none points

-- ===== src/Kube/Fields/Balance.antt =====
-- The byte difference of two field lists.
use etcd_space_inspector.Prelude.{
  ℕ, ◌<◌, ◌≡◌, refl, sym, ap, ◌∙◌, Option, none, some, List, [], ◌∷◌, arith, Bool-cases, inl, inr,
}
use etcd_space_inspector.Prelude.Bytes.{Bytes, same, same-iff_eq}
use etcd_space_inspector.Prelude.Word.{add64, sub64, total, word_mod}
use etcd_space_inspector.Kube.Fields.{
  FieldStat, Changes, look, see_before, loop_before, see_after, loop_after, finish_record,
  compare_maps, no_changes,
}

-- No two fields have one path.
abbrev pub Unique : List FieldStat → Type 0
Unique [] = Unit
Unique (f ∷ fs) = (look f.path fs ≡ none) × Unique fs

abbrev size_of : Option FieldStat → ℕ
size_of none = 0
size_of (some f) = f.byte_size

abbrev sizes : List FieldStat → ℕ
sizes fs = total (λ f. f.byte_size) fs

-- The new sizes of some fields, and the sizes of those that are not in `before`.
abbrev new_sizes : List FieldStat → List FieldStat → ℕ
new_sizes after fs = total (λ f. size_of (look f.path after)) fs

abbrev alone_size : Option FieldStat → FieldStat → ℕ
alone_size none f = f.byte_size
alone_size (some g) f = 0

abbrev outside : List FieldStat → List FieldStat → ℕ
outside before fs = total (λ f. alone_size (look f.path before) f) fs

see_before-delta :
    (o : Option FieldStat) (f : FieldStat) (c : Changes)
    → add64 (see_before o f c).delta f.byte_size ≡ add64 c.delta (size_of o)
unfolding see_before add64 sub64
see_before-delta none f c = omega arith
see_before-delta (some n) f c = ground arith

see_after-delta :
    (o : Option FieldStat) (f : FieldStat) (c : Changes)
    → add64 (see_after o f c).delta 0 ≡ add64 c.delta (alone_size o f)
unfolding see_after add64
see_after-delta (some g) f c = refl
see_after-delta none f c = omega arith

-- Sums modulo 2^64.
both_steps :
    (c d r s n x y : ℕ)
    → add64 d s ≡ add64 c n
    → add64 r x ≡ add64 d y
    → add64 r (add64 s x) ≡ add64 c (add64 n y)
unfolding add64
both_steps c d r s n x y h g = omega arith

one_step :
    (c d r n y : ℕ)
    → add64 d 0 ≡ add64 c n
    → add64 r 0 ≡ add64 d y
    → add64 r 0 ≡ add64 c (add64 n y)
unfolding add64
one_step c d r n y h g = omega arith

moved : (s x y : ℕ) → add64 0 x ≡ add64 0 y → add64 0 (add64 s x) ≡ add64 s (add64 0 y)
unfolding add64
moved s x y h = omega arith

kept : (s n x y : ℕ) → add64 0 x ≡ add64 n y → add64 0 (add64 s x) ≡ add64 n (add64 s y)
unfolding add64
kept s n x y h = omega arith

put_together :
    (n s x y t : ℕ)
    → add64 0 x ≡ add64 n y
    → add64 s x ≡ add64 0 t
    → add64 (add64 n s) y ≡ add64 0 t
unfolding add64
put_together n s x y t h g = omega arith

difference :
    (d₁ d₂ b n o a : ℕ)
    → d₂ < word_mod
    → add64 d₁ b ≡ add64 0 n
    → add64 d₂ 0 ≡ add64 d₁ o
    → add64 n o ≡ add64 0 a
    → d₂ ≡ sub64 a b
unfolding add64 sub64
difference d₁ d₂ b n o a k h g e = omega arith

loop_before-delta :
    (after fs : List FieldStat) (c : Changes)
    → add64 (loop_before after fs c).delta (sizes fs) ≡ add64 c.delta (new_sizes after fs)
unfolding loop_before total
loop_before-delta after [] c = refl
loop_before-delta after (f ∷ fs) c =
    let c' = see_before (look f.path after) f c in
    both_steps c.delta c'.delta (loop_before after fs c').delta f.byte_size
      (size_of (look f.path after)) (sizes fs) (new_sizes after fs)
      (see_before-delta (look f.path after) f c) (loop_before-delta after fs c')

loop_after-delta :
    (before fs : List FieldStat) (c : Changes)
    → add64 (loop_after before fs c).delta 0 ≡ add64 c.delta (outside before fs)
unfolding loop_after total
loop_after-delta before [] c = refl
loop_after-delta before (f ∷ fs) c =
    let c' = see_after (look f.path before) f c in
    one_step c.delta c'.delta (loop_after before fs c').delta (alone_size (look f.path before) f)
      (outside before fs) (see_after-delta (look f.path before) f c) (loop_after-delta before fs c')

-- Every difference is below 2^64.
see_before-bound :
    (o : Option FieldStat) (f : FieldStat) (c : Changes)
    → c.delta < word_mod
    → (see_before o f c).delta < word_mod
unfolding see_before add64 sub64
see_before-bound none f c h = omega arith
see_before-bound (some n) f c h = ground arith

loop_before-bound :
    (after fs : List FieldStat) (c : Changes)
    → c.delta < word_mod
    → (loop_before after fs c).delta < word_mod
unfolding loop_before
loop_before-bound after [] c h = h
loop_before-bound after (f ∷ fs) c h =
    loop_before-bound after fs _ (see_before-bound (look f.path after) f c h)

see_after-bound :
    (o : Option FieldStat) (f : FieldStat) (c : Changes)
    → c.delta < word_mod
    → (see_after o f c).delta < word_mod
unfolding see_after add64
see_after-bound (some g) f c h = h
see_after-bound none f c h = omega arith

loop_after-bound :
    (before fs : List FieldStat) (c : Changes)
    → c.delta < word_mod
    → (loop_after before fs c).delta < word_mod
unfolding loop_after
loop_after-bound before [] c h = h
loop_after-bound before (f ∷ fs) c h =
    loop_after-bound before fs _ (see_after-bound (look f.path before) f c h)

same-sym : (p q : Bytes) → same p q ≡ same q p
same-sym p q = ground (arith, same-iff_eq p q, same-iff_eq q p)

-- One more field before: what it looks up moves from the fields outside to the new sizes.
outside-cons :
    (b : FieldStat) (bs after : List FieldStat)
    → look b.path bs ≡ none
    → Unique after
    → add64 0 (outside bs after) ≡ add64 (size_of (look b.path after)) (outside (b ∷ bs) after)
unfolding look total
outside-cons b bs [] h u = refl
outside-cons b bs (a ∷ rest) h u = elim (Bool-cases (same a.path b.path)) [
  | inl hit ↦
      let e = (same-iff_eq a.path b.path).0 hit in
      let gone : look b.path rest ≡ none = ap (λ (x : Bytes). look x rest) (sym e) ∙ u.0 in
      let new : look a.path bs ≡ none = ap (λ (x : Bytes). look x bs) e ∙ h in
      rw (hit, same-sym b.path a.path ∙ hit, new)
        (moved a.byte_size (outside bs rest) (outside (b ∷ bs) rest) (
          outside-cons b bs rest h u.1
          ∙ ap (λ (o : Option FieldStat). add64 (size_of o) (outside (b ∷ bs) rest)) gone))
  | inr miss ↦
      rw (miss, same-sym b.path a.path ∙ miss)
        (kept (alone_size (look a.path bs) a) (size_of (look b.path rest)) (outside bs rest)
          (outside (b ∷ bs) rest) (outside-cons b bs rest h u.1))
]

outside_none : (after : List FieldStat) → add64 0 (outside [] after) ≡ add64 0 (sizes after)
unfolding total look
outside_none after = refl

-- Each new field is counted once: under an old field of its path, or outside.
counted_once :
    (before after : List FieldStat)
    → Unique before
    → Unique after
    → add64 (new_sizes after before) (outside before after) ≡ add64 0 (sizes after)
unfolding total
counted_once [] after ub ua = outside_none after
counted_once (b ∷ bs) after ub ua =
    put_together (size_of (look b.path after)) (new_sizes after bs) (outside bs after)
      (outside (b ∷ bs) after) (sizes after) (outside-cons b bs after ub.0 ua)
      (counted_once bs after ub.1 ua)

-- For two maps of fields the reported difference in bytes is, modulo 2^64, the new total less the old
-- one, in whatever order the maps are ranged over.
pub byte_delta-compare_maps :
    (before after : List FieldStat)
    → Unique before
    → Unique after
    → (compare_maps before after).byte_delta
      ≡ sub64 (total (λ f. f.byte_size) after) (total (λ f. f.byte_size) before)
unfolding compare_maps finish_record
byte_delta-compare_maps before after ub ua =
    let c = loop_before after before no_changes in
    difference c.delta (loop_after before after c).delta (sizes before) (new_sizes after before)
      (outside before after) (sizes after)
      (loop_after-bound before after c (loop_before-bound after before no_changes (omega arith)))
      (loop_before-delta after before no_changes) (loop_after-delta before after c)
      (counted_once before after ub ua)

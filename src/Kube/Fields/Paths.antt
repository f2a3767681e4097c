-- ===== src/Kube/Fields/Paths.antt =====
-- Which paths a comparison of fields lists.
use etcd_space_inspector.Prelude.{
  ◌≡◌, refl, sym, ap, ◌∙◌, Bool, true, false, ◌&&◌, ◌||◌, not, Option, none, some, List, [], ◌∷◌,
  ◌++◌, ◌==◌, arith, Bool-cases, inl, inr,
}
use etcd_space_inspector.Prelude.Bytes.{Bytes, same, same-iff_eq}
use etcd_space_inspector.Prelude.Strings.{is_some}
use etcd_space_inspector.Kube.Fields.{
  FieldStat, Changes, look, see_before, loop_before, see_after, loop_after, finish_record,
  compare_maps, no_changes, insert_path, sort_paths,
}
use etcd_space_inspector.Kube.Fields.Balance.{Unique}

unfoldable pub contains : Bytes → List Bytes → Bool
contains p [] = false
contains p (q ∷ qs) = same q p || contains p qs

pub contains-snoc :
    (p q : Bytes) (l : List Bytes) → contains p (l ++ q ∷ []) ≡ (contains p l || same q p)
unfolding contains
contains-snoc p q [] = ground arith
contains-snoc p q (x ∷ l) = ground (arith, contains-snoc p q l)

contains-insert_path :
    (p q : Bytes) (l : List Bytes) → contains p (insert_path q l) ≡ (same q p || contains p l)
unfolding contains insert_path
contains-insert_path p q [] = refl
contains-insert_path p q (x ∷ l) = ground (arith, contains-insert_path p q l)

contains-sort_paths : (p : Bytes) (l : List Bytes) → contains p (sort_paths l) ≡ contains p l
unfolding contains sort_paths
contains-sort_paths p [] = refl
contains-sort_paths p (x ∷ l) =
    contains-insert_path p x (sort_paths l) ∙ ap (λ b. same x p || b) (contains-sort_paths p l)

-- Whether two fields of one path differ.
abbrev pub differ : Option FieldStat → Option FieldStat → Bool
differ (some f) (some n) = not (same f.hash n.hash) || not (f.byte_size == n.byte_size)
differ _ _ = false

module _ (p : Bytes) where
  pub look-at :
      (f : FieldStat) (m : List FieldStat) → same f.path p ≡ true → look f.path m ≡ look p m
  look-at f m h = ap (λ (x : Bytes). look x m) ((same-iff_eq f.path p).0 h)

  see_before-removed :
      (o : Option FieldStat) (f : FieldStat) (c : Changes)
      → contains p (see_before o f c).removed
        ≡ (contains p c.removed || (same f.path p && not (is_some o)))
  unfolding see_before
  see_before-removed none f c = ground (arith, contains-snoc p f.path c.removed)
  see_before-removed (some n) f c = ground arith

  see_before-modified :
      (o : Option FieldStat) (f : FieldStat) (c : Changes)
      → contains p (see_before o f c).modified
        ≡ (contains p c.modified || (same f.path p && differ (some f) o))
  unfolding see_before
  see_before-modified none f c = ground arith
  see_before-modified (some n) f c = ground (arith, contains-snoc p f.path c.modified)

  see_after-added :
      (o : Option FieldStat) (f : FieldStat) (c : Changes)
      → contains p (see_after o f c).added
        ≡ (contains p c.added || (same f.path p && not (is_some o)))
  unfolding see_after
  see_after-added none f c = ground (arith, contains-snoc p f.path c.added)
  see_after-added (some n) f c = ground arith

  loop_before-removed :
      (after fs : List FieldStat) (c : Changes)
      → contains p (loop_before after fs c).removed
        ≡ (contains p c.removed || (is_some (look p fs) && not (is_some (look p after))))
  unfolding loop_before look
  loop_before-removed after [] c = ground arith
  loop_before-removed after (f ∷ fs) c =
      loop_before-removed after fs (see_before (look f.path after) f c)
      ∙ ap (λ b. b || (is_some (look p fs) && not (is_some (look p after))))
          (see_before-removed (look f.path after) f c)
      ∙ elim (Bool-cases (same f.path p)) [
        | inl hit ↦ rw (hit, look-at f after hit) (ground arith)
        | inr miss ↦ rw miss (ground arith)
      ]

  loop_after-added :
      (before fs : List FieldStat) (c : Changes)
      → contains p (loop_after before fs c).added
        ≡ (contains p c.added || (is_some (look p fs) && not (is_some (look p before))))
  unfolding loop_after look
  loop_after-added before [] c = ground arith
  loop_after-added before (f ∷ fs) c =
      loop_after-added before fs (see_after (look f.path before) f c)
      ∙ ap (λ b. b || (is_some (look p fs) && not (is_some (look p before))))
          (see_after-added (look f.path before) f c)
      ∙ elim (Bool-cases (same f.path p)) [
        | inl hit ↦ rw (hit, look-at f before hit) (ground arith)
        | inr miss ↦ rw miss (ground arith)
      ]

  loop_before-modified :
      (after fs : List FieldStat) (c : Changes)
      → Unique fs
      → contains p (loop_before after fs c).modified
        ≡ (contains p c.modified || differ (look p fs) (look p after))
  unfolding loop_before look
  loop_before-modified after [] c u = ground arith
  loop_before-modified after (f ∷ fs) c u =
      loop_before-modified after fs (see_before (look f.path after) f c) u.1
      ∙ ap (λ b. b || differ (look p fs) (look p after))
          (see_before-modified (look f.path after) f c)
      ∙ elim (Bool-cases (same f.path p)) [
        | inl hit ↦ rw (hit, look-at f after hit, sym (look-at f fs hit) ∙ u.0) (ground arith)
        | inr miss ↦ rw miss (ground arith)
      ]

-- What the loops leave alone.
see_before-added :
    (o : Option FieldStat) (f : FieldStat) (c : Changes) → (see_before o f c).added ≡ c.added
unfolding see_before
see_before-added none f c = refl
see_before-added (some n) f c = ground arith

loop_before-added :
    (after fs : List FieldStat) (c : Changes) → (loop_before after fs c).added ≡ c.added
unfolding loop_before
loop_before-added after [] c = refl
loop_before-added after (f ∷ fs) c =
    loop_before-added after fs _ ∙ see_before-added (look f.path after) f c

see_after-kept :
    (o : Option FieldStat) (f : FieldStat) (c : Changes)
    → ((see_after o f c).removed ≡ c.removed) × ((see_after o f c).modified ≡ c.modified)
unfolding see_after
see_after-kept none f c = (refl, refl)
see_after-kept (some n) f c = (refl, refl)

loop_after-kept :
    (before fs : List FieldStat) (c : Changes)
    → ((loop_after before fs c).removed ≡ c.removed)
      × ((loop_after before fs c).modified ≡ c.modified)
unfolding loop_after
loop_after-kept before [] c = (refl, refl)
loop_after-kept before (f ∷ fs) c =
    let (r, m) = loop_after-kept before fs (see_after (look f.path before) f c) in
    let (r', m') = see_after-kept (look f.path before) f c in (r ∙ r', m ∙ m')

-- For two maps of fields a path is listed as added exactly when the new map alone has it, as removed
-- exactly when the old map alone has it, and as modified exactly when both have it with different hashes or
-- sizes, in whatever order the maps are ranged over.
pub paths-compare_maps :
    (before after : List FieldStat) (p : Bytes)
    → Unique before
    → (contains p (compare_maps before after).added_paths
        ≡ (is_some (look p after) && not (is_some (look p before))))
      × (contains p (compare_maps before after).removed_paths
          ≡ (is_some (look p before) && not (is_some (look p after))))
      × (contains p (compare_maps before after).modified_paths
          ≡ differ (look p before) (look p after))
unfolding compare_maps finish_record
paths-compare_maps before after p u =
    let c = loop_before after before no_changes in
    (
      contains-sort_paths p _
          ∙ loop_after-added p before after c
          ∙ ap
              (λ (l : List Bytes).
                contains p l || (is_some (look p after) && not (is_some (look p before))))
              (loop_before-added after before no_changes)
          ∙ unfold contains in refl,
      contains-sort_paths p _
          ∙ ap (contains p) (loop_after-kept before after c).0
          ∙ loop_before-removed p after before no_changes
          ∙ unfold contains in refl,
      contains-sort_paths p _
          ∙ ap (contains p) (loop_after-kept before after c).1
          ∙ loop_before-modified p after before no_changes u
          ∙ unfold contains in refl,
    )

-- ===== src/Kube/Fields/Flags.antt =====
-- What the flags of a comparison of fields promise.
use etcd_space_inspector.Prelude.{
  ◌≡◌, refl, sym, ap, ◌∙◌, Bool, true, false, ◌&&◌, ◌||◌, not, Option, none, some, List, [], ◌∷◌,
  arith, Bool-cases, inl, inr,
}
use etcd_space_inspector.Prelude.Bytes.{Bytes, same, same-iff_eq}
use etcd_space_inspector.Prelude.Strings.{is_some}
use etcd_space_inspector.Kube.Fields.{
  FieldStat, Changes, look, see_before, loop_before, see_after, loop_after, finish_record,
  compare_maps, no_changes, all_hold, all_paths, is_managed, is_status,
}
use etcd_space_inspector.Kube.Fields.Balance.{Unique}
use etcd_space_inspector.Kube.Fields.Paths.{contains, contains-snoc, look-at, differ}

-- Whether a path has changed, given the old and the new field.
abbrev pub is_changed : Option FieldStat → Option FieldStat → Bool
is_changed none none = false
is_changed none (some n) = true
is_changed (some f) none = true
is_changed (some f) (some n) = differ (some f) (some n)

-- The changes that the first loop sees.
abbrev changed_before : Option FieldStat → Option FieldStat → Bool
changed_before none o = false
changed_before (some f) o = is_changed (some f) o

module _ (p : Bytes) where
  see_before-changed :
      (o : Option FieldStat) (f : FieldStat) (c : Changes)
      → contains p (see_before o f c).changed
        ≡ (contains p c.changed || (same f.path p && is_changed (some f) o))
  unfolding see_before
  see_before-changed none f c = ground (arith, contains-snoc p f.path c.changed)
  see_before-changed (some n) f c = ground (arith, contains-snoc p f.path c.changed)

  see_after-changed :
      (o : Option FieldStat) (f : FieldStat) (c : Changes)
      → contains p (see_after o f c).changed
        ≡ (contains p c.changed || (same f.path p && not (is_some o)))
  unfolding see_after
  see_after-changed none f c = ground (arith, contains-snoc p f.path c.changed)
  see_after-changed (some n) f c = ground arith

  loop_before-changed :
      (after fs : List FieldStat) (c : Changes)
      → Unique fs
      → contains p (loop_before after fs c).changed
        ≡ (contains p c.changed || changed_before (look p fs) (look p after))
  unfolding loop_before look
  loop_before-changed after [] c u = ground arith
  loop_before-changed after (f ∷ fs) c u =
      loop_before-changed after fs (see_before (look f.path after) f c) u.1
      ∙ ap (λ b. b || changed_before (look p fs) (look p after))
          (see_before-changed (look f.path after) f c)
      ∙ elim (Bool-cases (same f.path p)) [
        | inl hit ↦ rw (hit, look-at p f after hit, sym (look-at p f fs hit) ∙ u.0) (ground arith)
        | inr miss ↦ rw miss (ground arith)
      ]

  loop_after-changed :
      (before fs : List FieldStat) (c : Changes)
      → contains p (loop_after before fs c).changed
        ≡ (contains p c.changed || (is_some (look p fs) && not (is_some (look p before))))
  unfolding loop_after look
  loop_after-changed before [] c = ground arith
  loop_after-changed before (f ∷ fs) c =
      loop_after-changed before fs (see_after (look f.path before) f c)
      ∙ ap (λ b. b || (is_some (look p fs) && not (is_some (look p before))))
          (see_after-changed (look f.path before) f c)
      ∙ elim (Bool-cases (same f.path p)) [
        | inl hit ↦ rw (hit, look-at p f before hit) (ground arith)
        | inr miss ↦ rw miss (ground arith)
      ]

  either_loop :
      (o n : Option FieldStat)
      → is_changed o n ≡ true
      → (changed_before o n || (is_some n && not (is_some o))) ≡ true
  either_loop none none h = h
  either_loop none (some n) h = refl
  either_loop (some f) none h = refl
  either_loop (some f) (some n) h = ground arith

  -- A path that has changed is among those that the flags are computed from.
  changed-listed :
      (before after : List FieldStat)
      → Unique before
      → is_changed (look p before) (look p after) ≡ true
      → contains p (loop_after before after (loop_before after before no_changes)).changed ≡ true
  changed-listed before after u h =
      loop_after-changed before after (loop_before after before no_changes)
      ∙ ap (λ b. b || (is_some (look p after) && not (is_some (look p before))))
          (loop_before-changed after before no_changes u)
      ∙ unfold contains in either_loop (look p before) (look p after) h

  all_hold-contains :
      (test : Bytes → Bool) (l : List Bytes)
      → all_hold test l ≡ true
      → contains p l ≡ true
      → test p ≡ true
  unfolding all_hold contains
  all_hold-contains test [] h c = absurd (ground arith)
  all_hold-contains test (q ∷ qs) h c = elim (Bool-cases (same q p)) [
    | inl hit ↦ ap test (sym ((same-iff_eq q p).0 hit)) ∙ first (test q) (all_hold test qs) h
    | inr miss ↦ all_hold-contains test qs (second (test q) (all_hold test qs) h) (rw miss at c)
  ]
    where
      first : (a b : Bool) → (a && b) ≡ true → a ≡ true
      first a b h = ground arith

      second : (a b : Bool) → (a && b) ≡ true → b ≡ true
      second a b h = ground arith

  all_paths-contains :
      (test : Bytes → Bool) (l : List Bytes)
      → all_paths test l ≡ true
      → contains p l ≡ true
      → test p ≡ true
  unfolding all_paths
  all_paths-contains test [] h c = absurd (ground arith)
  all_paths-contains test (q ∷ qs) h c = all_hold-contains test (q ∷ qs) h c

-- A comparison that is marked as a change of the status only has no other change: every path whose field
-- was added, removed or modified is `status` or below it.
pub status_only-compare_maps :
    (before after : List FieldStat) (p : Bytes)
    → Unique before
    → (compare_maps before after).status_only ≡ true
    → is_changed (look p before) (look p after) ≡ true
    → is_status p ≡ true
unfolding compare_maps finish_record
status_only-compare_maps before after p u h c =
    all_paths-contains p is_status _ h (changed-listed p before after u c)

-- A comparison that is marked as a change of the managed fields only has no other change.
pub managed_fields_only-compare_maps :
    (before after : List FieldStat) (p : Bytes)
    → Unique before
    → (compare_maps before after).managed_fields_only ≡ true
    → is_changed (look p before) (look p after) ≡ true
    → is_managed p ≡ true
unfolding compare_maps finish_record
managed_fields_only-compare_maps before after p u h c =
    all_paths-contains p is_managed _ h (changed-listed p before after u c)

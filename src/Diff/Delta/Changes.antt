-- ===== src/Diff/Delta/Changes.antt =====
-- How the reported keys are named and classified.
use etcd_space_inspector.Prelude.{
  ◌≡◌, ◌↔◌, Bool, true, false, ◌||◌, ◌&&◌, not, ◌==◌, refl, ap, ◌∙◌, List, [], ◌∷◌, arith,
  Bool-cases, inl, inr, All,
}
use etcd_space_inspector.Prelude.Bytes.{Bytes, less, same, same-iff_eq, same_refl, less-connected}
use etcd_space_inspector.Prelude.Word.{sub64}
use etcd_space_inspector.Diff.Join.{Pair, added, removed, paired, join, pair_key, Ascending}
use etcd_space_inspector.Diff.Join.Lookup.{join-Ascending}
use etcd_space_inspector.Diff.Aligner.Turns.{item_of}
use etcd_space_inspector.Diff.Aligner.Delivered.{reported}
use etcd_space_inspector.Diff.Delta.{
  ChangeType, is_modified, KeyDelta, key_delta, key_unchanged, change_added, change_deleted,
  change_modified, KeyState, key_aligner,
}
use etcd_space_inspector.Diff.Delta.Totals.{key_items}

-- Whether the key was live in the baseline, and is live in the target; and whether one side alone
-- has a row for it.
abbrev pub was_present : Pair KeyState → Bool
was_present (added t) = false
was_present (removed b) = b.present
was_present (paired b t) = b.present

abbrev pub is_present : Pair KeyState → Bool
is_present (added t) = t.present
is_present (removed b) = false
is_present (paired b t) = t.present

abbrev pub one_sided : Pair KeyState → Bool
one_sided (paired b t) = false
one_sided _ = true

abbrev pub change : Pair KeyState → ChangeType
change p = (item_of key_aligner p).change_type

-- What a key has between its two sides, modulo 2^64.
abbrev pub differs : Pair KeyState → Bool
differs (paired b t) = not (
    sub64 t.current b.current == 0
    && sub64 t.historical b.historical == 0
    && sub64 t.tombstone b.tombstone == 0
    && sub64 t.revisions b.revisions == 0)
differs _ = true

-- What the report says of one key: nothing, or one item.
abbrev pub report : Pair KeyState → List KeyDelta
report p = reported key_aligner (p ∷ [])

abbrev pub Says : ChangeType → Pair KeyState → Type 0
Says c p = (d : KeyDelta) × (report p ≡ d ∷ []) × (d.change_type ≡ c)

-- The change type of the item of a key, before unchanged items are dropped.
change_lem :
    (p : Pair KeyState)
    → ((change p ≡ change_added) ↔ ((was_present p ≡ false) × (is_present p ≡ true)))
      × ((change p ≡ change_deleted)
          ↔ ((is_present p ≡ false) × ((was_present p || one_sided p) ≡ true)))
      × ((change p ≡ change_modified) ↔ ((one_sided p ≡ false) × (was_present p ≡ is_present p)))
unfolding item_of key_aligner
change_lem (added t) = (
  (λ h. ground arith, λ h. ground arith),
  (λ h. ground arith, λ h. ground arith),
  (λ h. ground arith, λ h. ground arith),
)
change_lem (removed b) = (
  (λ h. ground arith, λ h. ground arith),
  (λ h. ground arith, λ h. ground arith),
  (λ h. ground arith, λ h. ground arith),
)
change_lem (paired b t) = (
  (λ h. ground arith, λ h. ground arith),
  (λ h. ground arith, λ h. ground arith),
  (λ h. ground arith, λ h. ground arith),
)

is_dropped :
    (p : Pair KeyState)
    → key_aligner.unchanged (item_of key_aligner p) ≡ (is_modified (change p) && not (differs p))
unfolding item_of key_aligner key_unchanged key_delta
is_dropped (added t) = ground arith
is_dropped (removed b) = ground arith
is_dropped (paired b t) = ground arith

head_same : (x y : KeyDelta) → ◌≡◌ {A = List KeyDelta} (x ∷ []) (y ∷ []) → x ≡ y
head_same x y h = ground arith

Says-when :
    (c : ChangeType) (p : Pair KeyState)
    → Says c p ↔ ((change p ≡ c) × ((is_modified (change p) && not (differs p)) ≡ false))
unfolding reported
Says-when c p = elim (Bool-cases (key_aligner.unchanged (item_of key_aligner p))) [
  | inl e ↦
      rw e (λ h. absurd (ground (arith, h.1)), λ h. absurd (ground (arith, is_dropped p, h.1)))
  | inr e ↦ rw e (
    λ (d, h, k).
        (ap (λ (x : KeyDelta). x.change_type) (head_same _ d h) ∙ k, ground (arith, is_dropped p)),
    λ h. (item_of key_aligner p, refl, h.0),
  )
]

silent_when :
    (p : Pair KeyState) → (report p ≡ []) ↔ ((is_modified (change p) && not (differs p)) ≡ true)
unfolding reported
silent_when p = elim (Bool-cases (key_aligner.unchanged (item_of key_aligner p))) [
  | inl e ↦ rw e (λ h. ground (arith, is_dropped p), λ h. refl)
  | inr e ↦ rw e (λ h. absurd (ground arith), λ h. absurd (ground (arith, is_dropped p)))
]

modified_type : (c : ChangeType) → is_modified c ≡ true → c ≡ change_modified
modified_type change_added h = absurd (ground arith)
modified_type change_deleted h = absurd (ground arith)
modified_type change_modified h = refl

kept_as :
    {A : Type 0} (c : ChangeType) (p : Pair KeyState)
    → is_modified c ≡ false
    → ((change p ≡ c) ↔ A)
    → ((change p ≡ c) × ((is_modified (change p) && not (differs p)) ≡ false)) ↔ A
kept_as c p n f = (λ h. f.0 h.0, λ a. (f.1 a, ground (arith, ap is_modified (f.1 a))))

module _ (p : Pair KeyState) where
  moved :
      change p ≡ change_modified
      → (is_modified (change p) && not (differs p)) ≡ false
      → differs p ≡ true
  moved h k = ground (arith, ap is_modified h)

  kept : differs p ≡ true → (is_modified (change p) && not (differs p)) ≡ false
  kept h = ground arith

  still_modified : (is_modified (change p) && not (differs p)) ≡ true → change p ≡ change_modified
  still_modified h = modified_type (change p) (ground arith)

  unmoved : (is_modified (change p) && not (differs p)) ≡ true → differs p ≡ false
  unmoved h = ground arith

  dropped :
      change p ≡ change_modified
      → differs p ≡ false
      → (is_modified (change p) && not (differs p)) ≡ true
  dropped h k = ground (arith, ap is_modified h)

both_ways : {A B C : Type 0} → A ↔ B → B ↔ C → A ↔ C
both_ways f g = (λ a. g.0 (f.0 a), λ c. f.1 (g.1 c))

-- The report says that a key was added exactly when it is live in the target and was not live in the
-- baseline; that it was deleted exactly when it is not live in the target and either was live in
-- the baseline or has a row on one side alone; that it was modified exactly when both sides have a
-- row, agree on whether it is live, and differ, modulo 2^64, in a count of bytes or of revisions;
-- and nothing exactly when both have a row, agree on that and do not differ.
pub change-exact :
    (p : Pair KeyState)
    → (Says change_added p ↔ ((was_present p ≡ false) × (is_present p ≡ true)))
      × (Says change_deleted p ↔ ((is_present p ≡ false) × ((was_present p || one_sided p) ≡ true)))
      × (Says change_modified p
          ↔ ((one_sided p ≡ false) × (was_present p ≡ is_present p) × (differs p ≡ true)))
      × ((report p ≡ [])
          ↔ ((one_sided p ≡ false) × (was_present p ≡ is_present p) × (differs p ≡ false)))
change-exact p = (
  both_ways (Says-when change_added p) (kept_as change_added p refl (change_lem p).0),
  both_ways (Says-when change_deleted p) (kept_as change_deleted p refl (change_lem p).1),
  both_ways (Says-when change_modified p) (
    λ h. (((change_lem p).2.0 h.0).0, ((change_lem p).2.0 h.0).1, moved p h.0 h.1),
    λ h. ((change_lem p).2.1 (h.0, h.1), kept p h.2),
  ),
  both_ways (silent_when p) (
    λ h. let m = (change_lem p).2.0 (still_modified p h) in (m.0, m.1, unmoved p h),
    λ h. dropped p ((change_lem p).2.1 (h.0, h.1)) h.2,
  ),
)

abbrev Agrees : Pair KeyState → Type 0
Agrees (paired b t) = b.hash ≡ t.hash
Agrees _ = Unit

join-Agrees : (bs ts : List KeyState) → All Agrees (join (λ s. s.hash) bs ts)
unfolding join
join-Agrees [] [] = tt
join-Agrees [] (t ∷ ts) = (tt, join-Agrees [] ts)
join-Agrees (b ∷ bs) [] = (tt, join-Agrees bs [])
join-Agrees (b ∷ bs) (t ∷ ts) = elim (Bool-cases (less t.hash b.hash)) [
  | inl lt ↦ rw (lt, join) (tt, join-Agrees (b ∷ bs) ts)
  | inr ge ↦ elim (Bool-cases (less b.hash t.hash)) [
    | inl lt ↦ rw (ge, lt, join) (tt, join-Agrees bs (t ∷ ts))
    | inr ge' ↦ rw (ge, ge', join) (less-connected b.hash t.hash ge' ge, join-Agrees bs ts)
  ]
]

-- An item is named by its key, whichever side the name is taken from.
key_hash-item :
    (p : Pair KeyState) → Agrees p → (item_of key_aligner p).key_hash ≡ pair_key (λ s. s.hash) p
unfolding item_of key_aligner pair_key
key_hash-item (added t) h = ground (arith, same_refl [])
key_hash-item (removed b) h = ground (arith, same-iff_eq b.hash [])
key_hash-item (paired b t) h = ground (arith, h)

Above-reported :
    (k : Bytes) (ps : List (Pair KeyState))
    → All Agrees ps
    → All (λ p. less k (pair_key (λ s. s.hash) p) ≡ true) ps
    → All (λ d. less k d.key_hash ≡ true) (reported key_aligner ps)
unfolding reported
Above-reported k [] a h = tt
Above-reported k (p ∷ ps) a h = elim (Bool-cases (key_aligner.unchanged (item_of key_aligner p))) [
  | inl same ↦ rw same (Above-reported k ps a.1 h.1)
  | inr changed ↦ rw changed (rw (key_hash-item p a.0) h.0, Above-reported k ps a.1 h.1)
]

reported-Ascending :
    (ps : List (Pair KeyState))
    → All Agrees ps
    → Ascending (pair_key (λ s. s.hash)) ps
    → Ascending (λ d. d.key_hash) (reported key_aligner ps)
unfolding reported
reported-Ascending [] a h = tt
reported-Ascending (p ∷ ps) a h =
    elim (Bool-cases (key_aligner.unchanged (item_of key_aligner p))) [
      | inl same ↦ rw same (reported-Ascending ps a.1 h.1)
      | inr changed ↦ rw changed (
        rw (key_hash-item p a.0) (Above-reported (pair_key (λ s. s.hash) p) ps a.1 h.0),
        reported-Ascending ps a.1 h.1,
      )
    ]

-- Of two lists of keys in ascending order of their hashes the report is in strictly ascending order
-- of the hashes it names, so that no key is reported twice.
pub key_items-Ascending :
    (bs ts : List KeyState)
    → Ascending (λ s. s.hash) bs
    → Ascending (λ s. s.hash) ts
    → Ascending (λ d. d.key_hash) (key_items bs ts)
key_items-Ascending bs ts hb ht =
    reported-Ascending _ (join-Agrees bs ts) (join-Ascending (λ s. s.hash) bs ts hb ht)

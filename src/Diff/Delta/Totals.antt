-- ===== src/Diff/Delta/Totals.antt =====
-- The totals of the reported deltas: what the report adds up to, over all keys or objects.
use etcd_space_inspector.Prelude.{
  ℕ, ◌≡◌, refl, sym, ◌∙◌, true, List, [], ◌∷◌, arith, Bool-cases, inl, inr,
}
use etcd_space_inspector.Prelude.Word.{sub64, total, add64-zero_total}
use etcd_space_inspector.Diff.Join.{Pair, added, removed, paired, join}
use etcd_space_inspector.Diff.Join.Balance.{change_of, total-join}
use etcd_space_inspector.Diff.Aligner.{Aligner}
use etcd_space_inspector.Diff.Aligner.Turns.{item_of}
use etcd_space_inspector.Diff.Aligner.Delivered.{reported}
use etcd_space_inspector.Diff.Delta.{
  KeyState, KeyDelta, key_delta, key_unchanged, key_aligner, no_key, ChangeType, no_object,
  ObjectState, ObjectDelta, object_delta, object_unchanged, object_aligner,
}

module _ {A B : Type 0} (c : Aligner A B) (g : B → ℕ) (f : A → ℕ)
    (same_change : (p : Pair A) → g (item_of c p) ≡ change_of f p)
    (no_change : (x : B) → c.unchanged x ≡ true → g x ≡ 0) where
  total-reported_pairs : (ps : List (Pair A)) → total g (reported c ps) ≡ total (change_of f) ps
  unfolding reported total
  total-reported_pairs [] = refl
  total-reported_pairs (p ∷ ps) = elim (Bool-cases (c.unchanged (item_of c p))) [
    | inl same ↦
        rw (same, ← same_change p, no_change (item_of c p) same)
          (total-reported_pairs ps ∙ sym (add64-zero_total (change_of f) ps))
    | inr changed ↦ rw (changed, same_change p, total-reported_pairs ps)
  ]

  -- The report adds up to the difference of the two sides.
  pub total-reported :
      (bs ts : List A) → total g (reported c (join c.key bs ts)) ≡ sub64 (total f ts) (total f bs)
  total-reported bs ts = total-reported_pairs (join c.key bs ts) ∙ total-join f c.key bs ts

key_same :
    (f : KeyState → ℕ) (g : KeyDelta → ℕ)
    → f no_key ≡ 0
    → ((b t : KeyState) (k : ChangeType) → g (key_delta b t k) ≡ sub64 (f t) (f b))
    → (p : Pair KeyState) → g (item_of key_aligner p) ≡ change_of f p
unfolding key_aligner item_of change_of
key_same f g z h (added t) = rw (h, z)
key_same f g z h (removed b) = rw (h, z)
key_same f g z h (paired b t) = rw h

-- A dropped item has no difference to report.
key_change_zero :
    (x : KeyDelta)
    → key_aligner.unchanged x ≡ true
    → (x.current_bytes_delta ≡ 0)
      × (x.historical_bytes_delta ≡ 0)
      × (x.tombstone_bytes_delta ≡ 0)
      × (x.revision_count_delta ≡ 0)
unfolding key_unchanged key_aligner
key_change_zero x h = ground arith

module _ (bs ts : List KeyState) where
  abbrev pub key_items : List KeyDelta
  key_items = reported key_aligner (join (λ s. s.hash) bs ts)

  key_total :
      (g : KeyDelta → ℕ) (f : KeyState → ℕ)
      → f no_key ≡ 0
      → ((b t : KeyState) (k : ChangeType) → g (key_delta b t k) ≡ sub64 (f t) (f b))
      → ((x : KeyDelta) → key_aligner.unchanged x ≡ true → g x ≡ 0)
      → total g key_items ≡ sub64 (total f ts) (total f bs)
  unfolding key_aligner
  key_total g f z same_change no_change =
      total-reported key_aligner g f (key_same f g z same_change) no_change bs ts

  -- Whatever the rows, the reported key deltas add up, modulo 2^64, to the difference between the
  -- target's total and the baseline's: for the current, the historical and the tombstone bytes and
  -- for the number of revisions. What is dropped as unchanged takes nothing away.
  pub total-key_items :
      (total (λ d. d.current_bytes_delta) key_items
        ≡ sub64 (total (λ s. s.current) ts) (total (λ s. s.current) bs))
      × (total (λ d. d.historical_bytes_delta) key_items
          ≡ sub64 (total (λ s. s.historical) ts) (total (λ s. s.historical) bs))
      × (total (λ d. d.tombstone_bytes_delta) key_items
          ≡ sub64 (total (λ s. s.tombstone) ts) (total (λ s. s.tombstone) bs))
      × (total (λ d. d.revision_count_delta) key_items
          ≡ sub64 (total (λ s. s.revisions) ts) (total (λ s. s.revisions) bs))
  unfolding key_delta
  total-key_items = (
    key_total (λ d. d.current_bytes_delta) (λ s. s.current) refl (λ b t k. refl)
        (λ x h. (key_change_zero x h).0),
    key_total (λ d. d.historical_bytes_delta) (λ s. s.historical) refl (λ b t k. refl)
        (λ x h. (key_change_zero x h).1),
    key_total (λ d. d.tombstone_bytes_delta) (λ s. s.tombstone) refl (λ b t k. refl)
        (λ x h. (key_change_zero x h).2),
    key_total (λ d. d.revision_count_delta) (λ s. s.revisions) refl (λ b t k. refl)
        (λ x h. (key_change_zero x h).3),
  )

object_same :
    (f : ObjectState → ℕ) (g : ObjectDelta → ℕ)
    → f no_object ≡ 0
    → ((b t : ObjectState) (k : ChangeType) → g (object_delta b t k) ≡ sub64 (f t) (f b))
    → (p : Pair ObjectState) → g (item_of object_aligner p) ≡ change_of f p
unfolding object_aligner item_of change_of
object_same f g z h (added t) = rw (h, z)
object_same f g z h (removed b) = rw (h, z)
object_same f g z h (paired b t) = rw h

object_change_zero :
    (x : ObjectDelta)
    → object_aligner.unchanged x ≡ true
    → (x.current_bytes_delta ≡ 0) × (x.historical_bytes_delta ≡ 0) × (x.revision_count_delta ≡ 0)
unfolding object_unchanged object_aligner
object_change_zero x h = ground arith

module _ (bs ts : List ObjectState) where
  abbrev pub object_items : List ObjectDelta
  object_items = reported object_aligner (join (λ s. s.hash) bs ts)

  object_total :
      (g : ObjectDelta → ℕ) (f : ObjectState → ℕ)
      → f no_object ≡ 0
      → ((b t : ObjectState) (k : ChangeType) → g (object_delta b t k) ≡ sub64 (f t) (f b))
      → ((x : ObjectDelta) → object_aligner.unchanged x ≡ true → g x ≡ 0)
      → total g object_items ≡ sub64 (total f ts) (total f bs)
  unfolding object_aligner
  object_total g f z same_change no_change =
      total-reported object_aligner g f (object_same f g z same_change) no_change bs ts

  -- Whatever the rows, the reported object deltas add up, modulo 2^64, to the difference between
  -- the target's total and the baseline's: for the current bytes, the historical bytes and the
  -- number of revisions.
  pub total-object_items :
      (total (λ d. d.current_bytes_delta) object_items
        ≡ sub64 (total (λ s. s.current) ts) (total (λ s. s.current) bs))
      × (total (λ d. d.historical_bytes_delta) object_items
          ≡ sub64 (total (λ s. s.historical) ts) (total (λ s. s.historical) bs))
      × (total (λ d. d.revision_count_delta) object_items
          ≡ sub64 (total (λ s. s.revisions) ts) (total (λ s. s.revisions) bs))
  unfolding object_delta
  total-object_items = (
    object_total (λ d. d.current_bytes_delta) (λ s. s.current) refl (λ b t k. refl)
        (λ x h. (object_change_zero x h).0),
    object_total (λ d. d.historical_bytes_delta) (λ s. s.historical) refl (λ b t k. refl)
        (λ x h. (object_change_zero x h).1),
    object_total (λ d. d.revision_count_delta) (λ s. s.revisions) refl (λ b t k. refl)
        (λ x h. (object_change_zero x h).2),
  )

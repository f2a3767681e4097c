-- ===== src/Task/Store/Kept.antt =====
-- What the writes of the task service change.
use etcd_space_inspector.Prelude.{
  ℕ, ◌≡◌, ◌≢◌, inl, inr, refl, Bool, true, false, ◌||◌, not, Option, none, some, List, [], ◌∷◌,
  if◌then◌else◌, Bool-cases, All, arith,
}
use etcd_space_inspector.Prelude.Bytes.{Bytes, same, same-iff_eq, same_refl}
use etcd_space_inspector.Task.Status.{cancelled, valid_transition}
use etcd_space_inspector.Task.Manifest.{Manifest}
use etcd_space_inspector.Task.Paths.{valid_id}
use etcd_space_inspector.Task.Store.{
  readable, Dir, Dirs, Faults, Result, ok, failed, write_fails, write_in, write_manifest,
  manifest_of, get, save, save_over, save_for_run, cancel_item, cancel, is_safe, safe_runes,
  safe_temp_part,
}

module _ {F : Type 0} where
  -- The manifest of `item` is written, and nothing else has changed.
  pub record Written (item : Manifest F) (dirs after : Dirs F) : Type 0 where
    pub manifest : manifest_of (after item.id) ≡ some (readable item)
    pub others : (x : Bytes) → x ≢ item.id → after x ≡ dirs x

  -- Nothing has changed after an error; otherwise what `Good` says.
  abbrev pub Either : (Dirs F → Type 0) → Dirs F → Result Unit × Dirs F → Type 0
  Either Good dirs (failed e, after) = after ≡ dirs
  Either Good dirs (ok u, after) = Good after

  write_in-Either :
      (fails : Bool) (item : Manifest F) (o : Option (Dir F)) (dirs : Dirs F)
      → Either (Written item dirs) dirs (write_in fails item o dirs)
  write_in-Either fails item none dirs = refl
  write_in-Either true item (some d) dirs = refl
  write_in-Either false item (some d) dirs = record {
    manifest = ground (arith, same_refl item.id);
    others = λ x h. ground (arith, same-iff_eq x item.id);
  }

  -- A write of a manifest is whole or leaves everything as it was.
  pub write_manifest-Either :
      (f : Faults) (item : Manifest F) (dirs : Dirs F)
      → Either (Written item dirs) dirs (write_manifest f item dirs)
  unfolding write_manifest
  write_manifest-Either f item dirs = write_in-Either (write_fails f) item (dirs item.id) dirs

  -- Get gives a manifest only where there is one that can be read, under a valid id.
  pub get-ok :
      (fails : Bool) (id : Bytes) (dirs : Dirs F) (m : Manifest F)
      → get fails id dirs ≡ ok m
      → (valid_id id ≡ true) × (manifest_of (dirs id) ≡ some (readable m))
  unfolding get
  get-ok fails id dirs m h = ground arith

  Either-weaker :
      (P Q : Dirs F → Type 0) (dirs : Dirs F) (r : Result Unit × Dirs F)
      → ((after : Dirs F) → P after → Q after)
      → Either P dirs r
      → Either Q dirs r
  Either-weaker P Q dirs (failed e, after) h k = k
  Either-weaker P Q dirs (ok u, after) h k = h after k

  pub Either-if :
      (P : Dirs F → Type 0) (dirs : Dirs F) (b : Bool) (x y : Result Unit × Dirs F)
      → (b ≡ true → Either P dirs x)
      → (b ≡ false → Either P dirs y)
      → Either P dirs (if b then x else y)
  Either-if P dirs true x y h k = h refl
  Either-if P dirs false x y h k = k refl

  -- The manifest that was read belongs to the run, as `item` does, and `item` is written.
  pub record SavedRun (item : Manifest F) (run_id : Bytes) (dirs between after : Dirs F)
      : Type 0 where
    pub current : Manifest F
    pub read : manifest_of (dirs item.id) ≡ some (readable current)
    pub current_run : current.run_id ≡ run_id
    pub item_run : item.run_id ≡ run_id
    pub written : Written item between after

  save_over-Either :
      (f : Faults) (item : Manifest F) (run_id : Bytes) (dirs between : Dirs F)
      (r : Result (Manifest F))
      → get f.read item.id dirs ≡ r
      → Either (SavedRun item run_id dirs between) between (save_over f item run_id r between)
  save_over-Either f item run_id dirs between (failed e) h = refl
  save_over-Either f item run_id dirs between (ok m) h =
      Either-if (SavedRun item run_id dirs between) between
        (not (same m.run_id run_id) || not (same item.run_id run_id)) _ _ (λ b. refl)
        (λ b.
          Either-weaker (Written item between) (SavedRun item run_id dirs between) between _
            (λ after w. record {
              current = m;
              read = (get-ok f.read item.id dirs m h).1;
              current_run = ground (arith, same-iff_eq m.run_id run_id);
              item_run = ground (arith, same-iff_eq item.run_id run_id);
              written = w;
            })
            (write_manifest-Either f item between))

  -- A save for a run writes the manifest only where both the manifest that it has read and its own
  -- belong to that run, and changes nothing else. What it writes over is what others have left
  -- between its read and its write.
  pub save_for_run-SavedRun :
      (f : Faults) (others : Dirs F → Dirs F) (item : Manifest F) (run_id : Bytes) (dirs : Dirs F)
      → Either
          (SavedRun item run_id dirs (others dirs))
          (others dirs)
          (save_for_run f others item run_id dirs)
  unfolding save_for_run
  save_for_run-SavedRun f others item run_id dirs =
      save_over-Either f item run_id dirs (others dirs) (get f.read item.id dirs) refl

  -- The task could be cancelled, and is, at this time; the rest of its manifest is as before.
  pub record Cancelled (now : ℕ) (id : Bytes) (dirs after : Dirs F) : Type 0 where
    pub before : Manifest F
    pub read : manifest_of (dirs id) ≡ some (readable before)
    pub valid : valid_transition before.status cancelled ≡ true
    pub written : Written (record before { status = cancelled; completed_at = some now }) dirs after

  cancel_item-Either :
      (now : ℕ) (f : Faults) (id : Bytes) (dirs : Dirs F) (r : Result (Manifest F))
      → get f.read id dirs ≡ r
      → Either (Cancelled now id dirs) dirs (cancel_item now f r dirs)
  unfolding save
  cancel_item-Either now f id dirs (failed e) h = refl
  cancel_item-Either now f id dirs (ok m) h =
      let done : Manifest F = record m { status = cancelled; completed_at = some now } in
      Either-if (Cancelled now id dirs) dirs (valid_transition m.status cancelled) _ _
        (λ v.
          Either-if (Cancelled now id dirs) dirs (not (valid_id m.id)) _ _ (λ b. refl)
            (λ b.
              Either-weaker (Written done dirs) (Cancelled now id dirs) dirs _
                (λ after w. record {
                  before = m;
                  read = (get-ok f.read id dirs m h).1;
                  valid = v;
                  written = w;
                })
                (write_manifest-Either f done dirs)))
        (λ v. refl)

  -- A Cancel that succeeds found a task whose status allows it, and writes that task as cancelled at
  -- this time; otherwise nothing is changed.
  pub cancel-Cancelled :
      (now : ℕ) (f : Faults) (id : Bytes) (dirs : Dirs F)
      → Either (Cancelled now id dirs) dirs (cancel now f id dirs)
  unfolding cancel
  cancel-Cancelled now f id dirs = cancel_item-Either now f id dirs (get f.read id dirs) refl

safe_rune : (r : ℕ) → is_safe (if is_safe r then r else b'_') ≡ true
unfolding is_safe
safe_rune r = elim (Bool-cases (is_safe r)) [ inl e ↦ rw e e | inr e ↦ rw e refl ]

safe_runes-IsSafe : (rs : List ℕ) → All (λ (c : ℕ). is_safe c ≡ true) (safe_runes rs)
safe_runes-IsSafe [] = tt
safe_runes-IsSafe (r ∷ rs) = (safe_rune r, safe_runes-IsSafe rs)

-- A part of a name for a temporary file: safe bytes, at least one, so that it neither leaves the
-- directory nor has the `*` of a pattern.
pub safe_temp_part-IsSafe :
    (rs : List ℕ) → (safe_temp_part rs ≢ []) × All (λ (c : ℕ). is_safe c ≡ true) (safe_temp_part rs)
unfolding safe_temp_part is_safe
safe_temp_part-IsSafe [] =
    (ground arith, (refl, (refl, (refl, (refl, (refl, (refl, (refl, tt))))))))
safe_temp_part-IsSafe (r ∷ rs) = (ground arith, (safe_rune r, safe_runes-IsSafe rs))

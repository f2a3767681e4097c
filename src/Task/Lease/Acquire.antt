-- ===== src/Task/Lease/Acquire.antt =====
-- Who gets the lease.
use etcd_space_inspector.Prelude.{
  ℕ, zero, suc, ◌+◌, ◌<◌, ◌≤◌, ◌≡◌, refl, ap, ◌∙◌, Bool, true, false, not, none, ◌==◌,
  if◌then◌else◌, arith, Bool-cases, inl, inr, some,
}
use etcd_space_inspector.Task.Lease.{
  LeaseRecord, LockFile, absent, unreadable, holds, lease_held, mkdir_failed, Disk, Shared,
  Acquired, acquired, denied, filled, is_live, lease_stale, current, after, Created, created,
  exists, not_created, close_new, sync_new, write_new, open_new, create_lease_file, read_lease_file,
  move_away, try_again, take_over, after_create, attempt, acquire_lease,
}

-- A lease that is acquired is in the file.
abbrev pub Got : LeaseRecord → Acquired × Shared → Type 0
Got x (acquired y, s) = (y ≡ x) × (s.file ≡ holds x)
Got x (denied e, s) = Unit

-- Other processes do not touch the file of this record, from its opening on. They may do what they
-- like with every other.
pub record Respected (disk : Disk) (x : LeaseRecord) : Type 0 where
  pub empty : (n : ℕ) → disk.replaced n ≡ false
  pub written : (n : ℕ) → disk.others n (holds x) ≡ holds x

module _ (disk : Disk) (now stale_after : ℕ) (r : LeaseRecord) (calm : Respected disk r) where
  abbrev Whole : Created disk × Shared → Type 0
  Whole (created, s) = s.file ≡ holds r
  Whole _ = Unit

  close_new-Whole : (b : Bool) (s : Shared) → s.file ≡ holds r → Whole (close_new disk b s)
  close_new-Whole true s h = tt
  close_new-Whole false s h = rw h (calm.written s.calls)

  sync_new-Whole : (b : Bool) (s : Shared) → s.file ≡ holds r → Whole (sync_new disk b s)
  sync_new-Whole true s h = tt
  sync_new-Whole false s h = close_new-Whole _ _ (rw h (calm.written s.calls))

  write_new-Whole : (b : Bool) (s : Shared) → Whole (write_new disk b r s)
  write_new-Whole true s = tt
  write_new-Whole false s =
      sync_new-Whole (disk.fails (s.calls + 1))
        (after disk (if disk.replaced s.calls then current disk s else holds r) s)
        (rw (calm.empty s.calls) refl)

  try_again-Got :
      (again : Shared → Acquired × Shared) (x : Bool × Shared)
      → ((s : Shared) → Got r (again s))
      → Got r (try_again disk now stale_after r again x)
  try_again-Got again (true, s) h = h s
  try_again-Got again (false, s) h = tt

  take_over-Got :
      (again : Shared → Acquired × Shared) (x : LockFile × Shared)
      → ((s : Shared) → Got r (again s))
      → Got r (take_over disk now stale_after r again x)
  unfolding take_over
  take_over-Got again (absent, s) h = h s
  take_over-Got again (unreadable, s) h = tt
  take_over-Got again (holds e, s) h = elim (Bool-cases (is_live now stale_after e)) [
    | inl live ↦ rw live tt
    | inr stale ↦ rw stale (try_again-Got again (move_away disk s) h)
  ]

  open_new-Whole : (b : Bool) (f : LockFile) (s : Shared) → Whole (open_new disk b r f s)
  open_new-Whole b (holds e) s = tt
  open_new-Whole b unreadable s = tt
  open_new-Whole true absent s = tt
  open_new-Whole false absent s = write_new-Whole _ _

  after_create-Got :
      (again : Shared → Acquired × Shared) (x : Created disk × Shared)
      → Whole x
      → ((s : Shared) → Got r (again s))
      → Got r (after_create disk now stale_after r again x)
  unfolding after_create
  after_create-Got again (created, s) w h = (refl, w)
  after_create-Got again (not_created, s) w h = tt
  after_create-Got again (exists, s) w h = take_over-Got again _ h

  attempt-Got : (n : ℕ) (s : Shared) → Got r (attempt disk now stale_after r n s)
  unfolding attempt create_lease_file
  attempt-Got zero s = tt
  attempt-Got (suc n) s =
      after_create-Got (attempt disk now stale_after r n) _
        (open_new-Whole (disk.fails s.calls) (current disk s) s) (attempt-Got n)

  prepared-Got :
      (bad : Bool) (s : Shared)
      → Got r (if bad then (denied mkdir_failed, s) else attempt disk now stale_after r 8 s)
  prepared-Got true s = tt
  prepared-Got false s = attempt-Got 8 s

-- A lease that is acquired is the caller's record with its times filled in, and the file holds that
-- record, whichever calls have failed before and whatever other processes do between the calls to any
-- other file at this path, as long as they leave the file of this record alone once it was opened.
pub acquire_lease-Got :
    (disk : Disk) (now stale_after : ℕ) (r : LeaseRecord) (s : Shared)
    → Respected disk (filled now r)
    → Got (filled now r) (acquire_lease disk now stale_after r s)
unfolding acquire_lease
acquire_lease-Got disk now stale_after r s calm =
    prepared-Got disk now stale_after (filled now r) calm disk.mkdir_fails s

-- No other process, and no call that fails.
abbrev pub alone : Disk
alone = record { others = λ n f. f; replaced = λ n. false; fails = λ n. false; mkdir_fails = false }

-- Whether the file can be had: there is none, or its record is stale.
abbrev pub is_free : ℕ → ℕ → LockFile → Bool
is_free now stale_after absent = true
is_free now stale_after unreadable = false
is_free now stale_after (holds e) = not (is_live now stale_after e)

abbrev pub granted : ℕ → LeaseRecord → LockFile → Bool → Acquired × LockFile
granted now r f true = (acquired (filled now r), holds (filled now r))
granted now r f false = (denied lease_held, f)

module _ (now stale_after : ℕ) (r : LeaseRecord) where
  abbrev pub result : Acquired × Shared → Acquired × LockFile
  result (a, s) = (a, s.file)

  -- A process that is alone, and whose calls do not fail, acquires the lease exactly when there is
  -- no file or the record in it is stale, and its record is then in the file; otherwise the lease
  -- is held and the file stays.
  pub acquire_lease-alone :
      (f : LockFile) (n : ℕ)
      → result (acquire_lease alone now stale_after r (record { file = f; calls = n }))
        ≡ granted now r f (is_free now stale_after f)
  unfolding acquire_lease attempt create_lease_file after_create read_lease_file take_over move_away
  acquire_lease-alone absent n = refl
  acquire_lease-alone unreadable n = refl
  acquire_lease-alone (holds e) n = elim (Bool-cases (is_live now stale_after e)) [
    | inl live ↦ rw live refl
    | inr stale ↦ rw stale refl
  ]

filled_live :
    (now beat later stale_after : ℕ) (r : LeaseRecord)
    → (filled now r).heartbeat_at ≡ some beat
    → later < beat + stale_after
    → is_live later stale_after (filled now r) ≡ true
unfolding is_live filled
filled_live now beat later stale_after r at soon = rw at (ground arith)

-- Two acquisitions, one after the other, by processes that are each alone while they try and whose
-- calls do not fail. If the first one can have the lease and the second comes within `stale_after` of
-- the first one's heartbeat, be it given or filled in, the first acquires the lease, and the second
-- finds it held and leaves the file as it is.
pub acquire_lease-exclusive :
    (now beat later stale_after : ℕ) (first second : LeaseRecord) (f : LockFile) (n m : ℕ)
    → is_free now stale_after f ≡ true
    → (filled now first).heartbeat_at ≡ some beat
    → later < beat + stale_after
    → let x = acquire_lease alone now stale_after first (record { file = f; calls = n }) in
      (x.0 ≡ acquired (filled now first))
      × (result later stale_after second
            (acquire_lease alone later stale_after second (record { file = x.1.file; calls = m }))
          ≡ (denied lease_held, holds (filled now first)))
acquire_lease-exclusive now beat later stale_after first second f n m free at soon =
    let x = acquire_lease alone now stale_after first (record { file = f; calls = n }) in
    let done = acquire_lease-alone now stale_after first f n ∙ ap (granted now first f) free in
    let held = filled_live now beat later stale_after first at soon in
    (
      ap (λ (y : Acquired × LockFile). y.0) done,
      acquire_lease-alone later stale_after second x.1.file m
          ∙ ap (λ (g : LockFile). granted later second g (is_free later stale_after g))
              (ap (λ (y : Acquired × LockFile). y.1) done)
          ∙ ap (λ b. granted later second (holds (filled now first)) (not b)) held,
    )

-- Another process puts a record into the file after the stale one was read and before it is moved.
abbrev pub taken_meanwhile : LeaseRecord → Disk
taken_meanwhile f = record {
  others = λ n g. if n == 2 then holds f else g;
  replaced = λ n. false;
  fails = λ n. false;
  mkdir_fails = false;
}

-- The takeover of a stale lease does not look at the record that it moves away: whichever record, live or
-- not, another process has put in its place after the read is lost, and the lease is acquired.
pub acquire_lease-overrun :
    (now stale_after : ℕ) (r stale other : LeaseRecord)
    → is_live now stale_after stale ≡ false
    → result now stale_after r (
        acquire_lease
          (taken_meanwhile other)
          now
          stale_after
          r
          (record { file = holds stale; calls = 0 }))
      ≡ (acquired (filled now r), holds (filled now r))
unfolding acquire_lease attempt create_lease_file after_create read_lease_file take_over move_away
acquire_lease-overrun now stale_after r stale other old = rw old refl

-- With a positive deadline LeaseStale calls a record stale exactly when AcquireLease would take it over.
pub lease_stale-is_live :
    (now stale_after : ℕ) (r : LeaseRecord)
    → 1 ≤ stale_after
    → lease_stale now stale_after (holds r) ≡ (not (is_live now stale_after r), none)
unfolding lease_stale is_live
lease_stale-is_live now stale_after r pos = ground arith

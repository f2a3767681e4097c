-- ===== src/Task/Lease/Owner.antt =====
-- Heartbeats and releases change the file of their own lease only.
use etcd_space_inspector.Prelude.{
  ℕ, ◌+◌, ◌≡◌, refl, inl, inr, Bool, true, false, ◌&&◌, not, Option, none, some, if◌then◌else◌,
  Bool-cases,
}
use etcd_space_inspector.Task.Lease.{
  LeaseRecord, LockFile, absent, unreadable, holds, LeaseError, not_owner, Disk, Shared, Lease,
  same_lease_owner, read_lease_file, rewrite, beat_on, heartbeat, removed, release_on, release,
}

-- No other process; any call may fail.
abbrev pub undisturbed : (ℕ → Bool) → Disk
undisturbed fails = record {
  others = λ n f. f;
  replaced = λ n. false;
  fails = fails;
  mkdir_fails = false;
}

-- The file holds the record of this lease.
abbrev pub owns : Lease → LockFile → Bool
owns l (holds e) = same_lease_owner e l.held_record
owns l _ = false

abbrev pub beaten : ℕ → LeaseRecord → LeaseRecord
beaten now r = record r { heartbeat_at = some now }

module _ (fails : ℕ → Bool) where
  -- What a heartbeat leaves, by whether the lease still owned the file.
  abbrev pub Beat : ℕ → Lease → LockFile → Bool → Option LeaseError × Lease × Shared → Type 0
  Beat now l f true (none, k, s) =
      (s.file ≡ holds (beaten now l.held_record))
      × (k.held_record ≡ beaten now l.held_record)
      × (k.released ≡ false)
  Beat now l f false (none, k, s) = ⊥
  Beat now l f b (some e, k, s) = (s.file ≡ f) × (k ≡ l)

  rewrite-Beat :
      (now : ℕ) (l : Lease) (f : LockFile) (n : ℕ) (bad : Bool)
      → l.released ≡ false
      → Beat now l f true (rewrite (undisturbed fails) bad now l (record { file = f; calls = n }))
  rewrite-Beat now l f n true h = (refl, refl)
  rewrite-Beat now l f n false h = (refl, refl, h)

  beat_on-Beat :
      (now : ℕ) (l : Lease) (f : LockFile) (n : ℕ)
      → l.released ≡ false
      → Beat now l f
          (owns l f)
          (beat_on (undisturbed fails) now l (f, record { file = f; calls = n }))
  unfolding beat_on
  beat_on-Beat now l absent n h = (refl, refl)
  beat_on-Beat now l unreadable n h = (refl, refl)
  beat_on-Beat now l (holds e) n h = elim (Bool-cases (same_lease_owner e l.held_record)) [
    | inl mine ↦ rw mine (rewrite-Beat now l (holds e) n (fails n) h)
    | inr theirs ↦ rw theirs (refl, refl)
  ]

  released_Beat :
      (now : ℕ) (l : Lease) (f : LockFile) (n : ℕ) (b : Bool)
      → Beat now l f b (some not_owner, l, record { file = f; calls = n })
  released_Beat now l f n true = (refl, refl)
  released_Beat now l f n false = (refl, refl)

  guarded-Beat :
      (now : ℕ) (l : Lease) (f : LockFile) (n : ℕ) (b : Bool)
      → l.released ≡ b
      → Beat now l f (not b && owns l f) (
          if b
          then (some not_owner, l, record { file = f; calls = n })
          else beat_on (undisturbed fails) now l (f, record { file = f; calls = n + 1 }))
  guarded-Beat now l f n true h = released_Beat now l f n false
  guarded-Beat now l f n false h = beat_on-Beat now l f (n + 1) h

  -- While no other process touches the file, a heartbeat without an error means that the lease was not
  -- released and the file held its owner and run; file and lease then have the new heartbeat.
  -- With an error the file and the lease stay as they were.
  pub heartbeat-Beat :
      (now : ℕ) (l : Lease) (f : LockFile) (n : ℕ)
      → Beat now l f
          (not l.released && owns l f)
          (heartbeat (undisturbed fails) now l (record { file = f; calls = n }))
  unfolding heartbeat read_lease_file
  heartbeat-Beat now l f n = guarded-Beat now l f n l.released refl

  -- What a release leaves: without an error the lease is released, and the file is gone if the lease owned it
  -- and otherwise as it was; with an error nothing has changed.
  abbrev pub Freed : Lease → LockFile → Bool → Option LeaseError × Lease × Shared → Type 0
  Freed l f true (none, k, s) = (s.file ≡ absent) × (k.released ≡ true)
  Freed l f false (none, k, s) = (s.file ≡ f) × (k.released ≡ true)
  Freed l f b (some e, k, s) = (s.file ≡ f) × (k ≡ l)

  removed-Freed :
      (l : Lease) (e : LeaseRecord) (n : ℕ) (bad : Bool)
      → Freed l
          (holds e)
          true
          (removed (undisturbed fails) l (holds e, bad) (record { file = holds e; calls = n }))
  removed-Freed l e n true = (refl, refl)
  removed-Freed l e n false = (refl, refl)

  release_on-Freed :
      (l : Lease) (f : LockFile) (n : ℕ)
      → Freed l f (owns l f) (release_on (undisturbed fails) l (f, record { file = f; calls = n }))
  unfolding release_on
  release_on-Freed l absent n = (refl, refl)
  release_on-Freed l unreadable n = (refl, refl)
  release_on-Freed l (holds e) n = elim (Bool-cases (same_lease_owner e l.held_record)) [
    | inl mine ↦ rw mine (removed-Freed l e n (fails n))
    | inr theirs ↦ rw theirs (refl, refl)
  ]

  guarded-Freed :
      (l : Lease) (f : LockFile) (n : ℕ) (b : Bool)
      → l.released ≡ b
      → Freed l f (not b && owns l f) (
          if b
          then (none, l, record { file = f; calls = n })
          else release_on (undisturbed fails) l (f, record { file = f; calls = n + 1 }))
  guarded-Freed l f n true h = (refl, h)
  guarded-Freed l f n false h = release_on-Freed l f (n + 1)

  -- While no other process touches the file, a release without an error leaves the lease released;
  -- it has removed the file if the lease was not released before and the file held its owner and
  -- run, and otherwise left the file as it was. With an error nothing has changed. So a release
  -- never removes the file of another lease, and a release that is repeated does nothing.
  pub release-Freed :
      (l : Lease) (f : LockFile) (n : ℕ)
      → Freed l f
          (not l.released && owns l f)
          (release (undisturbed fails) l (record { file = f; calls = n }))
  unfolding release read_lease_file
  release-Freed l f n = guarded-Freed l f n l.released refl

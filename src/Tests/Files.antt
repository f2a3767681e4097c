-- ===== src/Tests/Files.antt =====
-- A copied input and a lock file, for internal/ingest and internal/task/lease.go.
use etcd_space_inspector.Prelude.{
  ℕ, ◌+◌, ◌<◌, ◌≤◌, ◌≡◌, refl, true, false, ◌&&◌, not, Option, none, some, [], length, arith, ◌==◌,
  if◌then◌else◌, Bool-cases, inl, inr,
}
use etcd_space_inspector.Prelude.Bytes.{Bytes, text, same}
use etcd_space_inspector.Ingest.{
  Reads, more, last_eof, Host, Files, Metadata, copied, copy_with_progress,
}
use etcd_space_inspector.Ingest.Atomic.{content, Outcome, copy-Outcome}
use etcd_space_inspector.Ingest.Success.{Healthy, copy-copied}
use etcd_space_inspector.Task.Lease.{
  LeaseRecord, LockFile, absent, unreadable, holds, lease_held, Disk, acquired, denied, Lease,
  filled, is_live, acquire_lease, heartbeat, release,
}
use etcd_space_inspector.Task.Lease.Acquire.{
  Respected, Got, acquire_lease-Got, alone, is_free, result, acquire_lease-exclusive,
  taken_meanwhile, acquire_lease-overrun,
}
use etcd_space_inspector.Task.Lease.Owner.{
  undisturbed, owns, Beat, Freed, heartbeat-Beat, release-Freed,
}

abbrev input : Reads
input = more (text "ab") (more [] (last_eof (text "c")))

abbrev no_failure : Host
no_failure = record {
  lstat_fails = false;
  is_regular = true;
  size = 3;
  mod_time = 1;
  reads = input;
  open_fails = false;
  mkdir_fails = false;
  remove_fails = false;
  create_fails = false;
  is_cancelled = λ n. false;
  write_fails = λ n. false;
  torn = λ n. [];
  progress_fails = λ n. false;
  sync_fails = false;
  close_fails = false;
  rename_fails = false;
  cleanup_fails = false;
  digest = λ b. b;
}

abbrev full_disk : Host
full_disk = record no_failure { write_fails = λ n. n == 2; torn = λ n. text "x" }

abbrev old_files : Files
old_files = record { destination = some (text "old"); partial = none }

copy-Outcome_example : Outcome full_disk 10 old_files (copy_with_progress full_disk 10 old_files)
copy-Outcome_example = copy-Outcome full_disk 10 old_files

no_failure-Healthy : Healthy no_failure 10
no_failure-Healthy = record {
  regular = (refl, refl);
  opens = (refl, refl, refl, refl);
  ends = (refl, refl, refl);
  runs = λ n. (refl, refl, refl);
}

positive : 1 ≤ 10
positive = omega arith

size_fits : 3 ≤ 10
size_fits = omega arith

content_fits : length (content input) ≤ 10
unfolding content
content_fits = omega arith

copy-copied_example : (m : Metadata) × ((copy_with_progress no_failure 10 old_files).0 ≡ copied m)
copy-copied_example =
    copy-copied no_failure 10 no_failure-Healthy tt positive size_fits content_fits old_files

abbrev lease_of : Bytes → Option ℕ → LeaseRecord
lease_of owner beat = record {
  owner_id = owner;
  run_id = text "run";
  pid = 7;
  mode = text "server";
  started_at = none;
  heartbeat_at = beat;
}

-- A process that removes the file of the owner `b` before the second call.
abbrev without_b : LockFile → LockFile
without_b absent = absent
without_b unreadable = unreadable
without_b (holds e) = if same e.owner_id (text "b") then absent else holds e

abbrev rival : Disk
rival = record {
  others = λ n f. if n == 1 then without_b f else f;
  replaced = λ n. false;
  fails = λ n. false;
  mkdir_fails = false;
}

rival-Respected : Respected rival (filled 50 (lease_of (text "a") none))
unfolding filled same
rival-Respected = record {
  empty = λ n. refl;
  written = λ n. elim (Bool-cases (n == 1)) [ inl e ↦ rw e refl | inr e ↦ rw e refl ];
}

acquire_lease-Got_example : Got (filled 50 (lease_of (text "a") none)) (
    acquire_lease rival 50 10
      (lease_of (text "a") none)
      (record { file = holds (lease_of (text "b") (some 45)); calls = 0 }))
acquire_lease-Got_example =
    acquire_lease-Got rival 50 10 (lease_of (text "a") none)
      (record { file = holds (lease_of (text "b") (some 45)); calls = 0 }) rival-Respected

old_file-free : is_free 51 10 (holds (lease_of (text "c") (some 20))) ≡ true
unfolding is_live
old_file-free = refl

given_beat : (filled 51 (lease_of (text "a") (some 50))).heartbeat_at ≡ some 50
unfolding filled
given_beat = refl

soon_enough : 55 < 50 + 10
soon_enough = omega arith

acquire_lease-exclusive_example :
    let x =
      acquire_lease alone 51 10
        (lease_of (text "a") (some 50))
        (record { file = holds (lease_of (text "c") (some 20)); calls = 0 }) in
    (x.0 ≡ acquired (filled 51 (lease_of (text "a") (some 50))))
    × (result 55 10 (lease_of (text "b") (some 54)) (
          acquire_lease alone 55 10
            (lease_of (text "b") (some 54))
            (record { file = x.1.file; calls = 9 }))
        ≡ (denied lease_held, holds (filled 51 (lease_of (text "a") (some 50)))))
acquire_lease-exclusive_example =
    acquire_lease-exclusive 51 50 55 10 (lease_of (text "a") (some 50))
      (lease_of (text "b") (some 54)) (holds (lease_of (text "c") (some 20))) 0 9 old_file-free
      given_beat soon_enough

stale_lease : is_live 50 10 (lease_of (text "b") (some 20)) ≡ false
unfolding is_live
stale_lease = refl

acquire_lease-overrun_example :
    result 50 10 (lease_of (text "a") none) (
      acquire_lease
        (taken_meanwhile (lease_of (text "c") (some 50)))
        50
        10
        (lease_of (text "a") none)
        (record { file = holds (lease_of (text "b") (some 20)); calls = 0 }))
    ≡ (
      acquired (filled 50 (lease_of (text "a") none)),
      holds (filled 50 (lease_of (text "a") none)),
    )
acquire_lease-overrun_example =
    acquire_lease-overrun 50 10 (lease_of (text "a") none) (lease_of (text "b") (some 20))
      (lease_of (text "c") (some 50)) stale_lease

abbrev mine : Lease
mine = record { held_record = lease_of (text "a") (some 3); released = false }

abbrev theirs : LockFile
theirs = holds (lease_of (text "b") (some 9))

heartbeat-Beat_example :
    Beat
      (λ n. n == 4)
      12
      mine
      theirs
      (not mine.released && owns mine theirs)
      (heartbeat (undisturbed (λ n. n == 4)) 12 mine (record { file = theirs; calls = 0 }))
heartbeat-Beat_example = heartbeat-Beat (λ n. n == 4) 12 mine theirs 0

release-Freed_example :
    Freed
      (λ n. n == 4)
      mine
      theirs
      (not mine.released && owns mine theirs)
      (release (undisturbed (λ n. n == 4)) mine (record { file = theirs; calls = 0 }))
release-Freed_example = release-Freed (λ n. n == 4) mine theirs 0

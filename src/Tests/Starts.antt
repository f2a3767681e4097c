-- ===== src/Tests/Starts.antt =====
-- A start of the application after a crash, for internal/app/recovery.go: one task has a live run, one
-- has lost its run, and one has lost its database.
use etcd_space_inspector.Prelude.{
  ℕ, ◌≡◌, refl, true, false, Option, none, some, [], ◌∷◌, if◌then◌else◌,
}
use etcd_space_inspector.Prelude.Bytes.{Bytes, text, same}
use etcd_space_inspector.Task.Status.{Status, running, completed}
use etcd_space_inspector.Task.Manifest.{Manifest, blank}
use etcd_space_inspector.Task.Lease.{LockFile, absent, holds}
use etcd_space_inspector.Task.Store.{Dirs, Stored, readable, garbled, Faults, manifest_of}
use etcd_space_inspector.Task.Store.Listing.{entries}
use etcd_space_inspector.App.Recovery.{found, Start, recover_tasks, listed_tasks}
use etcd_space_inspector.App.Recovery.Swept.{Recovered, recover_tasks-Recovered}

abbrev no_faults : Faults
no_faults = record {
  read = false;
  encode = false;
  create_temp = false;
  write = false;
  sync = false;
  close = false;
  rename = false;
  remove = false;
}

abbrev live_task : Manifest ℕ
live_task = record (blank 0) { id = text "t1"; run_id = text "a1"; status = running }

abbrev lost_task : Manifest ℕ
lost_task = record (blank 0) { id = text "t2"; run_id = text "a2"; status = running }

abbrev broken_task : Manifest ℕ
broken_task = record (blank 0) { id = text "t3"; status = completed }

abbrev dirs : Dirs ℕ
dirs id =
    if same id (text "t1")
    then some (record { manifest = some (readable live_task); request = none })
    else if same id (text "t2")
    then some (record { manifest = some (readable lost_task); request = none })
    else if same id (text "t3")
    then some (record { manifest = some (readable broken_task); request = none })
    else none

abbrev lock_file : Bytes → LockFile
lock_file id =
    if same id (text "t1")
    then holds (record {
      owner_id = text "w";
      run_id = text "a1";
      pid = 7;
      mode = text "analyze";
      started_at = some 1;
      heartbeat_at = some 20000000000;
    })
    else absent

abbrev start : Start ℕ
start = record {
  now = 21000000000;
  is_cancelled = false;
  list_fails = false;
  entries = entries (
      record { name = text "t1"; is_dir = true }
      ∷ record { name = text "t2"; is_dir = true }
      ∷ record { name = text "t3"; is_dir = true }
      ∷ []);
  lease = lock_file;
  database = λ id. record {
    open_fails = same id (text "t3");
    unavailable_fails = false;
    row = found;
    create_fails = false;
    update_fails = false;
    close_fails = false;
  };
  faults = λ m. no_faults;
}

abbrev after : Dirs ℕ
after = (recover_tasks start dirs).1

abbrev status_in : Option (Stored (Manifest ℕ)) → Status
status_in none = running
status_in (some garbled) = running
status_in (some (readable m)) = m.status

abbrev status_of : Bytes → Status
status_of id = status_in (manifest_of (after id))

live_task-kept : status_of (text "t1") ≡ running
unfolding recover_tasks
live_task-kept = refl

lost_task-failed : status_of (text "t2") ≡ Status.failed
unfolding recover_tasks
lost_task-failed = refl

broken_task-failed : status_of (text "t3") ≡ Status.failed
unfolding recover_tasks
broken_task-failed = refl

recover_tasks-Recovered_example :
    Recovered start dirs (listed_tasks start dirs) (recover_tasks start dirs)
recover_tasks-Recovered_example = recover_tasks-Recovered start dirs

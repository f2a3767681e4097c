-- ===== src/Task/Lease.antt =====
-- The lock file of internal/task/lease.go. Other processes may change the file between any two calls:
-- `others` says how. Times are nanoseconds, an age that would be negative is zero, and the zero time
-- is `none`. The retries of a read on Windows are left out.
pub mod Acquire
pub mod Owner
use etcd_space_inspector.Prelude.{
  ℕ, zero, suc, ◌+◌, ◌-◌, ◌^◌, Bool, true, false, ◌&&◌, ◌||◌, not, Option, none, some, List, [],
  ◌∷◌, ltb, leb, ◌==◌, if◌then◌else◌,
}
use etcd_space_inspector.Prelude.Bytes.{Bytes, same}

pub record LeaseRecord : Type 0 where
  pub owner_id : Bytes
  pub run_id : Bytes
  pub pid : ℕ
  pub mode : Bytes
  pub started_at : Option ℕ
  pub heartbeat_at : Option ℕ

-- The file: none, one that cannot be read or parsed, or a record.
pub data LockFile : Type 0 where
  absent : LockFile
  unreadable : LockFile
  holds : LeaseRecord → LockFile

pub data LeaseError : Type 0 where
  lease_held not_owner read_failed write_failed create_failed mkdir_failed remove_failed :
      LeaseError

-- What other processes do to the file before the n-th call, and which calls fail. Where the n-th call
-- writes to a file that was opened before, `replaced` says whether that file is still at its path.
pub record Disk : Type 0 where
  pub others : ℕ → LockFile → LockFile
  pub replaced : ℕ → Bool
  pub fails : ℕ → Bool
  pub mkdir_fails : Bool

pub record Shared : Type 0 where
  pub file : LockFile
  pub calls : ℕ

pub data Acquired : Type 0 where
  acquired : LeaseRecord → Acquired
  denied : LeaseError → Acquired

-- `Lease`: its record, and whether it was released.
pub record Lease : Type 0 where
  pub held_record : LeaseRecord
  pub released : Bool

abbrev or_now : ℕ → Option ℕ → Option ℕ
or_now now none = some now
or_now now (some t) = some t

-- The times that are filled in.
unfoldable pub filled : ℕ → LeaseRecord → LeaseRecord
filled now r = record r {
  started_at = or_now now r.started_at;
  heartbeat_at = or_now now r.heartbeat_at;
}

-- now.Sub(t), which saturates for the zero time.
abbrev pub age : ℕ → Option ℕ → ℕ
age now none = 2 ^ 63 - 1
age now (some t) = now - t

-- The record is live, or takeover is switched off.
unfoldable pub is_live : ℕ → ℕ → LeaseRecord → Bool
is_live now stale_after r = stale_after == 0 || ltb (age now r.heartbeat_at) stale_after

-- LeaseStale, on what the read gives; an unreadable file is reported with its error.
unfoldable pub lease_stale : ℕ → ℕ → LockFile → Bool × Option LeaseError
lease_stale now stale_after absent = (true, none)
lease_stale now stale_after unreadable = (true, some read_failed)
lease_stale now stale_after (holds r) =
    (stale_after == 0 || leb stale_after (age now r.heartbeat_at), none)

unfoldable pub same_lease_owner : LeaseRecord → LeaseRecord → Bool
same_lease_owner l r = same l.owner_id r.owner_id && same l.run_id r.run_id

module _ (disk : Disk) where
  -- The file as the next call finds it.
  abbrev pub current : Shared → LockFile
  current s = disk.others s.calls s.file

  abbrev pub after : LockFile → Shared → Shared
  after f s = record { file = f; calls = s.calls + 1 }

  pub data Created : Type 0 where
    created : Created
    exists : Created
    not_created : Created

  -- os.Remove of what is at the path, after a failure. Its error is ignored.
  abbrev pub remove_path : Shared → Created × Shared
  remove_path s = (not_created, after (if disk.fails s.calls then current s else absent) s)

  -- The calls of createLeaseFile, from the last to the first. A file that was opened is empty, and
  -- cannot be read, until it has been written.
  abbrev pub close_new : Bool → Shared → Created × Shared
  close_new true s = remove_path (after (current s) s)
  close_new false s = (created, after (current s) s)

  abbrev pub sync_new : Bool → Shared → Created × Shared
  sync_new true s = remove_path (after (current s) s)
  sync_new false s = let t = after (current s) s in close_new (disk.fails t.calls) t

  abbrev pub write_new : Bool → LeaseRecord → Shared → Created × Shared
  write_new true r s = remove_path (after (current s) s)
  write_new false r s =
      let t = after (if disk.replaced s.calls then current s else holds r) s in
      sync_new (disk.fails t.calls) t

  abbrev pub open_new : Bool → LeaseRecord → LockFile → Shared → Created × Shared
  open_new fails r (holds e) s = (exists, after (holds e) s)
  open_new fails r unreadable s = (exists, after unreadable s)
  open_new true r absent s = (not_created, after absent s)
  open_new false r absent s = let t = after unreadable s in write_new (disk.fails t.calls) r t

  -- createLeaseFile
  unfoldable pub create_lease_file : LeaseRecord → Shared → Created × Shared
  create_lease_file r s = open_new (disk.fails s.calls) r (current s) s

  -- readLeaseFile
  unfoldable pub read_lease_file : Shared → LockFile × Shared
  read_lease_file s = (current s, after (current s) s)

  -- os.Rename of the file to a name of its own, and its removal there. True is success or no file.
  abbrev pub move_in : Bool → LockFile → Shared → Bool × Shared
  move_in fails absent s = (true, after absent s)
  move_in true f s = (false, after f s)
  move_in false f s = (true, after absent s)

  unfoldable pub move_away : Shared → Bool × Shared
  move_away s = move_in (disk.fails s.calls) (current s) s

  module _ (now stale_after : ℕ) (r : LeaseRecord) where
    abbrev pub try_again : (Shared → Acquired × Shared) → Bool × Shared → Acquired × Shared
    try_again again (true, s) = again s
    try_again again (false, s) = (denied lease_held, s)

    -- What follows a read of the file.
    unfoldable pub take_over : (Shared → Acquired × Shared) → LockFile × Shared → Acquired × Shared
    unfolding move_away is_live
    take_over again (absent, s) = again s
    take_over again (unreadable, s) = (denied lease_held, s)
    take_over again (holds e, s) =
        if is_live now stale_after e then (denied lease_held, s) else try_again again (move_away s)

    -- What follows the creation.
    unfoldable pub after_create :
        (Shared → Acquired × Shared) → Created × Shared → Acquired × Shared
    unfolding read_lease_file take_over
    after_create again (created, s) = (acquired r, s)
    after_create again (not_created, s) = (denied create_failed, s)
    after_create again (exists, s) = take_over again (read_lease_file s)

    unfoldable pub attempt : ℕ → Shared → Acquired × Shared
    unfolding create_lease_file after_create
    attempt zero s = (denied lease_held, s)
    attempt (suc n) s = after_create (attempt n) (create_lease_file r s)

  -- acquireLeaseAt
  unfoldable pub acquire_lease : ℕ → ℕ → LeaseRecord → Shared → Acquired × Shared
  unfolding filled attempt
  acquire_lease now stale_after r s =
      if disk.mkdir_fails
      then (denied mkdir_failed, s)
      else attempt now stale_after (filled now r) 8 s

  -- The end of a heartbeat and of a release, on the file that was read.
  abbrev pub rewrite : Bool → ℕ → Lease → Shared → Option LeaseError × Lease × Shared
  rewrite true now l s = (some write_failed, l, after (current s) s)
  rewrite false now l s =
      let updated = record l.held_record { heartbeat_at = some now } in
      (none, record l { held_record = updated }, after (holds updated) s)

  unfoldable pub beat_on : ℕ → Lease → LockFile × Shared → Option LeaseError × Lease × Shared
  unfolding same_lease_owner
  beat_on now l (absent, s) = (some not_owner, l, s)
  beat_on now l (unreadable, s) = (some read_failed, l, s)
  beat_on now l (holds e, s) =
      if not (same_lease_owner e l.held_record)
      then (some not_owner, l, s)
      else rewrite (disk.fails s.calls) now l s

  unfoldable pub heartbeat : ℕ → Lease → Shared → Option LeaseError × Lease × Shared
  unfolding beat_on read_lease_file
  heartbeat now l s =
      if l.released then (some not_owner, l, s) else beat_on now l (read_lease_file s)

  abbrev pub removed : Lease → LockFile × Bool → Shared → Option LeaseError × Lease × Shared
  removed l (absent, fails) s = (none, record l { released = true }, after absent s)
  removed l (f, true) s = (some remove_failed, l, after f s)
  removed l (f, false) s = (none, record l { released = true }, after absent s)

  unfoldable pub release_on : Lease → LockFile × Shared → Option LeaseError × Lease × Shared
  unfolding same_lease_owner
  release_on l (absent, s) = (none, record l { released = true }, s)
  release_on l (unreadable, s) = (some read_failed, l, s)
  release_on l (holds e, s) =
      if not (same_lease_owner e l.held_record)
      then (some not_owner, l, s)
      else removed l (current s, disk.fails s.calls) s

  unfoldable pub release : Lease → Shared → Option LeaseError × Lease × Shared
  unfolding release_on read_lease_file
  release l s = if l.released then (none, l, s) else release_on l (read_lease_file s)

-- ===== src/App/Recovery.antt =====
-- recoverTasks of internal/app/recovery.go, before it turns to the comparisons. The database of a task
-- answers by a `DatabaseAnswers`. Times are in nanoseconds, and the clock stands still meanwhile.
pub mod Swept
use etcd_space_inspector.Prelude.{
  ℕ, ◌*◌, Bool, true, false, ◌&&◌, ◌||◌, not, Option, none, some, List, [], ◌∷◌, if◌then◌else◌,
}
use etcd_space_inspector.Prelude.Bytes.{Bytes, text, same}
use etcd_space_inspector.Task.Status.{Status, importing, running, pending, completed}
use etcd_space_inspector.Task.Manifest.{Manifest}
use etcd_space_inspector.Task.Lease.{LockFile, LeaseError, lease_stale}
use etcd_space_inspector.Task.Store.{Dirs, Faults, Result, ok, failed, save, cancelled_before}
use etcd_space_inspector.Task.Store.Listing.{Entries, list}

-- What GetTask answers: the row of the task, none (sql.ErrNoRows), or another error.
pub data TaskRow : Type 0 where
  found no_rows query_failed : TaskRow

-- Which calls on the database of a task fail.
pub record DatabaseAnswers : Type 0 where
  pub open_fails : Bool
  pub unavailable_fails : Bool
  pub row : TaskRow
  pub create_fails : Bool
  pub update_fails : Bool
  pub close_fails : Bool

pub record Start (F : Type 0) : Type 0 where
  pub now : ℕ
  pub is_cancelled : Bool
  pub list_fails : Bool
  pub entries : Entries
  -- The lock file of a task, and its database.
  pub lease : Bytes → LockFile
  pub database : Bytes → DatabaseAnswers
  -- What fails when a manifest is saved.
  pub faults : Manifest F → Faults

-- recoveryLeaseStaleAfter
abbrev pub stale_after : ℕ
stale_after = 15 * 1000000000

unfoldable pub is_managed_input : Bytes → Bool
is_managed_input t = same t (text "snapshot") || same t (text "raw-db")

abbrev pub in_progress : Status → Bool
in_progress importing = true
in_progress running = true
in_progress _ = false

abbrev pub is_pending : Status → Bool
is_pending pending = true
is_pending _ = false

abbrev pub is_completed : Status → Bool
is_completed completed = true
is_completed _ = false

-- syncTaskMirror
abbrev pub sync_fails : TaskRow → DatabaseAnswers → Bool
sync_fails found d = d.update_fails
sync_fails no_rows d = d.create_fails
sync_fails query_failed d = true

module _ {F : Type 0} where
  abbrev pub has_objects : Manifest F → Bool
  has_objects m =
      not (same m.input_type (text "log"))
      && not (same m.input_type (text "audit"))
      && not (same m.input_type (text "metrics"))

  -- Whether recoverTaskDatabase returns an error.
  unfoldable pub database_fails : DatabaseAnswers → Manifest F → Bool
  database_fails d m =
      d.open_fails
      || has_objects m && d.unavailable_fails
      || is_completed m.status && sync_fails d.row d
      || d.close_fails

  -- The manifest of markInterrupted.
  abbrev pub interrupted : ℕ → Manifest F → Manifest F
  interrupted now m = record m {
    status = Status.failed;
    error_code = text "TASK_INTERRUPTED";
    error_message = text "analysis process stopped before completion";
    completed_at = some now;
  }

  -- The manifest of markRecoveryFailed.
  abbrev pub not_recovered : ℕ → Manifest F → Manifest F
  not_recovered now m = record m {
    status = Status.failed;
    error_code = text "RECOVERY_FAILED";
    error_message = text "task database could not be recovered";
    completed_at = some now;
  }

  -- A task in progress is left alone where a run of it is alive.
  abbrev pub lease_verdict : ℕ → Manifest F → Bool × Option LeaseError → Option (Manifest F)
  lease_verdict now m (stale, some e) = some (not_recovered now m)
  lease_verdict now m (stale, none) =
      if same m.run_id [] || stale then some (interrupted now m) else none

  -- The body of the loop: what the task is saved as, if it is.
  unfoldable pub verdict : Start F → Manifest F → Option (Manifest F)
  unfolding lease_stale is_managed_input database_fails
  verdict s m =
      if in_progress m.status
      then lease_verdict s.now m (lease_stale s.now stale_after (s.lease m.id))
      else if is_pending m.status && is_managed_input m.input_type
      then none
      else if database_fails (s.database m.id) m
      then some (not_recovered s.now m)
      else none

  abbrev pub settle : Start F → Option (Manifest F) → Dirs F → Result Unit × Dirs F
  settle s none dirs = (ok tt, dirs)
  settle s (some m) dirs = save (s.faults m) m dirs

  abbrev pub and_then :
      Result Unit × Dirs F → (Dirs F → Result Unit × Dirs F) → Result Unit × Dirs F
  and_then (failed e, dirs) next = (failed e, dirs)
  and_then (ok u, dirs) next = next dirs

  unfoldable pub recover_items : Start F → List (Manifest F) → Dirs F → Result Unit × Dirs F
  unfolding verdict save
  recover_items s [] dirs = (ok tt, dirs)
  recover_items s (m ∷ ms) dirs = and_then (settle s (verdict s m) dirs) (λ d. recover_items s ms d)

  abbrev pub recover_listed : Start F → Result (List (Manifest F)) → Dirs F → Result Unit × Dirs F
  recover_listed s (failed e) dirs = (failed e, dirs)
  recover_listed s (ok ms) dirs = recover_items s ms dirs

  -- Application.List
  unfoldable pub listed_tasks : Start F → Dirs F → Result (List (Manifest F))
  unfolding list
  listed_tasks s dirs =
      if s.is_cancelled then failed cancelled_before else list s.list_fails dirs s.entries

  unfoldable pub recover_tasks : Start F → Dirs F → Result Unit × Dirs F
  unfolding listed_tasks recover_items
  recover_tasks s dirs = recover_listed s (listed_tasks s dirs) dirs

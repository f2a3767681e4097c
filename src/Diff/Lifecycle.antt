-- ===== src/Diff/Lifecycle.antt =====
-- The lifecycle of a comparison, of internal/diff/model.go.
use etcd_space_inspector.Prelude.{◌≡◌, Bool, true, false, arith}
use etcd_space_inspector.Task.Status.{Status, valid_transition}

pub data DiffStatus : Type 0 where
  pending running completed failed cancelled : DiffStatus

unfoldable pub diff_transition : DiffStatus → DiffStatus → Bool
diff_transition pending running = true
diff_transition pending cancelled = true
diff_transition pending failed = true
diff_transition running completed = true
diff_transition running cancelled = true
diff_transition running failed = true
diff_transition _ _ = false

-- A comparison's status as a task's.
abbrev pub as_task : DiffStatus → Status
as_task pending = Status.pending
as_task running = Status.running
as_task completed = Status.completed
as_task failed = Status.failed
as_task cancelled = Status.cancelled

-- A comparison may go from one status to another exactly when a task may: its lifecycle is the
-- task's without the import.
pub diff_transition-as_task :
    (a b : DiffStatus) → diff_transition a b ≡ valid_transition (as_task a) (as_task b)
unfolding diff_transition valid_transition
diff_transition-as_task a b = ground arith

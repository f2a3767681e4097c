-- ===== src/Task/Work.antt =====
-- What the runner of internal/task/runner.go works on: the task, its stages, and the repository, the
-- context and the clock as functions of what has happened.
use etcd_space_inspector.Prelude.{ℕ, Bool, Option, List}
use etcd_space_inspector.Prelude.Bytes.{Bytes}
use etcd_space_inspector.Task.Status.{Status}
use etcd_space_inspector.Task.Progress.{Reporter}

-- The fields of `Task` that a run changes, and its id. The others stay as they are.
pub record Task (F : Type 0) : Type 0 where
  pub id : Bytes
  pub status : Status
  pub progress : F
  pub current_stage : Bytes
  pub stage_progress : F
  pub processed : ℕ
  pub total : ℕ
  pub unit : Bytes
  pub rate_per_second : F
  pub heartbeat_at : Option ℕ
  pub elapsed_seconds : ℕ
  pub estimated_remaining : Option ℕ
  pub error_code : Bytes
  pub error_message : Bytes
  pub started_at : Option ℕ
  pub completed_at : Option ℕ

-- What an error is to the runner: context.Canceled, an apperr.Error, or another.
pub data Cause : Type 0 where
  canceled : Cause
  coded : Bytes → Bytes → Cause
  already_running : Cause
  bad_transition : Cause
  save_failed : Cause
  other : ℕ → Cause

-- What the repository was given, and whether it has accepted it.
pub data Event (F : Type 0) : Type 0 where
  saved : Task F → Event F
  unsaved : Task F → Event F
  checkpoint : Bytes → Event F
  no_checkpoint : Bytes → Event F

-- The context of an update: that of the run, or context.Background().
pub data UpdateContext : Type 0 where
  run_context background : UpdateContext

-- The task, the reporter, and what the repository was given so far.
pub record Work (F : Type 0) : Type 0 where
  pub task : Task F
  pub reporter : Reporter
  pub log : List (Event F)

abbrev pub Ended : Type 0 → Type 0
Ended F = Work F × Option Cause

-- A stage is the caller's function: it may change the task and report through the reporter.
pub record Stage (F : Type 0) : Type 0 where
  pub name : Bytes
  pub run : Work F → Ended F

-- The answers of the repository, of the context and of the clock, which depend on all that has
-- happened.
pub record World (F : Type 0) : Type 0 where
  pub update_fault : UpdateContext → List (Event F) → Option Cause
  pub checkpoint_fault : List (Event F) → Option Cause
  pub is_cancelled : List (Event F) → Bool
  pub clock : List (Event F) → ℕ

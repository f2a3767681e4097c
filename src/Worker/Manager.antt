-- ===== src/Worker/Manager.antt =====
-- internal/worker/manager.go: the decisions of the supervisor. The operating system, the clock and
-- the random numbers answer by arguments. The server log and the paths are left out.
pub mod Final
pub mod System
use etcd_space_inspector.Prelude.{
  ℕ, ◌+◌, ◌*◌, ◌≡◌, Bool, true, false, ◌&&◌, ◌||◌, not, Option, none, some, List, [], ◌∷◌, leb, ltb,
  ◌==◌, if◌then◌else◌,
}
use etcd_space_inspector.Prelude.Bytes.{Bytes, text, same}
use etcd_space_inspector.Task.Status.{
  Status, pending, importing, running, completed, failed, cancelled,
}
use etcd_space_inspector.Task.Manifest.{ℤ, pos, negsuc, Manifest, run_import, run_analysis}
use etcd_space_inspector.Worker.Protocol.{
  Mode, mode_import, mode_analysis, other_mode, Request, WorkerResult, Answer, given, denied,
  valid_run_id,
}

pub record ManagerConfig : Type 0 where
  pub executable : Bytes
  pub data_dir : Bytes
  pub owner_id : Bytes
  pub heartbeat_every : ℕ
  pub stale_after : ℕ
  pub shutdown_timeout : ℕ
  pub max_imports : ℕ
  pub max_analyses : ℕ

abbrev pub second : ℕ
second = 1000000000

abbrev pub or_default : ℕ → ℕ → ℕ
or_default default n = if n == 0 then default else n

abbrev pub or_text : Bytes → Bytes → Bytes
or_text default s = if same s [] then default else s

abbrev pub with_defaults : Bytes → Bytes → ManagerConfig → ManagerConfig
with_defaults own_executable own_pid c = record {
  executable = or_text own_executable c.executable;
  data_dir = c.data_dir;
  owner_id = or_text own_pid c.owner_id;
  heartbeat_every = or_default (2 * second) c.heartbeat_every;
  stale_after = or_default (15 * second) c.stale_after;
  shutdown_timeout = or_default (10 * second) c.shutdown_timeout;
  max_imports = or_default 1 c.max_imports;
  max_analyses = or_default 1 c.max_analyses;
}

-- NewManager; what is not positive reads as zero, and `own_executable` is none where the system
-- does not know it.
unfoldable pub new_manager : Option Bytes → Bytes → ManagerConfig → Option ManagerConfig
unfolding same
new_manager own_executable own_pid c =
    let known : Bytes = elim own_executable [ none ↦ [] | some e ↦ e ] in
    if same c.executable [] && same known []
    then none
    else if same c.data_dir []
    then none
    else some (with_defaults known own_pid c)

-- Why a Start is refused before it has a lease.
pub data StartError : Type 0 where
  bad_mode no_task no_run_id bad_identity wrong_status shutting_down already_running limit_reached :
      StartError

pub data Admission : Type 0 where
  admitted : Bytes → Admission
  refused : StartError → Admission

-- The status that a mode wants.
unfoldable pub is_wanted : Mode → Status → Bool
is_wanted mode_import importing = true
is_wanted mode_import _ = false
is_wanted _ pending = true
is_wanted _ _ = false

unfoldable pub limit : ManagerConfig → Mode → ℕ
limit c mode_import = c.max_imports
limit c _ = c.max_analyses

abbrev pub is_mode : Mode → Bool
is_mode (other_mode m) = false
is_mode _ = true

-- The run id: the caller's, or a new one.
abbrev pub chosen_run : Bytes → Option Bytes → Option Bytes
chosen_run [] fresh = fresh
chosen_run (c ∷ cs) fresh = some (c ∷ cs)

-- What follows the read of the task, under the lock: the busy tasks and the runs of the mode.
abbrev pub admit_run :
    ManagerConfig
    → Mode
    → Bytes
    → Bool
    → Bool
    → ℕ
    → (id : Bytes) → Status
    → Option Bytes
    → Admission
admit_run c mode task_id stopping busy count id status none = refused no_run_id
admit_run c mode task_id stopping busy count id status (some run_id) =
    if not (same task_id id) || not (valid_run_id run_id)
    then refused bad_identity
    else if not (is_wanted mode status)
    then refused wrong_status
    else if stopping
    then refused shutting_down
    else if busy
    then refused already_running
    else if leb (limit c mode) count
    then refused limit_reached
    else admitted run_id

abbrev pub status_for : Mode → Status → Status
status_for mode_import s = s
status_for _ s = running

abbrev pub success_status : Mode → Status
success_status mode_import = pending
success_status _ = completed

abbrev pub is_zero : ℤ → Bool
is_zero (pos n) = n == 0
is_zero (negsuc n) = false

module _ {F : Type 0} where
  abbrev pub admit_task :
      ManagerConfig → Request → Option Bytes → Bool → Bool → ℕ → Option (Manifest F) → Admission
  admit_task c r fresh stopping busy count none = refused no_task
  admit_task c r fresh stopping busy count (some item) =
      admit_run c r.mode r.task_id stopping busy count item.id item.status
        (chosen_run r.run_id fresh)

  -- The first part of Start, up to the end of its first critical section.
  unfoldable pub admission :
      ManagerConfig → Request → Option Bytes → Bool → Bool → ℕ → Option (Manifest F) → Admission
  unfolding is_wanted limit valid_run_id same
  admission c r fresh stopping busy count item =
      if not (is_mode r.mode)
      then refused bad_mode
      else admit_task c r fresh stopping busy count item

  -- The manifest that Start saves.
  unfoldable pub started : ℕ → Mode → Bytes → Bytes → F → Manifest F → Manifest F
  started now mode run_id log_file zero item = record item {
    run_id = run_id;
    run_kind = elim mode [ mode_import ↦ run_import | _ ↦ run_analysis ];
    status = status_for mode item.status;
    started_at = some now;
    completed_at = none;
    worker_pid = 0;
    current_stage = text "worker-starting";
    stage_progress = zero;
    processed = 0;
    total = 0;
    unit = [];
    rate_per_second = zero;
    heartbeat_at = some now;
    elapsed_seconds = 0;
    estimated_remaining = none;
    log_file = log_file;
    exit_code = pos 0;
    error_code = [];
    error_message = [];
  }

  -- The manifest that failStart saves.
  unfoldable pub start_failed : ℕ → Manifest F → Manifest F
  start_failed now item = record item {
    status = failed;
    error_code = text "WORKER_START_FAILED";
    error_message = text "worker failed to start";
    completed_at = some now;
    exit_code = pos 1;
  }

  abbrev pub ended_as : Status → Bytes → Bytes → Manifest F → Manifest F
  ended_as status code message item = record item {
    status = status;
    error_code = code;
    error_message = message;
  }

  abbrev pub without_result : Bool → Manifest F → Manifest F
  without_result true item =
      ended_as failed (text "WORKER_EXITED") (text "worker exited before writing a result") item
  without_result false item =
      ended_as failed (text "WORKER_RESULT_INVALID") (text "worker result was missing or invalid")
        item

  abbrev pub with_result : Mode → ℤ → WorkerResult → Manifest F → Manifest F
  with_result mode exit_code r item =
      if same r.status (text "success") && is_zero exit_code
      then ended_as (success_status mode) [] [] item
      else if same r.status (text "failed")
      then ended_as failed (or_text (text "WORKER_FAILED") r.error_code) r.error_message item
      else ended_as failed (text "WORKER_EXITED") (text "worker exited unexpectedly") item

  abbrev pub outcome : Mode → ℤ → Bool → Bool → Answer WorkerResult → Manifest F → Manifest F
  outcome mode exit_code wait_failed true r item =
      ended_as cancelled (text "TASK_CANCELLED") (text "worker cancelled") item
  outcome mode exit_code wait_failed false (denied e) item = without_result wait_failed item
  outcome mode exit_code wait_failed false (given r) item =
      if same r.status (text "cancelled")
      then ended_as cancelled (text "TASK_CANCELLED") (text "worker cancelled") item
      else with_result mode exit_code r item

  -- The manifest that wait saves: for the mode, the exit code, whether the wait failed and whether
  -- the run was cancelled, and what ReadResult gave.
  unfoldable pub final_task :
      ℕ → Mode → ℤ → Bool → Bool → Answer WorkerResult → Manifest F → Manifest F
  unfolding same
  final_task now mode exit_code wait_failed was_cancelled r item =
      outcome mode exit_code wait_failed was_cancelled r
        (record item { completed_at = some now; exit_code = exit_code })

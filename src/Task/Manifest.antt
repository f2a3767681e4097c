-- ===== src/Task/Manifest.antt =====
-- The manifest of internal/task/model.go and the import request of internal/task/run.go. `F` is the
-- type of the fractions, and times are numbers.
use etcd_space_inspector.Prelude.{ℕ, Bool, false, Option, none, []}
use etcd_space_inspector.Prelude.Bytes.{Bytes}
use etcd_space_inspector.Task.Status.{Status, pending}

-- An int: `pos n`, or `negsuc n`, which is -(n + 1).
pub data ℤ : Type 0 where
  pos : ℕ → ℤ
  negsuc : ℕ → ℤ

pub data RunKind : Type 0 where
  no_run run_import run_analysis : RunKind

pub record Manifest (F : Type 0) : Type 0 where
  pub id : Bytes
  pub name : Bytes
  pub input_type : Bytes
  pub etcd_version : Bytes
  pub etcd_version_source : Bytes
  pub etcd_version_exact : Bool
  pub detected_etcd_version : Bytes
  pub source_path : Bytes
  pub source_size : ℕ
  pub source_sha256 : Bytes
  pub status : Status
  pub progress : F
  pub current_stage : Bytes
  pub run_id : Bytes
  pub run_kind : RunKind
  pub worker_pid : ℕ
  pub stage_progress : F
  pub processed : ℕ
  pub total : ℕ
  pub unit : Bytes
  pub rate_per_second : F
  pub heartbeat_at : Option ℕ
  pub elapsed_seconds : ℕ
  pub estimated_remaining : Option ℕ
  pub log_file : Bytes
  pub exit_code : ℤ
  pub error_code : Bytes
  pub error_message : Bytes
  pub created_at : ℕ
  pub started_at : Option ℕ
  pub completed_at : Option ℕ
  pub schema_version : ℕ

-- Task{} with the status of a new task.
abbrev pub blank : {F : Type 0} → F → Manifest F
blank zero = record {
  id = [];
  name = [];
  input_type = [];
  etcd_version = [];
  etcd_version_source = [];
  etcd_version_exact = false;
  detected_etcd_version = [];
  source_path = [];
  source_size = 0;
  source_sha256 = [];
  status = pending;
  progress = zero;
  current_stage = [];
  run_id = [];
  run_kind = no_run;
  worker_pid = 0;
  stage_progress = zero;
  processed = 0;
  total = 0;
  unit = [];
  rate_per_second = zero;
  heartbeat_at = none;
  elapsed_seconds = 0;
  estimated_remaining = none;
  log_file = [];
  exit_code = pos 0;
  error_code = [];
  error_message = [];
  created_at = 0;
  started_at = none;
  completed_at = none;
  schema_version = 0;
}

pub record ImportRequest : Type 0 where
  pub source_path : Bytes
  pub max_input_bytes : ℕ

pub record CreateRequest : Type 0 where
  pub name : Bytes
  pub source_path : Bytes
  pub input_type : Bytes
  pub etcd_version : Bytes
  pub max_input_bytes : ℕ

-- ===== src/Diff/Parts.antt =====
-- What internal/diff/calculator.go reads for the summary, and the parts of `Summary` of
-- internal/diff/model.go, its fields grouped by the function that sets them.
use etcd_space_inspector.Prelude.{ℕ, Bool}
use etcd_space_inspector.Prelude.Bytes.{Bytes}
use etcd_space_inspector.Diff.Rows.{Error}

-- float64: zero, subtraction, and the quotient of two int64 as floats.
pub record Floats (F : Type 0) : Type 0 where
  pub none_yet : F
  pub minus : F → F → F
  pub ratio : ℕ → ℕ → F

-- `QueryRow(…).Scan(…)`: a row, sql.ErrNoRows, or another error.
pub data Read (A : Type 0) : Type 0 where
  found : A → Read A
  no_rows : Read A
  failed : Error → Read A

pub record SourceTask : Type 0 where
  pub id : Bytes
  pub etcd_version : Bytes

pub record PhysicalSummary (F : Type 0) : Type 0 where
  pub file_size : ℕ
  pub page_size : ℕ
  pub page_count : ℕ
  pub in_use : ℕ
  pub free : ℕ
  pub fragmentation : F
  pub meta : ℕ
  pub branch : ℕ
  pub leaf : ℕ
  pub freelist : ℕ
  pub overflow : ℕ
  pub free_pages : ℕ
  pub unknown : ℕ

pub record MvccSummary : Type 0 where
  pub available : Bool
  pub revisions : ℕ
  pub current_keys : ℕ
  pub current_bytes : ℕ
  pub history_versions : ℕ
  pub history_bytes : ℕ
  pub tombstones : ℕ
  pub tombstone_bytes : ℕ

pub record KubernetesSummary : Type 0 where
  pub available : Bool
  pub objects : ℕ
  pub current_bytes : ℕ
  pub history_bytes : ℕ

-- The texts that say why a part is not available.
pub data Reason : Type 0 where
  none_given : Reason
  baseline_missing : Reason
  target_missing : Reason
  baseline_semantics : Reason
  target_semantics : Reason
  incompatible_versions : Reason

pub record PhysicalPart (F : Type 0) : Type 0 where
  pub available : Bool
  pub reason : Reason
  pub file_size_delta : ℕ
  pub page_size_delta : ℕ
  pub page_count_delta : ℕ
  pub in_use_page_bytes_delta : ℕ
  pub free_page_bytes_delta : ℕ
  pub fragmentation_ratio_delta : F
  pub meta_pages_delta : ℕ
  pub branch_pages_delta : ℕ
  pub leaf_pages_delta : ℕ
  pub freelist_pages_delta : ℕ
  pub overflow_pages_delta : ℕ
  pub free_pages_delta : ℕ
  pub unknown_pages_delta : ℕ

pub record MvccPart (F : Type 0) : Type 0 where
  pub available : Bool
  pub reason : Reason
  pub revision_count_delta : ℕ
  pub current_key_count_delta : ℕ
  pub current_stored_bytes_delta : ℕ
  pub historical_versions_delta : ℕ
  pub historical_bytes_delta : ℕ
  pub tombstone_count_delta : ℕ
  pub tombstone_bytes_delta : ℕ
  pub observation_window_seconds : ℕ
  pub revision_rate_available : Bool
  pub average_revisions_per_second : F

pub record KubernetesPart : Type 0 where
  pub available : Bool
  pub reason : Reason
  pub current_objects_delta : ℕ
  pub current_bytes_delta : ℕ
  pub historical_delta : ℕ

-- `Summary`, its fields grouped by the function that sets them.
pub record Summary (F : Type 0) : Type 0 where
  pub baseline_task_id : Bytes
  pub target_task_id : Bytes
  pub physical : PhysicalPart F
  pub mvcc : MvccPart F
  pub kubernetes : KubernetesPart

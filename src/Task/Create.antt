-- ===== src/Task/Create.antt =====
-- Service.Create and Service.PrepareImport of internal/task/service.go: a new task directory, which
-- is removed again when a later step fails. Texts are ASCII where spaces are trimmed.
pub mod Made
use etcd_space_inspector.Prelude.{
  ℕ, ◌≡◌, Bool, true, false, ◌&&◌, ◌||◌, not, Option, none, some, List, [], ◌∷◌, ◌++◌, ltb, leb,
  ◌==◌, if◌then◌else◌,
}
use etcd_space_inspector.Prelude.Bytes.{Bytes, text, same}
use etcd_space_inspector.Task.Status.{pending, importing}
use etcd_space_inspector.Task.Manifest.{Manifest, blank, ImportRequest, CreateRequest}
use etcd_space_inspector.Task.Store.{
  ServiceError, name_required, bad_input_type, no_id, no_directory, not_regular, too_large,
  cancelled_before, import_failed, request_failed, Stored, readable, Dir, Dirs, put, Faults, Result,
  ok, failed, write_manifest,
}
use etcd_space_inspector.Ingest.{Copy, copied, refused, Metadata}
use etcd_space_inspector.Version.{Backend, detect, is_exact}
use etcd_space_inspector.Version.Evidence.{VersionFields, choose_version}

-- strings.TrimSpace
abbrev pub is_space : ℕ → Bool
is_space c = (leb 9 c && leb c 13) || c == 32

unfoldable pub trim_start : Bytes → Bytes
trim_start [] = []
trim_start (c ∷ cs) = let rest = trim_start cs in if is_space c then rest else c ∷ cs

abbrev pub keep_unless : ℕ → Bytes → Bytes
keep_unless c [] = if is_space c then [] else c ∷ []
keep_unless c (d ∷ ds) = c ∷ d ∷ ds

unfoldable pub trim_end : Bytes → Bytes
trim_end [] = []
trim_end (c ∷ cs) = keep_unless c (trim_end cs)

unfoldable pub trim_space : Bytes → Bytes
unfolding trim_start trim_end
trim_space s = trim_end (trim_start s)

-- One of the five kinds of input.
unfoldable pub is_input : Bytes → Bool
unfolding same
is_input t =
    same t (text "snapshot")
    || same t (text "raw-db")
    || same t (text "log")
    || same t (text "audit")
    || same t (text "metrics")

-- A database, whose version can be detected.
unfoldable pub is_database : Bytes → Bool
unfolding same
is_database t =
    not (same t (text "log")) && not (same t (text "audit")) && not (same t (text "metrics"))

unfoldable pub destination_name : Bytes → Bytes
unfolding same
destination_name t =
    if same t (text "log")
    then text "input.log"
    else if same t (text "audit")
    then text "input.audit"
    else if same t (text "metrics")
    then text "input.metrics"
    else text "input.db"

unfoldable pub schema_of : Bytes → ℕ
unfolding same
schema_of t =
    if same t (text "log")
    then 2
    else if same t (text "audit")
    then 3
    else if same t (text "metrics")
    then 4
    else 1

-- The answers of the system: the new id, the making of the three directories (where the first one
-- fails it may have made the task's), the removal, the copy, the file that the detection opens, what
-- Lstat says of the source, and the clock.
pub record Setting : Type 0 where
  pub is_cancelled : Bool
  pub lstat_fails : Bool
  pub is_regular : Bool
  pub size : ℕ
  pub new_id : Option Bytes
  pub source_fails : Bool
  pub leaves_directory : Bool
  pub exports_fails : Bool
  pub logs_fails : Bool
  pub removal_fails : Bool
  pub copy : Copy
  pub backend : Backend
  pub request_fails : Bool
  pub faults : Faults
  pub now : ℕ

module _ {F : Type 0} where
  abbrev pub empty_dir : Dir F
  empty_dir = record { manifest = none; request = none }

  abbrev pub dir_or_empty : Option (Dir F) → Dir F
  dir_or_empty none = empty_dir
  dir_or_empty (some d) = d

  -- The deferred os.RemoveAll, on the way out with an error.
  abbrev pub removed : Setting → Bytes → Dirs F → Dirs F
  removed set id dirs = if set.removal_fails then dirs else put id none dirs

  abbrev pub made : Bytes → Dirs F → Dirs F
  made id dirs = put id (some (dir_or_empty (dirs id))) dirs

  abbrev pub give_up : Setting → Bytes → ServiceError → Dirs F → Result (Manifest F) × Dirs F
  give_up set id e dirs = (failed e, removed set id dirs)

  -- The directories, and then the rest.
  abbrev pub in_new_dir :
      Setting
      → (Bytes → Dirs F → Result (Manifest F) × Dirs F)
      → Option Bytes
      → Dirs F
      → Result (Manifest F) × Dirs F
  in_new_dir set rest none dirs = (failed no_id, dirs)
  in_new_dir set rest (some id) dirs =
      if set.source_fails
      then (failed no_directory, if set.leaves_directory then made id dirs else dirs)
      else if set.exports_fails || set.logs_fails
      then give_up set id no_directory (made id dirs)
      else rest id (made id dirs)

  -- writeManifest, as the last step.
  abbrev pub settle : Setting → Manifest F → Result Unit × Dirs F → Result (Manifest F) × Dirs F
  settle set item (ok u, dirs) = (ok item, dirs)
  settle set item (failed e, dirs) = give_up set item.id e dirs

module _ {F : Type 0} (zero : F) (set : Setting) (request : CreateRequest) where
  unfoldable pub new_task : Bytes → Metadata → Manifest F
  unfolding destination_name schema_of is_database trim_space choose_version detect
  new_task id meta =
      let detected = if is_database request.input_type then (detect set.backend).family else [] in
      let version = choose_version detected (trim_space request.etcd_version) in
      record (blank zero) {
        id = id;
        name = trim_space request.name;
        input_type = request.input_type;
        etcd_version = version.etcd_version;
        etcd_version_source = version.etcd_version_source;
        etcd_version_exact = version.etcd_version_exact;
        detected_etcd_version = detected;
        source_path = text "source/" ++ destination_name request.input_type;
        source_size = meta.size;
        source_sha256 = meta.sha256;
        status = pending;
        created_at = set.now;
        schema_version = schema_of request.input_type;
      }

  abbrev pub import_copy : Copy → Bytes → Dirs F → Result (Manifest F) × Dirs F
  import_copy (refused e) id dirs = give_up set id (import_failed e) dirs
  import_copy (copied meta) id dirs =
      settle set (new_task id meta) (write_manifest set.faults (new_task id meta) dirs)

  -- Create
  unfoldable pub create : Dirs F → Result (Manifest F) × Dirs F
  unfolding trim_space is_input new_task write_manifest
  create dirs =
      if same (trim_space request.name) []
      then (failed name_required, dirs)
      else if not (is_input request.input_type)
      then (failed bad_input_type, dirs)
      else in_new_dir set (import_copy set.copy) set.new_id dirs

  unfoldable pub importing_task : Bytes → Manifest F
  unfolding trim_space is_exact
  importing_task id =
      let version = trim_space request.etcd_version in
      record (blank zero) {
        id = id;
        name = trim_space request.name;
        input_type = request.input_type;
        etcd_version = version;
        etcd_version_source = (if same version [] then text "unknown" else text "manual");
        etcd_version_exact = is_exact version;
        source_size = set.size;
        status = importing;
        created_at = set.now;
        schema_version = 1;
      }

  abbrev pub the_request : Stored ImportRequest
  the_request =
      readable
        (record { source_path = request.source_path; max_input_bytes = request.max_input_bytes })

  abbrev pub with_request : Option (Dir F) → Option (Dir F)
  with_request none = none
  with_request (some d) = some (record d { request = some the_request })

  -- The import request and the manifest.
  abbrev pub import_later : Bytes → Dirs F → Result (Manifest F) × Dirs F
  import_later id dirs =
      if set.request_fails
      then give_up set id request_failed dirs
      else settle set (importing_task id)
          (write_manifest set.faults (importing_task id) (put id (with_request (dirs id)) dirs))

  -- PrepareImport
  unfoldable pub prepare_import : Dirs F → Result (Manifest F) × Dirs F
  unfolding trim_space same importing_task write_manifest
  prepare_import dirs =
      if set.is_cancelled
      then (failed cancelled_before, dirs)
      else if same (trim_space request.name) []
      then (failed name_required, dirs)
      else if not (same request.input_type (text "snapshot"))
          && not (same request.input_type (text "raw-db"))
      then (failed bad_input_type, dirs)
      else if set.lstat_fails || not set.is_regular
      then (failed not_regular, dirs)
      else if request.max_input_bytes == 0 || ltb request.max_input_bytes set.size
      then (failed too_large, dirs)
      else in_new_dir set import_later set.new_id dirs

-- ===== src/Tests/Tasks.antt =====
-- Task directories, for internal/task/service.go.
use etcd_space_inspector.Prelude.{
  ℕ, ◌≡◌, refl, true, false, none, some, List, [], ◌∷◌, ◌++◌, All, arith, if◌then◌else◌,
}
use etcd_space_inspector.Prelude.Bytes.{Bytes, text, same}
use etcd_space_inspector.Prelude.Strings.{split, contains_byte, trim_right}
use etcd_space_inspector.Task.Manifest.{Manifest, blank, CreateRequest}
use etcd_space_inspector.Task.Paths.{
  resolve_task_relative, resolved, valid_id, base, task_dir, join, enter, rel,
}
use etcd_space_inspector.Task.Paths.Contained.{IsPart, Below, resolve_task_relative-Below}
use etcd_space_inspector.Task.Store.{Dirs, readable, Faults, save_for_run, cancel}
use etcd_space_inspector.Task.Store.Kept.{
  Either, SavedRun, Cancelled, save_for_run-SavedRun, cancel-Cancelled,
}
use etcd_space_inspector.Task.Store.Listing.{Entries, entries, list, Listed, list-Listed}
use etcd_space_inspector.Task.Create.{Setting, create}
use etcd_space_inspector.Task.Create.Made.{Fresh, Made, copied_task, create-Made}
use etcd_space_inspector.Ingest.{copied}
use etcd_space_inspector.Version.{cluster_version}

abbrev no_faults : Faults
no_faults = record {
  read = false;
  encode = false;
  create_temp = false;
  write = false;
  sync = false;
  close = false;
  rename = false;
  remove = false;
}

abbrev first : Manifest ℕ
first = record (blank 0) { id = text "t1"; run_id = text "a1"; created_at = 5 }

abbrev dirs : Dirs ℕ
dirs id =
    if same id (text "t1")
    then some (record { manifest = some (readable first); request = none })
    else none

save_for_run-SavedRun_example :
    Either
      (SavedRun first (text "a1") dirs dirs)
      dirs
      (save_for_run no_faults (λ d. d) first (text "a1") dirs)
save_for_run-SavedRun_example = save_for_run-SavedRun no_faults (λ d. d) first (text "a1") dirs

cancel-Cancelled_example :
    Either (Cancelled 9 (text "t1") dirs) dirs (cancel 9 no_faults (text "t1") dirs)
cancel-Cancelled_example = cancel-Cancelled 9 no_faults (text "t1") dirs

abbrev listed : Entries
listed =
    entries
      (record { name = text "t1"; is_dir = true } ∷ record { name = text "t2"; is_dir = true } ∷ [])

list-Listed_example : Listed false dirs listed (list false dirs listed)
list-Listed_example = list-Listed false dirs listed

abbrev setting : Setting
setting = record {
  is_cancelled = false;
  lstat_fails = false;
  is_regular = true;
  size = 4;
  new_id = some (text "t9");
  source_fails = false;
  leaves_directory = false;
  exports_fails = false;
  logs_fails = false;
  removal_fails = false;
  copy = copied (record { size = 4; sha256 = text "f00d"; mod_time = 1 });
  backend = cluster_version (text "3.4.3");
  request_fails = false;
  faults = no_faults;
  now = 7;
}

abbrev request : CreateRequest
request = record {
  name = text " prod ";
  source_path = text "/tmp/x";
  input_type = text "snapshot";
  etcd_version = [];
  max_input_bytes = 10;
}

setting-Fresh : Fresh setting dirs
unfolding same
setting-Fresh = record { unused = λ id h. ground arith; removal = refl }

create-Made_example :
    Made setting
      (copied_task 0 setting request dirs setting-Fresh setting.copy)
      dirs
      (create 0 setting request dirs)
create-Made_example = create-Made 0 setting request dirs setting-Fresh

abbrev data_dir : List Bytes
data_dir = text "var" ∷ text "data" ∷ []

data_dir-All : All IsPart data_dir
unfolding same
data_dir-All = ((refl, refl, refl), ((refl, refl, refl), tt))

inner :
    resolve_task_relative data_dir (text "t1") (text "logs/../exports/./a")
    ≡ resolved (data_dir ++ text "tasks" ∷ text "t1" ∷ text "exports" ∷ text "a" ∷ [])
unfolding resolve_task_relative valid_id base task_dir join enter rel same split contains_byte
    trim_right
inner = refl

resolve_task_relative-Below_example :
    (valid_id (text "t1") ≡ true)
    × Below data_dir
        (text "t1")
        (data_dir ++ text "tasks" ∷ text "t1" ∷ text "exports" ∷ text "a" ∷ [])
resolve_task_relative-Below_example =
    resolve_task_relative-Below data_dir (text "t1") (text "logs/../exports/./a")
      (data_dir ++ text "tasks" ∷ text "t1" ∷ text "exports" ∷ text "a" ∷ []) data_dir-All inner

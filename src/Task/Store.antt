-- ===== src/Task/Store.antt =====
-- The task service of internal/task/service.go over its directories: manifests and import requests.
-- A task's directory is found by its id, on a Unix system. A file that is there can be read as what
-- was written to it, or not at all; reading a manifest again, while it cannot be parsed, is left out.
-- Which calls of the system fail is a `Faults`.
pub mod Kept
pub mod Listing
use etcd_space_inspector.Prelude.{
  ℕ, zero, suc, ◌+◌, ◌≤◌, ◌≡◌, Bool, true, false, ◌&&◌, ◌||◌, not, Option, none, some, List, [],
  ◌∷◌, ◌++◌, ltb, leb, ◌==◌, if◌then◌else◌,
}
use etcd_space_inspector.Prelude.Bytes.{Bytes, text, same}
use etcd_space_inspector.Task.Status.{Status, cancelled, valid_transition}
use etcd_space_inspector.Task.Manifest.{Manifest, ImportRequest}
use etcd_space_inspector.Task.Paths.{valid_id}
use etcd_space_inspector.Ingest.{CopyError}

pub data ServiceError : Type 0 where
  name_required bad_input_type no_id no_directory not_regular too_large cancelled_before :
      ServiceError
  import_failed : CopyError → ServiceError
  invalid_id read_failed decode_failed write_failed stale_run bad_transition : ServiceError
  request_failed invalid_request remove_failed list_failed path_escapes : ServiceError

-- A file that was written, or one that cannot be parsed.
pub data Stored (A : Type 0) : Type 0 where
  readable : A → Stored A
  garbled : Stored A

pub record Dir (F : Type 0) : Type 0 where
  pub manifest : Option (Stored (Manifest F))
  pub request : Option (Stored ImportRequest)

-- The directories below `tasks`, by their names.
abbrev pub Dirs : Type 0 → Type 0
Dirs F = Bytes → Option (Dir F)

abbrev pub put : {A : Type 0} → Bytes → A → (Bytes → A) → Bytes → A
put id v f x = if same x id then v else f x

pub record Faults : Type 0 where
  pub read : Bool
  pub encode : Bool
  pub create_temp : Bool
  pub write : Bool
  pub sync : Bool
  pub close : Bool
  pub rename : Bool
  pub remove : Bool

pub data Result (A : Type 0) : Type 0 where
  ok : A → Result A
  failed : ServiceError → Result A

-- A byte that safeTempPart keeps.
unfoldable pub is_safe : ℕ → Bool
is_safe r =
    (leb b'a' r && leb r b'z')
    || (leb b'A' r && leb r b'Z')
    || (leb b'0' r && leb r b'9')
    || r == b'-'
    || r == b'_'

abbrev pub safe_runes : List ℕ → Bytes
safe_runes [] = []
safe_runes (r ∷ rs) = (if is_safe r then r else b'_') ∷ safe_runes rs

abbrev pub or_unknown : Bytes → Bytes
or_unknown [] = text "unknown"
or_unknown (c ∷ cs) = c ∷ cs

-- safeTempPart, on the runes of its argument.
unfoldable pub safe_temp_part : List ℕ → Bytes
unfolding is_safe
safe_temp_part rs = or_unknown (safe_runes rs)

-- writeManifest: a temporary file in the directory takes the manifest's place in the end. The
-- temporary file is removed on every path.
abbrev pub write_fails : Faults → Bool
write_fails f = f.encode || f.create_temp || f.write || f.sync || f.close || f.rename

abbrev pub checked_request : Option (Stored ImportRequest) → Result ImportRequest
checked_request none = failed request_failed
checked_request (some garbled) = failed request_failed
checked_request (some (readable r)) =
    if same r.source_path [] || r.max_input_bytes == 0 then failed invalid_request else ok r

abbrev pub is_there : {A : Type 0} → Option A → Bool
is_there none = false
is_there (some a) = true

module _ {F : Type 0} where
  abbrev pub write_in : Bool → Manifest F → Option (Dir F) → Dirs F → Result Unit × Dirs F
  write_in fails item none dirs = (failed write_failed, dirs)
  write_in true item (some dir) dirs = (failed write_failed, dirs)
  write_in false item (some dir) dirs =
      (ok tt, put item.id (some (record dir { manifest = some (readable item) })) dirs)

  unfoldable pub write_manifest : Faults → Manifest F → Dirs F → Result Unit × Dirs F
  write_manifest f item dirs = write_in (write_fails f) item (dirs item.id) dirs

  abbrev pub manifest_of : Option (Dir F) → Option (Stored (Manifest F))
  manifest_of none = none
  manifest_of (some dir) = dir.manifest

  abbrev pub read_in : Option (Stored (Manifest F)) → Result (Manifest F)
  read_in none = failed read_failed
  read_in (some garbled) = failed decode_failed
  read_in (some (readable m)) = ok m

  -- Get
  unfoldable pub get : Bool → Bytes → Dirs F → Result (Manifest F)
  unfolding valid_id
  get read_fails id dirs =
      if not (valid_id id)
      then failed invalid_id
      else if read_fails
      then failed read_failed
      else read_in (manifest_of (dirs id))

  -- Save
  unfoldable pub save : Faults → Manifest F → Dirs F → Result Unit × Dirs F
  unfolding write_manifest valid_id
  save f item dirs =
      if not (valid_id item.id) then (failed invalid_id, dirs) else write_manifest f item dirs

  abbrev pub save_over :
      Faults → Manifest F → Bytes → Result (Manifest F) → Dirs F → Result Unit × Dirs F
  save_over f item run_id (failed e) dirs = (failed e, dirs)
  save_over f item run_id (ok current) dirs =
      if not (same current.run_id run_id) || not (same item.run_id run_id)
      then (failed stale_run, dirs)
      else write_manifest f item dirs

  -- SaveForRun: `others` is what other processes do between its read and its write.
  unfoldable pub save_for_run :
      Faults → (Dirs F → Dirs F) → Manifest F → Bytes → Dirs F → Result Unit × Dirs F
  unfolding get write_manifest
  save_for_run f others item run_id dirs =
      save_over f item run_id (get f.read item.id dirs) (others dirs)

  abbrev pub cancel_item : ℕ → Faults → Result (Manifest F) → Dirs F → Result Unit × Dirs F
  cancel_item now f (failed e) dirs = (failed e, dirs)
  cancel_item now f (ok item) dirs =
      if valid_transition item.status cancelled
      then save f (record item { status = cancelled; completed_at = some now }) dirs
      else (failed bad_transition, dirs)

  -- Cancel
  unfoldable pub cancel : ℕ → Faults → Bytes → Dirs F → Result Unit × Dirs F
  unfolding get save valid_transition
  cancel now f id dirs = cancel_item now f (get f.read id dirs) dirs

  abbrev pub request_of : Option (Dir F) → Option (Stored ImportRequest)
  request_of none = none
  request_of (some dir) = dir.request

  -- ReadImportRequest; a bound that is not positive reads as zero.
  unfoldable pub read_import_request : Bool → Bytes → Dirs F → Result ImportRequest
  unfolding valid_id
  read_import_request fails id dirs =
      if not (valid_id id)
      then failed invalid_id
      else if fails
      then failed request_failed
      else checked_request (request_of (dirs id))

  abbrev pub without_request : Option (Dir F) → Option (Dir F)
  without_request none = none
  without_request (some dir) = some (record dir { request = none })

  -- RemoveImportRequest; a file that is not there is no error.
  unfoldable pub remove_import_request : Bool → Bytes → Dirs F → Result Unit × Dirs F
  unfolding valid_id
  remove_import_request fails id dirs =
      if not (valid_id id)
      then (failed invalid_id, dirs)
      else if fails && is_there (request_of (dirs id))
      then (failed remove_failed, dirs)
      else (ok tt, put id (without_request (dirs id)) dirs)

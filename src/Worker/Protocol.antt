-- ===== src/Worker/Protocol.antt =====
-- internal/worker/protocol.go: the request that starts a worker and the result that it leaves, each a
-- file that is replaced whole. JSON is a parameter.
use etcd_space_inspector.Prelude.{
  ℕ, Bool, true, false, ◌&&◌, ◌||◌, not, Option, none, some, [], ◌∷◌, leb, if◌then◌else◌,
}
use etcd_space_inspector.Prelude.Bytes.{Bytes, same}
use etcd_space_inspector.Task.Manifest.{ℤ}
use etcd_space_inspector.Task.Paths.{valid_id}

pub data Mode : Type 0 where
  mode_import : Mode
  mode_analysis : Mode
  other_mode : Bytes → Mode

pub record Request : Type 0 where
  pub task_id : Bytes
  pub run_id : Bytes
  pub mode : Mode
  pub worker_count : ℕ
  pub channel_size : ℕ
  pub sqlite_batch_size : ℕ
  pub max_input_bytes : ℕ

pub record WorkerResult : Type 0 where
  pub run_id : Bytes
  pub mode : Mode
  pub status : Bytes
  pub error_code : Bytes
  pub error_message : Bytes
  pub exit_code : ℤ
  pub completed_at : ℕ

pub data ProtocolError : Type 0 where
  invalid_identity not_written not_read identity_mismatch : ProtocolError

pub data Answer (A : Type 0) : Type 0 where
  given : A → Answer A
  denied : ProtocolError → Answer A

abbrev pub is_hex : ℕ → Bool
is_hex r = (leb b'0' r && leb r b'9') || (leb b'a' r && leb r b'f')

abbrev pub all_hex : Bytes → Bool
all_hex [] = true
all_hex (r ∷ rs) = if is_hex r then all_hex rs else false

-- validRunID
unfoldable pub valid_run_id : Bytes → Bool
unfolding same
valid_run_id value = not (same value []) && all_hex value

-- validMode
abbrev pub valid_mode : Mode → Bool
valid_mode (other_mode m) = false
valid_mode _ = true

-- validateRequest
unfoldable pub validate_request : Request → Bool
unfolding valid_id valid_run_id
validate_request r = valid_id r.task_id && valid_run_id r.run_id && valid_mode r.mode

-- encoding/json for the values of one type: `encode` is MarshalIndent and a line break, and `decode`
-- what a file holds if it is one value with known fields and nothing else.
pub record Json (A : Type 0) : Type 0 where
  pub encode : A → Option Bytes
  pub decode : Bytes → Option A

abbrev pub replace_file : Bool → Option Bytes → Option Bytes → Option ProtocolError × Option Bytes
replace_file fails none file = (some not_written, file)
replace_file true (some content) file = (some not_written, file)
replace_file false (some content) file = (none, some content)

-- writeJSON: whether it succeeded, and the file.
unfoldable pub write_json :
    {A : Type 0} → Json A → Bool → A → Option Bytes → Option ProtocolError × Option Bytes
write_json json fails a file = replace_file fails (json.encode a) file

-- readJSON
unfoldable pub read_json : {A : Type 0} → Json A → Bool → Option Bytes → Option A
read_json json true file = none
read_json json false none = none
read_json json false (some content) = json.decode content

-- WriteRequest
unfoldable pub write_request :
    Json Request → Bool → Request → Option Bytes → Option ProtocolError × Option Bytes
unfolding validate_request write_json
write_request json fails r file =
    if not (validate_request r) then (some invalid_identity, file) else write_json json fails r file

abbrev pub checked_request : Bytes → Bytes → Option Request → Answer Request
checked_request task_id run_id none = denied not_read
checked_request task_id run_id (some r) =
    if not (validate_request r)
    then denied invalid_identity
    else if not (same r.task_id task_id) || not (same r.run_id run_id)
    then denied identity_mismatch
    else given r

-- ReadRequest
unfoldable pub read_request : Json Request → Bool → Option Bytes → Bytes → Bytes → Answer Request
unfolding validate_request same read_json
read_request json fails file task_id run_id =
    checked_request task_id run_id (read_json json fails file)

unfoldable pub valid_result : WorkerResult → Bool
unfolding valid_run_id
valid_result r = valid_run_id r.run_id && valid_mode r.mode

-- WriteResult
unfoldable pub write_result :
    Json WorkerResult → Bool → WorkerResult → Option Bytes → Option ProtocolError × Option Bytes
unfolding valid_result write_json
write_result json fails r file =
    if not (valid_result r) then (some invalid_identity, file) else write_json json fails r file

abbrev pub checked_result : Bytes → Option WorkerResult → Answer WorkerResult
checked_result run_id none = denied not_read
checked_result run_id (some r) =
    if not (valid_result r) || not (same r.run_id run_id) then denied invalid_identity else given r

-- ReadResult
unfoldable pub read_result : Json WorkerResult → Bool → Option Bytes → Bytes → Answer WorkerResult
unfolding valid_result same read_json
read_result json fails file run_id = checked_result run_id (read_json json fails file)

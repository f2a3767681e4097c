-- ===== src/Tests/Workers.antt =====
-- Worker processes and their supervisor, for internal/worker.
use etcd_space_inspector.Prelude.{
  ℕ, ◌+◌, ◌≤◌, Option, ◌≡◌, refl, true, false, none, some, [], ◌∷◌, if◌then◌else◌,
}
use etcd_space_inspector.Prelude.Bytes.{Bytes, text, same}
use etcd_space_inspector.Prelude.Strings.{split, contains_byte, trim_right}
use etcd_space_inspector.Task.Status.{completed, cancelled}
use etcd_space_inspector.Task.Manifest.{Manifest, blank, pos}
use etcd_space_inspector.Task.Paths.{valid_id, base}
use etcd_space_inspector.Task.Store.{Dirs, readable, get, put}
use etcd_space_inspector.Worker.Protocol.{
  mode_analysis, Request, WorkerResult, Answer, given, valid_run_id,
}
use etcd_space_inspector.Worker.Manager.{ManagerConfig, final_task, admission, is_wanted, limit}
use etcd_space_inspector.Worker.Manager.Final.{Final}
use etcd_space_inspector.Worker.Manager.System.{
  System, Reach, here, later, admit, start, take_over, checked, leased, Attempt,
}
use etcd_space_inspector.Worker.Manager.System.Alone.{holders, held, Reach-holders}

abbrev the_request : Request
the_request = record {
  task_id = text "t1";
  run_id = text "a1";
  mode = mode_analysis;
  worker_count = 2;
  channel_size = 8;
  sqlite_batch_size = 100;
  max_input_bytes = 0;
}

abbrev waiting : Manifest ℕ
waiting = record (blank 0) { id = text "t1" }

-- The worker has saved its task as completed before it left.
abbrev at_end : Manifest ℕ
at_end = record waiting { status = completed; run_id = text "a1" }

abbrev success : Answer WorkerResult
success = given (record {
  run_id = text "a1";
  mode = mode_analysis;
  status = text "success";
  error_code = [];
  error_message = [];
  exit_code = pos 0;
  completed_at = 8;
})

late_cancel : (final_task 9 mode_analysis (pos 0) false true success at_end).status ≡ cancelled
unfolding final_task
late_cancel = refl

abbrev dirs : Dirs ℕ
dirs id =
    if same id (text "t1")
    then some (record { manifest = some (readable waiting); request = none })
    else none

abbrev config : ManagerConfig
config = record {
  executable = text "x";
  data_dir = text "d";
  owner_id = text "o";
  heartbeat_every = 2;
  stale_after = 15;
  shutdown_timeout = 10;
  max_imports = 1;
  max_analyses = 1;
}

abbrev attempt : Attempt ℕ
attempt = record {
  task_id = text "t1";
  run_id = text "a1";
  mode = mode_analysis;
  request = the_request;
  item = waiting;
  phase = checked;
}

-- A lease that an earlier server has left.
abbrev left_lease : Bytes → Option Bytes
left_lease id = if same id (text "t1") then some (text "z9") else none

-- A call of Start has taken the lease over.
abbrev with_lease : System ℕ
with_lease = record {
  tasks = dirs;
  leases = put (text "t1") (some (text "a1")) left_lease;
  taken_over = put (text "t1") 1 (λ id. 0);
  attempts = record attempt { phase = leased } ∷ [];
  runs = [];
  shutting_down = false;
}

with_lease-Reach : Reach config 0 dirs left_lease with_lease
unfolding admission is_wanted limit valid_run_id get valid_id base same split contains_byte
    trim_right
with_lease-Reach =
    later
      (later here (admit {run_id = text "a1"} {item = waiting} the_request none false refl refl))
      (start [] [] refl (take_over {other = text "z9"} refl refl))

Reach-holders_example :
    holders (text "t1") with_lease
    ≤ held (with_lease.leases (text "t1")) + with_lease.taken_over (text "t1")
Reach-holders_example = Reach-holders (text "t1") with_lease-Reach

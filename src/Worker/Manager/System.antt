-- ===== src/Worker/Manager/System.antt =====
-- The supervisor at work: calls of Start, worker processes, their ends, cancellations and a shutdown,
-- interleaved in any order. The task directories are those of Task/Store. Of a lock file there is the
-- run that it names, and whether it is stale is left open, so that any lease may be taken over at any
-- time; other processes than this server do not change the lock files while it runs. The two timers
-- that kill a worker which does not leave are left out.
pub mod Alone
use etcd_space_inspector.Prelude.{
  ℕ, zero, suc, ◌+◌, ◌≤◌, ◌≡◌, ◌≢◌, Bool, true, false, Option, none, some, List, [], ◌∷◌, ◌++◌,
  if◌then◌else◌,
}
use etcd_space_inspector.Prelude.Bytes.{Bytes, same}
use etcd_space_inspector.Task.Manifest.{Manifest, ℤ}
use etcd_space_inspector.Task.Store.{
  read_failed, Dirs, Faults, Result, ok, failed, put, get, save, save_for_run,
}
use etcd_space_inspector.Worker.Protocol.{
  Mode, mode_import, mode_analysis, other_mode, Request, WorkerResult, Answer, validate_request,
}
use etcd_space_inspector.Worker.Manager.{
  ManagerConfig, Admission, admitted, admission, started, start_failed, final_task,
}

-- How far a call of Start has come: past its checks, with the lease, with the log file, with the
-- request file, with the manifest saved, with the process started; or returned at a shutdown with
-- the process killed.
pub data Phase : Type 0 where
  checked leased logged requested saved launched abandoned : Phase

pub record Attempt (F : Type 0) : Type 0 where
  pub task_id : Bytes
  pub run_id : Bytes
  pub mode : Mode
  pub request : Request
  pub item : Manifest F
  pub phase : Phase

-- How far a run has come: its process is there, has left, was taken off the map of running tasks,
-- has its lease released, or is done.
pub data Stage : Type 0 where
  alive left unlisted released done : Stage

pub record Run (F : Type 0) : Type 0 where
  pub task_id : Bytes
  pub run_id : Bytes
  pub mode : Mode
  pub is_cancelled : Bool
  pub stage : Stage
  -- what wait has read and decided, once it has
  pub final : Result (Manifest F)

pub record System (F : Type 0) : Type 0 where
  pub tasks : Dirs F
  -- the run in the lock file of a task
  pub leases : Bytes → Option Bytes
  -- how often the lease of a task was taken over as stale
  pub taken_over : Bytes → ℕ
  pub attempts : List (Attempt F)
  pub runs : List (Run F)
  pub shutting_down : Bool

abbrev pub same_mode : Mode → Mode → Bool
same_mode mode_import mode_import = true
same_mode mode_analysis mode_analysis = true
same_mode (other_mode a) (other_mode b) = same a b
same_mode _ _ = false

-- What Release leaves of a lock file: it removes that of its own run, unless it fails.
abbrev pub after_release : Bool → Bytes → Option Bytes → Option Bytes
after_release fails run_id none = none
after_release true run_id (some holder) = some holder
after_release false run_id (some holder) = if same holder run_id then none else some holder

-- Release. Its error is ignored.
abbrev pub freed : Bool → Bytes → Bytes → (Bytes → Option Bytes) → Bytes → Option Bytes
freed fails id run_id leases = put id (after_release fails run_id (leases id)) leases

module _ {F : Type 0} where
  -- The run is in the map of running tasks.
  abbrev pub in_map : Run F → Bool
  in_map r = elim r.stage [ alive ↦ true | left ↦ true | _ ↦ false ]

  -- Whether the map has the task.
  abbrev pub is_busy : Bytes → List (Run F) → Bool
  is_busy id [] = false
  is_busy id (r ∷ rs) =
      if in_map r then (if same r.task_id id then true else is_busy id rs) else is_busy id rs

  -- countLocked
  abbrev pub count_mode : Mode → List (Run F) → ℕ
  count_mode m [] = 0
  count_mode m (r ∷ rs) =
      (if in_map r then (if same_mode r.mode m then 1 else 0) else 0) + count_mode m rs

  -- markCancelled and closeControl, on every run in the map.
  abbrev pub cancel_all : List (Run F) → List (Run F)
  cancel_all [] = []
  cancel_all (r ∷ rs) = (if in_map r then record r { is_cancelled = true } else r) ∷ cancel_all rs

  abbrev pub manifest_in : Bool → Bytes → Dirs F → Option (Manifest F)
  manifest_in fails id dirs = elim (get fails id dirs) [ ok m ↦ some m | failed e ↦ none ]

  -- What wait makes of the manifest that it reads.
  abbrev pub decided :
      ℕ → Mode → ℤ → Bool → Bool → Answer WorkerResult → Result (Manifest F) → Result (Manifest F)
  decided now mode code wait_failed was_cancelled r (failed e) = failed e
  decided now mode code wait_failed was_cancelled r (ok m) =
      ok (final_task now mode code wait_failed was_cancelled r m)

  -- The last save of wait.
  abbrev pub saved_final :
      Faults → (Dirs F → Dirs F) → Bytes → Result (Manifest F) → Dirs F → Dirs F
  saved_final f others run_id (failed e) dirs = dirs
  saved_final f others run_id (ok m) dirs = (save_for_run f others m run_id dirs).1

  abbrev pub new_attempt : Request → Bytes → Manifest F → Attempt F
  new_attempt r run_id item = record {
    task_id = item.id;
    run_id = run_id;
    mode = r.mode;
    request = record r { run_id = run_id; task_id = item.id };
    item = item;
    phase = checked;
  }

  abbrev pub new_run : Attempt F → Run F
  new_run a = record {
    task_id = a.task_id;
    run_id = a.run_id;
    mode = a.mode;
    is_cancelled = false;
    stage = alive;
    final = failed read_failed;
  }

  abbrev pub still : Option (Attempt F) → List (Attempt F)
  still none = []
  still (some a) = a ∷ []

  -- A new supervisor over the task directories, with the lock files that earlier ones have left.
  abbrev pub init : Dirs F → (Bytes → Option Bytes) → System F
  init dirs leases = record {
    tasks = dirs;
    leases = leases;
    taken_over = λ id. 0;
    attempts = [];
    runs = [];
    shutting_down = false;
  }

module _ {F : Type 0} (config : ManagerConfig) (zero : F) where
  -- One call of Start, beside the rest: its attempt and, where it is still under way, the next one.
  pub data Advance (s : System F) : Attempt F → System F → Option (Attempt F) → Type 0 where
    acquire :
        {a : Attempt F}
        → a.phase ≡ checked
        → s.leases a.task_id ≡ none
        → Advance s a
            (record s { leases = put a.task_id (some a.run_id) s.leases })
            (some (record a { phase = leased }))
    -- the lease in the file is stale
    take_over :
        {a : Attempt F} {other : Bytes}
        → a.phase ≡ checked
        → s.leases a.task_id ≡ some other
        → Advance s a
            (record s {
              leases = put a.task_id (some a.run_id) s.leases;
              taken_over = put a.task_id (suc (s.taken_over a.task_id)) s.taken_over;
            })
            (some (record a { phase = leased }))
    acquire_fails : {a : Attempt F} → a.phase ≡ checked → Advance s a s none
    open_log :
        {a : Attempt F} → a.phase ≡ leased → Advance s a s (some (record a { phase = logged }))
    write_request :
        {a : Attempt F}
        → a.phase ≡ logged
        → validate_request a.request ≡ true
        → Advance s a s (some (record a { phase = requested }))
    save_item :
        {a : Attempt F} {dirs : Dirs F} (now : ℕ) (log_file : Bytes) (f : Faults)
        → a.phase ≡ requested
        → save f (started now a.mode a.run_id log_file zero a.item) s.tasks ≡ (ok tt, dirs)
        → Advance s a
            (record s { tasks = dirs })
            (some
              (record a { phase = saved; item = started now a.mode a.run_id log_file zero a.item }))
    -- any of the last three fails
    clean_up :
        {a : Attempt F} (release_fails : Bool)
        → a.phase ≢ checked
        → a.phase ≢ saved
        → a.phase ≢ launched
        → a.phase ≢ abandoned
        → Advance s a (record s { leases = freed release_fails a.task_id a.run_id s.leases }) none
    launch :
        {a : Attempt F} → a.phase ≡ saved → Advance s a s (some (record a { phase = launched }))
    fail_start :
        {a : Attempt F} (now : ℕ) (f : Faults) (others : Dirs F → Dirs F) (release_fails : Bool)
        → a.phase ≡ saved
        → Advance s a
            (record s {
              tasks = (save_for_run f others (start_failed now a.item) a.run_id s.tasks).1;
              leases = freed release_fails a.task_id a.run_id s.leases;
            })
            none
    register :
        {a : Attempt F}
        → a.phase ≡ launched
        → s.shutting_down ≡ false
        → Advance s a (record s { runs = s.runs ++ new_run a ∷ [] }) none
    abandon :
        {a : Attempt F}
        → a.phase ≡ launched
        → s.shutting_down ≡ true
        → Advance s a s (some (record a { phase = abandoned }))

  -- One run, beside the rest.
  pub data Turn (s : System F) : Run F → System F → Run F → Type 0 where
    -- the worker writes its progress into the manifest of its run
    progress :
        {r : Run F} (f : Faults) (others : Dirs F → Dirs F) (m : Manifest F)
        → r.stage ≡ alive
        → Turn s r (record s { tasks = (save_for_run f others m r.run_id s.tasks).1 }) r
    -- Cancel, or the end of the context that Start was given
    cancel_run : {r : Run F} → in_map r ≡ true → Turn s r s (record r { is_cancelled = true })
    leave : {r : Run F} → r.stage ≡ alive → Turn s r s (record r { stage = left })
    unlist :
        {r : Run F} (now : ℕ) (code : ℤ) (wait_failed read_fails : Bool)
        (result : Answer WorkerResult)
        → r.stage ≡ left
        → Turn s r s (record r {
          stage = unlisted;
          final =
              decided now r.mode code wait_failed r.is_cancelled result
                (get read_fails r.task_id s.tasks);
        })
    release :
        {r : Run F} (release_fails : Bool)
        → r.stage ≡ unlisted
        → Turn s r
            (record s { leases = freed release_fails r.task_id r.run_id s.leases })
            (record r { stage = released })
    finish :
        {r : Run F} (f : Faults) (others : Dirs F → Dirs F)
        → r.stage ≡ released
        → Turn s r
            (record s { tasks = saved_final f others r.run_id r.final s.tasks })
            (record r { stage = done })

  pub data Step (s : System F) : System F → Type 0 where
    admit :
        {run_id : Bytes} {item : Manifest F} (r : Request) (fresh : Option Bytes)
        (read_fails : Bool)
        → manifest_in read_fails r.task_id s.tasks ≡ some item
        → admission config r fresh s.shutting_down
            (is_busy item.id s.runs)
            (count_mode r.mode s.runs)
            (some item)
          ≡ admitted run_id
        → Step s (record s { attempts = s.attempts ++ new_attempt r run_id item ∷ [] })
    start :
        (before after : List (Attempt F)) {a : Attempt F} {o : Option (Attempt F)} {t : System F}
        → s.attempts ≡ before ++ a ∷ after
        → Advance s a t o
        → Step s (record t { attempts = before ++ (still o ++ after) })
    run :
        (before after : List (Run F)) {r v : Run F} {t : System F}
        → s.runs ≡ before ++ r ∷ after
        → Turn s r t v
        → Step s (record t { runs = before ++ v ∷ after })
    -- whatever the API and other processes do to the task directories
    outside : (dirs : Dirs F) → Step s (record s { tasks = dirs })
    shutdown :
        s.shutting_down ≡ false
        → Step s (record s { shutting_down = true; runs = cancel_all s.runs })

  pub data Reach (dirs : Dirs F) (leases : Bytes → Option Bytes) : System F → Type 0 where
    here : Reach dirs leases (init dirs leases)
    later : {s t : System F} → Reach dirs leases s → Step s t → Reach dirs leases t

-- ===== src/Task/Runner.antt =====
-- Runner of internal/task/runner.go: the stages of one task, run in order over a repository.
pub mod Ending
pub mod Checkpoints
use etcd_space_inspector.Prelude.{
  ℕ, zero, suc, ◌+◌, ◌≡◌, Bool, true, false, ◌&&◌, ◌||◌, not, Option, none, some, List, [], ◌∷◌,
  ◌++◌, length, if◌then◌else◌,
}
use etcd_space_inspector.Prelude.Bytes.{Bytes, text, same}
use etcd_space_inspector.Task.Status.{
  Status, pending, importing, running, completed, failed, cancelled, valid_transition,
}
use etcd_space_inspector.Task.Progress.{
  FloatOps, ProgressUpdate, Reporter, new_reporter, Report, context_error, held, persisted,
  persist_failed, report,
}
use etcd_space_inspector.Task.Work.{
  Task, Cause, Event, Work, Stage, World, Ended, canceled, coded, already_running, bad_transition,
  save_failed, other, saved, unsaved, checkpoint, no_checkpoint, UpdateContext, run_context,
  background,
}

abbrev pub is_canceled : Cause → Bool
is_canceled canceled = true
is_canceled _ = false

module _ {F : Type 0} (ops : FloatOps F) (world : World F) where
  abbrev pub take_save : Work F → Option Cause → Ended F
  take_save w none = (record w { log = w.log ++ saved w.task ∷ [] }, none)
  take_save w (some e) = (record w { log = w.log ++ unsaved w.task ∷ [] }, some e)

  -- repository.UpdateTask
  unfoldable pub save : UpdateContext → Work F → Ended F
  save c w = take_save w (world.update_fault c w.log)

  abbrev pub take_checkpoint : Bytes → Work F → Option Cause → Ended F
  take_checkpoint stage w none = (record w { log = w.log ++ checkpoint stage ∷ [] }, none)
  take_checkpoint stage w (some e) = (record w { log = w.log ++ no_checkpoint stage ∷ [] }, some e)

  -- repository.SaveCheckpoint
  unfoldable pub save_checkpoint : Bytes → Work F → Ended F
  save_checkpoint stage w = take_checkpoint stage w (world.checkpoint_fault w.log)

  -- The closure that the runner gives to its reporter, without the save.
  unfoldable pub take_update : ProgressUpdate F → Task F → Task F
  take_update u t = record t {
    current_stage = (if same u.stage [] then t.current_stage else u.stage);
    stage_progress = u.stage_progress;
    processed = u.processed;
    total = u.total;
    unit = u.unit;
    rate_per_second = u.rate_per_second;
    heartbeat_at = u.heartbeat_at;
    elapsed_seconds = u.elapsed_seconds;
    estimated_remaining = u.estimated_remaining;
  }

  abbrev pub reported_work : Work F → Reporter × Report Cause F → Ended F
  reported_work w (r, context_error e) = (record w { reporter = r }, some e)
  reported_work w (r, held) = (record w { reporter = r }, none)
  reported_work w (r, persisted u) =
      let t = take_update u w.task in
      (record w { task = t; reporter = r; log = w.log ++ saved t ∷ [] }, none)
  reported_work w (r, persist_failed u e) =
      let t = take_update u w.task in
      (record w { task = t; reporter = r; log = w.log ++ unsaved t ∷ [] }, some e)

  -- reporter.Report, with that closure.
  unfoldable pub send_report : ProgressUpdate F → Work F → Ended F
  unfolding take_update report
  send_report u w =
      let context : Option Cause = if world.is_cancelled w.log then some canceled else none in
      reported_work w
        (report ops context (world.clock w.log) (world.update_fault run_context w.log) w.reporter u)

  -- The task as `fail` leaves it.
  abbrev pub failed_task : ℕ → Cause → Task F → Task F
  failed_task now canceled t = record t {
    status = cancelled;
    error_code = text "TASK_CANCELLED";
    error_message = text "task cancelled";
    completed_at = some now;
  }
  failed_task now (coded code message) t = record t {
    status = failed;
    error_code = code;
    error_message = message;
    completed_at = some now;
  }
  failed_task now _ t = record t {
    status = failed;
    error_code = text "INTERNAL_ERROR";
    error_message = text "analysis failed";
    completed_at = some now;
  }

  abbrev pub failed_save : Cause → Ended F → Ended F
  failed_save cause (w, none) = (w, some cause)
  failed_save cause (w, some e) = (w, some save_failed)

  -- A cancelled context makes any error a cancellation.
  abbrev pub the_cause : Cause → Work F → Cause
  the_cause cause w = if is_canceled cause || world.is_cancelled w.log then canceled else cause

  abbrev pub failed_work : Cause → Work F → Work F
  failed_work cause w = record w { task = failed_task (world.clock w.log) cause w.task }

  unfoldable pub fail : Cause → Work F → Ended F
  unfolding save
  fail cause w =
      failed_save (the_cause cause w) (save background (failed_work (the_cause cause w) w))

  -- Go on, or fail.
  abbrev pub or_fail : Ended F → (Work F → Ended F) → Ended F
  or_fail (w, none) k = k w
  or_fail (w, some e) k = fail e w

  unfoldable pub enter_stage : ℕ → ℕ → Bytes → Task F → Task F
  enter_stage index count name t = record t {
    current_stage = name;
    progress = ops.quotient index count;
    stage_progress = ops.zero;
    processed = 0;
    total = 0;
    unit = [];
    rate_per_second = ops.zero;
    heartbeat_at = none;
    elapsed_seconds = 0;
    estimated_remaining = none;
  }

  abbrev pub last_update : Bytes → Task F → ProgressUpdate F
  last_update name t = record {
    stage = name;
    stage_progress = ops.one;
    processed = t.processed;
    total = t.total;
    unit = t.unit;
    rate_per_second = ops.zero;
    heartbeat_at = none;
    elapsed_seconds = 0;
    estimated_remaining = none;
    terminal = true;
  }

  abbrev pub advance : ℕ → ℕ → Work F → Work F
  advance index count w = record w { task = record w.task { progress = ops.quotient index count } }

  -- One turn of the loop over the stages, in front of the rest, from its last step to its first.
  module _ (index count : ℕ) (stage : Stage F) (rest : Work F → Ended F) where
    unfoldable pub then_rest : Work F → Ended F
    then_rest w = rest (advance (index + 1) count w)

    unfoldable pub then_checkpoint : Work F → Ended F
    unfolding save_checkpoint fail then_rest
    then_checkpoint w = or_fail (save_checkpoint stage.name w) then_rest

    unfoldable pub then_report : Work F → Ended F
    unfolding send_report fail then_checkpoint
    then_report w = or_fail (send_report (last_update stage.name w.task) w) then_checkpoint

    unfoldable pub then_run : Work F → Ended F
    unfolding fail then_report
    then_run w = or_fail (stage.run w) then_report

    unfoldable pub run_stage : Work F → Ended F
    unfolding save enter_stage fail then_run
    run_stage w =
        or_fail (save run_context (record w { task = enter_stage index count stage.name w.task }))
          then_run

  -- After the loop. An error of the last save is returned as it is.
  unfoldable pub finish : Work F → Ended F
  unfolding save
  finish w = save run_context (record w {
    task = record w.task {
      status = completed;
      progress = ops.one;
      current_stage = text "completed";
      completed_at = some (world.clock w.log);
    };
  })

  unfoldable pub run_stages : ℕ → ℕ → List (Stage F) → Work F → Ended F
  unfolding run_stage finish
  run_stages index count [] w = finish w
  run_stages index count (s ∷ rest) w =
      run_stage index count s (run_stages (index + 1) count rest) w

  -- The move to `running`, unless the task is there already; an error is returned as it is.
  abbrev pub is_running : Status → Bool
  is_running running = true
  is_running _ = false

  abbrev pub enter_unless : Bool → Bool → Work F → Ended F
  enter_unless true valid w = (w, none)
  enter_unless false false w = (w, some bad_transition)
  enter_unless false true w = save run_context (record w {
    task = record w.task { status = running; started_at = some (world.clock w.log) };
  })

  unfoldable pub enter_running : Work F → Ended F
  unfolding save
  enter_running w =
      enter_unless (is_running w.task.status) (valid_transition w.task.status running) w

  abbrev pub then_stages : List (Stage F) → Ended F → Ended F
  then_stages stages (w, some e) = (w, some e)
  then_stages stages (w, none) =
      run_stages 0 (length stages) stages (record w { reporter = new_reporter })

  -- `Start`, for a task that the repository has given; `busy` says whether the runner has the id
  -- among its running tasks.
  unfoldable pub start : List (Stage F) → Bool → Work F → Ended F
  unfolding enter_running run_stages
  start stages busy w =
      if busy then (w, some already_running) else then_stages stages (enter_running w)

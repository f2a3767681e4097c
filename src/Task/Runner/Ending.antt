-- ===== src/Task/Runner/Ending.antt =====
-- How a run of Runner.Start in internal/task/runner.go ends, and what the repository knows then.
use etcd_space_inspector.Prelude.{◌≡◌, ◌⊎◌, none, some, List, [], ◌∷◌, ◌++◌}
use etcd_space_inspector.Prelude.Bytes.{text}
use etcd_space_inspector.Task.Status.{completed, failed, cancelled}
use etcd_space_inspector.Task.Progress.{FloatOps}
use etcd_space_inspector.Task.Work.{
  Task, Cause, canceled, coded, save_failed, Event, saved, unsaved, UpdateContext, run_context,
  background, Work, World, Ended,
}

module _ {F : Type 0} (ops : FloatOps F) (world : World F) where
  -- The repository's last event is the task as it is.
  abbrev pub Known : Work F → Type 0
  Known w = (before : List (Event F)) × (w.log ≡ before ++ saved w.task ∷ [])

  -- What a returned error has left in the task.
  abbrev pub Stopped : Cause → Task F → Type 0
  Stopped canceled t = (t.status ≡ cancelled) × (t.error_code ≡ text "TASK_CANCELLED")
  Stopped (coded code message) t =
      (t.status ≡ failed) × (t.error_code ≡ code) × (t.error_message ≡ message)
  Stopped _ t = (t.status ≡ failed) × (t.error_code ≡ text "INTERNAL_ERROR")

  -- The last thing that the repository was given is the task as it is, with this context, and it has
  -- answered with an error.
  pub record Refusing (context : UpdateContext) (w : Work F) : Type 0 where
    pub before : List (Event F)
    pub fault : Cause
    pub answer : world.update_fault context before ≡ some fault
    pub last : w.log ≡ before ++ unsaved w.task ∷ []

  -- The failed or cancelled task could not be saved, though without the context of the run; or the
  -- completed one could not.
  abbrev pub Unsaved : Cause → Work F → Type 0
  Unsaved e w =
      (Refusing background w × (e ≡ save_failed) × (c : Cause) × Stopped c w.task)
      ⊎ (Refusing run_context w × (w.task.status ≡ completed))

  abbrev pub Ending : Ended F → Type 0
  Ending (w, none) =
      Known w
      × (w.task.status ≡ completed)
      × (w.task.progress ≡ ops.one)
      × (w.task.current_stage ≡ text "completed")
  Ending (w, some e) = Unsaved e w ⊎ (Known w × Stopped e w.task)

  -- A start that is refused.
  abbrev pub Refused : List (Event F) → Ended F → Type 0
  Refused log (w, none) = ⊥
  Refused log (w, some e) = (w.log ≡ log) ⊎ (w.log ≡ log ++ unsaved w.task ∷ [])

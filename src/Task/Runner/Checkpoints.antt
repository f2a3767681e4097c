-- ===== src/Task/Runner/Checkpoints.antt =====
-- The checkpoints that Runner.Start of internal/task/runner.go leaves, stage by stage.
use etcd_space_inspector.Prelude.{
  ℕ, ◌+◌, ◌≡◌, refl, sym, ap, ◌∙◌, ◌⊎◌, inl, inr, Bool, true, false, Option, none, some, List, [],
  ◌∷◌, ◌++◌, length, map, All, append-nil, append_assoc,
}
use etcd_space_inspector.Prelude.Bytes.{Bytes}
use etcd_space_inspector.Task.Status.{running, valid_transition}
use etcd_space_inspector.Task.Progress.{
  FloatOps, ProgressUpdate, Reporter, Report, context_error, held, persisted, persist_failed,
}
use etcd_space_inspector.Task.Runner.{
  save, save_checkpoint, send_report, reported_work, fail, failed_save, or_fail, enter_stage,
  last_update, advance, run_stage, finish, run_stages, enter_running, is_running, then_stages,
  start, take_update, the_cause, failed_work, take_save, take_checkpoint, then_rest,
  then_checkpoint, then_report, then_run, enter_unless,
}
use etcd_space_inspector.Task.Work.{
  Task, Cause, Event, saved, unsaved, checkpoint, no_checkpoint, UpdateContext, run_context,
  background, Work, Stage, World, Ended, already_running, save_failed,
}

-- There was an error.
abbrev pub Failed : Option Cause → Type 0
Failed none = ⊥
Failed (some e) = Unit

module _ {F : Type 0} where
  -- The stages that are checkpointed, in order.
  unfoldable pub checkpoints : List (Event F) → List Bytes
  checkpoints [] = []
  checkpoints (saved t ∷ log) = checkpoints log
  checkpoints (unsaved t ∷ log) = checkpoints log
  checkpoints (no_checkpoint s ∷ log) = checkpoints log
  checkpoints (checkpoint s ∷ log) = s ∷ checkpoints log

  -- An event that is no checkpoint adds none.
  checkpoints-other :
      (log : List (Event F)) (e : Event F)
      → checkpoints (e ∷ []) ≡ []
      → checkpoints (log ++ e ∷ []) ≡ checkpoints log
  unfolding checkpoints
  checkpoints-other [] e h = h
  checkpoints-other (saved u ∷ log) e h = checkpoints-other log e h
  checkpoints-other (unsaved u ∷ log) e h = checkpoints-other log e h
  checkpoints-other (no_checkpoint s ∷ log) e h = checkpoints-other log e h
  checkpoints-other (checkpoint s ∷ log) e h = ap (λ l. s ∷ l) (checkpoints-other log e h)

  checkpoints-saved :
      (log : List (Event F)) (t : Task F) → checkpoints (log ++ saved t ∷ []) ≡ checkpoints log
  unfolding checkpoints
  checkpoints-saved log t = checkpoints-other log (saved t) refl

  checkpoints-unsaved :
      (log : List (Event F)) (t : Task F) → checkpoints (log ++ unsaved t ∷ []) ≡ checkpoints log
  unfolding checkpoints
  checkpoints-unsaved log t = checkpoints-other log (unsaved t) refl

  checkpoints-no_checkpoint :
      (log : List (Event F)) (s : Bytes)
      → checkpoints (log ++ no_checkpoint s ∷ []) ≡ checkpoints log
  unfolding checkpoints
  checkpoints-no_checkpoint log s = checkpoints-other log (no_checkpoint s) refl

  checkpoints-checkpoint :
      (log : List (Event F)) (s : Bytes)
      → checkpoints (log ++ checkpoint s ∷ []) ≡ checkpoints log ++ s ∷ []
  unfolding checkpoints
  checkpoints-checkpoint [] s = refl
  checkpoints-checkpoint (saved u ∷ log) s = checkpoints-checkpoint log s
  checkpoints-checkpoint (unsaved u ∷ log) s = checkpoints-checkpoint log s
  checkpoints-checkpoint (no_checkpoint r ∷ log) s = checkpoints-checkpoint log s
  checkpoints-checkpoint (checkpoint r ∷ log) s = ap (λ l. r ∷ l) (checkpoints-checkpoint log s)

  -- What an outcome has added, of some names that it had to add.
  pub record Added (before names : List Bytes) (x : Ended F) : Type 0 where
    pub done : List Bytes
    pub left : List Bytes
    pub in_order : done ++ left ≡ names
    pub added : checkpoints x.0.log ≡ before ++ done
    pub complete : (left ≡ []) ⊎ Failed x.1

  -- A stage that leaves the checkpoints to the runner.
  abbrev pub LeavesCheckpoints : Stage F → Type 0
  LeavesCheckpoints s = (w : Work F) → checkpoints (s.run w).0.log ≡ checkpoints w.log

  stopped-Added :
      (w : Work F) (e : Cause) (before names : List Bytes)
      → checkpoints w.log ≡ before
      → Added before names (w, some e)
  stopped-Added w e before names h = record {
    done = [];
    left = names;
    in_order = refl;
    added = h ∙ sym (append-nil before);
    complete = inr tt;
  }

  -- One more name in front of what has been added.
  one_more :
      (before : List Bytes) (name : Bytes) (names : List Bytes) (x : Ended F)
      → Added (before ++ name ∷ []) names x
      → Added before (name ∷ names) x
  one_more before name names x a = record {
    done = name ∷ a.done;
    left = a.left;
    in_order = ap (λ l. name ∷ l) a.in_order;
    added = a.added ∙ append_assoc before (name ∷ []) a.done;
    complete = a.complete;
  }

module _ {F : Type 0} (ops : FloatOps F) (world : World F) where
  take_save-checkpoints :
      (w : Work F) (fault : Option Cause)
      → checkpoints (take_save ops world w fault).0.log ≡ checkpoints w.log
  take_save-checkpoints w none = checkpoints-saved w.log w.task
  take_save-checkpoints w (some e) = checkpoints-unsaved w.log w.task

  save-checkpoints :
      (c : UpdateContext) (w : Work F) → checkpoints (save ops world c w).0.log ≡ checkpoints w.log
  unfolding save
  save-checkpoints c w = take_save-checkpoints w _

  reported_work-checkpoints :
      (w : Work F) (r : Reporter) (x : Report Cause F)
      → checkpoints (reported_work ops world w (r, x)).0.log ≡ checkpoints w.log
  reported_work-checkpoints w r (context_error e) = refl
  reported_work-checkpoints w r held = refl
  reported_work-checkpoints w r (persisted u) =
      checkpoints-saved w.log (take_update ops world u w.task)
  reported_work-checkpoints w r (persist_failed u e) =
      checkpoints-unsaved w.log (take_update ops world u w.task)

  send_report-checkpoints :
      (u : ProgressUpdate F) (w : Work F)
      → checkpoints (send_report ops world u w).0.log ≡ checkpoints w.log
  unfolding send_report
  send_report-checkpoints u w = reported_work-checkpoints w _ _

  failed_save-fails :
      (cause : Cause) (x : Ended F) (before names : List Bytes)
      → checkpoints x.0.log ≡ before
      → Added before names (failed_save ops world cause x)
  failed_save-fails cause (w, none) before names h = stopped-Added w cause before names h
  failed_save-fails cause (w, some e) before names h = stopped-Added w save_failed before names h

  fail-Added :
      (before names : List Bytes) (e : Cause) (w : Work F)
      → checkpoints w.log ≡ before
      → Added before names (fail ops world e w)
  unfolding fail
  fail-Added before names e w h =
      let stopped = failed_work ops world (the_cause ops world e w) w in
      failed_save-fails (the_cause ops world e w) (save ops world background stopped) before names
        (save-checkpoints background stopped ∙ h)

  or_fail-Added :
      (before names : List Bytes) (x : Ended F) (k : Work F → Ended F)
      → checkpoints x.0.log ≡ before
      → ((w : Work F) → checkpoints w.log ≡ before → Added before names (k w))
      → Added before names (or_fail ops world x k)
  or_fail-Added before names (w, none) k h g = g w h
  or_fail-Added before names (w, some e) k h g = fail-Added before names e w h

  take_checkpoint-Added :
      (before names : List Bytes) (name : Bytes) (w : Work F) (k : Work F → Ended F)
      (fault : Option Cause)
      → checkpoints w.log ≡ before
      → ((w : Work F)
          → checkpoints w.log ≡ before ++ name ∷ []
          → Added (before ++ name ∷ []) names (k w))
      → Added before (name ∷ names) (or_fail ops world (take_checkpoint ops world name w fault) k)
  take_checkpoint-Added before names name w k none h g =
      one_more before name names _
        (g _ (checkpoints-checkpoint w.log name ∙ ap (λ (l : List Bytes). l ++ name ∷ []) h))
  take_checkpoint-Added before names name w k (some e) h g =
      fail-Added before (name ∷ names) e _ (checkpoints-no_checkpoint w.log name ∙ h)

  run_stage-Added :
      (index count : ℕ) (s : Stage F) (rest : Work F → Ended F) (before names : List Bytes)
      → LeavesCheckpoints s
      → ((w : Work F)
          → checkpoints w.log ≡ before ++ s.name ∷ []
          → Added (before ++ s.name ∷ []) names (rest w))
      → (w : Work F) → checkpoints w.log ≡ before
      → Added before (s.name ∷ names) (run_stage ops world index count s rest w)
  unfolding run_stage then_run then_report then_checkpoint then_rest save_checkpoint
  run_stage-Added index count s rest before names quiet g w h =
      or_fail-Added before (s.name ∷ names)
        (save ops world run_context
          (record w { task = enter_stage ops world index count s.name w.task }))
        (then_run ops world index count s rest) (save-checkpoints run_context _ ∙ h)
        λ w₁ h₁.
          or_fail-Added before (s.name ∷ names) (s.run w₁)
            (then_report ops world index count s rest) (quiet w₁ ∙ h₁)
            λ w₂ h₂.
              or_fail-Added before (s.name ∷ names)
                (send_report ops world (last_update ops world s.name w₂.task) w₂)
                (then_checkpoint ops world index count s rest)
                (send_report-checkpoints (last_update ops world s.name w₂.task) w₂ ∙ h₂)
                λ w₃ h₃.
                  take_checkpoint-Added before names s.name w₃
                    (then_rest ops world index count s rest) _ h₃
                    (λ w. g (advance ops world (index + 1) count w))

  finish-Added :
      (before : List Bytes) (w : Work F)
      → checkpoints w.log ≡ before
      → Added before [] (finish ops world w)
  unfolding finish
  finish-Added before w h = record {
    done = [];
    left = [];
    in_order = refl;
    added = save-checkpoints run_context _ ∙ h ∙ sym (append-nil before);
    complete = inl refl;
  }

  run_stages-Added :
      (index count : ℕ) (stages : List (Stage F)) (before : List Bytes)
      → All LeavesCheckpoints stages
      → (w : Work F) → checkpoints w.log ≡ before
      → Added before (map (λ s. s.name) stages) (run_stages ops world index count stages w)
  unfolding run_stages
  run_stages-Added index count [] before quiet w h = finish-Added before w h
  run_stages-Added index count (s ∷ rest) before quiet w h =
      run_stage-Added index count s (run_stages ops world (index + 1) count rest) before
        (map (λ s. s.name) rest) quiet.0
        (run_stages-Added (index + 1) count rest (before ++ s.name ∷ []) quiet.1) w h

  then_stages-Added :
      (stages : List (Stage F)) (before : List Bytes)
      → All LeavesCheckpoints stages
      → (x : Ended F) → checkpoints x.0.log ≡ before
      → Added before (map (λ s. s.name) stages) (then_stages ops world stages x)
  then_stages-Added stages before quiet (w, none) h =
      run_stages-Added 0 (length stages) stages before quiet _ h
  then_stages-Added stages before quiet (w, some e) h = stopped-Added w e before _ h

  enter_unless-checkpoints :
      (there valid : Bool) (w : Work F)
      → checkpoints (enter_unless ops world there valid w).0.log ≡ checkpoints w.log
  enter_unless-checkpoints true valid w = refl
  enter_unless-checkpoints false false w = refl
  enter_unless-checkpoints false true w = save-checkpoints run_context _

  -- If the stages leave the checkpoints alone, a start adds to the repository's checkpoints the names
  -- of the first stages in their order, each once, and all of them if it returns no error.
  pub start-Added :
      (stages : List (Stage F)) (busy : Bool) (w : Work F)
      → All LeavesCheckpoints stages
      → Added (checkpoints w.log) (map (λ s. s.name) stages) (start ops world stages busy w)
  unfolding start enter_running
  start-Added stages true w quiet = stopped-Added w already_running (checkpoints w.log) _ refl
  start-Added stages false w quiet =
      then_stages-Added stages (checkpoints w.log) quiet (enter_running ops world w) (
        enter_unless-checkpoints (is_running ops world w.task.status)
          (valid_transition w.task.status running) w)

-- ===== src/Tests/Runs.antt =====
-- Task lifecycles, progress reports and runs, for internal/task.
use etcd_space_inspector.Prelude.{
  ℕ, ◌*◌, ◌/◌, ◌≡◌, refl, true, false, Option, none, some, List, [], ◌∷◌, arith, ltb, leb, ◌==◌,
  map,
}
use etcd_space_inspector.Prelude.Bytes.{text}
use etcd_space_inspector.Task.Status.{
  pending, running, completed, Life, here, next, valid_transition,
}
use etcd_space_inspector.Task.Progress.{FloatOps, ProgressUpdate, Reporter, new_reporter}
use etcd_space_inspector.Task.Progress.Throttle.{FloatLaws}
use etcd_space_inspector.Task.Runner.{start}
use etcd_space_inspector.Task.Work.{Task, coded, Work, World, Stage}
use etcd_space_inspector.Task.Runner.Ending.{Ending}
use etcd_space_inspector.Task.Runner.Checkpoints.{checkpoints, Added, start-Added}

-- Percents in place of floats.
abbrev percents : FloatOps ℕ
percents = record {
  zero = 0;
  one = 100;
  less = ltb;
  at_least = λ a b. leb b a;
  equal = λ a b. a == b;
  quotient = λ a b. a * 100 / b;
  rate = λ n d. n * 1000000000 / d;
  remaining = λ n r. n / r;
}

percents-FloatLaws : FloatLaws percents
percents-FloatLaws = record {
  zero_zero = refl;
  one_one = refl;
  one_zero = refl;
  quotient_zero = λ a b. ground arith;
}

abbrev too_much : ProgressUpdate ℕ
too_much = record {
  stage = text "mvcc";
  stage_progress = 170;
  processed = 5;
  total = 9;
  unit = text "pages";
  rate_per_second = 0;
  heartbeat_at = none;
  elapsed_seconds = 0;
  estimated_remaining = none;
  terminal = false;
}

abbrev seen : Reporter
seen = record {
  started_at = 1;
  stage_started_at = 1;
  stage_start_value = 0;
  last_processed = 7;
  last_persist_at = some 1;
  last_stage = text "mvcc";
  last_stage_persisted = text "mvcc";
  has_sample = true;
}

abbrev no_fault : Option ℕ
no_fault = none

may_run : valid_transition pending running ≡ true
unfolding valid_transition
may_run = refl

may_complete : valid_transition running completed ≡ true
unfolding valid_transition
may_complete = refl

abbrev whole_life : Life pending completed
whole_life = next running may_run (next completed may_complete here)

abbrev waiting : Task ℕ
waiting = record {
  id = text "one";
  status = pending;
  progress = 0;
  current_stage = [];
  stage_progress = 0;
  processed = 0;
  total = 0;
  unit = [];
  rate_per_second = 0;
  heartbeat_at = none;
  elapsed_seconds = 0;
  estimated_remaining = none;
  error_code = [];
  error_message = [];
  started_at = none;
  completed_at = none;
}

abbrev ready : Work ℕ
ready = record { task = waiting; reporter = new_reporter; log = [] }

abbrev calm : World ℕ
calm = record {
  update_fault = λ c l. none;
  checkpoint_fault = λ l. none;
  is_cancelled = λ l. false;
  clock = λ l. 3;
}

-- Two stages, the second of which fails.
abbrev stages : List (Stage ℕ)
stages =
    record { name = text "pages"; run = λ w. (w, none) }
    ∷ record {
      name = text "mvcc";
      run = λ w. (w, some (coded (text "BAD_PAGE") (text "bad page")));
    }
    ∷ []

start-Added_example :
    Added
      (checkpoints ready.log)
      (map (λ s. s.name) stages)
      (start percents calm stages false ready)
start-Added_example = start-Added percents calm stages false ready ((λ w. refl), ((λ w. refl), tt))

-- ===== src/Task/Progress.antt =====
-- ProgressReporter of internal/task/progress.go. Times are nanoseconds, and a duration between two of
-- them that would be negative is zero, which is what the code makes of it or tests alike. The
-- counters are not negative. A float64 is abstract: its operations are a parameter.
pub mod Throttle
use etcd_space_inspector.Prelude.{
  ℕ, suc, ◌+◌, ◌-◌, ◌*◌, ◌/◌, ◌≡◌, Bool, true, false, ◌&&◌, ◌||◌, not, Option, none, some, List, [],
  ◌∷◌, ltb, leb, ◌==◌, if◌then◌else◌,
}
use etcd_space_inspector.Prelude.Bytes.{Bytes, text, same}

pub record FloatOps (F : Type 0) : Type 0 where
  pub zero : F
  pub one : F
  pub less : F → F → Bool
  pub at_least : F → F → Bool
  pub equal : F → F → Bool
  -- float64(a) / float64(b)
  pub quotient : ℕ → ℕ → F
  -- float64(n) / duration.Seconds()
  pub rate : ℕ → ℕ → F
  -- int64(math.Ceil(float64(n) / rate))
  pub remaining : ℕ → F → ℕ

pub record ProgressUpdate (F : Type 0) : Type 0 where
  pub stage : Bytes
  pub stage_progress : F
  pub processed : ℕ
  pub total : ℕ
  pub unit : Bytes
  pub rate_per_second : F
  pub heartbeat_at : Option ℕ
  pub elapsed_seconds : ℕ
  pub estimated_remaining : Option ℕ
  pub terminal : Bool

pub record Reporter : Type 0 where
  pub started_at : ℕ
  pub stage_started_at : ℕ
  pub stage_start_value : ℕ
  pub last_processed : ℕ
  -- `none` while lastPersistAt is the zero time
  pub last_persist_at : Option ℕ
  pub last_stage : Bytes
  pub last_stage_persisted : Bytes
  pub has_sample : Bool

unfoldable pub new_reporter : Reporter
new_reporter = record {
  started_at = 0;
  stage_started_at = 0;
  stage_start_value = 0;
  last_processed = 0;
  last_persist_at = none;
  last_stage = [];
  last_stage_persisted = [];
  has_sample = false;
}

abbrev pub second : ℕ
second = 1000000000

-- What a report did: nothing, because of the context; it was held back; or it was handed to
-- `persist`, with the error that this gave.
pub data Report (E F : Type 0) : Type 0 where
  context_error : E → Report E F
  held : Report E F
  persisted : ProgressUpdate F → Report E F
  persist_failed : ProgressUpdate F → E → Report E F

module _ {F : Type 0} (ops : FloatOps F) where
  -- The start of the first sample, and of a stage.
  unfoldable pub begin_stage : ℕ → ProgressUpdate F → Reporter → Reporter
  begin_stage now u r =
      if not r.has_sample
      then record r {
        started_at = now;
        stage_started_at = now;
        stage_start_value = u.processed;
        last_processed = u.processed;
        last_stage = u.stage;
        has_sample = true;
      }
      else if not (same u.stage r.last_stage)
      then record r {
        stage_started_at = now;
        stage_start_value = u.processed;
        last_processed = u.processed;
        last_stage = u.stage;
      }
      else r

  unfoldable pub raise_processed : ℕ → ℕ → ℕ
  raise_processed last processed = if ltb processed last then last else processed

  unfoldable pub clamp_progress : F → F
  clamp_progress x =
      let low = if ops.less x ops.zero then ops.zero else x in
      if ops.less ops.one low then ops.one else low

  unfoldable pub fill_progress : F → ℕ → ℕ → F
  fill_progress x processed total =
      let q = ops.quotient processed total in
      if ops.equal x ops.zero && ltb 0 total && ltb 0 processed
      then (if ops.less ops.one q then ops.one else q)
      else x

  -- The sample with the derived values filled in.
  unfoldable pub complete_update : ℕ → Reporter → ℕ → ProgressUpdate F → ProgressUpdate F
  unfolding clamp_progress fill_progress
  complete_update now r processed u =
      let stage_elapsed = now - r.stage_started_at in
      let rate =
        if ltb 0 stage_elapsed && leb r.stage_start_value processed
        then ops.rate (processed - r.stage_start_value) stage_elapsed
        else u.rate_per_second in
      let seconds = ops.remaining (u.total - processed) rate in
      record {
        stage = u.stage;
        stage_progress = fill_progress (clamp_progress u.stage_progress) processed u.total;
        processed = processed;
        total = u.total;
        unit = u.unit;
        rate_per_second = rate;
        heartbeat_at = some now;
        elapsed_seconds = (now - r.started_at) / second;
        estimated_remaining =
            (if ltb 0 u.total
                && leb (5 * second) stage_elapsed
                && ops.less ops.zero rate
                && ltb processed u.total
                && ltb 0 seconds
              then some seconds
              else none);
        terminal = u.terminal;
      }

  abbrev pub is_due : ℕ → Option ℕ → Bool
  is_due now none = true
  is_due now (some last) = leb (2 * second) (now - last)

  abbrev pub never : Option ℕ → Bool
  never none = true
  never (some t) = false

  unfoldable pub is_final : ProgressUpdate F → Bool
  is_final u =
      u.terminal
      || ops.at_least u.stage_progress ops.one
      || same u.stage (text "completed")
      || same u.stage (text "failed")
      || same u.stage (text "cancelled")

  unfoldable pub should_persist : ℕ → Reporter → ProgressUpdate F → Bool
  unfolding is_final
  should_persist now r u =
      never r.last_persist_at
      || not (same u.stage r.last_stage_persisted)
      || is_final u
      || is_due now r.last_persist_at

  -- The sample that a report makes of an update, and the reporter that has taken it in.
  unfoldable pub sample : ℕ → Reporter → ProgressUpdate F → Reporter × ProgressUpdate F
  unfolding begin_stage raise_processed complete_update
  sample now r u =
      let r₁ = begin_stage now u r in
      let processed = raise_processed r₁.last_processed u.processed in
      let r₂ = record r₁ { last_processed = processed } in (r₂, complete_update now r₂ processed u)

  module _ {E : Type 0} where
    unfoldable pub settle : ℕ → Option E → Reporter → ProgressUpdate F → Reporter × Report E F
    unfolding should_persist
    settle now fault r u = if not (should_persist now r u) then (r, held) else elim fault [
      | some e ↦ (r, persist_failed u e)
      | none ↦
          (record r { last_persist_at = some now; last_stage_persisted = u.stage }, persisted u)
    ]

    -- `Report`: `context` is ctx.Err(), and `fault` the error of `persist`, if it is called.
    unfoldable pub report :
        Option E → ℕ → Option E → Reporter → ProgressUpdate F → Reporter × Report E F
    unfolding sample settle
    report context now fault r u = elim context [
      | some e ↦ (r, context_error e)
      | none ↦ (let (r', u') = sample now r u in settle now fault r' u')
    ]

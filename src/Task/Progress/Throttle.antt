-- ===== src/Task/Progress/Throttle.antt =====
-- What a progress report keeps to, and when it is written to the manifest.
use etcd_space_inspector.Prelude.{
  ℕ, ◌-◌, ◌*◌, ◌≤◌, ◌<◌, ◌≡◌, refl, ap, ◌↔◌, true, false, Option, none, some, arith,
}
use etcd_space_inspector.Prelude.Bytes.{Bytes, same-iff_eq}
use etcd_space_inspector.Task.Progress.{
  FloatOps, ProgressUpdate, Reporter, Report, held, second, clamp_progress, fill_progress, is_final,
  should_persist, sample, settle, report,
}

-- What a float64 gives: 0 and 1 are in their order, and a quotient of counters is not negative.
pub record FloatLaws {F : Type 0} (ops : FloatOps F) : Type 0 where
  pub zero_zero : ops.less ops.zero ops.zero ≡ false
  pub one_one : ops.less ops.one ops.one ≡ false
  pub one_zero : ops.less ops.one ops.zero ≡ false
  pub quotient_zero : (a b : ℕ) → ops.less (ops.quotient a b) ops.zero ≡ false

module _ {F : Type 0} (ops : FloatOps F) where
  -- A fraction between 0 and 1.
  pub record IsFraction (x : F) : Type 0 where
    pub not_below : ops.less x ops.zero ≡ false
    pub not_above : ops.less ops.one x ≡ false

  module _ (laws : FloatLaws ops) where
    clamp_progress-IsFraction : (x : F) → IsFraction (clamp_progress ops x)
    unfolding clamp_progress
    clamp_progress-IsFraction x = record {
      not_below = ground (arith, laws.zero_zero, laws.one_zero);
      not_above = ground (arith, laws.one_one);
    }

    fill_progress-IsFraction :
        (x : F) (p t : ℕ) → IsFraction x → IsFraction (fill_progress ops x p t)
    unfolding fill_progress
    fill_progress-IsFraction x p t h = record {
      not_below = ground (arith, h.not_below, laws.one_zero, laws.quotient_zero p t);
      not_above = ground (arith, h.not_above, laws.one_one);
    }

    -- Whatever a stage reports, the stage progress that is passed on lies between 0 and 1, if float64
    -- orders 0 and 1 and the quotients of counters as it does.
    pub sample-IsFraction :
        (now : ℕ) (r : Reporter) (u : ProgressUpdate F)
        → IsFraction (sample ops now r u).1.stage_progress
    unfolding sample
    sample-IsFraction now r u =
        fill_progress-IsFraction (clamp_progress ops u.stage_progress) _ u.total
          (clamp_progress-IsFraction u.stage_progress)

  -- A reporter that has seen a sample of a stage.
  abbrev pub InStage : Bytes → Reporter → Type 0
  InStage stage r = (r.has_sample ≡ true) × (r.last_stage ≡ stage)

  -- After a sample the reporter is in the sample's stage and keeps the count that it passes on, which
  -- is not below what the stage said.
  pub sample-InStage :
      (now : ℕ) (r : Reporter) (u : ProgressUpdate F)
      → let (r', v) = sample ops now r u in
        InStage u.stage r' × (r'.last_processed ≡ v.processed) × (u.processed ≤ v.processed)
  unfolding sample
  sample-InStage now r u =
      ((ground arith, ground (arith, same-iff_eq u.stage r.last_stage)), refl, ground arith)

  -- Within one stage the count that is passed on never falls below the count before it, whatever the
  -- stage says.
  pub sample-monotone :
      (now : ℕ) (r : Reporter) (u : ProgressUpdate F)
      → InStage u.stage r
      → r.last_processed ≤ (sample ops now r u).1.processed
  unfolding sample
  sample-monotone now r u h = ground (arith, h.0, h.1, same-iff_eq u.stage r.last_stage)

  -- Why a sample is held back.
  pub record HeldBack (now : ℕ) (r : Reporter) (v : ProgressUpdate F) : Type 0 where
    pub last : ℕ
    pub persisted_at : r.last_persist_at ≡ some last
    pub same_stage : v.stage ≡ r.last_stage_persisted
    pub not_final : is_final ops v ≡ false
    pub recent : now - last < 2 * second

  module _ {E : Type 0} (now : ℕ) (fault : Option E) where
    settle-HeldBack :
        (o : Option ℕ) (r : Reporter) (v : ProgressUpdate F)
        → r.last_persist_at ≡ o
        → (settle ops now fault r v).1 ≡ held
        → HeldBack now r v
    unfolding settle
    settle-HeldBack none r v e h = absurd (ground arith)
    settle-HeldBack (some t) r v e h = record {
      last = t;
      persisted_at = e;
      same_stage = ground (arith, same-iff_eq v.stage r.last_stage_persisted);
      not_final = ground arith;
      recent = ground arith;
    }

    HeldBack-settle :
        (r : Reporter) (v : ProgressUpdate F)
        → HeldBack now r v
        → settle ops now fault r v ≡ (r, held)
    unfolding settle
    HeldBack-settle r v h = rw (should_not r v h) refl
      where
        should_not :
            (r : Reporter) (v : ProgressUpdate F)
            → HeldBack now r v
            → should_persist ops now r v ≡ false
        should_not r v h = ground (
          arith,
          h.persisted_at,
          h.same_stage,
          h.not_final,
          h.recent,
          same-iff_eq v.stage r.last_stage_persisted,
        )

    -- With no error of the context, a report is held back exactly when something was persisted less
    -- than two seconds ago, in the same stage, and the sample is not a final one. Otherwise it is handed over, so
    -- a first sample, a change of stage and a final sample never wait.
    pub report-held_iff :
        (r : Reporter) (u : ProgressUpdate F)
        → ((report ops none now fault r u).1 ≡ held)
          ↔ HeldBack now (sample ops now r u).0 (sample ops now r u).1
    unfolding report
    report-held_iff r u =
        let (r', v) = sample ops now r u in
        (
          settle-HeldBack r'.last_persist_at r' v refl,
          λ h. ap (λ (x : Reporter × Report E F). x.1) (HeldBack-settle r' v h),
        )

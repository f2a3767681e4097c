-- ===== src/Worker/Manager/Final.antt =====
-- How a run ends.
use etcd_space_inspector.Prelude.{◌≡◌, ◌⊎◌, ◌↔◌, Bool, true, false, []}
use etcd_space_inspector.Prelude.Bytes.{Bytes, text}
use etcd_space_inspector.Task.Status.{failed, cancelled}
use etcd_space_inspector.Task.Manifest.{Manifest, ℤ, pos}
use etcd_space_inspector.Worker.Protocol.{Mode, WorkerResult, Answer, given, denied}
use etcd_space_inspector.Worker.Manager.{success_status}

-- The worker has reported success and left with code zero.
abbrev pub Succeeded : ℤ → Answer WorkerResult → Type 0
Succeeded exit_code (denied e) = ⊥
Succeeded exit_code (given r) = (r.status ≡ text "success") × (exit_code ≡ pos 0)

-- The worker has reported that it was cancelled.
abbrev pub Reported : Answer WorkerResult → Type 0
Reported (denied e) = ⊥
Reported (given r) = r.status ≡ text "cancelled"

module _ {F : Type 0} where
  -- The status of a run that has ended, by who ended it.
  pub record Final (mode : Mode) (exit_code : ℤ) (was_cancelled : Bool) (r : Answer WorkerResult)
      (item final : Manifest F) : Type 0 where
    pub as_cancelled : (final.status ≡ cancelled) ↔ ((was_cancelled ≡ true) ⊎ Reported r)
    pub as_success :
        (final.status ≡ success_status mode) ↔ ((was_cancelled ≡ false) × Succeeded exit_code r)
    pub else_failed :
        (final.status ≡ cancelled) ⊎ (final.status ≡ success_status mode) ⊎ (final.status ≡ failed)
    pub error : (final.error_code ≡ []) ↔ (final.status ≡ success_status mode)
    pub exited : final.exit_code ≡ exit_code
    pub same_run : (final.run_id ≡ item.run_id) × (final.id ≡ item.id)

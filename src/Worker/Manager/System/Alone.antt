-- ===== src/Worker/Manager/System/Alone.antt =====
-- The lease and its holder.
use etcd_space_inspector.Prelude.{
  ℕ, suc, ◌+◌, Bool, ◌≤◌, ◌≡◌, refl, ap, Option, none, some, List, [], ◌∷◌, ◌++◌, if◌then◌else◌,
  arith,
}
use etcd_space_inspector.Prelude.Sums.{sum, sum-append}
use etcd_space_inspector.Prelude.Bytes.{Bytes, same, same-iff_eq}
use etcd_space_inspector.Task.Store.{Dirs, put}
use etcd_space_inspector.Worker.Manager.{ManagerConfig}
use etcd_space_inspector.Worker.Manager.System.{
  Phase, checked, Attempt, Stage, released, done, Run, System, cancel_all, new_run, new_attempt,
  after_release, freed, Advance, acquire, take_over, acquire_fails, open_log, write_request,
  save_item, clean_up, launch, fail_start, register, abandon, Turn, progress, cancel_run, leave,
  unlist, release, finish, still, Step, admit, start, run, shutdown, outside, Reach, here, later,
}

abbrev pub held : Option Bytes → ℕ
held none = 0
held (some r) = 1

abbrev pub phase_holds : Phase → ℕ
phase_holds checked = 0
phase_holds _ = 1

abbrev pub stage_holds : Stage → ℕ
stage_holds released = 0
stage_holds done = 0
stage_holds _ = 1

put-held :
    (id key : Bytes) (o : Option Bytes) (f : Bytes → Option Bytes)
    → held (put key o f id) ≡ (if same key id then held o else held (f id))
put-held id key o f = ground (arith, same-iff_eq id key, same-iff_eq key id)

put-count :
    (id key : Bytes) (n : ℕ) (f : Bytes → ℕ) → put key n f id ≡ (if same key id then n else f id)
put-count id key n f = ground (arith, same-iff_eq id key, same-iff_eq key id)

held-bound : (o : Option Bytes) → held o ≤ 1
held-bound none = omega arith
held-bound (some r) = omega arith

-- A release takes at most the lease of its own task.
freed-held :
    (fails : Bool) (id key run_id : Bytes) (f : Bytes → Option Bytes)
    → held (f id) ≤ held (freed fails key run_id f id) + (if same key id then 1 else 0)
freed-held fails id key run_id f =
    ground (arith, put-held id key (after_release fails run_id (f key)) f, held-bound (f id))

module _ {F : Type 0} (id : Bytes) where
  -- A call of Start that has the lease of the task.
  abbrev pub start_holds : Attempt F → ℕ
  start_holds a = if same a.task_id id then phase_holds a.phase else 0

  -- A run that has the lease of the task.
  abbrev pub run_holds : Run F → ℕ
  run_holds r = if same r.task_id id then stage_holds r.stage else 0

  abbrev pub holders : System F → ℕ
  holders s = sum start_holds s.attempts + sum run_holds s.runs

  cancel_all-sum : (rs : List (Run F)) → sum run_holds (cancel_all rs) ≡ sum run_holds rs
  cancel_all-sum [] = refl
  cancel_all-sum (r ∷ rs) = ground (arith, cancel_all-sum rs)

  module _ {config : ManagerConfig} {zero : F} where
    Advance-runs :
        {s : System F} {a : Attempt F} {t : System F} {o : Option (Attempt F)}
        → Advance config zero s a t o
        → sum start_holds (still o) + sum run_holds t.runs + held (s.leases id) + s.taken_over id
          ≤ start_holds a + sum run_holds s.runs + held (t.leases id) + t.taken_over id
    Advance-runs {s = s} (acquire {a} e h) =
        ground (arith, put-held id a.task_id (some a.run_id) s.leases, same-iff_eq a.task_id id)
    Advance-runs {s = s} (take_over {a} e h) = ground (
      arith,
      put-held id a.task_id (some a.run_id) s.leases,
      put-count id a.task_id (suc (s.taken_over a.task_id)) s.taken_over,
      same-iff_eq a.task_id id,
      held-bound (s.leases id),
    )
    Advance-runs (acquire_fails e) = ground arith
    Advance-runs (open_log e) = ground arith
    Advance-runs (write_request e v) = ground arith
    Advance-runs (save_item now log_file f e v) = ground arith
    Advance-runs {s = s} (clean_up {a} fails e f g h) =
        ground (arith, freed-held fails id a.task_id a.run_id s.leases)
    Advance-runs (launch e) = ground arith
    Advance-runs {s = s} (fail_start {a} now f others fails e) =
        ground (arith, freed-held fails id a.task_id a.run_id s.leases)
    Advance-runs {s = s} (register {a} e h) =
        ground (arith, sum-append run_holds s.runs (new_run a ∷ []))
    Advance-runs (abandon e h) = ground arith

    Advance-attempts :
        {s : System F} {a : Attempt F} {t : System F} {o : Option (Attempt F)}
        → Advance config zero s a t o
        → t.attempts ≡ s.attempts
    Advance-attempts (acquire e h) = refl
    Advance-attempts m = refl

    Turn-held :
        {s : System F} {r : Run F} {t : System F} {v : Run F}
        → Turn config zero s r t v
        → run_holds v + held (s.leases id) + s.taken_over id
          ≤ run_holds r + held (t.leases id) + t.taken_over id
    Turn-held (progress f others m e) = ground arith
    Turn-held (cancel_run e) = ground arith
    Turn-held (leave e) = ground arith
    Turn-held (unlist now code w rf res e) = ground arith
    Turn-held {s = s} (release {r} fails e) =
        ground (arith, freed-held fails id r.task_id r.run_id s.leases)
    Turn-held (finish f others e) = ground arith

    Turn-attempts :
        {s : System F} {r : Run F} {t : System F} {v : Run F}
        → Turn config zero s r t v
        → t.attempts ≡ s.attempts
    Turn-attempts (leave e) = refl
    Turn-attempts m = refl

    Step-holders :
        {s t : System F}
        → Step config zero s t
        → holders s ≤ held (s.leases id) + s.taken_over id
        → holders t ≤ held (t.leases id) + t.taken_over id
    Step-holders {s = s} (admit {run_id} {item} r fresh rf e h) k =
        ground (arith, sum-append start_holds s.attempts (new_attempt r run_id item ∷ []))
    Step-holders {s = s} (start before after {a} {o} {t} e m) k = ground (
      arith,
      Advance-runs m,
      sum-append start_holds before (a ∷ after),
      sum-append start_holds before (still o ++ after),
      sum-append start_holds (still o) after,
      ap (sum start_holds) e,
    )
    Step-holders {s = s} (run before after {r} {v} {t} e m) k = ground (
      arith,
      Turn-held m,
      Turn-attempts m,
      sum-append run_holds before (r ∷ after),
      sum-append run_holds before (v ∷ after),
      ap (sum run_holds) e,
    )
    Step-holders (outside dirs) k = k
    Step-holders {s = s} (shutdown e) k = ground (arith, cancel_all-sum s.runs)

    -- At any time, whatever the order of the steps, the calls of Start that have the lease of a task,
    -- its worker processes and its ending runs are at most one where the lock file is there, and none
    -- where it is not, and one more for each time that the lease was taken over as stale. This is so
    -- whichever releases fail, whose errors the supervisor ignores, and whichever lock files earlier
    -- servers have left.
    pub Reach-holders :
        {dirs : Dirs F} {leases : Bytes → Option Bytes} {s : System F}
        → Reach config zero dirs leases s
        → holders s ≤ held (s.leases id) + s.taken_over id
    Reach-holders here = omega arith
    Reach-holders (later r st) = Step-holders st (Reach-holders r)

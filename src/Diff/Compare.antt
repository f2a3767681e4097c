-- ===== src/Diff/Compare.antt =====
-- Calculator.Compare of internal/diff/calculator.go: the whole comparison, in its order of calls.
pub mod Complete
pub mod Whole
use etcd_space_inspector.Prelude.{
  ℕ, suc, ◌+◌, Bool, true, false, Option, none, some, List, [], ◌∷◌, length, ltb, if◌then◌else◌,
}
use etcd_space_inspector.Prelude.Bytes.{Bytes, same}
use etcd_space_inspector.Diff.Rows.{Error, same_task, Result, ok, err, ◌>>=◌, Rows, answers}
use etcd_space_inspector.Diff.Aligner.{Aligner, Env, Run, Outcome, call, compare_rows}
use etcd_space_inspector.Diff.Delta.{
  KeyState, KeyDelta, key_aligner, ObjectState, ObjectDelta, object_aligner,
}
use etcd_space_inspector.Diff.Groups.{
  PrefixState, PrefixDelta, prefix_aligner, ResourceState, ResourceDelta, resource_aligner,
  NamespaceState, NamespaceDelta, namespace_aligner,
}
use etcd_space_inspector.Diff.Summary.{compare_physical, compare_mvcc, compare_kubernetes}
use etcd_space_inspector.Diff.Parts.{
  Floats, Read, SourceTask, PhysicalSummary, MvccSummary, KubernetesSummary, Summary,
}

-- NewCalculator: the batch size that is used. A negative size acts as zero does.
unfoldable pub new_calculator : ℕ → ℕ
new_calculator size = if ltb size 1 then 500 else size

-- The answers of one task database.
pub record Database (F : Type 0) : Type 0 where
  pub physical : Read (PhysicalSummary F)
  pub mvcc : Read MvccSummary
  pub kubernetes : Read KubernetesSummary
  pub keys : Result (Rows KeyState)
  pub prefixes : Result (Rows PrefixState)
  pub objects : Result (Rows ObjectState)
  pub resources : Result (Rows ResourceState)
  pub namespaces : Result (Rows NamespaceState)

-- The calls of `Sink`.
pub data Call (F : Type 0) : Type 0 where
  reset_results : Call F
  save_summary : Summary F → Call F
  store_keys : List KeyDelta → Call F
  store_prefixes : List PrefixDelta → Call F
  store_resources : List ResourceDelta → Call F
  store_namespaces : List NamespaceDelta → Call F
  store_objects : List ObjectDelta → Call F

-- Go on if there was no error.
abbrev pub and_then : {C : Type 0} → Outcome C → (Run C → Outcome C) → Outcome C
and_then none k = none
and_then (some (none, r)) k = k r
and_then (some (some e, r)) k = some (some e, r)

module _ {A B C : Type 0} (c : Aligner A B) (wrap : List B → C) (env : Env) (size : ℕ) where
  -- One comparison, with fuel for every row that its queries have.
  unfoldable pub compare_with : Result (Rows A) → Result (Rows A) → Run C → Outcome C
  compare_with baseline target r =
      compare_rows c wrap env size (suc (length (answers baseline) + length (answers target)))
        baseline target r

module _ {F : Type 0} (env : Env) (size : ℕ) where
  unfoldable pub compare_keys : Database F → Database F → Run (Call F) → Outcome (Call F)
  unfolding compare_with
  compare_keys b t = compare_with key_aligner store_keys env size b.keys t.keys

  unfoldable pub compare_prefixes : Database F → Database F → Run (Call F) → Outcome (Call F)
  unfolding compare_with
  compare_prefixes b t = compare_with prefix_aligner store_prefixes env size b.prefixes t.prefixes

  unfoldable pub compare_objects : Database F → Database F → Run (Call F) → Outcome (Call F)
  unfolding compare_with
  compare_objects b t = compare_with object_aligner store_objects env size b.objects t.objects

  unfoldable pub compare_resources : Database F → Database F → Run (Call F) → Outcome (Call F)
  unfolding compare_with
  compare_resources b t =
      compare_with resource_aligner store_resources env size b.resources t.resources

  unfoldable pub compare_namespaces : Database F → Database F → Run (Call F) → Outcome (Call F)
  unfolding compare_with
  compare_namespaces b t =
      compare_with namespace_aligner store_namespaces env size b.namespaces t.namespaces

  -- One call of the sink.
  unfoldable pub send : Call F → Run (Call F) → Outcome (Call F)
  unfolding call
  send c r = let (e, log) = call env c r.log in some (e, record r { log = log })

  -- `ctx.Err()`
  unfoldable pub check_context : Run (Call F) → Outcome (Call F)
  check_context r = some (env.poll r.polls, record r { polls = r.polls + 1 })

  abbrev pub fail_with : Error → Run (Call F) → Outcome (Call F)
  fail_with e r = some (some e, r)

  unfoldable pub semantic_rows : Bool → Database F → Database F → Run (Call F) → Outcome (Call F)
  unfolding compare_keys compare_prefixes
  semantic_rows available b t r =
      if available then and_then (compare_keys b t r) (compare_prefixes b t) else some (none, r)

  unfoldable pub kubernetes_rows : Bool → Database F → Database F → Run (Call F) → Outcome (Call F)
  unfolding compare_objects compare_resources compare_namespaces
  kubernetes_rows available b t r =
      if available
      then and_then (compare_objects b t r)
          (λ r. and_then (compare_resources b t r) (compare_namespaces b t))
      else some (none, r)

module _ {F : Type 0} (ops : Floats F) (baseline target : SourceTask) (window : ℕ) where
  -- The three parts of the summary, read in turn.
  unfoldable pub summarize : Database F → Database F → Result (Summary F)
  summarize b t = do
    physical ← compare_physical ops b.physical t.physical
    mvcc ← compare_mvcc ops baseline target window b.mvcc t.mvcc
    kubernetes ← compare_kubernetes baseline target b.kubernetes t.kubernetes
    ok (record {
      baseline_task_id = baseline.id;
      target_task_id = target.id;
      physical = physical;
      mvcc = mvcc;
      kubernetes = kubernetes;
    })

  module _ (env : Env) (size : ℕ) where
    -- The summary is saved, and then the parts that are available are compared.
    unfoldable pub save_and_compare :
        Database F → Database F → Result (Summary F) → Run (Call F) → Outcome (Call F)
    save_and_compare b t (err e) r = fail_with env size e r
    save_and_compare b t (ok s) r = and_then (send env size (save_summary s) r) λ r.
        and_then (semantic_rows env size s.mvcc.available b t r)
          λ r. kubernetes_rows env size s.kubernetes.available b t r

    -- The check of the two ids, the reset, and the rest.
    unfoldable pub compare_distinct : Database F → Database F → Run (Call F) → Outcome (Call F)
    unfolding send
    compare_distinct b t r =
        if same baseline.id target.id
        then fail_with env size same_task r
        else and_then (send env size reset_results r) (save_and_compare b t (summarize b t))

    unfoldable pub compare : Database F → Database F → Run (Call F) → Outcome (Call F)
    unfolding check_context compare_distinct
    compare b t r = and_then (check_context env size r) (compare_distinct b t)

-- ===== src/Diff/Summary/Gates.antt =====
-- When the MVCC and the Kubernetes parts of a comparison are available.
use etcd_space_inspector.Prelude.{ℕ, ◌≡◌, ◌↔◌, Bool, true, false, arith, ◌⊎◌}
use etcd_space_inspector.Diff.Rows.{ok}
use etcd_space_inspector.Diff.Summary.{compatible_versions, compare_mvcc, no_mvcc}
use etcd_space_inspector.Diff.Parts.{
  Floats, Read, found, no_rows, failed, SourceTask, MvccSummary, MvccPart,
}

abbrev pub is_available : Read MvccSummary → Bool
is_available (found m) = m.available
is_available _ = false

module _ {F : Type 0} (ops : Floats F) (baseline target : SourceTask) (window : ℕ) where
  -- MVCC rows are compared exactly when both snapshots have a semantic MVCC analysis and their etcd
  -- versions agree on the first two parts; otherwise every difference is left at zero and no rate is
  -- given. This is for reads that both came back without an error other than a missing row.
  pub mvcc_gate :
      (b t : Read MvccSummary) (part : MvccPart F)
      → compare_mvcc ops baseline target window b t ≡ ok part
      → ((part.available ≡ true) ↔ (
          (is_available b ≡ true)
          × (is_available t ≡ true)
          × (compatible_versions baseline.etcd_version target.etcd_version ≡ true)))
        × ((part.available ≡ true) ⊎ (part ≡ no_mvcc ops part.reason))
  unfolding compare_mvcc
  mvcc_gate no_rows t part h = ((λ x. ground arith, λ x. ground arith), ground arith)
  mvcc_gate (failed e) t part h = absurd (ground arith)
  mvcc_gate (found b) no_rows part h = ((λ x. ground arith, λ x. ground arith), ground arith)
  mvcc_gate (found b) (failed e) part h = absurd (ground arith)
  mvcc_gate (found b) (found t) part h =
      ((λ x. (ground arith, ground arith, ground arith), λ x. ground arith), ground arith)

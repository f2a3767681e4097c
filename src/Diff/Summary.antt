-- ===== src/Diff/Summary.antt =====
-- The summary of internal/diff: comparePhysical, compareMVCCSummary and compareKubernetesSummary,
-- with the availability gates. A float64 is abstract; its operations are a parameter.
pub mod Gates
use etcd_space_inspector.Prelude.{
  ℕ, zero, suc, ◌/◌, Bool, true, false, ◌&&◌, Option, none, some, List, [], ◌∷◌, ltb, if◌then◌else◌,
}
use etcd_space_inspector.Prelude.Bytes.{Bytes, same}
use etcd_space_inspector.Prelude.Strings.{split}
use etcd_space_inspector.Prelude.Word.{sub64}
use etcd_space_inspector.Diff.Rows.{Error, Result, ok, err}
use etcd_space_inspector.Diff.Parts.{
  Floats, Read, SourceTask, PhysicalSummary, MvccSummary, KubernetesSummary, Reason, PhysicalPart,
  MvccPart, KubernetesPart, Summary, none_given, baseline_missing, target_missing,
  baseline_semantics, target_semantics, incompatible_versions, found, no_rows, failed,
}

abbrev first_two : List Bytes → Option (Bytes × Bytes)
first_two (a ∷ b ∷ rest) = some (a, b)
first_two _ = none

abbrev agree : Option (Bytes × Bytes) → Option (Bytes × Bytes) → Bool
agree (some (a, b)) (some (c, d)) = same a c && same b d
agree _ _ = false

unfoldable pub compatible_versions : Bytes → Bytes → Bool
compatible_versions baseline target =
    agree (first_two (split b'.' baseline)) (first_two (split b'.' target))

module _ {F : Type 0} (ops : Floats F) where
  unfoldable pub no_physical : Reason → PhysicalPart F
  no_physical why = record {
    available = false;
    reason = why;
    file_size_delta = 0;
    page_size_delta = 0;
    page_count_delta = 0;
    in_use_page_bytes_delta = 0;
    free_page_bytes_delta = 0;
    fragmentation_ratio_delta = ops.none_yet;
    meta_pages_delta = 0;
    branch_pages_delta = 0;
    leaf_pages_delta = 0;
    freelist_pages_delta = 0;
    overflow_pages_delta = 0;
    free_pages_delta = 0;
    unknown_pages_delta = 0;
  }

  physical_deltas : PhysicalSummary F → PhysicalSummary F → PhysicalPart F
  physical_deltas b t = record {
    available = true;
    reason = none_given;
    file_size_delta = sub64 t.file_size b.file_size;
    page_size_delta = sub64 t.page_size b.page_size;
    page_count_delta = sub64 t.page_count b.page_count;
    in_use_page_bytes_delta = sub64 t.in_use b.in_use;
    free_page_bytes_delta = sub64 t.free b.free;
    fragmentation_ratio_delta = ops.minus t.fragmentation b.fragmentation;
    meta_pages_delta = sub64 t.meta b.meta;
    branch_pages_delta = sub64 t.branch b.branch;
    leaf_pages_delta = sub64 t.leaf b.leaf;
    freelist_pages_delta = sub64 t.freelist b.freelist;
    overflow_pages_delta = sub64 t.overflow b.overflow;
    free_pages_delta = sub64 t.free_pages b.free_pages;
    unknown_pages_delta = sub64 t.unknown b.unknown;
  }

  -- The target is read only if the baseline was found.
  unfoldable pub compare_physical :
      Read (PhysicalSummary F) → Read (PhysicalSummary F) → Result (PhysicalPart F)
  unfolding no_physical physical_deltas
  compare_physical no_rows target = ok (no_physical baseline_missing)
  compare_physical (failed e) target = err e
  compare_physical (found b) no_rows = ok (no_physical target_missing)
  compare_physical (found b) (failed e) = err e
  compare_physical (found b) (found t) = ok (physical_deltas b t)

  unfoldable pub no_mvcc : Reason → MvccPart F
  no_mvcc why = record {
    available = false;
    reason = why;
    revision_count_delta = 0;
    current_key_count_delta = 0;
    current_stored_bytes_delta = 0;
    historical_versions_delta = 0;
    historical_bytes_delta = 0;
    tombstone_count_delta = 0;
    tombstone_bytes_delta = 0;
    observation_window_seconds = 0;
    revision_rate_available = false;
    average_revisions_per_second = ops.none_yet;
  }

  -- `window` is in nanoseconds; a negative one acts as zero does, which gives no rate.
  mvcc_deltas : ℕ → MvccSummary → MvccSummary → MvccPart F
  mvcc_deltas window b t =
      let revisions = sub64 t.revisions b.revisions in
      let seconds = window / 1000000000 in
      record {
        available = true;
        reason = none_given;
        revision_count_delta = revisions;
        current_key_count_delta = sub64 t.current_keys b.current_keys;
        current_stored_bytes_delta = sub64 t.current_bytes b.current_bytes;
        historical_versions_delta = sub64 t.history_versions b.history_versions;
        historical_bytes_delta = sub64 t.history_bytes b.history_bytes;
        tombstone_count_delta = sub64 t.tombstones b.tombstones;
        tombstone_bytes_delta = sub64 t.tombstone_bytes b.tombstone_bytes;
        observation_window_seconds = seconds;
        revision_rate_available = ltb 0 seconds;
        average_revisions_per_second =
            (if ltb 0 seconds then ops.ratio revisions seconds else ops.none_yet);
      }

  unfoldable pub compare_mvcc :
      SourceTask → SourceTask → ℕ → Read MvccSummary → Read MvccSummary → Result (MvccPart F)
  unfolding no_mvcc mvcc_deltas
  compare_mvcc vt ut window no_rows target = ok (no_mvcc baseline_missing)
  compare_mvcc vt ut window (failed e) target = err e
  compare_mvcc vt ut window (found b) no_rows = ok (no_mvcc target_missing)
  compare_mvcc vt ut window (found b) (failed e) = err e
  compare_mvcc vt ut window (found b) (found t) = ok (
      if b.available
      then (if t.available
          then (if compatible_versions vt.etcd_version ut.etcd_version
              then mvcc_deltas window b t
              else no_mvcc incompatible_versions)
          else no_mvcc target_semantics)
      else no_mvcc baseline_semantics)

unfoldable pub no_kubernetes : Reason → KubernetesPart
no_kubernetes why = record {
  available = false;
  reason = why;
  current_objects_delta = 0;
  current_bytes_delta = 0;
  historical_delta = 0;
}

kubernetes_deltas : KubernetesSummary → KubernetesSummary → KubernetesPart
kubernetes_deltas b t = record {
  available = true;
  reason = none_given;
  current_objects_delta = sub64 t.objects b.objects;
  current_bytes_delta = sub64 t.current_bytes b.current_bytes;
  historical_delta = sub64 t.history_bytes b.history_bytes;
}

unfoldable pub compare_kubernetes :
    SourceTask
    → SourceTask
    → Read KubernetesSummary
    → Read KubernetesSummary
    → Result KubernetesPart
unfolding no_kubernetes kubernetes_deltas
compare_kubernetes vt ut no_rows target = ok (no_kubernetes baseline_missing)
compare_kubernetes vt ut (failed e) target = err e
compare_kubernetes vt ut (found b) no_rows = ok (no_kubernetes target_missing)
compare_kubernetes vt ut (found b) (failed e) = err e
compare_kubernetes vt ut (found b) (found t) = ok (
    if b.available
    then (if t.available
        then (if compatible_versions vt.etcd_version ut.etcd_version
            then kubernetes_deltas b t
            else no_kubernetes incompatible_versions)
        else no_kubernetes target_semantics)
    else no_kubernetes baseline_semantics)

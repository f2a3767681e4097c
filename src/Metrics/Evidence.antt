-- ===== src/Metrics/Evidence.antt =====
-- AnalyzeWindow of internal/metricsanalysis/evidence.go, with the histograms, the quota, the
-- reclaimable bytes, the coverage and the thinning of a curve for the browser.
pub mod Thinned
pub mod Growth
use etcd_space_inspector.Prelude.{
  ℕ, zero, suc, ◌+◌, ◌-◌, ◌*◌, ◌/◌, ◌≡◌, Bool, true, false, ◌&&◌, ◌||◌, not, Option, none, some,
  List, [], ◌∷◌, ◌++◌, length, take, drop, ltb, leb, ◌==◌, if◌then◌else◌,
}
use etcd_space_inspector.Prelude.Bytes.{Bytes, text, same}
use etcd_space_inspector.Metrics.Histogram.{histogram_curve}
use etcd_space_inspector.Metrics.Curves.{
  Numbers, Sample, Series, SeriesSamples, WindowInput, Interval, Peak, db_total, db_in_use, quota,
  put_total, delete_total, backend_commit, wal_fsync, in_window, samples_in_window, value_at,
  set_value, by_time, gap, median_interval, has_gap, cluster_gauge, largest_growth, growth_start,
  counter_rate_curve, curve_peak, curve_delta, last_value,
}

pub data Coverage : Type 0 where
  coverage_full coverage_partial coverage_none coverage_unknown : Coverage

pub record Curve (F : Type 0) : Type 0 where
  pub metric_type : Bytes
  pub points : List (Sample F)

pub record Evidence (F : Type 0) : Type 0 where
  pub coverage : Coverage
  pub source_compatibility : Bytes
  pub evidence_only : Bool
  pub causality_established : Bool
  pub growth_metric : Bytes
  pub growth_baseline_bytes : F
  pub growth_threshold_bytes : F
  pub growth_started_at : Option ℕ
  pub db_total_delta_bytes : F
  pub db_in_use_delta_bytes : F
  pub max_defrag_reclaimable_bytes : F
  pub quota_peak_ratio : F
  pub largest_growth_interval : Option (Interval F)
  pub peak_put_rate : Peak F
  pub peak_delete_rate : Peak F
  pub put_temporally_aligned : Bool
  pub delete_temporally_aligned : Bool
  pub backend_commit_p99 : Peak F
  pub wal_fsync_p99 : Peak F
  pub curves : List (Curve F)

abbrev pub is_empty : {A : Type 0} → List A → Bool
is_empty [] = true
is_empty (x ∷ xs) = false

module _ {F : Type 0} where
  abbrev pub any_sample : WindowInput F → List (Sample F) → Bool
  any_sample input [] = false
  any_sample input (x ∷ xs) = if in_window input x.observed_at then true else any_sample input xs

  abbrev pub any_series : WindowInput F → List (SeriesSamples F) → Bool
  any_series input [] = false
  any_series input (s ∷ ss) = if any_sample input s.samples then true else any_series input ss

  abbrev pub last_time : ℕ → List (Sample F) → ℕ
  last_time t [] = t
  last_time t (x ∷ xs) = last_time x.observed_at xs

  -- coverage
  unfoldable pub coverage : WindowInput F → List (Sample F) → Coverage
  unfolding median_interval has_gap
  coverage input [] =
      if any_series input input.series
      then coverage_partial
      else if not (is_empty input.series)
      then coverage_none
      else coverage_unknown
  coverage input (x ∷ xs) =
      let spans = leb x.observed_at input.since && leb input.until (last_time x.observed_at xs) in
      if spans && not (has_gap (x ∷ xs) (median_interval (x ∷ xs)))
      then coverage_full
      else coverage_partial

  -- aligned
  abbrev pub aligned : Option ℕ → Interval F → ℕ → Bool
  aligned none i tolerance = false
  aligned (some t) i tolerance = leb (i.since - tolerance) t && leb t (i.until + tolerance)

  -- The last value that an instance has at a time.
  abbrev pub last_at : ℕ → Option F → List (Sample F) → Option F
  last_at t v [] = v
  last_at t v (x ∷ xs) = last_at t (if x.observed_at == t then some x.value else v) xs

  abbrev pub used_at : Bytes → ℕ → Option F → List (SeriesSamples F) → Option F
  used_at i t v [] = v
  used_at i t v (s ∷ ss) =
      used_at i t (if same s.series.instance_name i then last_at t v s.samples else v) ss

module _ {F : Type 0} (n : Numbers F) where
  -- quotaRatio
  abbrev pub ratio_over : List (Sample F) → F → List (Sample F) → F
  ratio_over quotas best [] = best
  ratio_over quotas best (x ∷ xs) =
      let value : F = elim (value_at x.observed_at quotas) [ none ↦ n.zero | some v ↦ v ] in
      ratio_over quotas
        (if n.less n.zero value && n.less best (n.div x.value value)
          then n.div x.value value
          else best)
        xs

  unfoldable pub quota_ratio : WindowInput F → List (Sample F) → F
  unfolding cluster_gauge
  quota_ratio input db = ratio_over (cluster_gauge n input quota false) n.zero db

  abbrev pub more_reclaimable : F → F → Option F → F
  more_reclaimable best total none = best
  more_reclaimable best total (some used) =
      if n.less best (n.sub total used) then n.sub total used else best

  abbrev pub reclaimable_in : List (SeriesSamples F) → Bytes → F → List (Sample F) → F
  reclaimable_in used i best [] = best
  reclaimable_in used i best (x ∷ xs) =
      reclaimable_in used i (more_reclaimable best x.value (used_at i x.observed_at none used)) xs

  abbrev pub reclaimable_over : List (SeriesSamples F) → F → List (SeriesSamples F) → F
  reclaimable_over used best [] = best
  reclaimable_over used best (s ∷ ss) =
      reclaimable_over used (reclaimable_in used s.series.instance_name best s.samples) ss

  abbrev pub larger : F → F → F
  larger a b = if n.less a b then b else a

  -- reclaimable
  unfoldable pub reclaimable : WindowInput F → F
  unfolding samples_in_window same
  reclaimable input = larger n.zero (
      reclaimable_over (samples_in_window input db_in_use) n.zero
        (samples_in_window input db_total))

  -- The least and the greatest point of one part of a curve.
  abbrev pub extremes : Sample F → Sample F → List (Sample F) → Sample F × Sample F
  extremes minimum maximum [] = (minimum, maximum)
  extremes minimum maximum (x ∷ xs) =
      extremes (if n.less x.value minimum.value then x else minimum)
        (if n.less maximum.value x.value then x else maximum) xs

  abbrev pub in_order : Sample F × Sample F → List (Sample F)
  in_order (minimum, maximum) =
      if ltb minimum.observed_at maximum.observed_at
      then minimum ∷ maximum ∷ []
      else if ltb maximum.observed_at minimum.observed_at
      then maximum ∷ minimum ∷ []
      else minimum ∷ []

  abbrev pub part_points : List (Sample F) → List (Sample F)
  part_points [] = []
  part_points (x ∷ xs) = in_order (extremes x x xs)

  -- The parts `bucket`, `bucket + 1` and so on of a curve that is cut into `buckets`.
  unfoldable pub parts_from : List (Sample F) → ℕ → ℕ → ℕ → List (Sample F)
  parts_from points buckets bucket zero = []
  parts_from points buckets bucket (suc k) =
      let first = bucket * length points / buckets in
      let last = (bucket + 1) * length points / buckets in
      part_points (drop first (take last points)) ++ parts_from points buckets (bucket + 1) k

  unfoldable pub downsample : List (Sample F) → ℕ → List (Sample F)
  unfolding parts_from
  downsample points limit =
      if leb (length points) limit || limit == 0
      then points
      else parts_from points (limit / 2) 0 (limit / 2)

  abbrev pub curve_of : Bytes → List (Sample F) → List (Curve F) → List (Curve F)
  curve_of metric [] rest = rest
  curve_of metric (x ∷ xs) rest =
      record { metric_type = metric; points = downsample (x ∷ xs) 600 } ∷ rest

  abbrev pub aligned_with : Option (Interval F) → ℕ → Peak F → Bool
  aligned_with none tolerance p = false
  aligned_with (some i) tolerance p = aligned p.observed_at i tolerance

  abbrev pub baseline_of : List (Sample F) → F
  baseline_of [] = n.zero
  baseline_of (x ∷ xs) = x.value

  abbrev pub threshold_of : List (Sample F) → F
  threshold_of [] = n.zero
  threshold_of (x ∷ xs) = larger n.eight_mib (n.mul x.value n.one_percent)

  -- AnalyzeWindow
  unfoldable pub analyze_window : WindowInput F → Evidence F
  unfolding cluster_gauge coverage curve_delta median_interval growth_start largest_growth
      counter_rate_curve curve_peak quota_ratio reclaimable histogram_curve downsample
  analyze_window input =
      let total = cluster_gauge n input db_total true in
      let in_use = cluster_gauge n input db_in_use true in
      let growth = if is_empty total then in_use else total in
      let median = median_interval growth in
      let baseline = baseline_of growth in
      let threshold = threshold_of growth in
      let puts = counter_rate_curve n input put_total in
      let deletes = counter_rate_curve n input delete_total in
      let commits = histogram_curve n input backend_commit n.p99 in
      let fsyncs = histogram_curve n input wal_fsync n.p99 in
      let largest = largest_growth n growth median in
      record {
        coverage = coverage input growth;
        source_compatibility = text "unverified";
        evidence_only = true;
        causality_established = false;
        growth_metric = (if is_empty total then db_in_use else db_total);
        growth_baseline_bytes = baseline;
        growth_threshold_bytes = threshold;
        growth_started_at = growth_start n growth (n.add baseline threshold) median;
        db_total_delta_bytes = curve_delta n total;
        db_in_use_delta_bytes = curve_delta n in_use;
        max_defrag_reclaimable_bytes = reclaimable input;
        quota_peak_ratio = quota_ratio input total;
        largest_growth_interval = largest;
        peak_put_rate = curve_peak n puts;
        peak_delete_rate = curve_peak n deletes;
        put_temporally_aligned = aligned_with largest median (curve_peak n puts);
        delete_temporally_aligned = aligned_with largest median (curve_peak n deletes);
        backend_commit_p99 = curve_peak n commits;
        wal_fsync_p99 = curve_peak n fsyncs;
        curves = curve_of db_total total (
            curve_of db_in_use in_use (
              curve_of quota (cluster_gauge n input quota false) (
                curve_of put_total puts (
                  curve_of delete_total deletes
                    (curve_of backend_commit commits (curve_of wal_fsync fsyncs []))))));
      }

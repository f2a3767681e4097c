-- ===== src/Metrics/Curves.antt =====
-- The curves of internal/metricsanalysis/evidence.go. Times are nanoseconds, and a duration that would
-- be negative is zero, which no test tells from one that is. Values are numbers of a type `F` with
-- their operations. A Go map by times is a list of its entries, each time once; what is made of it is
-- sorted by the times.
use etcd_space_inspector.Prelude.{
  ℕ, zero, suc, ◌+◌, ◌-◌, ◌*◌, ◌/◌, Bool, true, false, ◌&&◌, ◌||◌, not, Option, none, some, List,
  [], ◌∷◌, length, ltb, leb, ◌==◌, if◌then◌else◌,
}
use etcd_space_inspector.Prelude.Bytes.{Bytes, text, same}

-- The float64 operations.
pub record Numbers (F : Type 0) : Type 0 where
  pub zero : F
  pub less : F → F → Bool
  pub at_most : F → F → Bool
  pub equal : F → F → Bool
  pub add : F → F → F
  pub sub : F → F → F
  pub mul : F → F → F
  pub div : F → F → F
  pub seconds : ℕ → F
  pub is_infinite : F → Bool
  -- 8<<20, 0.01 and 0.99
  pub eight_mib : F
  pub one_percent : F
  pub p99 : F

pub record Sample (F : Type 0) : Type 0 where
  pub observed_at : ℕ
  pub value : F

pub record Series (F : Type 0) : Type 0 where
  pub metric_type : Bytes
  pub instance_name : Bytes
  pub histogram_le : Option F

pub record SeriesSamples (F : Type 0) : Type 0 where
  pub series : Series F
  pub samples : List (Sample F)

pub record WindowInput (F : Type 0) : Type 0 where
  pub since : ℕ
  pub until : ℕ
  pub series : List (SeriesSamples F)

pub record Interval (F : Type 0) : Type 0 where
  pub since : ℕ
  pub until : ℕ
  pub delta_bytes : F

-- A peak; its time is none where there is none.
pub record Peak (F : Type 0) : Type 0 where
  pub observed_at : Option ℕ
  pub value : F

abbrev pub db_total : Bytes
db_total = text "db_total_bytes"

abbrev pub db_in_use : Bytes
db_in_use = text "db_in_use_bytes"

abbrev pub quota : Bytes
quota = text "quota_bytes"

abbrev pub put_total : Bytes
put_total = text "put_total"

abbrev pub delete_total : Bytes
delete_total = text "delete_total"

abbrev pub backend_commit : Bytes
backend_commit = text "backend_commit_seconds"

abbrev pub wal_fsync : Bytes
wal_fsync = text "wal_fsync_seconds"

abbrev pub insert_gap : ℕ → List ℕ → List ℕ
insert_gap d [] = d ∷ []
insert_gap d (e ∷ es) = let rest = insert_gap d es in if ltb e d then e ∷ rest else d ∷ e ∷ es

abbrev pub sort_gaps : List ℕ → List ℕ
sort_gaps [] = []
sort_gaps (d ∷ ds) = insert_gap d (sort_gaps ds)

abbrev pub nth : ℕ → List ℕ → ℕ
nth n [] = 0
nth zero (d ∷ ds) = d
nth (suc n) (d ∷ ds) = nth n ds

module _ {F : Type 0} where
  abbrev pub in_window : WindowInput F → ℕ → Bool
  in_window input t = leb input.since t && leb t input.until

  unfoldable pub keep_samples : WindowInput F → List (Sample F) → List (Sample F)
  keep_samples input [] = []
  keep_samples input (x ∷ xs) =
      let rest = keep_samples input xs in if in_window input x.observed_at then x ∷ rest else rest

  abbrev pub keep_series :
      SeriesSamples F → List (Sample F) → List (SeriesSamples F) → List (SeriesSamples F)
  keep_series s [] rest = rest
  keep_series s (x ∷ xs) rest = record s { samples = x ∷ xs } ∷ rest

  abbrev pub series_in_window :
      WindowInput F → Bytes → List (SeriesSamples F) → List (SeriesSamples F)
  series_in_window input metric [] = []
  series_in_window input metric (s ∷ ss) =
      let rest = series_in_window input metric ss in
      if not (same s.series.metric_type metric)
      then rest
      else keep_series s (keep_samples input s.samples) rest

  -- samplesInWindow
  unfoldable pub samples_in_window : WindowInput F → Bytes → List (SeriesSamples F)
  unfolding keep_samples same
  samples_in_window input metric = series_in_window input metric input.series

  abbrev pub value_at : ℕ → List (Sample F) → Option F
  value_at t [] = none
  value_at t (x ∷ xs) = if x.observed_at == t then some x.value else value_at t xs

  abbrev pub set_value : ℕ → F → List (Sample F) → List (Sample F)
  set_value t v [] = record { observed_at = t; value = v } ∷ []
  set_value t v (x ∷ xs) =
      let rest = set_value t v xs in
      if x.observed_at == t then record { observed_at = t; value = v } ∷ xs else x ∷ rest

  abbrev pub insert_sample : Sample F → List (Sample F) → List (Sample F)
  insert_sample x [] = x ∷ []
  insert_sample x (y ∷ ys) =
      let rest = insert_sample x ys in
      if ltb y.observed_at x.observed_at then y ∷ rest else x ∷ y ∷ ys

  -- sort.Slice by the times.
  unfoldable pub by_time : List (Sample F) → List (Sample F)
  by_time [] = []
  by_time (x ∷ xs) = insert_sample x (by_time xs)

  -- Neighbours of a curve: the time between them, and the later one.
  abbrev pub gap : Sample F → Sample F → ℕ
  gap x y = y.observed_at - x.observed_at

  abbrev pub gaps : List (Sample F) → List ℕ
  gaps [] = []
  gaps (x ∷ []) = []
  gaps (x ∷ y ∷ ys) = let rest = gaps (y ∷ ys) in if ltb 0 (gap x y) then gap x y ∷ rest else rest

  -- medianInterval
  unfoldable pub median_interval : List (Sample F) → ℕ
  median_interval points =
      let intervals = gaps points in nth ((length intervals - 1) / 2) (sort_gaps intervals)

  abbrev pub any_gap : ℕ → List (Sample F) → Bool
  any_gap median [] = false
  any_gap median (x ∷ []) = false
  any_gap median (x ∷ y ∷ ys) = if ltb (3 * median) (gap x y) then true else any_gap median (y ∷ ys)

  -- hasGap
  unfoldable pub has_gap : List (Sample F) → ℕ → Bool
  has_gap points median = if median == 0 then true else any_gap median points

  -- Too far apart to be compared.
  abbrev pub is_apart : ℕ → Sample F → Sample F → Bool
  is_apart median x y = ltb 0 median && ltb (3 * median) (gap x y)

  abbrev pub apart_from_next : ℕ → Sample F → List (Sample F) → Bool
  apart_from_next median x [] = false
  apart_from_next median x (y ∷ ys) = is_apart median x y

module _ {F : Type 0} (n : Numbers F) where
  open n use {less, at_most}

  -- Whether a second value at one time takes the place of the first.
  abbrev pub takes_over : Bool → Option F → F → Bool
  takes_over maximum none v = true
  takes_over true (some current) v = less current v
  takes_over false (some current) v = less n.zero v && (at_most current n.zero || less v current)

  abbrev pub merge_samples : Bool → List (Sample F) → List (Sample F) → List (Sample F)
  merge_samples maximum [] values = values
  merge_samples maximum (x ∷ xs) values = merge_samples maximum xs (
      if takes_over maximum (value_at x.observed_at values) x.value
      then set_value x.observed_at x.value values
      else values)

  abbrev pub merge_series : Bool → List (SeriesSamples F) → List (Sample F) → List (Sample F)
  merge_series maximum [] values = values
  merge_series maximum (s ∷ ss) values =
      merge_series maximum ss (merge_samples maximum s.samples values)

  -- clusterGauge
  unfoldable pub cluster_gauge : WindowInput F → Bytes → Bool → List (Sample F)
  unfolding samples_in_window by_time
  cluster_gauge input metric maximum =
      by_time (merge_series maximum (samples_in_window input metric) [])

  abbrev pub rises : Option (Interval F) → F → Bool
  rises none delta = true
  rises (some best) delta = less best.delta_bytes delta

  -- largestGrowth, from the best interval so far.
  unfoldable pub growth_from : ℕ → Option (Interval F) → List (Sample F) → Option (Interval F)
  growth_from median best [] = best
  growth_from median best (x ∷ []) = best
  growth_from median best (x ∷ y ∷ ys) =
      let delta = n.sub y.value x.value in
      growth_from median
        (if is_apart median x y
          then best
          else if less n.zero delta && rises best delta
          then some (record { since = x.observed_at; until = y.observed_at; delta_bytes = delta })
          else best)
        (y ∷ ys)

  unfoldable pub largest_growth : List (Sample F) → ℕ → Option (Interval F)
  unfolding growth_from
  largest_growth points median = growth_from median none points

  -- The loop of growthStart: the points in a row so far, and the first of them. `apart` says whether
  -- there is a gap before the next point.
  unfoldable pub start_from : F → ℕ → ℕ → ℕ → Bool → List (Sample F) → Option ℕ
  start_from threshold median count first apart [] = none
  start_from threshold median count first apart (x ∷ xs) =
      let count = if apart then 0 else count in
      let first = if count == 0 then x.observed_at else first in
      let rest =
        start_from threshold median (if less threshold x.value then count + 1 else 0) first
          (apart_from_next median x xs) xs in
      if less threshold x.value && count + 1 == 3 then some first else rest

  -- growthStart
  unfoldable pub growth_start : List (Sample F) → F → ℕ → Option ℕ
  unfolding start_from
  growth_start points threshold median = start_from threshold median 0 0 false points

  -- counterRateCurve, on the sorted points of one series.
  abbrev pub keep_rate : WindowInput F → ℕ → Sample F → Sample F → List (Sample F) → List (Sample F)
  keep_rate input median x y values =
      let delta = n.sub y.value x.value in
      let rate = n.div delta (n.seconds (gap x y)) in
      let current : F = elim (value_at y.observed_at values) [ none ↦ n.zero | some v ↦ v ] in
      if not (in_window input y.observed_at)
      then values
      else if gap x y == 0 || less delta n.zero || is_apart median x y
      then values
      else if less current rate
      then set_value y.observed_at rate values
      else values

  abbrev pub rates : WindowInput F → ℕ → List (Sample F) → List (Sample F) → List (Sample F)
  rates input median [] values = values
  rates input median (x ∷ []) values = values
  rates input median (x ∷ y ∷ ys) values =
      rates input median (y ∷ ys) (keep_rate input median x y values)

  abbrev pub series_rates :
      WindowInput F → Bytes → List (SeriesSamples F) → List (Sample F) → List (Sample F)
  series_rates input metric [] values = values
  series_rates input metric (s ∷ ss) values =
      let points = by_time s.samples in
      series_rates input metric ss (
        if same s.series.metric_type metric
        then rates input (median_interval points) points values
        else values)

  unfoldable pub counter_rate_curve : WindowInput F → Bytes → List (Sample F)
  unfolding by_time median_interval same
  counter_rate_curve input metric = by_time (series_rates input metric input.series [])

  abbrev pub peak_from : Peak F → List (Sample F) → Peak F
  peak_from best [] = best
  peak_from best (x ∷ xs) =
      peak_from
        (if less best.value x.value
          then record { observed_at = some x.observed_at; value = x.value }
          else best)
        xs

  -- curvePeak
  unfoldable pub curve_peak : List (Sample F) → Peak F
  curve_peak points = peak_from (record { observed_at = none; value = n.zero }) points

  abbrev pub last_value : F → List (Sample F) → F
  last_value v [] = v
  last_value v (x ∷ xs) = last_value x.value xs

  -- curveDelta
  unfoldable pub curve_delta : List (Sample F) → F
  curve_delta [] = n.zero
  curve_delta (x ∷ []) = n.zero
  curve_delta (x ∷ y ∷ ys) = n.sub (last_value y.value ys) x.value

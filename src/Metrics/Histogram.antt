-- ===== src/Metrics/Histogram.antt =====
-- histogramCurve of internal/metricsanalysis/evidence.go.
use etcd_space_inspector.Prelude.{
  ℕ, ◌||◌, not, Option, none, some, List, [], ◌∷◌, ◌==◌, if◌then◌else◌,
}
use etcd_space_inspector.Prelude.Bytes.{Bytes}
use etcd_space_inspector.Metrics.Curves.{
  Numbers, Sample, SeriesSamples, WindowInput, in_window, samples_in_window, by_time,
}

pub record Bucket (F : Type 0) : Type 0 where
  pub upper : F
  pub count : F

-- The buckets of one time.
pub record Slot (F : Type 0) : Type 0 where
  pub at_time : ℕ
  pub buckets : List (Bucket F)

module _ {F : Type 0} (n : Numbers F) where
  abbrev pub add_count : F → F → List (Bucket F) → List (Bucket F)
  add_count upper delta [] = record { upper = upper; count = n.add n.zero delta } ∷ []
  add_count upper delta (b ∷ bs) =
      let rest = add_count upper delta bs in
      if n.equal b.upper upper
      then record { upper = b.upper; count = n.add b.count delta } ∷ bs
      else b ∷ rest

  abbrev pub add_slot : ℕ → F → F → List (Slot F) → List (Slot F)
  add_slot t upper delta [] = record { at_time = t; buckets = add_count upper delta [] } ∷ []
  add_slot t upper delta (s ∷ ss) =
      let rest = add_slot t upper delta ss in
      if s.at_time == t
      then record { at_time = t; buckets = add_count upper delta s.buckets } ∷ ss
      else s ∷ rest

  -- The rises between the neighbours of one series.
  abbrev pub add_rises : WindowInput F → F → List (Sample F) → List (Slot F) → List (Slot F)
  add_rises input upper [] slots = slots
  add_rises input upper (x ∷ []) slots = slots
  add_rises input upper (x ∷ y ∷ ys) slots =
      let delta = n.sub y.value x.value in
      add_rises input upper (y ∷ ys) (
        if n.less delta n.zero || not (in_window input y.observed_at)
        then slots
        else add_slot y.observed_at upper delta slots)

  abbrev pub add_bounded :
      WindowInput F → Option F → List (Sample F) → List (Slot F) → List (Slot F)
  add_bounded input none points slots = slots
  add_bounded input (some upper) points slots = add_rises input upper points slots

  abbrev pub add_series : WindowInput F → List (SeriesSamples F) → List (Slot F) → List (Slot F)
  add_series input [] slots = slots
  add_series input (s ∷ ss) slots =
      add_series input ss (add_bounded input s.series.histogram_le (by_time s.samples) slots)

  abbrev pub insert_bucket : Bucket F → List (Bucket F) → List (Bucket F)
  insert_bucket b [] = b ∷ []
  insert_bucket b (c ∷ cs) =
      let rest = insert_bucket b cs in if n.less c.upper b.upper then c ∷ rest else b ∷ c ∷ cs

  abbrev pub sort_buckets : List (Bucket F) → List (Bucket F)
  sort_buckets [] = []
  sort_buckets (b ∷ bs) = insert_bucket b (sort_buckets bs)

  abbrev pub last_count : F → List (Bucket F) → F
  last_count c [] = c
  last_count c (b ∷ bs) = last_count b.count bs

  -- Linear interpolation in the first bucket that reaches the target.
  unfoldable pub quantile_from : F → F → F → List (Bucket F) → F
  quantile_from target lower previous [] = n.zero
  quantile_from target lower previous (b ∷ bs) =
      let rest = quantile_from target b.upper b.count bs in
      if n.at_most target b.count
      then (if n.is_infinite b.upper
          then lower
          else if n.at_most b.count previous
          then b.upper
          else n.add lower (
              n.div (n.mul (n.sub b.upper lower) (n.sub target previous)) (n.sub b.count previous)))
      else rest

  abbrev pub slot_value : F → ℕ → List (Bucket F) → List (Sample F) → List (Sample F)
  slot_value q t [] rest = rest
  slot_value q t (b ∷ bs) rest =
      if n.at_most (last_count b.count bs) n.zero
      then rest
      else record {
        observed_at = t;
        value = quantile_from (n.mul (last_count b.count bs) q) n.zero n.zero (b ∷ bs);
      }
        ∷ rest

  abbrev pub slot_values : F → List (Slot F) → List (Sample F)
  slot_values q [] = []
  slot_values q (s ∷ ss) = slot_value q s.at_time (sort_buckets s.buckets) (slot_values q ss)

  unfoldable pub histogram_curve : WindowInput F → Bytes → F → List (Sample F)
  unfolding samples_in_window by_time quantile_from
  histogram_curve input metric quantile =
      by_time (slot_values quantile (add_series input (samples_in_window input metric) []))

-- ===== src/Tests/Windows.antt =====
-- Metric curves, for internal/metricsanalysis.
use etcd_space_inspector.Prelude.{
  ℕ, ◌+◌, ◌-◌, ◌*◌, ◌/◌, ◌≡◌, true, false, none, List, [], ◌∷◌, ltb, leb, ◌==◌, arith,
}
use etcd_space_inspector.Metrics.Curves.{Numbers, Sample, largest_growth}
use etcd_space_inspector.Metrics.Evidence.Growth.{Grown, largest_growth-Grown}

-- Whole numbers.
abbrev whole : Numbers ℕ
whole = record {
  zero = 0;
  less = ltb;
  at_most = leb;
  equal = λ a b. a == b;
  add = λ a b. a + b;
  sub = λ a b. a - b;
  mul = λ a b. a * b;
  div = λ a b. a / b;
  seconds = λ d. d;
  is_infinite = λ a. false;
  eight_mib = 8388608;
  one_percent = 0;
  p99 = 1;
}

irreflexive : (a : ℕ) → ltb a a ≡ false
irreflexive a = ground arith

trans : (a b c : ℕ) → ltb a b ≡ true → ltb b c ≡ true → ltb a c ≡ true
trans a b c g h = ground arith

abbrev curve : List (Sample ℕ)
curve =
    record { observed_at = 1; value = 5 }
    ∷ record { observed_at = 2; value = 9 }
    ∷ record { observed_at = 3; value = 4 }
    ∷ []

largest_growth-Grown_example : Grown whole 1 none curve (largest_growth whole curve 1)
largest_growth-Grown_example = largest_growth-Grown whole 1 irreflexive trans curve

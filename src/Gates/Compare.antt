-- ===== src/Gates/Compare.antt =====
-- `PerformanceGate.evaluate`, `CompositeGate.evaluate` and `evaluate_candidate` of gates.py.
use euboulia.Prelude.{
  Bool, true, false, not, ◌&&◌, ◌||◌, Option, none, some, List, [], ◌∷◌, if◌then◌else◌,
}
use euboulia.Floats.{FloatOps}
use euboulia.Gates.{
  MetricDirection, minimize, maximize, accept, reject, Metrics, MetricInput, from_metrics,
  of_metrics, Reason, better_than_zero, worse_than_zero, equals_zero_baseline, below_required,
  within_noise, threshold_passed, regression_too_large, Result, ◌>>=◌, Verdict, accepted,
  CorrectnessDetails, PerformanceDetails, fail_closed, compared, CompositeDetails, incorrect,
  judged, CorrectnessGate, PerformanceGate, CompositeGate,
}
use euboulia.Gates.Evaluate.{checked, extract_metric, evaluate_correctness}

module _ (F : FloatOps) where
  open F use {Float, zero_float, le, lt, eq, sub, div, neg, abs, is_finite, is_close}

  unfoldable pub signed_delta : MetricDirection → Float → Float → Float
  signed_delta minimize baseline candidate = sub baseline candidate
  signed_delta maximize baseline candidate = sub candidate baseline

  -- What a comparison concludes: whether it passes, why, and the relative improvement.
  unfoldable pub against_zero : PerformanceGate Float → Float → Float → Bool × Reason × Option Float
  against_zero g candidate delta =
      let relative = if eq candidate zero_float then some zero_float else none in
      if lt zero_float delta
      then (true, better_than_zero, relative)
      else if lt delta zero_float
      then (false, worse_than_zero, relative)
      else if eq g.min_relative_improvement zero_float
      then (true, equals_zero_baseline, relative)
      else (false, below_required, relative)

  unfoldable pub effective_improvement : PerformanceGate Float → Float → Float
  effective_improvement g relative =
      if le (abs relative) g.noise_tolerance then zero_float else relative

  unfoldable pub acceptance_floor : PerformanceGate Float → Float
  acceptance_floor g =
      if lt zero_float g.min_relative_improvement
      then g.min_relative_improvement
      else neg g.allowed_relative_regression

  unfoldable pub suffices : PerformanceGate Float → Float → Bool
  unfolding effective_improvement acceptance_floor
  suffices g relative =
      le (acceptance_floor g) (effective_improvement g relative)
      || is_close (effective_improvement g relative) (acceptance_floor g)

  unfoldable pub by_ratio : PerformanceGate Float → Float → Bool × Reason × Option Float
  unfolding suffices effective_improvement
  by_ratio g relative =
      if suffices g relative
      then if eq (effective_improvement g relative) zero_float && not (eq relative zero_float)
        then (true, within_noise, some relative)
        else (true, threshold_passed, some relative)
      else if lt relative zero_float
      then (false, regression_too_large, some relative)
      else (false, below_required, some relative)

  unfoldable pub compare_values :
      PerformanceGate Float → Float → Float → Bool × Reason × Option Float
  unfolding against_zero by_ratio signed_delta
  compare_values g baseline candidate =
      let delta = signed_delta g.direction baseline candidate in
      if eq baseline zero_float
      then against_zero g candidate delta
      else by_ratio g (div delta (abs baseline))

  performance_verdict :
      PerformanceGate Float
      → Option Float
      → Option Float
      → Bool
      → List Reason
      → Option Float
      → PerformanceDetails Float
      → Verdict Float (PerformanceDetails Float)
  performance_verdict g baseline candidate passed why relative more = record {
    status = if passed then accept else reject;
    reasons = why;
    correctness_passed = none;
    performance_passed = some passed;
    metric = some g.metric;
    direction = some g.direction;
    baseline_value = baseline;
    candidate_value = candidate;
    relative_improvement = relative;
    allowed_relative_regression = some g.allowed_relative_regression;
    min_relative_improvement = some g.min_relative_improvement;
    noise_tolerance = some g.noise_tolerance;
    details = more;
  }

  unreadable :
      PerformanceGate Float
      → Option Float
      → Option Float
      → List Reason
      → Result (Verdict Float (PerformanceDetails Float))
  unfolding checked performance_verdict
  unreadable g baseline candidate errors =
      checked F true (performance_verdict g baseline candidate false errors none fail_closed)

  concluded :
      PerformanceGate Float
      → Float
      → Float
      → Bool × Reason × Option Float
      → Result (Verdict Float (PerformanceDetails Float))
  unfolding checked performance_verdict signed_delta
  concluded g baseline candidate (passed, why, relative) =
      let delta = signed_delta g.direction baseline candidate in
      checked F (is_finite delta) (
        performance_verdict g (some baseline) (some candidate) passed (why ∷ []) relative
          (compared delta (eq baseline zero_float)))

  -- The two readings, each a value or an error; the assertion in the code rules the last clause out.
  unfoldable pub judge_pair :
      PerformanceGate Float
      → Option Float × Option Reason
      → Option Float × Option Reason
      → Result (Verdict Float (PerformanceDetails Float))
  unfolding unreadable concluded compare_values
  judge_pair g (b, some e) (c, some f) = unreadable g b c (e ∷ f ∷ [])
  judge_pair g (b, some e) (c, none) = unreadable g b c (e ∷ [])
  judge_pair g (b, none) (c, some f) = unreadable g b c (f ∷ [])
  judge_pair g (some b, none) (some c, none) = concluded g b c (compare_values g b c)
  judge_pair g (b, none) (c, none) = unreadable g b c []

  -- PerformanceGate.evaluate
  unfoldable pub evaluate_performance :
      PerformanceGate Float
      → MetricInput Float
      → MetricInput Float
      → Result (Verdict Float (PerformanceDetails Float))
  unfolding judge_pair extract_metric
  evaluate_performance g baseline candidate =
      judge_pair g (extract_metric F baseline g.metric) (extract_metric F candidate g.metric)

  incorrect_verdict :
      CompositeGate Float
      → Verdict Float (CorrectnessDetails Float)
      → Verdict Float (CompositeDetails Float)
  incorrect_verdict g v = record {
    status = reject;
    reasons = v.reasons;
    correctness_passed = some false;
    performance_passed = none;
    metric = some g.performance.metric;
    direction = some g.performance.direction;
    baseline_value = none;
    candidate_value = none;
    relative_improvement = none;
    allowed_relative_regression = none;
    min_relative_improvement = none;
    noise_tolerance = none;
    details = incorrect v;
  }

  judged_verdict :
      Verdict Float (CorrectnessDetails Float)
      → Verdict Float (PerformanceDetails Float)
      → Verdict Float (CompositeDetails Float)
  judged_verdict v w = record {
    status = if accepted w.status then accept else reject;
    reasons = w.reasons;
    correctness_passed = some true;
    performance_passed = some (accepted w.status);
    metric = w.metric;
    direction = w.direction;
    baseline_value = w.baseline_value;
    candidate_value = w.candidate_value;
    relative_improvement = w.relative_improvement;
    allowed_relative_regression = w.allowed_relative_regression;
    min_relative_improvement = w.min_relative_improvement;
    noise_tolerance = w.noise_tolerance;
    details = judged v w;
  }

  unfoldable pub combine :
      CompositeGate Float
      → Verdict Float (CorrectnessDetails Float)
      → Result (Verdict Float (PerformanceDetails Float))
      → Result (Verdict Float (CompositeDetails Float))
  unfolding incorrect_verdict judged_verdict checked
  combine g v performance =
      if accepted v.status
      then (performance >>= λ w. checked F true (judged_verdict v w))
      else checked F true (incorrect_verdict g v)

  -- CompositeGate.evaluate
  unfoldable pub evaluate_composite :
      CompositeGate Float
      → Metrics Float
      → Metrics Float
      → Result (Verdict Float (CompositeDetails Float))
  unfolding combine evaluate_correctness evaluate_performance
  evaluate_composite g baseline candidate =
      evaluate_correctness F g.correctness (of_metrics candidate) >>= λ v.
      combine g v
        (evaluate_performance g.performance (from_metrics baseline) (from_metrics candidate))

  -- CorrectnessGate(), given 1.0
  unfoldable pub default_correctness : Float → CorrectnessGate Float
  default_correctness one = record { metric = none; direction = maximize; threshold = one }

  gate_or_default : Float → Option (CorrectnessGate Float) → CorrectnessGate Float
  unfolding default_correctness
  gate_or_default one none = default_correctness one
  gate_or_default one (some g) = g

  unfoldable pub evaluate_candidate :
      Metrics Float
      → Metrics Float
      → PerformanceGate Float
      → Option (CorrectnessGate Float)
      → Result (Verdict Float (CompositeDetails Float))
  unfolding evaluate_composite gate_or_default
  evaluate_candidate baseline candidate performance correctness =
      let own = gate_or_default F.one_float correctness in
      evaluate_composite (record { performance = performance; correctness = own }) baseline
        candidate

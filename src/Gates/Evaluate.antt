-- ===== src/Gates/Evaluate.antt =====
-- The `evaluate` methods of gates.py.
use euboulia.Prelude.{String, Bool, true, false, ◌&&◌, Option, none, some, [], ◌∷◌, if◌then◌else◌}
use euboulia.Prelude.Dict.{lookup}
use euboulia.Floats.{FloatOps}
use euboulia.Gates.{
  MetricDirection, minimize, maximize, accept, reject, Value, null, boolean, real, other,
  MetricInput, from_metrics, from_mapping, scalar, CorrectnessInput, flag, of_metrics, of_mapping,
  Reason, metric_missing, metric_not_numeric, metric_not_finite, correctness_missing,
  correctness_not_finite, correctness_not_readable, correctness_holds, correctness_fails, Result,
  ok, not_finite, Verdict, Observed, unobserved, observed_flag, observed_number, CorrectnessDetails,
  CorrectnessGate,
}

module _ (F : FloatOps) where
  open F use {Float, zero_float, le, lt, eq, sub, div, neg, abs, is_finite, is_close}

  -- `values.get(metric)` and `mapping.get(metric)`, with None where there is no entry
  number_or_null : Option Float → Value Float
  number_or_null none = null
  number_or_null (some x) = real x

  value_or_null : Option (Value Float) → Value Float
  value_or_null none = null
  value_or_null (some v) = v

  raw_metric : MetricInput Float → String → Value Float
  unfolding number_or_null value_or_null
  raw_metric (from_metrics m) metric = number_or_null (lookup metric m.values)
  raw_metric (from_mapping d) metric = value_or_null (lookup metric d)
  raw_metric (scalar v) metric = v

  classify : String → Value Float → Option Float × Option Reason
  classify metric null = (none, some (metric_missing metric))
  classify metric (boolean b) = (none, some (metric_not_numeric metric))
  classify metric other = (none, some (metric_not_numeric metric))
  classify metric (real x) =
      if is_finite x then (some x, none) else (none, some (metric_not_finite metric))

  unfoldable pub extract_metric : MetricInput Float → String → Option Float × Option Reason
  unfolding raw_metric classify
  extract_metric source metric = classify metric (raw_metric source metric)

  finite_option : Option Float → Bool
  finite_option none = true
  finite_option (some x) = is_finite x

  -- Verdict.__post_init__, as far as it can raise here; `extra` are the numbers in the details
  unfoldable pub checked : {D : Type 0} → Bool → Verdict Float D → Result (Verdict Float D)
  unfolding finite_option
  checked extra v =
      if finite_option v.baseline_value
        && (finite_option v.candidate_value
            && (finite_option v.relative_improvement
                && (finite_option v.allowed_relative_regression
                    && (finite_option v.min_relative_improvement
                        && (finite_option v.noise_tolerance && extra)))))
      then ok v
      else not_finite

  first_value : Value Float → Value Float → Value Float
  first_value null v = v
  first_value v w = v

  flag_or_null : Option Bool → Value Float
  flag_or_null none = null
  flag_or_null (some b) = boolean b

  -- The value that the correctness gate reads.
  unfoldable pub raw_correctness : Option String → CorrectnessInput Float → Value Float
  unfolding first_value flag_or_null number_or_null value_or_null
  raw_correctness metric (flag b) = boolean b
  raw_correctness none (of_metrics m) = first_value (flag_or_null m.correctness_passed) (
      first_value (number_or_null (lookup "correctness_passed" m.values))
        (number_or_null (lookup "correct" m.values)))
  raw_correctness (some metric) (of_metrics m) = number_or_null (lookup metric m.values)
  raw_correctness none (of_mapping d) =
      first_value (value_or_null (lookup "correctness_passed" d))
        (value_or_null (lookup "correct" d))
  raw_correctness (some metric) (of_mapping d) = value_or_null (lookup metric d)

  -- observed <= threshold, or observed >= threshold
  unfoldable pub reaches : MetricDirection → Float → Float → Bool
  reaches minimize observed threshold = le observed threshold
  reaches maximize observed threshold = le threshold observed

  correctness_verdict :
      CorrectnessGate Float
      → Observed Float
      → Bool
      → Reason
      → Verdict Float (CorrectnessDetails Float)
  correctness_verdict g seen passed reason = record {
    status = if passed then accept else reject;
    reasons = reason ∷ [];
    correctness_passed = some passed;
    performance_passed = none;
    metric = none;
    direction = none;
    baseline_value = none;
    candidate_value = none;
    relative_improvement = none;
    allowed_relative_regression = none;
    min_relative_improvement = none;
    noise_tolerance = none;
    details = record {
      of_metric = g.metric;
      threshold = g.threshold;
      of_direction = g.direction;
      observed = seen;
    };
  }

  decided : CorrectnessGate Float → Observed Float → Bool → Verdict Float (CorrectnessDetails Float)
  unfolding correctness_verdict
  decided g seen passed =
      correctness_verdict g seen passed (if passed then correctness_holds else correctness_fails)

  unfoldable pub judge_correctness :
      CorrectnessGate Float → Value Float → Result (Verdict Float (CorrectnessDetails Float))
  unfolding decided correctness_verdict checked
  judge_correctness g null =
      checked (is_finite g.threshold) (correctness_verdict g unobserved false correctness_missing)
  judge_correctness g (boolean b) = checked (is_finite g.threshold) (decided g (observed_flag b) b)
  judge_correctness g (real x) =
      if is_finite x
      then checked (is_finite g.threshold)
          (decided g (observed_number x) (reaches g.direction x g.threshold))
      else checked (is_finite g.threshold)
          (correctness_verdict g unobserved false correctness_not_finite)
  judge_correctness g other =
      checked (is_finite g.threshold)
        (correctness_verdict g unobserved false correctness_not_readable)

  -- CorrectnessGate.evaluate
  unfoldable pub evaluate_correctness :
      CorrectnessGate Float
      → CorrectnessInput Float
      → Result (Verdict Float (CorrectnessDetails Float))
  evaluate_correctness g metrics = judge_correctness g (raw_correctness g.metric metrics)

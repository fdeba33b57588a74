-- ===== src/Gates/Examples.antt =====
-- Examples for the gates.
use euboulia.Prelude.{◌⊎◌, ◌↔◌, ◌∷◌, [], ◌≡◌, refl, true, false, none, some}
use euboulia.Prelude.Dict.{lookup}
use euboulia.Floats.Scaled.{ℤ, pos, negsuc, thousandths}
use euboulia.Gates.Evaluate.{
  evaluate_correctness, judge_correctness, checked, extract_metric, raw_correctness,
}
use euboulia.Gates.Compare.{
  evaluate_composite, evaluate_performance, judge_pair, compare_values, combine, by_ratio, suffices,
  effective_improvement, acceptance_floor, signed_delta,
}
use euboulia.Gates.{
  not_finite, real, observed_flag, scalar, ok, minimize, maximize, accept, judged, compared,
  correctness_holds, threshold_passed, accept, CompositeDetails, CorrectnessDetails,
  PerformanceDetails, maximize, minimize, CompositeGate, CorrectnessGate, FloatOps, PerformanceGate,
  Verdict, Metrics,
}
use euboulia.Gates.Accepts.{overflow_raises, Settled, accepts-Promoted, Promoted}

abbrev latency : PerformanceGate ℤ
latency = record {
  metric = "latency";
  direction = minimize;
  min_relative_improvement = pos 0;
  allowed_relative_regression = pos 10;
  noise_tolerance = pos 5;
}

abbrev correct_flag : CorrectnessGate ℤ
correct_flag = record { metric = none; direction = maximize; threshold = pos 1000 }

abbrev both : CompositeGate ℤ
both = record { performance = latency; correctness = correct_flag }

abbrev measured : ℤ → Metrics ℤ
measured x = record { values = ("latency", x) ∷ []; correctness_passed = some true }

abbrev correct_part : Verdict ℤ (CorrectnessDetails ℤ)
correct_part = record {
  status = accept;
  reasons = correctness_holds ∷ [];
  correctness_passed = some true;
  performance_passed = none;
  metric = none;
  direction = none;
  baseline_value = none;
  candidate_value = none;
  relative_improvement = none;
  allowed_relative_regression = none;
  min_relative_improvement = none;
  noise_tolerance = none;
  details = record {
    of_metric = none;
    threshold = pos 1000;
    of_direction = maximize;
    observed = observed_flag true;
  };
}

abbrev performance_part : Verdict ℤ (PerformanceDetails ℤ)
performance_part = record {
  status = accept;
  reasons = threshold_passed ∷ [];
  correctness_passed = none;
  performance_passed = some true;
  metric = some "latency";
  direction = some minimize;
  baseline_value = some (pos 1000);
  candidate_value = some (pos 900);
  relative_improvement = some (pos 100);
  allowed_relative_regression = some (pos 10);
  min_relative_improvement = some (pos 0);
  noise_tolerance = some (pos 5);
  details = compared (pos 100) false;
}

abbrev faster : Verdict ℤ (CompositeDetails ℤ)
faster = record {
  status = accept;
  reasons = threshold_passed ∷ [];
  correctness_passed = some true;
  performance_passed = some true;
  metric = some "latency";
  direction = some minimize;
  baseline_value = some (pos 1000);
  candidate_value = some (pos 900);
  relative_improvement = some (pos 100);
  allowed_relative_regression = some (pos 10);
  min_relative_improvement = some (pos 0);
  noise_tolerance = some (pos 5);
  details = judged correct_part performance_part;
}

evaluated :
    evaluate_composite thousandths both (measured (pos 1000)) (measured (pos 900)) ≡ ok faster
unfolding evaluate_composite evaluate_correctness evaluate_performance judge_correctness judge_pair
    compare_values combine checked extract_metric raw_correctness by_ratio suffices
    effective_improvement acceptance_floor signed_delta lookup
evaluated = refl

accepts-Promoted_example : Promoted thousandths both (measured (pos 1000)) (measured (pos 900))
accepts-Promoted_example =
    accepts-Promoted thousandths both (measured (pos 1000)) (measured (pos 900)) faster evaluated
      refl

-- Numbers of which those beyond ten are infinite.
abbrev bounded : FloatOps
bounded = record {
  Float = ℤ;
  zero_float = pos 0;
  one_float = pos 1000;
  le = thousandths.le;
  lt = thousandths.lt;
  eq = thousandths.eq;
  sub = thousandths.sub;
  div = thousandths.div;
  neg = thousandths.neg;
  abs = thousandths.abs;
  larger = thousandths.larger;
  is_finite = λ a. thousandths.le (thousandths.abs a) (pos 10000);
  is_close = thousandths.is_close;
  tiny = pos 1;
  median = thousandths.median;
}

settled : Settled bounded latency
settled = record { finite_min = refl; finite_allowed = refl; finite_noise = refl }

overflow_raises_example :
    (evaluate_performance bounded latency (scalar (real (pos 9000))) (scalar (real (negsuc 8999)))
      ≡ not_finite)
    ↔ ((bounded.is_finite (signed_delta bounded minimize (pos 9000) (negsuc 8999)) ≡ false)
        ⊎ (bounded.is_finite (
              bounded.div
                (signed_delta bounded minimize (pos 9000) (negsuc 8999))
                (bounded.abs (pos 9000)))
            ≡ false))
overflow_raises_example =
    overflow_raises bounded latency (pos 9000) (negsuc 8999) settled refl refl refl

-- The first side of the equivalence holds there.
raises :
    evaluate_performance bounded latency (scalar (real (pos 9000))) (scalar (real (negsuc 8999)))
    ≡ not_finite
unfolding evaluate_performance judge_pair compare_values checked extract_metric by_ratio suffices
    signed_delta effective_improvement acceptance_floor
raises = refl

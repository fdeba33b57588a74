-- ===== src/Gates/Construct.antt =====
-- The constructors of the gates of gates.py, from arguments of the declared types.
use euboulia.Prelude.{
  String, Bool, false, not, ◌&&◌, Option, none, some, str_eq, if◌then◌else◌, ◌≡◌, arith,
}
use euboulia.Floats.{FloatOps}
use euboulia.Gates.{MetricDirection, PerformanceGate, CorrectnessGate}
use euboulia.Gates.Accepts.{Settled}

module _ (F : FloatOps) (strip : String → String) where
  open F use {Float, zero_float, lt, is_finite}

  -- finite and non-negative
  is_fraction : Float → Bool
  is_fraction x = is_finite x && not (lt x zero_float)

  -- PerformanceGate.__post_init__, with none for the `ValueError`
  unfoldable pub new_performance_gate :
      String → MetricDirection → Float → Float → Float → Option (PerformanceGate Float)
  unfolding is_fraction
  new_performance_gate metric direction minimum allowed noise =
      if str_eq (strip metric) ""
      then none
      else if is_fraction minimum && (is_fraction allowed && is_fraction noise)
      then some (record {
        metric = strip metric;
        direction = direction;
        min_relative_improvement = minimum;
        allowed_relative_regression = allowed;
        noise_tolerance = noise;
      })
      else none

  -- CorrectnessGate.__post_init__
  unfoldable pub new_correctness_gate :
      Option String → MetricDirection → Float → Option (CorrectnessGate Float)
  new_correctness_gate metric direction threshold =
      let gate : CorrectnessGate Float = record {
        metric = metric;
        direction = direction;
        threshold = threshold;
      } in
      elim metric [
        | none ↦ if is_finite threshold then some gate else none
        | some name ↦
            if str_eq name "" then none else if is_finite threshold then some gate else none
      ]

  -- A performance gate that is constructed has finite numbers that are not negative and a metric's name
  -- that is not empty.
  new_performance_gate-Settled :
      (metric : String) (direction : MetricDirection) (minimum allowed noise : Float)
      (g : PerformanceGate Float)
      → new_performance_gate metric direction minimum allowed noise ≡ some g
      → Settled F g
        × (str_eq g.metric "" ≡ false)
        × (lt g.min_relative_improvement zero_float ≡ false)
        × (lt g.allowed_relative_regression zero_float ≡ false)
        × (lt g.noise_tolerance zero_float ≡ false)
  unfolding new_performance_gate
  new_performance_gate-Settled metric direction minimum allowed noise g e = (
    record {
      finite_min = ground arith;
      finite_allowed = ground arith;
      finite_noise = ground arith;
    },
    ground arith,
    ground arith,
    ground arith,
    ground arith,
  )

-- ===== src/Gates.antt =====
-- gates.py, with `Verdict` of models.py: the correctness gate, the performance gate and both together.
-- Texts in `reasons` are constructors, and the dict `details` is a type of its own for each gate.
pub mod Evaluate
pub mod Compare
pub mod Accepts
pub mod Construct
mod Examples
use euboulia.Prelude.{
  String, Bool, true, false, not, ◌&&◌, ◌||◌, Option, none, some, List, [], ◌∷◌, ◌++◌,
  if◌then◌else◌,
}
use euboulia.Prelude.Dict.{Dict, lookup}
use euboulia.Floats.{FloatOps}

pub data MetricDirection : Type 0 where
  minimize maximize : MetricDirection

pub data VerdictStatus : Type 0 where
  accept reject : VerdictStatus

-- What a mapping may hold under a metric's name.
pub data Value (Float : Type 0) : Type 0 where
  null : Value Float
  boolean : Bool → Value Float
  real : Float → Value Float
  other : Value Float

pub record Metrics (Float : Type 0) : Type 0 where
  pub values : Dict Float
  pub correctness_passed : Option Bool

pub data MetricInput (Float : Type 0) : Type 0 where
  from_metrics : Metrics Float → MetricInput Float
  from_mapping : Dict (Value Float) → MetricInput Float
  scalar : Value Float → MetricInput Float

pub data CorrectnessInput (Float : Type 0) : Type 0 where
  flag : Bool → CorrectnessInput Float
  of_metrics : Metrics Float → CorrectnessInput Float
  of_mapping : Dict (Value Float) → CorrectnessInput Float

pub data Reason : Type 0 where
  metric_missing metric_not_numeric metric_not_finite : String → Reason
  correctness_missing correctness_not_finite correctness_not_readable : Reason
  correctness_holds correctness_fails : Reason
  better_than_zero worse_than_zero equals_zero_baseline below_required : Reason
  within_noise threshold_passed regression_too_large : Reason

-- The `ValueError` of a verdict or of its details with a number that is not finite.
pub data Result {ℓ} (A : Type ℓ) : Type ℓ where
  ok : A → Result A
  not_finite : Result A

infixl 5 ◌>>=◌
abbrev pub ◌>>=◌ {ℓ κ} : {A : Type ℓ} {B : Type κ} → Result A → (A → Result B) → Result B
not_finite >>= next = not_finite
ok value >>= next = next value

-- `details` is the type of the details.
pub record Verdict (Float Details : Type 0) : Type 0 where
  pub status : VerdictStatus
  pub reasons : List Reason
  pub correctness_passed : Option Bool
  pub performance_passed : Option Bool
  pub metric : Option String
  pub direction : Option MetricDirection
  pub baseline_value : Option Float
  pub candidate_value : Option Float
  pub relative_improvement : Option Float
  pub allowed_relative_regression : Option Float
  pub min_relative_improvement : Option Float
  pub noise_tolerance : Option Float
  pub details : Details

-- Verdict.accepted
abbrev pub accepted : VerdictStatus → Bool
accepted accept = true
accepted reject = false

pub data Observed (Float : Type 0) : Type 0 where
  unobserved : Observed Float
  observed_flag : Bool → Observed Float
  observed_number : Float → Observed Float

pub record CorrectnessDetails (Float : Type 0) : Type 0 where
  pub of_metric : Option String
  pub threshold : Float
  pub of_direction : MetricDirection
  pub observed : Observed Float

pub data PerformanceDetails (Float : Type 0) : Type 0 where
  fail_closed : PerformanceDetails Float
  compared : Float → Bool → PerformanceDetails Float

pub data CompositeDetails (Float : Type 0) : Type 0 where
  incorrect : Verdict Float (CorrectnessDetails Float) → CompositeDetails Float
  judged :
      Verdict Float (CorrectnessDetails Float)
      → Verdict Float (PerformanceDetails Float)
      → CompositeDetails Float

pub record CorrectnessGate (Float : Type 0) : Type 0 where
  pub metric : Option String
  pub direction : MetricDirection
  pub threshold : Float

pub record PerformanceGate (Float : Type 0) : Type 0 where
  pub metric : String
  pub direction : MetricDirection
  pub min_relative_improvement : Float
  pub allowed_relative_regression : Float
  pub noise_tolerance : Float

pub record CompositeGate (Float : Type 0) : Type 0 where
  pub performance : PerformanceGate Float
  pub correctness : CorrectnessGate Float

-- ===== src/Evaluator.antt =====
-- optimization/evaluator.py: the specifications, the results, and what the evaluator asks of the
-- world around it. The routines are in the modules below.
pub mod Metrics
pub mod Stages
pub mod Benchmark
pub mod Run
use euboulia.Prelude.{
  ◌≡◌, refl, if◌then◌else◌, ℕ, String, Bool, true, false, Option, none, some, List, ◌&&◌, not,
}
use euboulia.Prelude.Dict.{Dict}
use euboulia.Floats.{FloatOps}

pub data EvaluationStage : Type 0 where
  preflight correctness benchmark accuracy : EvaluationStage

pub data ObjectiveDirection : Type 0 where
  minimize maximize : ObjectiveDirection

pub data EvaluationOutcome : Type 0 where
  passed rejected failed profile_only : EvaluationOutcome

-- The outcome of one command, from execution.py; its paths and times are not read here.
-- `returncode` is `none` if the command did not end, and a code that is not 0 is some `suc n`.
pub record ExecutionResult : Type 0 where
  pub argv : List String
  pub returncode : Option ℕ
  pub timed_out : Bool
  pub dry_run : Bool
  pub error : Option String

abbrev is_none : Option String → Bool
is_none none = true
is_none (some e) = false

abbrev is_zero : Option ℕ → Bool
is_zero (some ℕ.zero) = true
is_zero _ = false

-- ExecutionResult.succeeded
unfoldable pub succeeded : ExecutionResult → Bool
succeeded e =
    if e.dry_run
    then is_none e.error && not e.timed_out
    else is_zero e.returncode && is_none e.error && not e.timed_out

-- What `_collect_value` sees of a JSON document.
mutual
  pub data Json (Float : Type 0) : Type 0 where
    null : Json Float
    boolean : Bool → Json Float
    text : String → Json Float
    number : Float → Json Float
    array : Json Float
    object : Fields Float → Json Float

  pub data Fields (Float : Type 0) : Type 0 where
    end : Fields Float
    field : String → Json Float → Fields Float → Fields Float

-- `MetricsError`, the `KeyError` of an objective that is not among the metrics, and `OSError`.
pub data MetricsError : Type 0 where
  unreadable empty_file invalid_json not_an_object empty_key no_values outside : MetricsError
  not_finite : String → MetricsError
  required_missing : List String → MetricsError
  key_missing : String → MetricsError

pub data Result {ℓ} (A : Type ℓ) : Type ℓ where
  ok : A → Result A
  err : MetricsError → Result A

infixl 5 ◌>>=◌
abbrev pub ◌>>=◌ {ℓ κ} : {A : Type ℓ} {B : Type κ} → Result A → (A → Result B) → Result B
err raised >>= next = err raised
ok value >>= next = next value

-- A chain that succeeded passed a value from its first step to the next.
pub >>=-ok {ℓ κ} :
    {A : Type ℓ} {B : Type κ} (next : A → Result B) (first : Result A) {out : B}
    → (first >>= next) ≡ ok out
    → (between : A) × (first ≡ ok between) × (next between ≡ ok out)
>>=-ok next (err e) whole = cc
>>=-ok next (ok between) whole = (between, refl, whole)

-- The texts in `reason`, by what they report.
pub data Reason (Float : Type 0) : Type 0 where
  command_failed : String → ExecutionResult → Reason Float
  objective_missing : String → Reason Float
  metrics_failed : MetricsError → Reason Float
  warmup_budget_expired : Reason Float
  did_not_stabilize : ℕ → Float → Reason Float
  accuracy_missing : String → Reason Float
  accuracy_gate_failed : Float → ObjectiveDirection → Float → Reason Float
  objective_gate_failed : Float → ObjectiveDirection → Float → Reason Float
  relative_gate_failed : Float → Float → Reason Float
  profiler_is_diagnostic : Reason Float

pub record StageResult (Float : Type 0) : Type 0 where
  pub stage : EvaluationStage
  pub executions : List ExecutionResult
  pub succeeded : Bool
  pub reason : Option (Reason Float)

pub record CommandSpec (Float : Type 0) : Type 0 where
  pub name : String
  pub argv : List String
  pub timeout_seconds : Option Float
  pub env_overrides : Dict (Option String)

pub record ObjectiveSpec (Float : Type 0) : Type 0 where
  pub metric : String
  pub direction : ObjectiveDirection
  pub baseline : Option Float
  pub minimum_relative_improvement : Float
  pub absolute_threshold : Option Float

pub record StabilitySpec (Float : Type 0) : Type 0 where
  pub warmup_runs : ℕ
  pub min_windows : ℕ
  pub max_windows : ℕ
  pub stable_windows : ℕ
  pub relative_tolerance : Float
  pub max_seconds : Float

pub record BenchmarkSpec (Float : Type 0) : Type 0 where
  pub command : CommandSpec Float
  pub metrics_path : String
  pub required_metrics : List String
  pub stability : Option (StabilitySpec Float)

pub record AccuracySpec (Float : Type 0) : Type 0 where
  pub command : CommandSpec Float
  pub result_path : String
  pub metric : String
  pub direction : ObjectiveDirection
  pub threshold : Float

pub record EvaluationPlan (Float : Type 0) : Type 0 where
  pub trial_id : String
  pub workspace : String
  pub preflight : List (CommandSpec Float)
  pub correctness : List (CommandSpec Float)
  pub benchmark : BenchmarkSpec Float
  pub objective : ObjectiveSpec Float
  pub accuracy : List (CommandSpec Float)
  pub accuracy_check : Option (AccuracySpec Float)
  pub profiler_trial : Bool

pub record AuthorizedEvaluation (Float : Type 0) : Type 0 where
  pub authorization_id : String
  pub plan : EvaluationPlan Float
  pub plan_digest : String

pub record TieredEvaluationResult (Float : Type 0) : Type 0 where
  pub trial_id : String
  pub outcome : EvaluationOutcome
  pub stages : List (StageResult Float)
  pub metrics : Dict Float
  pub objective_value : Option Float
  pub relative_improvement : Option Float
  pub gate_passed : Bool
  pub profiler_trial : Bool
  pub promotable : Bool
  pub artifact_dir : String
  pub measurement_values : List Float
  pub measurement_stable : Option Bool
  pub accuracy_metrics : Dict Float
  pub accuracy_value : Option Float
  pub failure_stage : Option EvaluationStage
  pub reason : Option (Reason Float)

-- What a metrics file holds, before `parse_metrics` looks at it: the text cannot be read or decoded,
-- it is blank, it is no JSON, or it is a document.
pub data FileText (Float : Type 0) : Type 0 where
  cannot_read blank not_json : FileText Float
  document : Json Float → FileText Float

-- What the evaluator calls: the command runner of execution.py, the clock, the file system, the
-- formatting of numbers, and the digest of a plan. `join` is pathlib's `/`, which keeps an absolute
-- right side, and `is_inside` is `is_relative_to`.
pub record Host (Float : Type 0) : Type 1 where
  pub World : Type 0
  pub run : String → EvaluationStage → String → CommandSpec Float → World → ExecutionResult × World
  pub monotonic : World → Float × World
  pub read_file : String → World → FileText Float
  pub resolve_strict : String → World → Option String
  pub resolve : String → World → String
  pub is_inside : String → String → World → Bool
  pub is_dir : String → World → Bool
  pub make_dir : String → World → Option World
  pub write_summary : TieredEvaluationResult Float → World → World
  pub write_windows : String → List Float → StabilitySpec Float → Bool → World → World
  pub join : String → String → String
  pub evidence_dir : String → EvaluationStage → ℕ → String → String
  pub show : ℕ → String
  pub show_two_digits : ℕ → String
  pub digest : EvaluationPlan Float → String

-- ===== src/Evaluator/Run.antt =====
-- `TieredEvaluator` (optimization/evaluator.py): single-use authorizations, and one evaluation.
pub mod Promotion
pub mod Authorization
pub mod FailFast
mod Examples
use Prim.Native.String.{◌++◌ as append}
use euboulia.Prelude.{
  ℕ, String, Bool, true, false, Option, none, some, List, [], ◌∷◌, ◌++◌, ◌&&◌, str_eq,
  if◌then◌else◌,
}
use euboulia.Prelude.Dict.{Dict, insert, lookup, remove}
use euboulia.Floats.{FloatOps}
use euboulia.Evaluator.{
  EvaluationStage, preflight, correctness, EvaluationOutcome, passed, rejected, failed,
  profile_only, Reason, profiler_is_diagnostic, StageResult, EvaluationPlan, AuthorizedEvaluation,
  TieredEvaluationResult, Host, MetricsError, CommandSpec, ok, err,
}
use euboulia.Evaluator.Metrics.{relative_improvement, gate}
use euboulia.Evaluator.Stages.{run_commands, run_accuracy, AccuracyRun, resolve_metrics_path}
use euboulia.Evaluator.Benchmark.{run_benchmark, BenchmarkRun}

-- The errors that `authorize` and `execute` raise.
pub data Refusal : Type 0 where
  not_approved workspace_missing not_a_directory unknown_authorization plan_changed
        artifacts_exist :
      Refusal
  bad_metrics_path : MetricsError → Refusal

pub data Outcome {ℓ} (A : Type ℓ) : Type ℓ where
  done : A → Outcome A
  refused : Refusal → Outcome A

-- The one field of the evaluator that changes.
pub record TieredEvaluator : Type 0 where
  pub artifact_root : String
  pub authorizations : Dict String

module _ (F : FloatOps) (H : Host F.Float) where
  open F use {Float}
  open H use {World, resolve_strict, is_dir, make_dir, write_summary, join, digest}

  unfoldable pub failed_result :
      EvaluationPlan Float
      → String
      → List (StageResult Float)
      → StageResult Float
      → TieredEvaluationResult Float
  failed_result plan dir stages stage = record {
    trial_id = plan.trial_id;
    outcome = failed;
    stages = stages;
    metrics = [];
    objective_value = none;
    relative_improvement = none;
    gate_passed = false;
    profiler_trial = plan.profiler_trial;
    promotable = false;
    artifact_dir = dir;
    measurement_values = [];
    measurement_stable = none;
    accuracy_metrics = [];
    accuracy_value = none;
    failure_stage = some stage.stage;
    reason = stage.reason;
  }

  -- _with_measurements
  abbrev with_measurements :
      TieredEvaluationResult Float → BenchmarkRun Float → TieredEvaluationResult Float
  with_measurements r b = record r {
    measurement_values = b.measurement_values;
    measurement_stable = b.stable;
  }

  abbrev has_accuracy : EvaluationPlan Float → Bool
  has_accuracy plan = elim plan.accuracy_check [
    | some spec ↦ true
    | none ↦ elim plan.accuracy [ [] ↦ false | c ∷ cs ↦ true ]
  ]

  -- A reason of the accuracy check overrides the gate.
  abbrev overridden :
      Option (Reason Float) → Bool × Option (Reason Float) → Bool × Option (Reason Float)
  overridden none g = g
  overridden (some r) g = (false, some r)

  abbrev diagnostic : Option (Reason Float) → Option (Reason Float)
  diagnostic none = some profiler_is_diagnostic
  diagnostic (some r) = some r

  -- From the gates on: the result of a plan whose tiers all succeeded.
  unfoldable pub judged :
      EvaluationPlan Float
      → String
      → List (StageResult Float)
      → BenchmarkRun Float
      → AccuracyRun F H
      → TieredEvaluationResult Float
  judged plan dir stages b a =
      let relative = relative_improvement F b.objective_value plan.objective in
      let (gate_passed, gate_reason) =
        overridden a.gate_reason (gate F b.objective_value relative plan.objective) in
      record {
        trial_id = plan.trial_id;
        outcome =
            if plan.profiler_trial then profile_only else if gate_passed then passed else rejected;
        stages = stages;
        metrics = b.metrics;
        objective_value = some b.objective_value;
        relative_improvement = relative;
        gate_passed = gate_passed;
        profiler_trial = plan.profiler_trial;
        promotable = if plan.profiler_trial then false else gate_passed;
        artifact_dir = dir;
        measurement_values = b.measurement_values;
        measurement_stable = b.stable;
        accuracy_metrics = a.metrics;
        accuracy_value = a.value;
        failure_stage = none;
        reason = if plan.profiler_trial then diagnostic gate_reason else gate_reason;
      }

  -- The accuracy tier and what follows it.
  unfoldable pub run_from_accuracy :
      EvaluationPlan Float
      → String
      → String
      → List (StageResult Float)
      → BenchmarkRun Float
      → World
      → TieredEvaluationResult Float × World
  run_from_accuracy plan workspace dir stages b w =
      let (a, w') = run_accuracy F H plan workspace dir w in
      let stages' = if has_accuracy plan then stages ++ a.result ∷ [] else stages in
      if a.result.succeeded
      then (judged plan dir stages' b a, w')
      else (with_measurements (failed_result plan dir stages' a.result) b, w')

  -- The benchmark tier and what follows it.
  unfoldable pub run_from_benchmark :
      EvaluationPlan Float
      → String
      → String
      → List (StageResult Float)
      → World
      → TieredEvaluationResult Float × World
  run_from_benchmark plan workspace dir stages w =
      let (b, w') = run_benchmark F H plan workspace dir w in
      let stages' = stages ++ b.result ∷ [] in
      if b.result.succeeded
      then run_from_accuracy plan workspace dir stages' b w'
      else (with_measurements (failed_result plan dir stages' b.result) b, w')

  -- The four tiers, in order.
  unfoldable pub run_tiers :
      EvaluationPlan Float → String → String → World → TieredEvaluationResult Float × World
  run_tiers plan workspace dir w =
      let (p, w₁) = run_commands F H preflight plan.preflight workspace dir w in
      let (c, w₂) = run_commands F H correctness plan.correctness workspace dir w₁ in
      if p.succeeded
      then (if c.succeeded
          then run_from_benchmark plan workspace dir (p ∷ c ∷ []) w₂
          else (failed_result plan dir (p ∷ c ∷ []) c, w₂))
      else (failed_result plan dir (p ∷ []) p, w₁)

  -- Everything that writes a result writes its summary last.
  unfoldable pub summarized :
      TieredEvaluationResult Float × World → TieredEvaluationResult Float × World
  summarized (r, w) = (r, write_summary r w)

  -- `execute` once the authorization has been checked.
  unfoldable pub run_plan :
      TieredEvaluator
      → AuthorizedEvaluation Float
      → World
      → Outcome (TieredEvaluationResult Float) × World
  run_plan self authorization w =
      let plan = authorization.plan in
      let dir = join (join self.artifact_root plan.trial_id) authorization.authorization_id in
      elim (resolve_strict plan.workspace w) [
        | none ↦ (refused workspace_missing, w)
        | some workspace ↦ elim (make_dir dir w) [
          | none ↦ (refused artifacts_exist, w)
          | some w' ↦ let (r, w'') = summarized (run_tiers plan workspace dir w') in (done r, w'')
        ]
      ]

  -- The two comparisons of digests.
  unchanged : String → AuthorizedEvaluation Float → Bool
  unchanged expected authorization =
      str_eq expected authorization.plan_digest && str_eq expected (digest authorization.plan)

  unfoldable pub execute :
      TieredEvaluator
      → AuthorizedEvaluation Float
      → World
      → Outcome (TieredEvaluationResult Float) × TieredEvaluator × World
  unfolding unchanged
  execute self authorization w =
      let expected = lookup authorization.authorization_id self.authorizations in
      let self' = record self {
        authorizations = remove authorization.authorization_id self.authorizations;
      } in
      elim expected [
        | none ↦ (refused unknown_authorization, self', w)
        | some e ↦
            let (r, w') = run_plan self' authorization w in
            if unchanged e authorization then (r, self', w') else (refused plan_changed, self', w)
      ]

  path_error : String → String → World → Option MetricsError
  path_error path workspace w = elim (resolve_metrics_path F H path workspace w) [
    | ok p ↦ none
    | err e ↦ some e
  ]

  -- The checks of the two paths: the first that fails.
  metrics_paths : EvaluationPlan Float → String → World → Option MetricsError
  unfolding path_error
  metrics_paths plan workspace w = elim (path_error plan.benchmark.metrics_path workspace w) [
    | some e ↦ some e
    | none ↦ elim plan.accuracy_check [
      | none ↦ none
      | some spec ↦ path_error spec.result_path workspace w
    ]
  ]

  -- `fresh_id` is the hexadecimal text of a new UUID.
  unfoldable pub authorize :
      TieredEvaluator
      → EvaluationPlan Float
      → Bool
      → String
      → World
      → Outcome (AuthorizedEvaluation Float) × TieredEvaluator
  unfolding metrics_paths
  authorize self plan approved fresh_id w =
      let minted : AuthorizedEvaluation Float = record {
        authorization_id = fresh_id;
        plan = plan;
        plan_digest = digest plan;
      } in
      let self' : TieredEvaluator = record self {
        authorizations = insert fresh_id (digest plan) self.authorizations;
      } in
      if approved
      then (elim (resolve_strict plan.workspace w) [
        | none ↦ (refused workspace_missing, self)
        | some workspace ↦
            if is_dir workspace w
            then (elim (metrics_paths plan workspace w) [
              | some e ↦ (refused (bad_metrics_path e), self)
              | none ↦ (done minted, self')
            ])
            else (refused not_a_directory, self)
      ])
      else (refused not_approved, self)

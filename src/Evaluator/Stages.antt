-- ===== src/Evaluator/Stages.antt =====
-- `_run_commands` and `_run_accuracy` (optimization/evaluator.py).
pub mod Order
use Prim.Native.String.{◌++◌ as append}
use euboulia.Prelude.{
  ℕ, suc, ◌+◌, String, Bool, true, false, Option, none, some, List, [], ◌∷◌, ◌++◌, if◌then◌else◌,
}
use euboulia.Prelude.Dict.{Dict, insert}
use euboulia.Floats.{FloatOps}
use euboulia.Evaluator.{
  EvaluationStage, accuracy, ExecutionResult, succeeded, MetricsError, outside, key_missing, Result,
  ok, err, ◌>>=◌, Reason, command_failed, metrics_failed, accuracy_missing, accuracy_gate_failed,
  StageResult, CommandSpec, AccuracySpec, EvaluationPlan, Host,
}
use euboulia.Evaluator.Metrics.{parse_metrics, value_at, passes}

module _ (F : FloatOps) (H : Host F.Float) where
  open F use {Float}
  open H use {World, run, read_file, resolve, is_inside, join, evidence_dir}

  -- The environment of one command: its overrides and where it may leave evidence.
  unfoldable pub with_evidence :
      String → EvaluationStage → ℕ → CommandSpec Float → CommandSpec Float
  with_evidence dir stage index c = record c {
    env_overrides =
        insert "EUBOULIA_COMMAND_EVIDENCE_DIR" (some (evidence_dir dir stage index c.name))
          c.env_overrides;
  }

  -- The loop over the commands, from the command with the given number on.
  unfoldable pub run_from :
      EvaluationStage
      → String
      → String
      → ℕ
      → List ExecutionResult
      → List (CommandSpec Float)
      → World
      → StageResult Float × World
  run_from stage workspace dir index executions [] w =
      (record { stage = stage; executions = executions; succeeded = true; reason = none }, w)
  run_from stage workspace dir index executions (c ∷ cs) w =
      let (e, w') = run dir stage workspace (with_evidence dir stage index c) w in
      let executions' = executions ++ e ∷ [] in
      let rest = run_from stage workspace dir (index + 1) executions' cs w' in
      if succeeded e then rest else (
        record {
          stage = stage;
          executions = executions';
          succeeded = false;
          reason = some (command_failed c.name e);
        },
        w',
      )

  unfoldable pub run_commands :
      EvaluationStage
      → List (CommandSpec Float)
      → String
      → String
      → World
      → StageResult Float × World
  unfolding run_from
  run_commands stage commands workspace dir w = run_from stage workspace dir 1 [] commands w

  -- _resolve_metrics_path
  unfoldable pub resolve_metrics_path : String → String → World → Result String
  resolve_metrics_path path workspace w =
      let resolved = resolve (join workspace path) w in
      if is_inside resolved workspace w then ok resolved else err outside

  pub record AccuracyRun : Type 0 where
    pub result : StageResult Float
    pub metrics : Dict Float
    pub value : Option Float
    pub gate_reason : Option (Reason Float)

  without_value : StageResult Float → AccuracyRun
  without_value stage = record { result = stage; metrics = []; value = none; gate_reason = none }

  accuracy_error : String → MetricsError → Reason Float
  accuracy_error metric (key_missing k) = accuracy_missing metric
  accuracy_error metric e = metrics_failed e

  accuracy_metrics : AccuracySpec Float → String → World → Result (Dict Float × Float)
  accuracy_metrics spec workspace w = do
    path ← resolve_metrics_path spec.result_path workspace w
    metrics ← parse_metrics F (read_file path w)
    value ← value_at F spec.metric metrics
    ok (metrics, value)

  judge_accuracy :
      AccuracySpec Float → StageResult Float → Result (Dict Float × Float) → AccuracyRun
  unfolding without_value accuracy_error
  judge_accuracy spec stage (err e) =
      without_value
        (record stage { succeeded = false; reason = some (accuracy_error spec.metric e) })
  judge_accuracy spec stage (ok (metrics, value)) = record {
    result = stage;
    metrics = metrics;
    value = some value;
    gate_reason =
        if passes F spec.direction value spec.threshold
        then none
        else some (accuracy_gate_failed value spec.direction spec.threshold);
  }

  unfoldable pub run_accuracy : EvaluationPlan Float → String → String → World → AccuracyRun × World
  unfolding judge_accuracy accuracy_metrics
  run_accuracy plan workspace dir w = elim plan.accuracy_check [
    | none ↦
        let (stage, w') = run_commands accuracy plan.accuracy workspace dir w in
        (without_value stage, w')
    | some spec ↦
        let (stage, w') = run_commands accuracy (spec.command ∷ []) workspace dir w in
        if stage.succeeded
        then (judge_accuracy spec stage (accuracy_metrics spec workspace w'), w')
        else (without_value stage, w')
  ]

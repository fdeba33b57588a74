-- ===== src/Evaluator/Benchmark.antt =====
-- `_run_benchmark` with its helpers (optimization/evaluator.py): warm-up runs, then measurement
-- windows until the objective is stable. A dict of medians lists its keys in another order here.
pub mod Windows
use Prim.Native.String.{◌++◌ as append}
use euboulia.Prelude.{
  ℕ, zero, suc, ◌+◌, ◌-◌, String, Bool, true, false, Option, none, some, List, [], ◌∷◌, ◌++◌, ◌&&◌,
  map, leb, length, if◌then◌else◌,
}
use euboulia.Prelude.Dict.{Dict, insert, lookup, has_key}
use euboulia.Floats.{FloatOps}
use euboulia.Evaluator.{
  EvaluationStage, benchmark, ExecutionResult, MetricsError, key_missing, Result, ok, err, ◌>>=◌,
  Reason, metrics_failed, objective_missing, warmup_budget_expired, did_not_stabilize, StageResult,
  CommandSpec, StabilitySpec, EvaluationPlan, Host,
}
use euboulia.Evaluator.Metrics.{benchmark_metrics}
use euboulia.Evaluator.Stages.{run_commands, resolve_metrics_path}

-- The last n elements, `values[-n:]`, for n at least 1.
drop {ℓ} : {A : Type ℓ} → ℕ → List A → List A
drop zero xs = xs
drop (suc n) [] = []
drop (suc n) (x ∷ xs) = drop n xs

unfoldable pub last {ℓ} : {A : Type ℓ} → ℕ → List A → List A
unfolding drop
last n xs = drop (length xs - n) xs

pub record BenchmarkRun (Float : Type 0) : Type 0 where
  pub result : StageResult Float
  pub metrics : Dict Float
  pub objective_value : Float
  pub measurement_values : List Float
  pub stable : Option Bool

module _ (F : FloatOps) where
  open F use {Float, zero_float, le, sub, div, abs, larger, tiny, median}

  -- max(...) over the deviations
  largest : Float → List Float → Float
  largest m [] = m
  largest m (x ∷ xs) = largest (larger m x) xs

  maximum : List Float → Float
  maximum [] = zero_float
  maximum (x ∷ xs) = largest x xs

  unfoldable pub values_stable : List Float → Float → Bool
  unfolding maximum largest
  values_stable values tolerance =
      let middle = median values in
      let scale = larger (abs middle) tiny in
      le (maximum (map (λ v. div (abs (sub v middle)) scale) values)) tolerance

  in_every : String → List (Dict Float) → Bool
  in_every k [] = true
  in_every k (m ∷ ms) = has_key m k && in_every k ms

  gather : String → List (Dict Float) → List Float
  gather k [] = []
  gather k (m ∷ ms) = elim (lookup k m) [ none ↦ gather k ms | some x ↦ x ∷ gather k ms ]

  medians_of : Dict Float → List (Dict Float) → Dict Float
  medians_of [] windows = []
  medians_of ((k, x) ∷ m) windows =
      let rest = medians_of m windows in
      if in_every k windows then (k, median (gather k windows)) ∷ rest else rest

  unfoldable pub median_metrics : List (Dict Float) → Dict Float
  unfolding medians_of in_every gather
  median_metrics [] = []
  median_metrics (m ∷ ms) = medians_of m (m ∷ ms)

  module _ (H : Host Float) where
    open H use {World, monotonic, read_file, write_windows, show, show_two_digits}

    unfoldable pub measurement_command : CommandSpec Float → String → ℕ → CommandSpec Float
    measurement_command c phase index = record c {
      name = append (append (append c.name (append "-" phase)) "-") (show_two_digits index);
      env_overrides = insert "EUBOULIA_MEASUREMENT_WINDOW" (some (show index)) (
          insert "EUBOULIA_MEASUREMENT_PHASE" (some phase) (
            insert "EUBOULIA_REPETITIONS" (some "1")
              (insert "EUBOULIA_WARMUPS" (some "0") c.env_overrides)));
    }

    unfoldable pub read_benchmark_metrics :
        EvaluationPlan Float → String → World → Result (Dict Float × Float)
    read_benchmark_metrics plan workspace w = do
      path ← resolve_metrics_path F H plan.benchmark.metrics_path workspace w
      benchmark_metrics F (read_file path w) plan.benchmark.required_metrics plan.objective.metric

    metrics_reason : String → MetricsError → Reason Float
    metrics_reason metric (key_missing k) = objective_missing metric
    metrics_reason metric e = metrics_failed e

    unfoldable pub metrics_failure : StageResult Float → String → MetricsError → StageResult Float
    unfolding metrics_reason
    metrics_failure stage metric e = record stage {
      succeeded = false;
      reason = some (metrics_reason metric e);
    }

    unfoldable pub failed_run :
        List ExecutionResult → Option (Reason Float) → List Float → Option Bool → BenchmarkRun Float
    failed_run executions reason values stable = record {
      result = record {
        stage = benchmark;
        executions = executions;
        succeeded = false;
        reason = reason;
      };
      metrics = [];
      objective_value = zero_float;
      measurement_values = values;
      stable = stable;
    }

    -- Warm-up: the executions if all went well, or the run that ends the benchmark.
    pub data Warmup : Type 0 where
      warm : List ExecutionResult → Warmup
      abandoned : BenchmarkRun Float → Warmup

    unfoldable pub warm_up :
        EvaluationPlan Float
        → StabilitySpec Float
        → Float
        → String
        → String
        → ℕ
        → ℕ
        → List ExecutionResult
        → World
        → Warmup × World
    warm_up plan stability started workspace dir zero index executions w = (warm executions, w)
    warm_up plan stability started workspace dir (suc left) index executions w =
        let command = measurement_command plan.benchmark.command "warmup" index in
        let (stage, w') = run_commands F H benchmark (command ∷ []) workspace dir w in
        let executions' = executions ++ stage.executions in
        let (now, w'') = monotonic w' in
        let rest = warm_up plan stability started workspace dir left (index + 1) executions' w'' in
        if stage.succeeded
        then (if le stability.max_seconds (sub now started)
            then (
              abandoned (failed_run executions' (some warmup_budget_expired) [] (some false)),
              w'',
            )
            else rest)
        else (abandoned (failed_run executions' stage.reason [] (some false)), w')

    -- The measurement loop: a run that ends the benchmark, or what the windows gave.
    pub data Measured : Type 0 where
      broken_off : BenchmarkRun Float → Measured
      measured : List ExecutionResult → List (Dict Float) → List Float → Bool → Measured

    unfoldable pub enough : StabilitySpec Float → List Float → Bool
    enough stability values =
        leb stability.min_windows (length values)
        && values_stable (last stability.stable_windows values) stability.relative_tolerance

    -- The rest of one window, once its metrics file has been read: `is_late` is the test of the clock,
    -- `w''` the world after it, and `go_on` the next round of the loop.
    unfoldable pub after_window :
        EvaluationPlan Float
        → StabilitySpec Float
        → List ExecutionResult
        → List (Dict Float)
        → List Float
        → World
        → World
        → Bool
        → (List (Dict Float) → List Float → Measured × World)
        → Result (Dict Float × Float)
        → Measured × World
    after_window plan stability executions windows values w' w'' is_late go_on (err e) =
        let stage : StageResult Float = record {
          stage = benchmark;
          executions = executions;
          succeeded = true;
          reason = none;
        } in
        (
          broken_off (record {
            result = metrics_failure stage plan.objective.metric e;
            metrics = [];
            objective_value = zero_float;
            measurement_values = values;
            stable = some false;
          }),
          w',
        )
    after_window plan stability executions windows values w' w'' is_late go_on
          (ok (metrics, value)) =
        let windows' = windows ++ metrics ∷ [] in
        let values' = values ++ value ∷ [] in
        let rest = go_on windows' values' in
        if enough stability values'
        then (measured executions windows' values' true, w')
        else if is_late
        then (measured executions windows' values' false, w'')
        else rest

    unfoldable pub measure :
        EvaluationPlan Float
        → StabilitySpec Float
        → Float
        → String
        → String
        → ℕ
        → ℕ
        → List ExecutionResult
        → List (Dict Float)
        → List Float
        → World
        → Measured × World
    measure plan stability started workspace dir zero index executions windows values w =
        (measured executions windows values false, w)
    measure plan stability started workspace dir (suc left) index executions windows values w =
        let command = measurement_command plan.benchmark.command "measurement" index in
        let (stage, w') = run_commands F H benchmark (command ∷ []) workspace dir w in
        let executions' = executions ++ stage.executions in
        let (now, w'') = monotonic w' in
        let go_on : List (Dict Float) → List Float → Measured × World = λ windows' values'.
          measure plan stability started workspace dir left (index + 1) executions' windows' values'
            w'' in
        if stage.succeeded
        then after_window plan stability executions' windows values w' w''
            (le stability.max_seconds (sub now started)) go_on
            (read_benchmark_metrics plan workspace w')
        else (broken_off (failed_run executions' stage.reason values (some false)), w')

    unfoldable pub conclude :
        EvaluationPlan Float
        → StabilitySpec Float
        → String
        → Measured
        → World
        → BenchmarkRun Float × World
    conclude plan stability dir (broken_off r) w = (r, w)
    conclude plan stability dir (measured executions windows values stable) w =
        let w' = write_windows dir values stability stable w in
        let objective = median values in
        if stable
        then (
          record {
            result = record {
              stage = benchmark;
              executions = executions;
              succeeded = true;
              reason = none;
            };
            metrics = insert plan.objective.metric objective (median_metrics windows);
            objective_value = objective;
            measurement_values = values;
            stable = some true;
          },
          w',
        )
        else (
          failed_run executions (some (did_not_stabilize (length values) stability.max_seconds))
              values (some false),
          w',
        )

    unfoldable pub after_warm_up :
        EvaluationPlan Float
        → StabilitySpec Float
        → Float
        → String
        → String
        → Warmup
        → World
        → BenchmarkRun Float × World
    after_warm_up plan stability started workspace dir (abandoned r) w = (r, w)
    after_warm_up plan stability started workspace dir (warm executions) w =
        let (m, w') =
          measure plan stability started workspace dir stability.max_windows 1 executions [] [] w in
        conclude plan stability dir m w'

    single_run :
        EvaluationPlan Float → StageResult Float → Result (Dict Float × Float) → BenchmarkRun Float
    single_run plan stage (err e) = record {
      result = metrics_failure stage plan.objective.metric e;
      metrics = [];
      objective_value = zero_float;
      measurement_values = [];
      stable = none;
    }
    single_run plan stage (ok (metrics, value)) = record {
      result = stage;
      metrics = metrics;
      objective_value = value;
      measurement_values = value ∷ [];
      stable = none;
    }

    without_stability : EvaluationPlan Float → String → String → World → BenchmarkRun Float × World
    unfolding single_run
    without_stability plan workspace dir w =
        let (stage, w') =
          run_commands F H benchmark (plan.benchmark.command ∷ []) workspace dir w in
        if stage.succeeded
        then (single_run plan stage (read_benchmark_metrics plan workspace w'), w')
        else (
          record {
            result = stage;
            metrics = [];
            objective_value = zero_float;
            measurement_values = [];
            stable = none;
          },
          w',
        )

    unfoldable pub run_policy :
        Option (StabilitySpec Float)
        → EvaluationPlan Float
        → String
        → String
        → World
        → BenchmarkRun Float × World
    unfolding without_stability
    run_policy none plan workspace dir w = without_stability plan workspace dir w
    run_policy (some stability) plan workspace dir w =
        let (started, w₀) = monotonic w in
        let (warmed, w') =
          warm_up plan stability started workspace dir stability.warmup_runs 1 [] w₀ in
        after_warm_up plan stability started workspace dir warmed w'

    unfoldable pub run_benchmark :
        EvaluationPlan Float → String → String → World → BenchmarkRun Float × World
    run_benchmark plan workspace dir w = run_policy plan.benchmark.stability plan workspace dir w

-- ===== src/Evaluator/Run/Examples.antt =====
-- Evaluations (optimization/evaluator.py) on a host whose world counts the commands that ran: a
-- command named "bad" fails, and every metrics file gives a latency of one second.
use euboulia.Prelude.{
  ℕ, suc, ◌≤◌, ◌≡◌, ◌↔◌, refl, String, Bool, true, false, Option, none, some, List, [], ◌∷◌, length,
  str_eq, if◌then◌else◌,
}
use euboulia.Prelude.Dict.{lookup, insert, remove, has_key}
use euboulia.Floats.Scaled.{ℤ, pos, thousandths}
use euboulia.Evaluator.{
  correctness, minimize, ExecutionResult, Fields, number, object, end, field, Host, FileText,
  document, CommandSpec, ObjectiveSpec, StabilitySpec, EvaluationPlan, AuthorizedEvaluation,
  TieredEvaluationResult, ok, failed, succeeded,
}
use euboulia.Evaluator.Metrics.{
  parse_metrics, benchmark_metrics, missing_keys, gate, relative_improvement,
}
use euboulia.Evaluator.Metrics.Finite.{benchmark_metrics-ok}
use euboulia.Evaluator.Metrics.Gate.{Meets, gate_lem}
use euboulia.Evaluator.Stages.{run_commands, run_accuracy, resolve_metrics_path, with_evidence}
use euboulia.Evaluator.Stages.Order.{Tier, run_commands-Tier}
use euboulia.Evaluator.Benchmark.{read_benchmark_metrics, run_policy, run_benchmark}
use euboulia.Evaluator.Benchmark.Windows.{IsStable, run_benchmark-IsStable}
use euboulia.Evaluator.Run.{
  judged, run_from_accuracy, summarized, failed_result, run_from_benchmark, run_plan,
  TieredEvaluator, run_tiers, execute, authorize, done, refused, unknown_authorization,
}
use euboulia.Evaluator.Run.Promotion.{IsPromoted, promotable_lem}
use euboulia.Evaluator.Run.FailFast.{IsFailure, failed_lem}
use euboulia.Evaluator.Run.Authorization.{single_use, executed_as_approved}

abbrev outcome_of : String → List String → ExecutionResult
outcome_of name argv = record {
  argv = argv;
  returncode = some (if str_eq name "bad" then 1 else 0);
  timed_out = false;
  dry_run = false;
  error = none;
}

abbrev one_second : Fields ℤ
one_second = field "latency" (number (pos 1000)) end

abbrev host : Host ℤ
host = record {
  World = ℕ;
  run = λ dir stage workspace c w. (outcome_of c.name c.argv, suc w);
  monotonic = λ w. (pos w, w);
  read_file = λ path w. document (object one_second);
  resolve_strict = λ path w. some path;
  resolve = λ path w. path;
  is_inside = λ path workspace w. true;
  is_dir = λ path w. true;
  make_dir = λ path w. some w;
  write_summary = λ r w. w;
  write_windows = λ dir values s stable w. w;
  join = λ a b. b;
  evidence_dir = λ dir stage n name. dir;
  show = λ n. "";
  show_two_digits = λ n. "";
  digest = λ plan. plan.trial_id;
}

abbrev command : String → CommandSpec ℤ
command name = record { name = name; argv = name ∷ []; timeout_seconds = none; env_overrides = [] }

abbrev latency : ObjectiveSpec ℤ
latency = record {
  metric = "latency";
  direction = minimize;
  baseline = some (pos 1000);
  minimum_relative_improvement = pos 0;
  absolute_threshold = none;
}

abbrev policy : StabilitySpec ℤ
policy = record {
  warmup_runs = 1;
  min_windows = 2;
  max_windows = 3;
  stable_windows = 2;
  relative_tolerance = pos 10;
  max_seconds = pos 1000;
}

abbrev plan_with : String → Option (StabilitySpec ℤ) → EvaluationPlan ℤ
plan_with check stability = record {
  trial_id = "trial";
  workspace = "w";
  preflight = command "check" ∷ [];
  correctness = command check ∷ [];
  benchmark = record {
    command = command "bench";
    metrics_path = "m.json";
    required_metrics = "latency" ∷ [];
    stability = stability;
  };
  objective = latency;
  accuracy = [];
  accuracy_check = none;
  profiler_trial = false;
}

abbrev good : EvaluationPlan ℤ
good = plan_with "tests" none

abbrev contents : FileText ℤ
contents = document (object one_second)

read_latency :
    benchmark_metrics thousandths contents ("latency" ∷ []) "latency"
    ≡ ok (("latency", pos 1000) ∷ [], pos 1000)
unfolding benchmark_metrics parse_metrics insert missing_keys has_key
read_latency = refl

benchmark_metrics-ok_example :
    (◌≡◌ {A = Bool} true true)
    × (lookup "latency" (("latency", pos 1000) ∷ []) ≡ some (pos 1000))
    × (missing_keys thousandths ("latency" ∷ []) (("latency", pos 1000) ∷ []) ≡ [])
benchmark_metrics-ok_example =
    benchmark_metrics-ok thousandths contents ("latency" ∷ []) "latency"
      (("latency", pos 1000) ∷ []) (pos 1000) read_latency

gate_lem_example :
    let outcome =
      gate thousandths (pos 900) (relative_improvement thousandths (pos 900) latency) latency in
    ((outcome.0 ≡ true) ↔ Meets thousandths latency (pos 900))
    × ((outcome.0 ≡ true) ↔ (outcome.1 ≡ none))
gate_lem_example = gate_lem thousandths latency (pos 900)

run_commands-Tier_example :
    let (s, w') =
      run_commands thousandths host correctness
        (command "ok" ∷ command "bad" ∷ command "ok" ∷ [])
        "w"
        "d"
        0 in
    Tier thousandths host correctness "w" "d" 1
      (command "ok" ∷ command "bad" ∷ command "ok" ∷ [])
      0
      s.succeeded
      s.executions
      w'
    × (s.stage ≡ correctness)
run_commands-Tier_example =
    run_commands-Tier thousandths host correctness
      (command "ok" ∷ command "bad" ∷ command "ok" ∷ []) "w" "d" 0

run_benchmark-IsStable_example :
    let r = (run_benchmark thousandths host (plan_with "tests" (some policy)) "w" "d" 0).0 in
    (length r.result.executions ≤ 4)
    × (r.result.succeeded ≡ true
        → IsStable thousandths host (plan_with "tests" (some policy)) policy r)
run_benchmark-IsStable_example =
    run_benchmark-IsStable thousandths host (plan_with "tests" (some policy)) policy "w" "d" 0 refl

good_promotable : (run_tiers thousandths host good "w" "d" 0).0.promotable ≡ true
unfolding run_tiers run_from_benchmark run_from_accuracy judged run_commands with_evidence insert
    run_benchmark run_policy run_accuracy succeeded gate relative_improvement read_benchmark_metrics
    resolve_metrics_path benchmark_metrics parse_metrics missing_keys has_key
good_promotable = refl

promotable_lem_example :
    IsPromoted thousandths host good (run_tiers thousandths host good "w" "d" 0).0
promotable_lem_example = promotable_lem thousandths host good "w" "d" 0 good_promotable

abbrev broken : EvaluationPlan ℤ
broken = plan_with "bad" none

broken_failed : (run_tiers thousandths host broken "w" "d" 0).0.outcome ≡ failed
unfolding run_tiers run_commands succeeded failed_result with_evidence
broken_failed = refl

failed_lem_example : IsFailure thousandths host (run_tiers thousandths host broken "w" "d" 0).0
failed_lem_example = failed_lem thousandths host broken "w" "d" 0 broken_failed

abbrev empty_evaluator : TieredEvaluator
empty_evaluator = record { artifact_root = "a"; authorizations = [] }

abbrev ticket : AuthorizedEvaluation ℤ
ticket = record { authorization_id = "id"; plan = good; plan_digest = "trial" }

abbrev holding : TieredEvaluator
holding = record { artifact_root = "a"; authorizations = ("id", "trial") ∷ [] }

single_use_example :
    let again = execute thousandths host (execute thousandths host holding ticket 0).1 ticket 7 in
    (again.0 ≡ refused unknown_authorization) × (again.2 ≡ 7)
single_use_example = single_use thousandths host holding ticket ticket 0 7 refl

abbrev result : TieredEvaluationResult ℤ
result = (run_tiers thousandths host good "w" "id" 0).0

minted : (authorize thousandths host empty_evaluator good true "id" 0).0 ≡ done ticket
unfolding authorize resolve_metrics_path
minted = refl

executed :
    (execute thousandths host
      (authorize thousandths host empty_evaluator good true "id" 0).1
      ticket
      0).0
    ≡ done result
unfolding authorize execute run_plan summarized lookup insert remove resolve_metrics_path
executed = refl

executed_as_approved_example : (◌≡◌ {A = Bool} true true) × (host.digest good ≡ host.digest good)
executed_as_approved_example =
    executed_as_approved thousandths host empty_evaluator good true "id" 0 0 ticket ticket result
      minted refl executed

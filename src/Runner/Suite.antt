-- ===== src/Runner/Suite.antt =====
-- `_execute_workload_suite` and `_aggregate_suite_result` of runner.py, and what the runner reads of
-- their results.
pub mod Effects
pub mod Tracking
pub mod Verdict
use euboulia.Evaluator.{profile_only, failed, passed, rejected}
use euboulia.Prelude.{
  String, Bool, true, false, not, ◌&&◌, ◌||◌, Option, none, some, List, [], ◌∷◌, ◌++◌,
  if◌then◌else◌, ℕ, zero, suc, leb, length, map,
}
use euboulia.Prelude.Dict.{Dict, insert, lookup, has_key}
use euboulia.Floats.{FloatOps}
use euboulia.Runner.{
  points_rejected, invalid, required_point_failed, IterationState, SuiteReason,
  WorkloadSuiteEvaluationResult, accepted, EvaluationOutcome, OutcomeStatus, PointRequest,
  PromotionConfig, TieredEvaluationResult, RunnerHost, RunConfig, Role, Evaluation, single, suite,
  runtime_error,
}
use euboulia.Runner.Exec.{Exec, ◌>>=◌, ◌>>◌, return, raise, call}

abbrev is_failed : EvaluationOutcome → Bool
is_failed failed = true
is_failed _ = false

abbrev is_rejected : EvaluationOutcome → Bool
is_rejected rejected = true
is_rejected _ = false

abbrev pub is_passed : EvaluationOutcome → Bool
is_passed passed = true
is_passed _ = false

module _ {Float : Type 0} where
  -- Names of the dict's entries that pass a test, in order.
  names_where :
      (TieredEvaluationResult Float → Bool) → Dict (TieredEvaluationResult Float) → List String
  names_where test [] = []
  names_where test ((name, r) ∷ rest) =
      let later = names_where test rest in if test r then name ∷ later else later

  abbrev with_value : String → Option Float → Dict Float → Dict Float
  with_value name none rest = rest
  with_value name (some x) rest = (name, x) ∷ rest

  collected :
      (TieredEvaluationResult Float → Option Float)
      → Dict (TieredEvaluationResult Float)
      → Dict Float
  collected read [] = []
  collected read ((name, r) ∷ rest) = with_value name (read r) (collected read rest)

  -- A required point is missing, or its evaluation failed.
  unfoldable pub point_failed : Dict (TieredEvaluationResult Float) → String → Bool
  point_failed results name = elim (lookup name results) [
    | none ↦ true
    | some r ↦ is_failed r.outcome
  ]

  unfoldable pub any_failed : Dict (TieredEvaluationResult Float) → List String → Bool
  unfolding point_failed
  any_failed results [] = false
  any_failed results (name ∷ names) = point_failed results name || any_failed results names

  unfoldable pub suite_outcome :
      Dict (TieredEvaluationResult Float) → List String → EvaluationOutcome × Option SuiteReason
  unfolding any_failed names_where
  suite_outcome results required =
      if any_failed results required
      then (failed, some required_point_failed)
      else elim (names_where (λ r. is_rejected r.outcome) results) [
        | [] ↦ (passed, none)
        | name ∷ names ↦ (rejected, some (points_rejected (name ∷ names)))
      ]

  unfoldable pub values_of : Dict Float → List String → List Float
  values_of values [] = []
  values_of values (name ∷ names) = elim (lookup name values) [
    | none ↦ values_of values names
    | some x ↦ x ∷ values_of values names
  ]

module _ (F : FloatOps) where
  open F use {Float, lt}

  smaller : Float → List Float → Float
  smaller least [] = least
  smaller least (x ∷ xs) = smaller (if lt x least then x else least) xs

  -- min(values) if values else None
  least : List Float → Option Float
  unfolding smaller
  least [] = none
  least (x ∷ xs) = some (smaller x xs)

  unfoldable pub required_names : PromotionConfig → Bool → List String → List String
  required_names promotion gate points =
      if not gate || promotion.require_all_points_valid then points else promotion.primary_points

  unfoldable pub suite_result :
      PromotionConfig
      → Bool
      → List String
      → Dict (TieredEvaluationResult Float)
      → WorkloadSuiteEvaluationResult Float
  unfolding suite_outcome required_names least collected values_of
  suite_result promotion gate points results =
      let (outcome, reason) = suite_outcome results (required_names promotion gate points) in
      let relatives = collected (λ r. r.relative_improvement) results in
      record {
        outcome = outcome;
        point_results = results;
        primary_points = promotion.primary_points;
        objective_values = collected (λ r. r.objective_value) results;
        relative_improvements = relatives;
        relative_improvement = least (values_of relatives promotion.primary_points);
        gate_passed = is_passed outcome;
        promotable = is_passed outcome;
        reason = reason;
      }

  module _ (H : RunnerHost Float) where
    aggregate_with :
        Bool
        → List String
        → Dict (TieredEvaluationResult Float)
        → Option PromotionConfig
        → Exec H.World (Evaluation Float)
    aggregate_with gate points results none =
        raise (runtime_error "optimization.evaluation.promotion is required")
    aggregate_with gate points results (some promotion) = do
      call H.write_summary
      return (suite (suite_result promotion gate points results))

    unfoldable pub aggregate_suite_result :
        RunConfig Float
        → Bool
        → List String
        → Dict (TieredEvaluationResult Float)
        → Exec H.World (Evaluation Float)
    unfolding aggregate_with
    aggregate_suite_result config gate points results =
        aggregate_with gate points results config.promotion

    -- promotion is None or promotion.require_all_points_valid
    needs_all : Option PromotionConfig → Bool
    needs_all none = true
    needs_all (some p) = p.require_all_points_valid

    is_first : ℕ → Bool
    is_first zero = true
    is_first (suc n) = false

    request : Bool → ℕ × Role → Dict Float → Bool → ℕ → String → List String → PointRequest Float
    unfolding is_first
    request qualification trial baselines gate index point later = record {
      trial = trial;
      point = point;
      baseline_value = lookup point baselines;
      apply_promotion_gate = gate;
      include_checks = is_first index;
      include_accuracy = qualification && leb (length later) 0;
    }

    -- for index, point in enumerate(selected_points)
    unfoldable pub evaluate_points :
        RunConfig Float
        → Bool
        → ℕ × Role
        → Dict Float
        → Bool
        → ℕ
        → List String
        → Dict (TieredEvaluationResult Float)
        → Exec H.World (Dict (TieredEvaluationResult Float))
    unfolding needs_all is_first request
    evaluate_points config qualification trial baselines gate index [] results = return results
    evaluate_points config qualification trial baselines gate index (point ∷ later) results =
        call (H.evaluate_point (request qualification trial baselines gate index point later))
        >>= λ r.
            if is_failed r.outcome && (is_first index || needs_all config.promotion)
            then return (insert point r results)
            else evaluate_points config qualification trial baselines gate (suc index) later
                (insert point r results)

    -- The result of a single point stands for itself under schema version 2.
    suite_or_single :
        RunConfig Float
        → Bool
        → List String
        → Dict (TieredEvaluationResult Float)
        → Exec H.World (Evaluation Float)
    unfolding aggregate_suite_result
    suite_or_single config gate points ((name, r) ∷ []) =
        if config.is_version_two
        then return (single r)
        else aggregate_suite_result config gate points ((name, r) ∷ [])
    suite_or_single config gate points results = aggregate_suite_result config gate points results

    -- The points of a lane are points of the suite.
    unfoldable pub execute_workload_suite :
        RunConfig Float → Bool → ℕ × Role → Dict Float → Bool → Exec H.World (Evaluation Float)
    unfolding evaluate_points suite_or_single
    execute_workload_suite config qualification trial baselines gate =
        let points = if qualification then config.qualification_points else config.fast_points in
        if config.has_metrics_path
        then (evaluate_points config qualification trial baselines gate 0 points [] >>= λ results.
            suite_or_single config gate points results)
        else raise (runtime_error "optimization.evaluation.metrics_path is required")

module _ {Float : Type 0} where
  unfoldable pub outcome_of : Evaluation Float → EvaluationOutcome
  outcome_of (single r) = r.outcome
  outcome_of (suite r) = r.outcome

  unfoldable pub is_promotable : Evaluation Float → Bool
  is_promotable (single r) = r.promotable
  is_promotable (suite r) = r.promotable

  unfoldable pub improvement_of : Evaluation Float → Option Float
  improvement_of (single r) = r.relative_improvement
  improvement_of (suite r) = r.relative_improvement

  abbrev first_point : List String → Option Float → Dict Float
  first_point (name ∷ names) (some x) = (name, x) ∷ []
  first_point _ _ = []

  -- _objective_values; the suite has a point
  unfoldable pub objective_values_of : RunConfig Float → Evaluation Float → Dict Float
  objective_values_of config (suite r) = r.objective_values
  objective_values_of config (single r) = first_point config.suite_points r.objective_value

-- _outcome_status
unfoldable pub outcome_status : EvaluationOutcome → Bool → OutcomeStatus
outcome_status passed true = accepted
outcome_status rejected promotable = OutcomeStatus.rejected
outcome_status profile_only promotable = invalid
outcome_status _ promotable = OutcomeStatus.failed

-- _terminal_iteration_state
unfoldable pub terminal_iteration_state : OutcomeStatus → IterationState
terminal_iteration_state accepted = IterationState.accepted
terminal_iteration_state OutcomeStatus.rejected = IterationState.rejected
terminal_iteration_state invalid = IterationState.invalid
terminal_iteration_state OutcomeStatus.failed = IterationState.failed

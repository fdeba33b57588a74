-- ===== src/Evaluator/Run/Promotion.antt =====
-- When an evaluation (optimization/evaluator.py) may be promoted.
use euboulia.Prelude.{
  if-elim, ◌≡◌, refl, String, true, false, none, some, List, [], ◌∷◌, ◌++◌, arith,
}
use euboulia.Floats.{FloatOps}
use euboulia.Evaluator.{
  correctness, preflight, EvaluationPlan, TieredEvaluationResult, StageResult, Host, passed,
}
use euboulia.Evaluator.Metrics.{relative_improvement}
use euboulia.Evaluator.Metrics.Gate.{Meets, gate_lem, gate_reason}
use euboulia.Evaluator.Stages.{AccuracyRun, run_accuracy, run_commands}
use euboulia.Evaluator.Benchmark.{BenchmarkRun, run_benchmark}
use euboulia.Evaluator.Run.{
  with_measurements, has_accuracy, judged, failed_result, run_from_accuracy, run_from_benchmark,
  run_tiers,
}

module _ (F : FloatOps) (H : Host F.Float) where
  open F use {Float}
  open H use {World}

  abbrev pub AllSucceeded : List (StageResult Float) → Type 0
  AllSucceeded [] = Unit
  AllSucceeded (s ∷ ss) = (s.succeeded ≡ true) × AllSucceeded ss

  pub AllSucceeded-append :
      (ss : List (StageResult Float)) (s : StageResult Float)
      → AllSucceeded ss
      → s.succeeded ≡ true
      → AllSucceeded (ss ++ s ∷ [])
  AllSucceeded-append [] s a h = (h, tt)
  AllSucceeded-append (q ∷ ss) s a h = (a.0, AllSucceeded-append ss s a.1 h)

  -- What a promotable result promises.
  pub record IsPromoted (plan : EvaluationPlan Float) (r : TieredEvaluationResult Float)
      : Type 0 where
    pub outcome_passed : r.outcome ≡ passed
    pub gate_open : r.gate_passed ≡ true
    pub not_profiled : plan.profiler_trial ≡ false
    pub all_succeeded : AllSucceeded r.stages
    pub no_failure : r.failure_stage ≡ none
    pub no_reason : r.reason ≡ none
    pub value : Float
    pub value_is : r.objective_value ≡ some value
    pub meets : Meets F plan.objective value

  abbrev Promises : EvaluationPlan Float → TieredEvaluationResult Float → Type 0
  Promises plan r = r.promotable ≡ true → IsPromoted plan r

  judged-Promises :
      (plan : EvaluationPlan Float) (dir : String) (ss : List (StageResult Float))
      (b : BenchmarkRun Float) (a : AccuracyRun F H)
      → AllSucceeded ss
      → Promises plan (judged F H plan dir ss b a)
  unfolding judged
  judged-Promises plan dir ss b a all h = record {
    outcome_passed = ground arith;
    gate_open = ground arith;
    not_profiled = ground arith;
    all_succeeded = all;
    no_failure = refl;
    no_reason = ground (
      arith,
      (gate_reason F plan.objective b.objective_value
          (relative_improvement F b.objective_value plan.objective)).0,
    );
    value = b.objective_value;
    value_is = refl;
    meets = (gate_lem F plan.objective b.objective_value).0.0 (ground arith);
  }

  failed-Promises :
      (plan : EvaluationPlan Float) (dir : String) (ss : List (StageResult Float))
      (s : StageResult Float)
      → Promises plan (failed_result F H plan dir ss s)
  unfolding failed_result
  failed-Promises plan dir ss s h = cc

  measured-Promises :
      (plan : EvaluationPlan Float) (dir : String) (ss : List (StageResult Float))
      (s : StageResult Float) (b : BenchmarkRun Float)
      → Promises plan (with_measurements F H (failed_result F H plan dir ss s) b)
  unfolding failed_result
  measured-Promises plan dir ss s b h = cc

  abbrev FirstPromises : EvaluationPlan Float → TieredEvaluationResult Float × World → Type 0
  FirstPromises plan p = Promises plan p.0

  accuracy-Promises :
      (plan : EvaluationPlan Float) (workspace dir : String) (ss : List (StageResult Float))
      (b : BenchmarkRun Float) (w : World)
      → AllSucceeded ss
      → FirstPromises plan (run_from_accuracy F H plan workspace dir ss b w)
  unfolding run_from_accuracy
  accuracy-Promises plan workspace dir ss b w all =
      let a = (run_accuracy F H plan workspace dir w).0 in
      if-elim (FirstPromises plan) a.result.succeeded _ _
        (λ fine. judged-Promises plan dir _ b a (
          if-elim AllSucceeded (has_accuracy F H plan) _ _
            (λ there. AllSucceeded-append ss a.result all fine) (λ absent. all)))
        (λ bad. measured-Promises plan dir _ a.result b)

  benchmark-Promises :
      (plan : EvaluationPlan Float) (workspace dir : String) (ss : List (StageResult Float))
      (w : World)
      → AllSucceeded ss
      → FirstPromises plan (run_from_benchmark F H plan workspace dir ss w)
  unfolding run_from_benchmark
  benchmark-Promises plan workspace dir ss w all =
      let (b, w') = run_benchmark F H plan workspace dir w in
      if-elim (FirstPromises plan) b.result.succeeded _ _
        (λ fine.
          accuracy-Promises plan workspace dir _ b w' (AllSucceeded-append ss b.result all fine))
        (λ bad. measured-Promises plan dir _ b.result b)

  tiers-Promises :
      (plan : EvaluationPlan Float) (workspace dir : String) (w : World)
      → FirstPromises plan (run_tiers F H plan workspace dir w)
  unfolding run_tiers
  tiers-Promises plan workspace dir w =
      let (p, w₁) = run_commands F H preflight plan.preflight workspace dir w in
      let (c, w₂) = run_commands F H correctness plan.correctness workspace dir w₁ in
      if-elim (FirstPromises plan) p.succeeded _ _
        (λ fine.
          if-elim (FirstPromises plan) c.succeeded _ _
            (λ correct. benchmark-Promises plan workspace dir _ w₂ (fine, (correct, tt)))
            (λ wrong. failed-Promises plan dir _ c))
        (λ bad. failed-Promises plan dir _ p)

  -- A result that may be promoted comes from a plan that is no profiler trial: every tier that ran
  -- succeeded, the outcome is `passed` with no reason and no failed stage, and the objective value meets
  -- the threshold and the improvement that the plan asks for.
  pub promotable_lem :
      (plan : EvaluationPlan Float) (workspace dir : String) (w : World)
      → (run_tiers F H plan workspace dir w).0.promotable ≡ true
      → IsPromoted plan (run_tiers F H plan workspace dir w).0
  promotable_lem plan workspace dir w h = tiers-Promises plan workspace dir w h

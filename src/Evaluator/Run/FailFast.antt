-- ===== src/Evaluator/Run/FailFast.antt =====
-- An evaluation (optimization/evaluator.py) stops at the first tier that fails.
use euboulia.Prelude.{
  ◌≡◌, refl, String, true, false, none, some, List, [], ◌∷◌, ◌++◌, arith, if-elim,
}
use euboulia.Floats.{FloatOps}
use euboulia.Evaluator.{
  EvaluationPlan, TieredEvaluationResult, StageResult, Host, failed, preflight, correctness,
}
use euboulia.Evaluator.Stages.{AccuracyRun, run_accuracy, run_commands}
use euboulia.Evaluator.Benchmark.{BenchmarkRun, run_benchmark}
use euboulia.Evaluator.Run.{
  judged, failed_result, with_measurements, has_accuracy, run_from_accuracy, run_from_benchmark,
  run_tiers,
}
use euboulia.Evaluator.Run.Promotion.{AllSucceeded, AllSucceeded-append}

module _ (F : FloatOps) (H : Host F.Float) where
  open F use {Float}
  open H use {World}

  -- A failed result: the tiers that ran all succeeded but the last, which is the one named as failed,
  -- and there is no objective value, no open gate and no promotion.
  pub record IsFailure (r : TieredEvaluationResult Float) : Type 0 where
    pub before : List (StageResult Float)
    pub last_stage : StageResult Float
    pub stages_are : r.stages ≡ before ++ last_stage ∷ []
    pub before_succeeded : AllSucceeded F H before
    pub last_failed : last_stage.succeeded ≡ false
    pub named : r.failure_stage ≡ some last_stage.stage
    pub explained : r.reason ≡ last_stage.reason
    pub no_value : r.objective_value ≡ none
    pub gate_shut : r.gate_passed ≡ false
    pub not_promotable : r.promotable ≡ false

  abbrev Fails : TieredEvaluationResult Float × World → Type 0
  Fails p = p.0.outcome ≡ failed → IsFailure p.0

  judged-Fails :
      (plan : EvaluationPlan Float) (dir : String) (ss : List (StageResult Float))
      (b : BenchmarkRun Float) (a : AccuracyRun F H) (w : World)
      → Fails (judged F H plan dir ss b a, w)
  unfolding judged
  judged-Fails plan dir ss b a w h = absurd (ground arith)

  failed-IsFailure :
      (plan : EvaluationPlan Float) (dir : String) (ss : List (StageResult Float))
      (s : StageResult Float)
      → AllSucceeded F H ss
      → s.succeeded ≡ false
      → IsFailure (failed_result F H plan dir (ss ++ s ∷ []) s)
  unfolding failed_result
  failed-IsFailure plan dir ss s all bad = record {
    before = ss;
    last_stage = s;
    stages_are = refl;
    before_succeeded = all;
    last_failed = bad;
    named = refl;
    explained = refl;
    no_value = refl;
    gate_shut = refl;
    not_promotable = refl;
  }

  measured-IsFailure :
      (plan : EvaluationPlan Float) (dir : String) (ss : List (StageResult Float))
      (s : StageResult Float) (b : BenchmarkRun Float)
      → AllSucceeded F H ss
      → s.succeeded ≡ false
      → IsFailure (with_measurements F H (failed_result F H plan dir (ss ++ s ∷ []) s) b)
  unfolding failed_result
  measured-IsFailure plan dir ss s b all bad = record {
    before = ss;
    last_stage = s;
    stages_are = refl;
    before_succeeded = all;
    last_failed = bad;
    named = refl;
    explained = refl;
    no_value = refl;
    gate_shut = refl;
    not_promotable = refl;
  }

  -- With no accuracy commands there is nothing in that tier that could fail.
  no_accuracy_succeeds :
      (plan : EvaluationPlan Float) (workspace dir : String) (w : World)
      → has_accuracy F H plan ≡ false
      → (run_accuracy F H plan workspace dir w).0.result.succeeded ≡ true
  unfolding run_accuracy run_commands
  no_accuracy_succeeds plan workspace dir w h = ground arith

  accuracy-Fails :
      (plan : EvaluationPlan Float) (workspace dir : String) (ss : List (StageResult Float))
      (b : BenchmarkRun Float) (w : World)
      → AllSucceeded F H ss
      → Fails (run_from_accuracy F H plan workspace dir ss b w)
  unfolding run_from_accuracy
  accuracy-Fails plan workspace dir ss b w all =
      let (a, w') = run_accuracy F H plan workspace dir w in
      if-elim Fails a.result.succeeded _ _ (λ fine. judged-Fails plan dir _ b a w')
        (λ bad h.
          if-elim (λ l. IsFailure (with_measurements F H (failed_result F H plan dir l a.result) b))
            (has_accuracy F H plan) (ss ++ a.result ∷ []) ss
            (λ there. measured-IsFailure plan dir ss a.result b all bad)
            (λ absent. cc (no_accuracy_succeeds plan workspace dir w absent, bad)))

  benchmark-Fails :
      (plan : EvaluationPlan Float) (workspace dir : String) (ss : List (StageResult Float))
      (w : World)
      → AllSucceeded F H ss
      → Fails (run_from_benchmark F H plan workspace dir ss w)
  unfolding run_from_benchmark
  benchmark-Fails plan workspace dir ss w all =
      let (b, w') = run_benchmark F H plan workspace dir w in
      if-elim Fails b.result.succeeded _ _
        (λ fine.
          accuracy-Fails plan workspace dir _ b w' (AllSucceeded-append F H ss b.result all fine))
        (λ bad h. measured-IsFailure plan dir ss b.result b all bad)

  tiers-Fails :
      (plan : EvaluationPlan Float) (workspace dir : String) (w : World)
      → Fails (run_tiers F H plan workspace dir w)
  unfolding run_tiers
  tiers-Fails plan workspace dir w =
      let (p, w₁) = run_commands F H preflight plan.preflight workspace dir w in
      let (c, w₂) = run_commands F H correctness plan.correctness workspace dir w₁ in
      if-elim Fails p.succeeded _ _
        (λ fine.
          if-elim Fails c.succeeded _ _
            (λ correct. benchmark-Fails plan workspace dir _ w₂ (fine, (correct, tt)))
            (λ wrong h. failed-IsFailure plan dir (p ∷ []) c (fine, tt) wrong))
        (λ bad h. failed-IsFailure plan dir [] p tt bad)

  -- If the outcome of an evaluation is `failed`, then every tier that ran before the last succeeded, the
  -- last did not and is the failed stage with its reason, and nothing about the candidate is claimed.
  pub failed_lem :
      (plan : EvaluationPlan Float) (workspace dir : String) (w : World)
      → (run_tiers F H plan workspace dir w).0.outcome ≡ failed
      → IsFailure (run_tiers F H plan workspace dir w).0
  failed_lem plan workspace dir w = tiers-Fails plan workspace dir w

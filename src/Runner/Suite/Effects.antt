-- ===== src/Runner/Suite/Effects.antt =====
-- The evaluation of a suite starts and stops no service.
use euboulia.Prelude.{◌&&◌, ◌||◌, Bool, Option, none, some, List, [], ◌∷◌, ℕ, suc, String}
use euboulia.Prelude.Dict.{Dict}
use euboulia.Floats.{FloatOps}
use euboulia.Runner.{PromotionConfig, TieredEvaluationResult, RunnerHost, RunConfig, Role}
use euboulia.Runner.Suite.{
  needs_all, is_first, is_failed, aggregate_suite_result, aggregate_with, evaluate_points,
  suite_or_single, execute_workload_suite,
}
use euboulia.Runner.Keeps.{
  Keeps, Any, Legal, Keeps-return, Keeps-raise, Keeps-call, Leaves-bind, Leaves-then, Leaves-if,
}

module _ (F : FloatOps) (H : RunnerHost F.Float) (config : RunConfig F.Float) where
  open F use {Float}

  aggregate-Keeps :
      (gate : Bool) (points : List String) (results : Dict (TieredEvaluationResult Float))
      (promotion : Option PromotionConfig)
      → Keeps Legal Any (aggregate_with F H gate points results promotion)
  unfolding aggregate_with
  aggregate-Keeps gate points results none = Keeps-raise _ tt
  aggregate-Keeps gate points results (some p) =
      Leaves-then (Keeps-call H.write_summary) (Keeps-return _ tt)

  suite_or_single-Keeps :
      (gate : Bool) (points : List String) (results : Dict (TieredEvaluationResult Float))
      → Keeps Legal Any (suite_or_single F H config gate points results)
  unfolding suite_or_single aggregate_suite_result
  suite_or_single-Keeps gate points [] = aggregate-Keeps gate points [] config.promotion
  suite_or_single-Keeps gate points ((name, r) ∷ []) =
      Leaves-if config.is_version_two _ _ (λ h. Keeps-return _ tt)
        (λ h. aggregate-Keeps gate points ((name, r) ∷ []) config.promotion)
  suite_or_single-Keeps gate points (x ∷ (y ∷ zs)) =
      aggregate-Keeps gate points (x ∷ (y ∷ zs)) config.promotion

  evaluate_points-Keeps :
      (qualification : Bool) (trial : ℕ × Role) (baselines : Dict Float) (gate : Bool) (index : ℕ)
      (points : List String) (results : Dict (TieredEvaluationResult Float))
      → Keeps Legal Any
          (evaluate_points F H config qualification trial baselines gate index points results)
  unfolding evaluate_points
  evaluate_points-Keeps qualification trial baselines gate index [] results = Keeps-return _ tt
  evaluate_points-Keeps qualification trial baselines gate index (point ∷ later) results =
      Leaves-bind (Keeps-call _) (λ r h.
        Leaves-if (is_failed r.outcome && (is_first F H index || needs_all F H config.promotion)) _
          _ (λ k. Keeps-return _ tt)
          (λ k. evaluate_points-Keeps qualification trial baselines gate (suc index) later _))

  pub execute_workload_suite-Keeps :
      (qualification : Bool) (trial : ℕ × Role) (baselines : Dict Float) (gate : Bool)
      → Keeps Legal Any (execute_workload_suite F H config qualification trial baselines gate)
  unfolding execute_workload_suite
  execute_workload_suite-Keeps qualification trial baselines gate =
      Leaves-if config.has_metrics_path _ _
        (λ h.
          Leaves-bind (evaluate_points-Keeps qualification trial baselines gate 0 _ [])
            (λ results k. suite_or_single-Keeps gate _ results))
        (λ h. Keeps-raise _ tt)

-- ===== src/Runner/Suite/Tracking.antt =====
-- The evaluation of a suite starts and ends no service of the host's world.
use euboulia.Prelude.{◌&&◌, ◌||◌, Bool, Option, none, some, List, [], ◌∷◌, ℕ, suc, String}
use euboulia.Prelude.Dict.{Dict}
use euboulia.Floats.{FloatOps}
use euboulia.Runner.{
  PointRequest, PromotionConfig, TieredEvaluationResult, RunnerHost, RunConfig, Role,
}
use euboulia.Runner.Suite.{
  needs_all, is_first, is_failed, aggregate_suite_result, aggregate_with, evaluate_points,
  suite_or_single, execute_workload_suite,
}
use euboulia.Runner.Tracks.{
  Tracks, Quiet, Tracks-return, Tracks-raise, Tracks-bind, Tracks-then, Tracks-if, Tracks-call,
}

module _ (F : FloatOps) (H : RunnerHost F.Float) (config : RunConfig F.Float) where
  open F use {Float}

  module _ {running : H.World → List ℕ}
      (point_quiet : (request : PointRequest Float) → Quiet running (H.evaluate_point request))
      (summary : Quiet running H.write_summary) where
    aggregate-Tracks :
        (gate : Bool) (points : List String) (results : Dict (TieredEvaluationResult Float))
        (promotion : Option PromotionConfig)
        → Tracks running (aggregate_with F H gate points results promotion)
    unfolding aggregate_with
    aggregate-Tracks gate points results none = Tracks-raise _
    aggregate-Tracks gate points results (some p) =
        Tracks-then (Tracks-call H.write_summary summary) (Tracks-return _)

    suite_or_single-Tracks :
        (gate : Bool) (points : List String) (results : Dict (TieredEvaluationResult Float))
        → Tracks running (suite_or_single F H config gate points results)
    unfolding suite_or_single aggregate_suite_result
    suite_or_single-Tracks gate points [] = aggregate-Tracks gate points [] config.promotion
    suite_or_single-Tracks gate points ((name, r) ∷ []) =
        Tracks-if config.is_version_two (Tracks-return _)
          (aggregate-Tracks gate points ((name, r) ∷ []) config.promotion)
    suite_or_single-Tracks gate points (x ∷ (y ∷ zs)) =
        aggregate-Tracks gate points (x ∷ (y ∷ zs)) config.promotion

    evaluate_points-Tracks :
        (qualification : Bool) (trial : ℕ × Role) (baselines : Dict Float) (gate : Bool) (index : ℕ)
        (points : List String) (results : Dict (TieredEvaluationResult Float))
        → Tracks running
            (evaluate_points F H config qualification trial baselines gate index points results)
    unfolding evaluate_points
    evaluate_points-Tracks qualification trial baselines gate index [] results = Tracks-return _
    evaluate_points-Tracks qualification trial baselines gate index (point ∷ later) results =
        Tracks-bind (Tracks-call _ (point_quiet _)) (λ r.
          Tracks-if (is_failed r.outcome && (is_first F H index || needs_all F H config.promotion))
            (Tracks-return _)
            (evaluate_points-Tracks qualification trial baselines gate (suc index) later _))

    pub execute_workload_suite-Tracks :
        (qualification : Bool) (trial : ℕ × Role) (baselines : Dict Float) (gate : Bool)
        → Tracks running (execute_workload_suite F H config qualification trial baselines gate)
    unfolding execute_workload_suite
    execute_workload_suite-Tracks qualification trial baselines gate =
        Tracks-if config.has_metrics_path
          (Tracks-bind (evaluate_points-Tracks qualification trial baselines gate 0 _ [])
            (λ results. suite_or_single-Tracks gate _ results))
          (Tracks-raise _)

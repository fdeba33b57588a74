-- ===== src/Runner/Candidate/Stops.antt =====
-- The services and the moves of the lifecycle while a candidate is executed.
use euboulia.Prelude.{
  ◌≡◌, refl, sym, subst, Bool, true, false, Option, none, some, ℕ, String, ◌⊎◌, inl, inr,
}
use euboulia.Floats.{FloatOps}
use euboulia.Lifecycle
use euboulia.Lifecycle.{
  evaluating, iteration_transitions, IterationState-discrete, applying_patch, preparing_baseline,
  preparing_workspace, Lifecycle, IterationState, move_iteration, planning, stopping_baseline,
  stopping_service, building_baseline, building,
}
use euboulia.Runner.{
  evaluation_completed, evaluation_started, baseline_established, baseline_invalid, baseline,
  server_arguments_applied, target_materialized, candidate, EventType, TargetChangeSet,
  baseline_started, patch_applied, runtime_provenance_captured, workspace_prepared, RunnerHost,
  RunConfig, Role, Proposal, ManagedWorkspace, Evaluation,
}
use euboulia.Runner.Exec.{Exec}
use euboulia.Runner.Candidate.{
  execute_managed_candidate, unmanaged, unmanaged_from, apply_source, baseline_provenance,
  built_candidate, candidate_provenance, emit_for, establish_baseline, evaluate_candidate_service,
  materialize_candidate_change, prepared_workspace, when, CandidateExecution, execute_candidate,
  baseline_states, candidate_states,
}
use euboulia.Runner.Service.Stops.{
  in_iteration, Allowed, evaluate_managed_service-Keeps, build_managed_target-Keeps,
}
use euboulia.Runner.Suite.Effects.{execute_workload_suite-Keeps}
use euboulia.Runner.Keeps.{
  Leaves-weaken, Keeps, Any, Legal, Keeps-return, Keeps-raise, Keeps-call, Keeps-emit, Leaves-bind,
  Leaves-then, Leaves-moved, Leaves-if,
}

baseline_states-Allowed : Allowed building_baseline baseline_states
unfolding move_iteration iteration_transitions IterationState-discrete
baseline_states-Allowed = record {
  to_start = refl;
  to_ready = refl;
  to_evaluation = refl;
  stop_started = refl;
  stop_ready = refl;
  stop_evaluated = refl;
}

pub candidate_states-Allowed : Allowed building candidate_states
unfolding move_iteration iteration_transitions IterationState-discrete
candidate_states-Allowed = record {
  to_start = refl;
  to_ready = refl;
  to_evaluation = refl;
  stop_started = refl;
  stop_ready = refl;
  stop_evaluated = refl;
}

abbrev Moves : IterationState → IterationState → Type 0
Moves s t = move_iteration (in_iteration s) t ≡ Lifecycle.ok (in_iteration t)

-- The lifecycle after an execution.
abbrev pub Executed : {Float : Type 0} → CandidateExecution Float → Type 0
Executed e = (e.lifecycle ≡ in_iteration stopping_service) ⊎ (e.lifecycle ≡ in_iteration evaluating)

-- The moves around the two services.
record Edges : Type 0 where
  to_baseline : Moves planning preparing_baseline
  to_baseline_build : Moves preparing_baseline building_baseline
  to_workspace : Moves stopping_baseline preparing_workspace
  to_patch : Moves preparing_workspace applying_patch
  to_build : Moves applying_patch building
  to_evaluation : Moves applying_patch evaluating
  from_planning : Moves planning preparing_workspace

edges : Edges
unfolding move_iteration iteration_transitions IterationState-discrete
edges = record {
  to_baseline = refl;
  to_baseline_build = refl;
  to_workspace = refl;
  to_patch = refl;
  to_build = refl;
  to_evaluation = refl;
  from_planning = refl;
}

module _ (F : FloatOps) (H : RunnerHost F.Float) (config : RunConfig F.Float) where
  open F use {Float}

  when-Keeps :
      (b : Bool) (m : Exec H.World (Unit {0}))
      → Keeps Legal Any m
      → Keeps Legal Any (when F H config b m)
  unfolding when
  when-Keeps true m h = h
  when-Keeps false m h = Keeps-return tt tt

  module _ (iteration : ℕ) (proposal : Proposal) where
    emit_for-Keeps :
        (kind : EventType) (entity : String)
        → Keeps Legal Any (emit_for F H config iteration proposal kind entity)
    unfolding emit_for
    emit_for-Keeps kind entity = Keeps-emit H kind _ _

    apply_source-Keeps :
        (path : Option String) (workspace : ManagedWorkspace)
        → Keeps Legal Any (apply_source F H config iteration proposal path workspace)
    unfolding apply_source
    apply_source-Keeps none workspace = Keeps-return none tt
    apply_source-Keeps (some path) workspace = Leaves-bind (Keeps-call _) (λ prepared h.
        Leaves-then (Keeps-call _)
          (Leaves-then (emit_for-Keeps patch_applied _) (Keeps-return _ tt)))

    prepared_workspace-Keeps :
        (role : Role) (entity : String) (revision : Option String)
        → Keeps Legal Any (prepared_workspace F H config iteration proposal role entity revision)
    unfolding prepared_workspace
    prepared_workspace-Keeps role entity revision =
        Leaves-bind (Keeps-call _) (λ workspace h.
          Leaves-then (emit_for-Keeps workspace_prepared entity) (Keeps-return _ tt))

    baseline_provenance-Keeps :
        (workspace : ManagedWorkspace)
        → Keeps Legal Any (baseline_provenance F H config iteration proposal workspace)
    unfolding baseline_provenance
    baseline_provenance-Keeps workspace = Leaves-then (Keeps-call _) (
        Leaves-then (Keeps-emit H runtime_provenance_captured _ _)
          (Leaves-then (Keeps-call _) (Keeps-call _)))

    candidate_provenance-Keeps :
        (workspace : ManagedWorkspace)
        → Keeps Legal Any (candidate_provenance F H config iteration proposal workspace)
    unfolding candidate_provenance
    candidate_provenance-Keeps workspace = Leaves-then (Keeps-call _) (Keeps-call _)

    materialize-Keeps :
        (workspace : ManagedWorkspace)
        → Keeps Legal
            (λ out. out.0 ≡ in_iteration applying_patch)
            (materialize_candidate_change F H config iteration proposal workspace
              (in_iteration preparing_workspace))
    unfolding materialize_candidate_change
    materialize-Keeps workspace = Leaves-then (Keeps-call _) (
        Leaves-moved _ edges.to_patch (
          Leaves-bind (apply_source-Keeps proposal.patch_path workspace) (λ prepared h.
            Leaves-then (when-Keeps _ _ (emit_for-Keeps server_arguments_applied _))
              (Leaves-then (when-Keeps _ _ (Keeps-raise _ tt)) (Keeps-return _ refl)))))

    establish_baseline-Keeps :
        (champion : String)
        → Keeps Legal
            (λ out. out.0 ≡ in_iteration stopping_baseline)
            (establish_baseline F H config iteration proposal champion (in_iteration planning))
    unfolding establish_baseline
    establish_baseline-Keeps champion = Leaves-then (emit_for-Keeps baseline_started champion) (
        Leaves-moved _ edges.to_baseline (
          Leaves-bind (prepared_workspace-Keeps baseline champion none) (λ workspace h.
            Leaves-then (when-Keeps config.has_runtime _ (baseline_provenance-Keeps workspace)) (
              Leaves-then (Keeps-call _) (
                Leaves-then (emit_for-Keeps target_materialized champion) (
                  Leaves-moved _ edges.to_baseline_build (
                    Leaves-then (build_managed_target-Keeps F H config _ _ _ _) (
                      Leaves-bind
                        (evaluate_managed_service-Keeps F H config _ baseline_states-Allowed)
                        (λ (l, evaluation) e.
                          Leaves-then
                            (when-Keeps _ _ (
                              Leaves-then (emit_for-Keeps baseline_invalid champion)
                                (Keeps-raise _ tt)))
                            (Leaves-then (emit_for-Keeps baseline_established champion)
                              (Keeps-return _ e)))))))))))

    built_candidate-Keeps :
        (measured : Evaluation Float) (workspace : ManagedWorkspace) (change : TargetChangeSet)
        (digest : String)
        → Keeps Legal
            (λ e. e.lifecycle ≡ in_iteration stopping_service)
            (built_candidate F H config iteration proposal measured workspace
              (in_iteration applying_patch)
              change
              digest)
    unfolding built_candidate
    built_candidate-Keeps measured workspace change digest =
        Leaves-then (emit_for-Keeps target_materialized _) (
          Leaves-moved _ edges.to_build (
            Leaves-then (build_managed_target-Keeps F H config _ _ _ _) (
              Leaves-bind (evaluate_managed_service-Keeps F H config _ candidate_states-Allowed)
                (λ (l, evaluation) e. Keeps-return _ e))))

    evaluate_candidate_service-Keeps :
        (base : ManagedWorkspace) (measured : Evaluation Float)
        → Keeps Legal
            (λ e. e.lifecycle ≡ in_iteration stopping_service)
            (evaluate_candidate_service F H config iteration proposal
              (in_iteration stopping_baseline)
              base
              measured)
    unfolding evaluate_candidate_service
    evaluate_candidate_service-Keeps base measured = Leaves-moved _ edges.to_workspace (
        Leaves-bind (prepared_workspace-Keeps candidate _ _) (λ workspace h.
          Leaves-then (when-Keeps config.has_runtime _ (candidate_provenance-Keeps workspace)) (
            Leaves-then (Keeps-call _) (
              Leaves-bind (materialize-Keeps workspace) (λ (l, change, digest) e.
                subst
                  (λ x.
                    Keeps Legal (λ e. e.lifecycle ≡ in_iteration stopping_service)
                      (built_candidate F H config iteration proposal measured workspace x change
                        digest))
                  (sym e) (built_candidate-Keeps measured workspace change digest))))))

    unmanaged-Keeps :
        (path : String)
        → Keeps Legal Executed
            (unmanaged F H config iteration proposal path (in_iteration planning))
    unfolding unmanaged
    unmanaged-Keeps path = Leaves-moved _ edges.from_planning (
        Leaves-bind (Keeps-call _) (λ workspace h.
          Leaves-then (emit_for-Keeps workspace_prepared _) (
            Leaves-bind (Keeps-call _) (λ prepared h. Leaves-moved _ edges.to_patch (
              Leaves-then (Keeps-call _) (
                Leaves-then (emit_for-Keeps patch_applied _) (
                  Leaves-moved _ edges.to_evaluation (
                    Leaves-then (emit_for-Keeps evaluation_started _) (
                      Leaves-bind (execute_workload_suite-Keeps F H config _ _ _ _) (λ e h.
                        Leaves-then (emit_for-Keeps evaluation_completed _)
                          (Keeps-return _ (inr refl))))))))))))

    managed-Keeps :
        (champion : String)
        → Keeps Legal Executed (
            execute_managed_candidate F H config iteration proposal champion
              (in_iteration planning))
    unfolding execute_managed_candidate
    managed-Keeps champion =
        Leaves-if config.has_workspace _ _
          (λ h. Leaves-bind (establish_baseline-Keeps champion) (λ (l, workspace, measured) e.
            subst
              (λ x.
                Keeps Legal Executed
                  (evaluate_candidate_service F H config iteration proposal x workspace measured))
              (sym e)
              (Leaves-weaken (λ e h. inl h) (evaluate_candidate_service-Keeps workspace measured))))
          (λ h. Keeps-raise _ tt)

    unmanaged_from-Keeps :
        (path : Option String)
        → Keeps Legal Executed
            (unmanaged_from F H config iteration proposal path (in_iteration planning))
    unfolding unmanaged_from
    unmanaged_from-Keeps none = Keeps-raise _ tt
    unmanaged_from-Keeps (some path) =
        Leaves-if config.has_repository _ _ (λ h. unmanaged-Keeps path)
          (λ h. Leaves-moved _ edges.from_planning (Keeps-raise _ tt))

    -- However a candidate's execution ends, each service that it started was stopped and no move of
    -- the lifecycle was illegal.
    pub execute_candidate-Keeps :
        (champion : String)
        → Keeps Legal Executed
            (execute_candidate F H config iteration proposal champion (in_iteration planning))
    unfolding execute_candidate
    execute_candidate-Keeps champion =
        Leaves-if config.has_target _ _ (λ h. managed-Keeps champion)
          (λ h.
            Leaves-if config.has_workspace _ _ (λ k. unmanaged_from-Keeps proposal.patch_path)
              (λ k. Keeps-raise _ tt))

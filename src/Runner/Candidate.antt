-- ===== src/Runner/Candidate.antt =====
-- `_execute_candidate`, `_execute_managed_candidate` and `_materialize_candidate_change` of runner.py.
pub mod Stops
use euboulia.Prelude.{
  String, Bool, true, false, not, ◌||◌, ◌&&◌, Option, none, some, List, [], ◌∷◌, if◌then◌else◌, ℕ,
  leb, length,
}
use euboulia.Prelude.Dict.{Dict, insert}
use euboulia.Floats.{FloatOps}
use euboulia.Lifecycle.{
  building, building_baseline, preparing_baseline, stopping_baseline, stopping_service,
  applying_patch, evaluating, evaluating_baseline, preparing_workspace, waiting_for_baseline,
  waiting_for_ready, starting_baseline, starting_service, Lifecycle, IterationState, move_iteration,
}
use euboulia.Runner.{
  baseline_established, baseline_invalid, evaluation_completed, evaluation_started,
  runtime_provenance_captured, server_arguments_applied, target_materialized, baseline,
  baseline_started, candidate, patch_applied, workspace_prepared, EventType, ManagedWorkspace,
  runtime_error, PreparedPatch, Proposal, TargetChangeSet, RunnerHost, RunConfig, Role, Evaluation,
}
use euboulia.Runner.Exec.{Exec, ◌>>=◌, ◌>>◌, return, raise, call, emit, moved}
use euboulia.Runner.Suite.{execute_workload_suite, outcome_of, objective_values_of, is_passed}
use euboulia.Runner.Service.{
  ServiceStates, ServiceRequest, evaluate_managed_service, build_managed_target,
}

-- _CandidateExecutionResult
pub record CandidateExecution (Float : Type 0) : Type 0 where
  pub lifecycle : Lifecycle
  pub evaluation : Evaluation Float
  pub change_digest : String
  pub baseline_evaluation : Option (Evaluation Float)

abbrev pub baseline_states : ServiceStates
baseline_states = record {
  start_state = starting_baseline;
  ready_state = waiting_for_baseline;
  evaluation_state = evaluating_baseline;
  stop_state = stopping_baseline;
}

abbrev pub candidate_states : ServiceStates
candidate_states = record {
  start_state = starting_service;
  ready_state = waiting_for_ready;
  evaluation_state = evaluating;
  stop_state = stopping_service;
}

abbrev pub no_change : TargetChangeSet
no_change = record { argument_set = []; argument_remove = []; source_patch_path = none }

-- bool(argument_set or argument_remove)
abbrev has_arguments : Dict (Option String) × List String → Bool
has_arguments ([], []) = false
has_arguments _ = true

abbrev arguments_of :
    Option (Dict (Option String) × List String) → Dict (Option String) × List String
arguments_of none = ([], [])
arguments_of (some a) = a

abbrev path_of : Option PreparedPatch → Option String
path_of none = none
path_of (some p) = some p.patch_path

abbrev sha256_of : Option PreparedPatch → Option String
sha256_of none = none
sha256_of (some p) = some p.sha256

abbrev is_some : Option PreparedPatch → Bool
is_some none = false
is_some (some p) = true

abbrev digest_or : Option String → String → String
digest_or none own = own
digest_or (some d) own = d

module _ (F : FloatOps) (H : RunnerHost F.Float) (config : RunConfig F.Float) where
  open F use {Float}

  when : Bool → Exec H.World (Unit {0}) → Exec H.World (Unit {0})
  when true action = action
  when false action = return tt

  module _ (iteration : ℕ) (proposal : Proposal) where
    emit_for : EventType → String → Exec H.World (Unit {0})
    unfolding emit
    emit_for kind entity = emit H kind (some iteration) (some entity)

    apply_source : Option String → ManagedWorkspace → Exec H.World (Option PreparedPatch)
    unfolding emit_for
    apply_source none workspace = return none
    apply_source (some path) workspace = do
      prepared ← call (H.prepare_patch path workspace)
      call (H.apply_patch prepared workspace)
      emit_for patch_applied proposal.proposal_id
      return (some prepared)

    unfoldable pub materialize_candidate_change :
        ManagedWorkspace → Lifecycle → Exec H.World (Lifecycle × TargetChangeSet × String)
    unfolding apply_source emit_for when
    materialize_candidate_change workspace l = do
      let arguments = arguments_of proposal.server_args
      call (H.argument_patch arguments.0 arguments.1)
      l' ← moved (move_iteration l applying_patch)
      prepared ← apply_source proposal.patch_path workspace
      when (has_arguments arguments) (emit_for server_arguments_applied proposal.proposal_id)
      when (not (is_some prepared || has_arguments arguments)) (
          raise
            (runtime_error "managed proposal must declare a source patch and/or server arguments"))
      return (
        l',
        record {
          argument_set = arguments.0;
          argument_remove = arguments.1;
          source_patch_path = path_of prepared;
        },
        digest_or proposal.change_sha256
            (H.stable_digest (sha256_of prepared) arguments.0 arguments.1),
      )

    prepared_workspace : Role → String → Option String → Exec H.World ManagedWorkspace
    unfolding emit_for
    prepared_workspace role entity revision = do
      workspace ← call (H.prepare_workspace role iteration revision)
      emit_for workspace_prepared entity
      return workspace

    -- The provenance of the runtime, where the target declares one.
    baseline_provenance : ManagedWorkspace → Exec H.World (Unit {0})
    unfolding emit
    baseline_provenance workspace = do
      call (H.capture_provenance baseline workspace)
      emit H runtime_provenance_captured (some iteration) none
      call (H.validate_runtime baseline)
      call H.validate_hardware

    candidate_provenance : ManagedWorkspace → Exec H.World (Unit {0})
    candidate_provenance workspace = do
      call (H.capture_provenance candidate workspace)
      call (H.validate_runtime candidate)

    baseline_is_valid : Evaluation Float → Bool
    baseline_is_valid e =
        is_passed (outcome_of e)
        && (leb (length (objective_values_of config e)) (length config.fast_points)
            && leb (length config.fast_points) (length (objective_values_of config e)))

    -- Up to the event BASELINE_ESTABLISHED.
    unfoldable pub establish_baseline :
        String → Lifecycle → Exec H.World (Lifecycle × ManagedWorkspace × Evaluation Float)
    unfolding emit_for prepared_workspace baseline_provenance when baseline_is_valid
    establish_baseline champion l = do
      emit_for baseline_started champion
      l1 ← moved (move_iteration l preparing_baseline)
      workspace ← prepared_workspace baseline champion none
      when config.has_runtime (baseline_provenance workspace)
      call (H.target_spec baseline workspace)
      emit_for target_materialized champion
      l2 ← moved (move_iteration l1 building_baseline)
      build_managed_target F H config baseline workspace iteration champion
      (l3, evaluation) ←
          evaluate_managed_service F H config
            (record {
              role = baseline;
              iteration = iteration;
              entity_id = champion;
              workspace = workspace;
              change_set = no_change;
              states = baseline_states;
              baseline_values = [];
              apply_promotion_gate = false;
            })
            l2
      when (not (baseline_is_valid evaluation)) (
          emit_for baseline_invalid champion >> raise (runtime_error "managed baseline is invalid"))
      emit_for baseline_established champion
      return (l3, workspace, evaluation)

    -- From the event TARGET_MATERIALIZED of the candidate on.
    built_candidate :
        Evaluation Float
        → ManagedWorkspace
        → Lifecycle
        → TargetChangeSet
        → String
        → Exec H.World (CandidateExecution Float)
    unfolding emit_for
    built_candidate measured workspace l2 change digest = do
      emit_for target_materialized proposal.proposal_id
      l3 ← moved (move_iteration l2 building)
      build_managed_target F H config candidate workspace iteration proposal.proposal_id
      (l4, evaluation) ←
          evaluate_managed_service F H config
            (record {
              role = candidate;
              iteration = iteration;
              entity_id = proposal.proposal_id;
              workspace = workspace;
              change_set = change;
              states = candidate_states;
              baseline_values = objective_values_of config measured;
              apply_promotion_gate = true;
            })
            l3
      return (record {
        lifecycle = l4;
        evaluation = evaluation;
        change_digest = digest;
        baseline_evaluation = some measured;
      })

    -- From PREPARING_WORKSPACE on.
    unfoldable pub evaluate_candidate_service :
        Lifecycle → ManagedWorkspace → Evaluation Float → Exec H.World (CandidateExecution Float)
    unfolding emit_for prepared_workspace candidate_provenance when built_candidate
    evaluate_candidate_service l base measured = do
      l1 ← moved (move_iteration l preparing_workspace)
      workspace ← prepared_workspace candidate proposal.proposal_id (some base.base_commit)
      when config.has_runtime (candidate_provenance workspace)
      call (H.target_spec candidate workspace)
      (l2, change, digest) ← materialize_candidate_change workspace l1
      built_candidate measured workspace l2 change digest

    unfoldable pub execute_managed_candidate :
        String → Lifecycle → Exec H.World (CandidateExecution Float)
    execute_managed_candidate champion l =
        if config.has_workspace
        then (establish_baseline champion l >>= λ (l', workspace, measured).
            evaluate_candidate_service l' workspace measured)
        else raise
            (runtime_error "optimization.workspace is required for managed target evaluation")

    -- The measured values of the configuration, with the one of schema version 2.
    legacy_values : Bool → Option Float → List String → Dict Float → Dict Float
    legacy_values true (some x) (name ∷ names) values = insert name x values
    legacy_values _ _ _ values = values

    unmanaged : String → Lifecycle → Exec H.World (CandidateExecution Float)
    unfolding emit_for legacy_values
    unmanaged path l = do
      l1 ← moved (move_iteration l preparing_workspace)
      workspace ← call (H.prepare_workspace candidate iteration none)
      emit_for workspace_prepared proposal.proposal_id
      prepared ← call (H.prepare_patch path workspace)
      l2 ← moved (move_iteration l1 applying_patch)
      call (H.apply_patch prepared workspace)
      emit_for patch_applied proposal.proposal_id
      l3 ← moved (move_iteration l2 evaluating)
      emit_for evaluation_started proposal.proposal_id
      evaluation ←
          execute_workload_suite F H config false (iteration, candidate)
            (legacy_values config.is_version_two config.legacy_baseline config.suite_points
              config.baseline_metric_values)
            true
      emit_for evaluation_completed proposal.proposal_id
      return (record {
        lifecycle = l3;
        evaluation = evaluation;
        change_digest = prepared.sha256;
        baseline_evaluation = none;
      })

    unmanaged_from : Option String → Lifecycle → Exec H.World (CandidateExecution Float)
    unfolding unmanaged
    unmanaged_from none l = raise (runtime_error "proposal does not contain a patch_path")
    unmanaged_from (some path) l =
        if config.has_repository
        then unmanaged path l
        else (moved (move_iteration l preparing_workspace) >>= λ l'.
            raise (runtime_error "optimization.workspace.repository is required"))

    unfoldable pub execute_candidate : String → Lifecycle → Exec H.World (CandidateExecution Float)
    unfolding unmanaged_from execute_managed_candidate
    execute_candidate champion l =
        if config.has_target
        then execute_managed_candidate champion l
        else if config.has_workspace
        then unmanaged_from proposal.patch_path l
        else raise (runtime_error "optimization.workspace is required for active patch evaluation")

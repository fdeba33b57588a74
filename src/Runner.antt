-- ===== src/Runner.antt =====
-- optimization/runner.py: the data of a run, and what the runner calls of other components and of the
-- host. An event is its type, its iteration and its entity; the payloads are not modelled.
pub mod Exec
pub mod Service
pub mod Suite
pub mod Candidate
pub mod Profile
pub mod Loop
pub mod Keeps
pub mod Tracks
mod Examples
use euboulia.Prelude.{
  String, Bool, true, false, Option, none, some, List, [], ◌∷◌, ◌++◌, ℕ, if◌then◌else◌,
}
use euboulia.Prelude.Dict.{Dict}
use euboulia.Lifecycle
use euboulia.Lifecycle.{RunState, IterationState}
use euboulia.Evaluator.{EvaluationOutcome, TieredEvaluationResult}

pub data Capability : Type 0 where
  benchmark_execution build_execution profile_execution workspace_write : Capability
  owned_service_lifecycle external_model_or_network : Capability

unfoldable pub Capability-discrete : Discrete Capability
Capability-discrete = hlevel

pub data OutcomeStatus : Type 0 where
  accepted rejected invalid failed : OutcomeStatus

pub data Role : Type 0 where
  baseline candidate profile : Role

-- The event types that the runner appends here.
pub data EventType : Type 0 where
  run_planned run_started run_completed run_stopped run_failed : EventType
  baseline_started baseline_established baseline_invalid : EventType
  iteration_started budget_reserved iteration_completed iteration_failed : EventType
  profile_started profile_completed analysis_completed proposal_created : EventType
  approval_requested approval_granted runtime_provenance_captured target_materialized : EventType
  workspace_prepared patch_applied patch_rejected server_arguments_applied : EventType
  build_started build_completed build_failed : EventType
  service_starting service_started service_ready service_stopping service_stopped : EventType
  service_failed evaluation_started evaluation_completed verdict_recorded : EventType
  champion_updated memory_recalled memory_recorded : EventType

-- iteration_id is the number that it is made of.
pub record OptimizationEvent : Type 0 where
  pub event_type : EventType
  pub iteration_id : Option ℕ
  pub entity_id : Option String

-- What the host's actions raise: `WorkspaceError` with its subclasses, another `Exception`, or a
-- `BaseException` that is no `Exception`.
pub data HostError : Type 0 where
  workspace_error : String → HostError
  other_error : String → HostError
  interrupted : HostError

pub data Answer {ℓ} (A : Type ℓ) : Type ℓ where
  answer : A → Answer A
  threw : HostError → Answer A

-- The exceptions of the runner: the host's, the `StateTransitionError` of a move, and its own
-- `OptimizationRuntimeError`s. `out_of_fuel` is none of the program's.
pub data Raised : Type 0 where
  from_host : HostError → Raised
  illegal_move : Lifecycle.Failure → Raised
  runtime_error : String → Raised
  out_of_fuel : Raised

pub data Result {ℓ} (A : Type ℓ) : Type ℓ where
  ok : A → Result A
  raised : Raised → Result A

-- A proposal, as far as the runner reads it; `server_args` are the options set and removed.
pub record Proposal : Type 0 where
  pub proposal_id : String
  pub patch_path : Option String
  pub server_args : Option (Dict (Option String) × List String)
  pub change_sha256 : Option String
  pub patch_sha256 : Option String

-- _ManagedWorkspace
pub record ManagedWorkspace : Type 0 where
  pub path : String
  pub base_commit : String

-- TargetChangeSet
pub record TargetChangeSet : Type 0 where
  pub argument_set : Dict (Option String)
  pub argument_remove : List String
  pub source_patch_path : Option String

pub record PreparedPatch : Type 0 where
  pub patch_path : String
  pub sha256 : String

pub record RecalledMemory : Type 0 where
  pub memory_id : String
  pub proposal_id : String
  pub patch_digest : Option String

pub record IterationOutcome (Float : Type 0) : Type 0 where
  pub outcome_id : String
  pub iteration_id : ℕ
  pub proposal_id : String
  pub status : OutcomeStatus
  pub champion_before : String
  pub champion_after : String
  pub relative_improvement : Option Float
  pub patch_digest : Option String

pub data SuiteReason : Type 0 where
  required_point_failed : SuiteReason
  points_rejected : List String → SuiteReason

pub record WorkloadSuiteEvaluationResult (Float : Type 0) : Type 0 where
  pub outcome : EvaluationOutcome
  pub point_results : Dict (TieredEvaluationResult Float)
  pub primary_points : List String
  pub objective_values : Dict Float
  pub relative_improvements : Dict Float
  pub relative_improvement : Option Float
  pub gate_passed : Bool
  pub promotable : Bool
  pub reason : Option SuiteReason

pub data Evaluation (Float : Type 0) : Type 0 where
  single : TieredEvaluationResult Float → Evaluation Float
  suite : WorkloadSuiteEvaluationResult Float → Evaluation Float

-- The plan of one point, by the arguments of `_evaluation_plan` that differ between the points.
pub record PointRequest (Float : Type 0) : Type 0 where
  pub trial : ℕ × Role
  pub point : String
  pub baseline_value : Option Float
  pub apply_promotion_gate : Bool
  pub include_checks : Bool
  pub include_accuracy : Bool

pub record PromotionConfig : Type 0 where
  pub primary_points : List String
  pub require_all_points_valid : Bool

-- The parts of OptimizationConfig that the runner branches on.
pub record RunConfig (Float : Type 0) : Type 0 where
  pub has_target : Bool
  pub has_build_commands : Bool
  pub has_workspace : Bool
  pub has_runtime : Bool
  pub has_metrics_path : Bool
  pub is_version_two : Bool
  pub has_repository : Bool
  pub baseline_name : String
  pub baseline_metric_values : Dict Float
  pub legacy_baseline : Option Float
  pub suite_points : List String
  pub fast_points : List String
  pub qualification_points : List String
  pub promotion : Option PromotionConfig
  pub max_iterations : ℕ
  pub max_consecutive_failures : ℕ
  pub max_wall_time_seconds : Float
  pub no_improvement_patience : ℕ

-- What the runner calls. An action of the host may raise, and leaves a new world either way.
pub record RunnerHost (Float : Type 0) : Type 1 where
  pub World : Type 0
  pub monotonic : World → Float × World
  pub append : OptimizationEvent → World → Answer (Unit {0}) × World
  pub require_lock : World → Answer (Unit {0}) × World
  pub open_ledger : World → Answer (Unit {0}) × World
  -- Whether the ledger has events of this run_uid.
  pub has_run : World → Answer Bool × World
  -- _write_resolved_recipe_snapshot: the run's directory and its resolved-recipe.yaml.
  pub write_resolved_recipe : World → Answer (Unit {0}) × World
  pub open_memory : World → Answer (Unit {0}) × World
  pub prepare_models : World → Answer (Unit {0}) × World
  pub recall_exact : World → Answer (List RecalledMemory) × World
  pub recall_compatible : World → Answer (List RecalledMemory) × World
  -- _capture_running_service_profile, of the service of this handle.
  pub capture_profile : ℕ → World → Answer (Unit {0}) × World
  pub deliberate :
      List RecalledMemory → List RecalledMemory → World → Answer (List Proposal) × World
  pub prepare_workspace : Role → ℕ → Option String → World → Answer ManagedWorkspace × World
  pub capture_provenance : Role → ManagedWorkspace → World → Answer (Unit {0}) × World
  pub validate_runtime : Role → World → Answer (Unit {0}) × World
  pub validate_hardware : World → Answer (Unit {0}) × World
  pub target_spec : Role → ManagedWorkspace → World → Answer (Unit {0}) × World
  pub build : Role → ManagedWorkspace → World → Answer (Unit {0}) × World
  -- The constructor of ServerArgumentPatch in optimization/target.py, which may refuse the options.
  pub argument_patch : Dict (Option String) → List String → World → Answer (Unit {0}) × World
  pub prepare_patch : String → ManagedWorkspace → World → Answer PreparedPatch × World
  pub apply_patch : PreparedPatch → ManagedWorkspace → World → Answer (Unit {0}) × World
  pub start : Role → ManagedWorkspace → TargetChangeSet → World → Answer ℕ × World
  pub wait_ready : ℕ → World → Answer (Unit {0}) × World
  pub stop : ℕ → World → Answer (Unit {0}) × World
  pub preserve_log : ℕ → World → Answer (Unit {0}) × World
  pub evaluate_point : PointRequest Float → World → Answer (TieredEvaluationResult Float) × World
  pub write_summary : World → Answer (Unit {0}) × World
  pub new_outcome_id : World → Answer String × World
  pub remember : IterationOutcome Float → World → Answer String × World
  pub stable_digest : Option String → Dict (Option String) → List String → String

-- ===== src/Control.antt =====
-- control.py: the store of the submitted runs, with the phases of progress.py. The two tables are a
-- dict of rows by their primary key and the list of the events, the latest first. Columns that no
-- operation changes after `create` (the name, the recipe, the executor, the node, the metadata) are
-- left out; a value outside of an enumeration, which `_validate_update` refuses, has no name here.
pub mod Store
pub mod Audit
pub mod Queue
pub mod Reconcile
pub mod Texts
mod Examples
use euboulia.Prelude.{
  Bool, true, false, Option, none, some, List, [], ◌∷◌, ℕ, String, contains, ◌&&◌, str_eq,
  if◌then◌else◌,
}
use euboulia.Prelude.Dict.{Dict}

-- CONTROL_STATUSES
pub data Status : Type 0 where
  queued running completed failed cancelled disconnected : Status

-- INFRASTRUCTURE_STATES
pub data InfrastructureState : Type 0 where
  not_created pod_pending pod_running pod_retained pod_deleted pod_lost : InfrastructureState

-- ARTIFACT_STATES
pub data ArtifactState : Type 0 where
  pending syncing partial verified unavailable : ArtifactState

-- RUN_PHASES
pub data Phase : Type 0 where
  submitted allocating pod_ready staging preparing_models preparing_sources : Phase
  capturing_provenance building launching waiting_ready profiling evaluating : Phase
  stopping syncing completed failed cancelled disconnected : Phase

unfoldable pub Status-discrete : Discrete Status
Status-discrete = hlevel

unfoldable pub InfrastructureState-discrete : Discrete InfrastructureState
InfrastructureState-discrete = hlevel

unfoldable pub ArtifactState-discrete : Discrete ArtifactState
ArtifactState-discrete = hlevel

unfoldable pub Phase-discrete : Discrete Phase
Phase-discrete = hlevel

-- An exit code; that of a process which a signal ended is negative.
pub data ExitCode : Type 0 where
  exited : ℕ → ExitCode
  signalled : ℕ → ExitCode

pub record ControlRun : Type 0 where
  pub status : Status
  pub phase : Phase
  pub infrastructure_state : InfrastructureState
  pub artifact_state : ArtifactState
  pub detail : Option String
  pub completed_units : Option ℕ
  pub total_units : Option ℕ
  pub submitted_at : String
  pub started_at : Option String
  pub finished_at : Option String
  pub updated_at : String
  pub pid : Option ℕ
  pub exit_code : Option ExitCode
  pub passed : Option Bool
  pub error : Option String
  pub cancel_requested : Bool

-- A row of control_events.
pub record ControlEvent : Type 0 where
  pub sequence : ℕ
  pub run_uid : String
  pub occurred_at : String
  pub status : Status
  pub phase : Phase
  pub infrastructure_state : InfrastructureState
  pub artifact_state : ArtifactState
  pub detail : Option String
  pub completed_units : Option ℕ
  pub total_units : Option ℕ

-- `last_sequence` is the counter of AUTOINCREMENT, which no deletion resets.
pub record ControlStore : Type 0 where
  pub runs : Dict ControlRun
  pub events : List ControlEvent
  pub last_sequence : ℕ

pub data ControlError : Type 0 where
  duplicate_run unknown_run not_failed pod_remains type_error : ControlError
  illegal_transition : Status → Status → ControlError

pub data Result {ℓ} (A : Type ℓ) : Type ℓ where
  ok : A → Result A
  err : ControlError → Result A

-- The keyword arguments of `update`, with `none` for _UNSET.
pub record Changes : Type 0 where
  pub status : Option Status
  pub phase : Option Phase
  pub infrastructure_state : Option InfrastructureState
  pub artifact_state : Option ArtifactState
  pub detail : Option (Option String)
  pub completed_units : Option (Option ℕ)
  pub total_units : Option (Option ℕ)
  pub pid : Option (Option ℕ)
  pub exit_code : Option (Option ExitCode)
  pub passed : Option (Option Bool)
  pub error : Option (Option String)
  pub cancel_requested : Option Bool
  pub finished_at : Option (Option String)

abbrev pub no_changes : Changes
no_changes = record {
  status = none;
  phase = none;
  infrastructure_state = none;
  artifact_state = none;
  detail = none;
  completed_units = none;
  total_units = none;
  pid = none;
  exit_code = none;
  passed = none;
  error = none;
  cancel_requested = none;
  finished_at = none;
}

-- _validate_transition: the statuses that may follow.
unfoldable pub allowed : Status → List Status
allowed queued = queued ∷ running ∷ Status.failed ∷ Status.cancelled ∷ []
allowed running =
    running ∷ Status.completed ∷ Status.failed ∷ Status.cancelled ∷ Status.disconnected ∷ []
allowed Status.disconnected =
    Status.disconnected ∷ running ∷ Status.completed ∷ Status.failed ∷ Status.cancelled ∷ []
allowed Status.completed = Status.completed ∷ []
allowed Status.failed = Status.failed ∷ []
allowed Status.cancelled = Status.cancelled ∷ []

unfoldable pub may_follow : Status → Status → Bool
unfolding allowed Status-discrete
may_follow current target = contains Status-discrete (allowed current) target

-- _TERMINAL_STATUSES
unfoldable pub is_terminal_status : Status → Bool
is_terminal_status Status.completed = true
is_terminal_status Status.failed = true
is_terminal_status Status.cancelled = true
is_terminal_status _ = false

-- ===== src/Control/Reconcile.antt =====
-- How `TaskManager` brings a row in line with what the controller process has left:
-- `_reconcile_task`, `_reconcile_terminal_state`, `_child_exit_code` and `_infrastructure_state` of
-- control.py.
pub mod Next
pub mod Legal
use euboulia.Prelude.{
  Bool, true, false, not, Option, none, some, List, [], ◌∷◌, ℕ, String, ◌&&◌, ◌||◌, str_eq,
  if◌then◌else◌,
}
use euboulia.Prelude.Dict.{lookup}
use euboulia.Control.{
  InfrastructureState-discrete, ControlStore, ControlRun, Changes, no_changes, Result, ok, err,
  unknown_run, type_error, Status, Phase, InfrastructureState, ArtifactState, ExitCode, exited,
  signalled, is_terminal_status, pod_deleted, pod_retained, pod_running, pod_pending, not_created,
  verified, partial, syncing,
}
use euboulia.Control.Store.{update, is_empty}

-- A value of a JSON object: null or absent, of the type that `update` accepts, or of another.
pub data Field (A : Type 0) : Type 0 where
  value : Option A → Field A
  malformed : Field A

-- What `read_run_progress` returns, which checks the phase only; `_reconcile_task` reads these four.
pub record Progress : Type 0 where
  pub phase : Phase
  pub detail : Field String
  pub completed_units : Field ℕ
  pub total_units : Field ℕ

pub data Cleanup : Type 0 where
  deleted retained retained_for_on_demand_artifacts other : Cleanup

-- The run record of run.json: a value that is not of the type or not among the names that the readers
-- accept is `none`, or `other`. A cleanup or a status that cannot be looked up in a set, a list or an
-- object, is left out.
pub record RunRecord : Type 0 where
  pub phase : Option Phase
  pub detail : Option String
  pub cleanup : Cleanup
  pub infrastructure_state : Option InfrastructureState
  pub artifact_state : Option ArtifactState
  pub status : Option Status
  pub has_pod : Bool
  pub finished_at : Option String
  pub passed : Option Bool
  pub error : Option String

-- What `_reconcile_task` finds. `manifest` says whether the manifest's `verified` is not false.
pub record Observed : Type 0 where
  pub record_json : Option RunRecord
  pub progress : Option Progress
  pub manifest : Option Bool
  pub child : Option (Option ExitCode)  -- the child's poll(), if the manager started the process
  pub pid_alive : Bool

abbrev pub is_terminal : Option Status → Bool
is_terminal none = false
is_terminal (some st) = is_terminal_status st

-- _child_exit_code; -1 stands for a process that is gone
unfoldable pub child_exit_code : Observed → Option ExitCode
child_exit_code o = elim o.child [
  | some code ↦ code
  | none ↦ if o.pid_alive then none else some (signalled 1)
]

abbrev or_explicit : Option InfrastructureState → InfrastructureState → InfrastructureState
or_explicit none otherwise = otherwise
or_explicit (some st) otherwise = st

abbrev by_status : RunRecord → InfrastructureState
by_status r = if is_terminal r.status then pod_retained else pod_running

-- _infrastructure_state
unfoldable pub infrastructure_of : RunRecord → InfrastructureState
infrastructure_of r = elim r.cleanup [
  | deleted ↦ pod_deleted
  | retained ↦ or_explicit r.infrastructure_state (by_status r)
  | retained_for_on_demand_artifacts ↦ or_explicit r.infrastructure_state (by_status r)
  | other ↦ or_explicit r.infrastructure_state (if r.has_pod then pod_pending else not_created)
]

-- A malformed value is in the code's `changes`, and not in this record: `is_ill_typed` finds it.
abbrev assigned_field : {A : Type 0} → Field A → Option (Option A)
assigned_field (value v) = some v
assigned_field malformed = none

-- changes.update(...) with the worker's progress
unfoldable pub with_progress : Option Progress → Changes → Changes
with_progress none c = c
with_progress (some p) c = record c {
  phase = some p.phase;
  detail = assigned_field p.detail;
  completed_units = assigned_field p.completed_units;
  total_units = assigned_field p.total_units;
}

-- A phase at which the record goes before the progress.
abbrev is_final : Phase → Bool
is_final syncing = true
is_final Phase.completed = true
is_final Phase.failed = true
is_final Phase.cancelled = true
is_final _ = false

abbrev prefer_record : Option Progress → Option Phase → Bool
prefer_record progress none = false
prefer_record none (some phase) = true
prefer_record (some p) (some phase) = is_final phase

abbrev is_missing : Option Progress → Bool
is_missing none = true
is_missing (some p) = false

abbrev set_phase : Bool → Option Phase → Changes → Changes
set_phase true (some phase) c = record c { phase = some phase }
set_phase _ _ c = c

abbrev set_detail : Bool → Option String → Changes → Changes
set_detail true (some detail) c = record c { detail = some (some detail) }
set_detail _ _ c = c

abbrev set_artifact : Option ArtifactState → Changes → Changes
set_artifact none c = c
set_artifact (some st) c = record c { artifact_state = some st }

abbrev manifest_state : Bool → ArtifactState
manifest_state true = verified
manifest_state false = partial

abbrev phase_of : Status → Phase
phase_of Status.queued = Phase.submitted
phase_of Status.running = Phase.submitted
phase_of Status.completed = Phase.completed
phase_of Status.failed = Phase.failed
phase_of Status.cancelled = Phase.cancelled
phase_of Status.disconnected = Phase.disconnected

abbrev set_manifest : Option Bool → Changes → Changes
set_manifest none c = c
set_manifest (some b) c = record c { artifact_state = some (manifest_state b) }

-- The block of a terminal record with a time at which it finished. `phase_of` is read at a terminal
-- status only.
unfoldable pub with_end : RunRecord → Option Bool → Changes → Changes
with_end r manifest c = elim r.status [
  | none ↦ c
  | some st ↦ elim r.finished_at [
    | none ↦ c
    | some finished_at ↦
        if is_terminal_status st
        then set_manifest manifest (record c {
          status = some st;
          phase = some (phase_of st);
          finished_at = some (some finished_at);
          passed = some r.passed;
          error = some r.error;
        })
        else c
  ]
]

-- The block of the run record.
unfoldable pub with_record : Observed → Changes → Changes
unfolding with_end infrastructure_of
with_record o c = elim o.record_json [
  | none ↦ c
  | some r ↦
      let prefer = prefer_record o.progress r.phase in
      with_end r o.manifest (
        set_artifact r.artifact_state
          (record (set_detail (is_missing o.progress || prefer) r.detail
            (set_phase prefer r.phase c)) { infrastructure_state = some (infrastructure_of r) }))
]

abbrev pub cancelled_changes : String → Changes → Changes
cancelled_changes now c = record c {
  status = some Status.cancelled;
  phase = some Phase.cancelled;
  finished_at = some (some now);
  detail = some (some "controller stopped after cancellation request");
}

abbrev pub failed_changes : String → Changes → Changes
failed_changes now c = record c {
  status = some Status.failed;
  phase = some Phase.failed;
  finished_at = some (some now);
  error = some (some "local controller exited");
}

abbrev pub disconnected_changes : Changes → Changes
disconnected_changes c = record c {
  status = some Status.disconnected;
  phase = some Phase.disconnected;
  detail = some (some "controller exited before a terminal run record was written");
}

abbrev has_record : Option RunRecord → Bool
has_record none = false
has_record (some r) = true

abbrev is_disconnected : Status → Bool
is_disconnected Status.disconnected = true
is_disconnected _ = false

-- From the exit code on. The error of a failed run has the code in its text.
unfoldable pub with_exit : ControlRun → String → Observed → Changes → Changes
unfolding child_exit_code
with_exit task now o c = elim (child_exit_code o) [
  | none ↦
      if is_disconnected task.status && o.pid_alive
      then record c { status = some Status.running }
      else c
  | some code ↦
      let c' : Changes = record c { exit_code = some (some code) } in
      if is_terminal c.status
      then c'
      else if task.cancel_requested
      then cancelled_changes now c'
      else if has_record o.record_json
      then disconnected_changes c'
      else failed_changes now c'
]

unfoldable pub reconciled : ControlRun → String → Observed → Changes
unfolding with_progress with_record with_exit
reconciled task now o = with_exit task now o (with_record o (with_progress o.progress no_changes))

abbrev is_malformed : {A : Type 0} → Field A → Bool
is_malformed (value v) = false
is_malformed malformed = true

abbrev is_unset : {A : Type 0} → Option A → Bool
is_unset none = true
is_unset (some v) = false

-- Whether `_validate_update` finds a malformed value: the units of the progress are in `changes` to the
-- end, its detail unless a later step has put a text there.
unfoldable pub is_ill_typed : Option Progress → Changes → Bool
is_ill_typed none c = false
is_ill_typed (some p) c =
    is_malformed p.completed_units
    || is_malformed p.total_units
    || (is_malformed p.detail && is_unset c.detail)

-- `_reconcile_task` of a row that the manager has listed. Its `update` checks the types first.
unfoldable pub reconcile_task :
    String → ControlRun → String → Observed → ControlStore → Result (Unit {0}) × ControlStore
unfolding reconciled is_ill_typed
reconcile_task run_uid task now o s =
    let changes = reconciled task now o in
    let (r, t) = update run_uid changes now s in
    if is_ill_typed o.progress changes
    then (err type_error, s)
    else if is_empty changes
    then (ok tt, s)
    else (elim r [ ok row ↦ ok tt | err e ↦ err e ], t)

abbrev is_deleted : Cleanup → Bool
is_deleted deleted = true
is_deleted _ = false

abbrev pub same_state : InfrastructureState → InfrastructureState → Bool
same_state a b = elim (InfrastructureState-discrete a b) [ yes _ ↦ true | no _ ↦ false ]

unfoldable pub terminal_changes : RunRecord → Changes
unfolding infrastructure_of
terminal_changes r = record no_changes {
  infrastructure_state = some (infrastructure_of r);
  detail =
      if is_deleted r.cleanup then some (some "owned Pod deleted after terminal run") else none;
}

abbrev pub plain : Result ControlRun × ControlStore → Result (Unit {0}) × ControlStore
plain (r, t) = (elim r [ ok row ↦ ok tt | err e ↦ err e ], t)

-- `_reconcile_terminal_state` of a row that the manager has listed.
unfoldable pub reconcile_terminal_state :
    String
    → ControlRun
    → String
    → Option RunRecord
    → ControlStore
    → Result (Unit {0}) × ControlStore
unfolding terminal_changes infrastructure_of
reconcile_terminal_state run_uid task now none s = (ok tt, s)
reconcile_terminal_state run_uid task now (some r) s =
    if same_state (infrastructure_of r) task.infrastructure_state
    then (ok tt, s)
    else plain (update run_uid (terminal_changes r) now s)

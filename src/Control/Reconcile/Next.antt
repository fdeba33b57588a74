-- ===== src/Control/Reconcile/Next.antt =====
-- The status that `_reconcile_task` gives a row.
use euboulia.Prelude.{
  ◌||◌, ◌≡◌, refl, ◌∙◌, arith, ◌⊎◌, inl, inr, Bool, true, false, Option, none, some, String, ◌&&◌,
  if◌then◌else◌,
}
use euboulia.Control.{
  ControlRun, Changes, no_changes, Status, ArtifactState, Phase, is_terminal_status, may_follow,
  allowed, Status-discrete, ExitCode,
}
use euboulia.Control.Store.{is_queued, chosen}
use euboulia.Control.Reconcile.{
  Observed, RunRecord, Progress, reconciled, with_progress, with_record, with_end, with_exit,
  child_exit_code, infrastructure_of, set_phase, set_detail, set_artifact, set_manifest, is_missing,
  prefer_record, is_terminal, cancelled_changes, failed_changes, disconnected_changes, has_record,
  is_disconnected,
}

-- The status of a terminal record with a time at which it finished.
abbrev finished_status : Option RunRecord → Option Status
finished_status none = none
finished_status (some r) = elim r.status [
  | none ↦ none
  | some st ↦ elim r.finished_at [
    | none ↦ none
    | some at ↦ if is_terminal_status st then some st else none
  ]
]

abbrev or_finished : Option Status → Status → Status
or_finished none otherwise = otherwise
or_finished (some st) otherwise = st

-- The status of a run whose controller has exited without a finished record.
abbrev lost_status : ControlRun → Observed → Status
lost_status task o =
    if task.cancel_requested
    then Status.cancelled
    else if has_record o.record_json
    then Status.disconnected
    else Status.failed

-- The next status: a disconnected run whose process lives runs again, whatever its record says; else
-- that of a finished record; else, once the process has exited, that of a lost run.
abbrev next_by : ControlRun → Observed → Option Status → Option ExitCode → Status
next_by task o finished (some code) = or_finished finished (lost_status task o)
next_by task o finished none =
    if is_disconnected task.status && o.pid_alive
    then Status.running
    else or_finished finished task.status

abbrev pub next_status : ControlRun → Observed → Status
next_status task o = next_by task o (finished_status o.record_json) (child_exit_code o)

set_phase-status : (b : Bool) (p : Option Phase) (c : Changes) → (set_phase b p c).status ≡ c.status
set_phase-status true (some p) c = refl
set_phase-status true none c = refl
set_phase-status false p c = refl

set_detail-status :
    (b : Bool) (d : Option String) (c : Changes) → (set_detail b d c).status ≡ c.status
set_detail-status true (some d) c = refl
set_detail-status true none c = refl
set_detail-status false d c = refl

set_artifact-status :
    (a : Option ArtifactState) (c : Changes) → (set_artifact a c).status ≡ c.status
set_artifact-status none c = refl
set_artifact-status (some a) c = refl

set_manifest-status : (b : Option Bool) (c : Changes) → (set_manifest b c).status ≡ c.status
set_manifest-status none c = refl
set_manifest-status (some b) c = refl

with_end-status :
    (r : RunRecord) (manifest : Option Bool) (c : Changes)
    → c.status ≡ none
    → (with_end r manifest c).status ≡ finished_status (some r)
unfolding with_end
with_end-status r manifest c h = grind (arith, set_manifest-status)

with_record-status :
    (o : Observed) (c : Changes)
    → c.status ≡ none
    → (with_record o c).status ≡ finished_status o.record_json
unfolding with_record
with_record-status o c h = by_record o.record_json
  where
    by_record :
        (q : Option RunRecord)
        → (elim q as (λ x. Changes) [
          | none ↦ c
          | some r ↦ with_end r o.manifest (
              set_artifact r.artifact_state
                (record (set_detail
                  (is_missing o.progress || prefer_record o.progress r.phase)
                  r.detail
                  (set_phase (prefer_record o.progress r.phase) r.phase c)) {
                    infrastructure_state = some (infrastructure_of r);
                  }))
        ]).status
          ≡ finished_status q
    by_record none = h
    by_record (some r) = with_end-status r o.manifest _ (
        set_artifact-status r.artifact_state _
        ∙ set_detail-status (is_missing o.progress || prefer_record o.progress r.phase) r.detail _
        ∙ set_phase-status (prefer_record o.progress r.phase) r.phase c
        ∙ h)

with_progress-status : (p : Option Progress) → (with_progress p no_changes).status ≡ none
unfolding with_progress
with_progress-status none = refl
with_progress-status (some p) = refl

finished-terminal :
    (q : Option RunRecord) (st : Status)
    → finished_status q ≡ some st
    → is_terminal_status st ≡ true
finished-terminal none st h = cc
finished-terminal (some r) st h = grind arith

with_exit-status :
    (task : ControlRun) (now : String) (o : Observed) (c : Changes)
    → c.status ≡ finished_status o.record_json
    → chosen (with_exit task now o c).status task.status ≡ next_status task o
unfolding with_exit
with_exit-status task now o c h =
    by_status (finished_status o.record_json) (λ st e. finished-terminal o.record_json st e) h
      (child_exit_code o)
  where
    by_status :
        (f : Option Status)
        → ((st : Status) → f ≡ some st → is_terminal_status st ≡ true)
        → c.status ≡ f
        → (code : Option ExitCode)
        → chosen
            (elim code as (λ x. Changes) [
              | none ↦
                  if is_disconnected task.status && o.pid_alive
                  then record c { status = some Status.running }
                  else c
              | some code ↦
                  let c' : Changes = record c { exit_code = some (some code) } in
                  if is_terminal c.status
                  then c'
                  else if task.cancel_requested
                  then cancelled_changes now c'
                  else if has_record o.record_json
                  then disconnected_changes c'
                  else failed_changes now c'
            ]).status
            task.status
          ≡ next_by task o f code
    by_status (some st) t e (some code) = let t' = t st refl in grind arith
    by_status (some st) t e none = grind arith
    by_status none t e (some code) = grind arith
    by_status none t e none = grind arith

-- The changes give the row the next status.
pub reconciled-status :
    (task : ControlRun) (now : String) (o : Observed)
    → chosen (reconciled task now o).status task.status ≡ next_status task o
unfolding reconciled
reconciled-status task now o =
    with_exit-status task now o (with_record o (with_progress o.progress no_changes))
      (with_record-status o (with_progress o.progress no_changes) (with_progress-status o.progress))

abbrev pub Active : Status → Type 0
Active st = (st ≡ Status.running) ⊎ (st ≡ Status.disconnected)

-- From an active status each status may follow but `queued`.
pub Active-may_follow : (a b : Status) → Active a → is_queued b ≡ false → may_follow a b ≡ true
unfolding may_follow allowed Status-discrete
Active-may_follow a b (inl e) h = grind arith
Active-may_follow a b (inr e) h = grind arith

terminal-unqueued : (st : Status) → is_terminal_status st ≡ true → is_queued st ≡ false
unfolding is_terminal_status
terminal-unqueued st h = grind arith

pub next-unqueued :
    (task : ControlRun) (o : Observed) → Active task.status → is_queued (next_status task o) ≡ false
next-unqueued task o active =
    by_code (finished_status o.record_json) (λ st e. finished-terminal o.record_json st e)
      (child_exit_code o)
  where
    by_code :
        (f : Option Status)
        → ((st : Status) → f ≡ some st → is_terminal_status st ≡ true)
        → (code : Option ExitCode) → is_queued (next_by task o f code) ≡ false
    by_code (some st) t code = let t' = terminal-unqueued st (t st refl) in grind arith
    by_code none t code = grind arith

-- ===== src/Control/Store.antt =====
-- The operations of `ControlStore` that change it, each one transaction: an error leaves the store as
-- it was.
use euboulia.Prelude.{
  Bool, true, false, not, Option, none, some, List, [], ◌∷◌, ℕ, suc, String, ◌&&◌, ◌||◌, str_eq,
  leb, if◌then◌else◌,
}
use euboulia.Prelude.Dict.{Dict, lookup, insert, remove, has_key}
use euboulia.Control.{
  ControlStore, ControlRun, ControlEvent, Changes, Result, ok, err, Status, queued, running,
  allocating, submitted, not_created, pending, pod_deleted, InfrastructureState, may_follow,
  Status-discrete, Phase-discrete, InfrastructureState-discrete, ArtifactState-discrete, ExitCode,
  exited, signalled, duplicate_run, unknown_run, not_failed, pod_remains, illegal_transition,
}

abbrev pub same {ℓ} : {A : Type ℓ} → Discrete A → A → A → Bool
same d x y = elim (d x y) [ yes _ ↦ true | no _ ↦ false ]

abbrev pub same_or_none {ℓ} : {A : Type ℓ} → (A → A → Bool) → Option A → Option A → Bool
same_or_none eq none none = true
same_or_none eq (some x) (some y) = eq x y
same_or_none eq _ _ = false

abbrev eq_ℕ : ℕ → ℕ → Bool
eq_ℕ a b = leb a b && leb b a

abbrev eq_Bool : Bool → Bool → Bool
eq_Bool true b = b
eq_Bool false b = not b

abbrev pub is_unset {ℓ} : {A : Type ℓ} → Option A → Bool
is_unset none = true
is_unset (some a) = false

abbrev pub chosen {ℓ} : {A : Type ℓ} → Option A → A → A
chosen none current = current
chosen (some a) current = a

abbrev eq_code : ExitCode → ExitCode → Bool
eq_code (exited a) (exited b) = eq_ℕ a b
eq_code (signalled a) (signalled b) = eq_ℕ a b
eq_code _ _ = false

-- not selected
unfoldable pub is_empty : Changes → Bool
is_empty c =
    is_unset c.status
    && is_unset c.phase
    && is_unset c.infrastructure_state
    && is_unset c.artifact_state
    && is_unset c.detail
    && is_unset c.completed_units
    && is_unset c.total_units
    && is_unset c.pid
    && is_unset c.exit_code
    && is_unset c.passed
    && is_unset c.error
    && is_unset c.cancel_requested
    && is_unset c.finished_at

-- The row with the columns that are selected; `updated_at` comes with an assignment.
unfoldable pub assigned : Changes → ControlRun → ControlRun
assigned c r = record r {
  status = chosen c.status r.status;
  phase = chosen c.phase r.phase;
  infrastructure_state = chosen c.infrastructure_state r.infrastructure_state;
  artifact_state = chosen c.artifact_state r.artifact_state;
  detail = chosen c.detail r.detail;
  completed_units = chosen c.completed_units r.completed_units;
  total_units = chosen c.total_units r.total_units;
  pid = chosen c.pid r.pid;
  exit_code = chosen c.exit_code r.exit_code;
  passed = chosen c.passed r.passed;
  error = chosen c.error r.error;
  cancel_requested = chosen c.cancel_requested r.cancel_requested;
  finished_at = chosen c.finished_at r.finished_at;
}

-- No assignment: each column has the value already.
unfoldable pub unchanged : ControlRun → ControlRun → Bool
unchanged r s =
    same Status-discrete r.status s.status
    && same Phase-discrete r.phase s.phase
    && same InfrastructureState-discrete r.infrastructure_state s.infrastructure_state
    && same ArtifactState-discrete r.artifact_state s.artifact_state
    && same_or_none str_eq r.detail s.detail
    && same_or_none eq_ℕ r.completed_units s.completed_units
    && same_or_none eq_ℕ r.total_units s.total_units
    && same_or_none eq_ℕ r.pid s.pid
    && same_or_none eq_code r.exit_code s.exit_code
    && same_or_none eq_Bool r.passed s.passed
    && same_or_none str_eq r.error s.error
    && eq_Bool r.cancel_requested s.cancel_requested
    && same_or_none str_eq r.finished_at s.finished_at

-- The event that `_append_event` takes from a row.
abbrev pub event_of : ℕ → String → ControlRun → ControlEvent
event_of sequence run_uid r = record {
  sequence = sequence;
  run_uid = run_uid;
  occurred_at = r.updated_at;
  status = r.status;
  phase = r.phase;
  infrastructure_state = r.infrastructure_state;
  artifact_state = r.artifact_state;
  detail = r.detail;
  completed_units = r.completed_units;
  total_units = r.total_units;
}

-- The row is written, and `_append_event` copies it.
unfoldable pub write_row : String → ControlRun → ControlStore → ControlStore
write_row run_uid r s = record {
  runs = insert run_uid r s.runs;
  events = event_of (suc s.last_sequence) run_uid r ∷ s.events;
  last_sequence = suc s.last_sequence;
}

abbrev pub new_run : String → ControlRun
new_run now = record {
  status = queued;
  phase = submitted;
  infrastructure_state = not_created;
  artifact_state = pending;
  detail = some "validated immutable recipe lock";
  completed_units = none;
  total_units = none;
  submitted_at = now;
  started_at = none;
  finished_at = none;
  updated_at = now;
  pid = none;
  exit_code = none;
  passed = none;
  error = none;
  cancel_requested = false;
}

unfoldable pub create : String → String → ControlStore → Result ControlRun × ControlStore
unfolding write_row
create run_uid now s =
    if has_key s.runs run_uid
    then (err duplicate_run, s)
    else (ok (new_run now), write_row run_uid (new_run now) s)

-- From the transition's check on.
unfoldable pub write_changes :
    String → String → ControlRun → ControlRun → ControlStore → Result ControlRun × ControlStore
unfolding write_row unchanged
write_changes run_uid now current target s =
    if may_follow current.status target.status
    then if unchanged current target then (ok current, s) else (
      ok (record target { updated_at = now }),
      write_row run_uid (record target { updated_at = now }) s,
    )
    else (err (illegal_transition current.status target.status), s)

abbrev found : Option ControlRun → Result ControlRun
found none = err unknown_run
found (some r) = ok r

unfoldable pub update : String → Changes → String → ControlStore → Result ControlRun × ControlStore
unfolding is_empty assigned write_changes
update run_uid changes now s =
    if is_empty changes then (found (lookup run_uid s.runs), s) else elim (lookup run_uid s.runs) [
      | none ↦ (err unknown_run, s)
      | some current ↦ write_changes run_uid now current (assigned changes current) s
    ]

abbrev pub is_failed : Status → Bool
is_failed Status.failed = true
is_failed _ = false

abbrev pub is_clean : InfrastructureState → Bool
is_clean not_created = true
is_clean pod_deleted = true
is_clean _ = false

-- The events of other runs.
unfoldable pub without_run : String → List ControlEvent → List ControlEvent
without_run run_uid [] = []
without_run run_uid (e ∷ es) =
    let rest = without_run run_uid es in if str_eq e.run_uid run_uid then rest else e ∷ rest

-- The events go with the row: ON DELETE CASCADE.
unfoldable pub drop_run : String → ControlRun → ControlStore → Result (Unit {0}) × ControlStore
unfolding without_run
drop_run run_uid r s =
    if is_failed r.status
    then if is_clean r.infrastructure_state
      then (ok tt, record s { runs = remove run_uid s.runs; events = without_run run_uid s.events })
      else (err pod_remains, s)
    else (err not_failed, s)

unfoldable pub delete_failed : String → ControlStore → Result (Unit {0}) × ControlStore
unfolding drop_run
delete_failed run_uid s = elim (lookup run_uid s.runs) [
  | none ↦ (err unknown_run, s)
  | some r ↦ drop_run run_uid r s
]

-- The row that `claim_next` writes.
abbrev pub claimed : String → ControlRun → ControlRun
claimed now r = record r {
  status = running;
  phase = allocating;
  detail = some "starting the local run controller";
  started_at = some now;
  updated_at = now;
}

-- The rows by their key.
unfoldable pub rows : Dict ControlRun → List (String × ControlRun) → List (String × ControlRun)
rows all [] = []
rows all ((run_uid, old) ∷ rest) = elim (lookup run_uid all) [
  | none ↦ rows all rest
  | some r ↦ (run_uid, r) ∷ rows all rest
]

abbrev pub is_queued : Status → Bool
is_queued queued = true
is_queued _ = false

module _ (before : String → String → Bool) where
  -- ORDER BY submitted_at, run_uid, by SQLite's order `before` of texts
  unfoldable pub precedes : String × ControlRun → String × ControlRun → Bool
  precedes (u, r) (v, q) =
      before r.submitted_at q.submitted_at || (str_eq r.submitted_at q.submitted_at && before u v)

  abbrev pub first_of : String × ControlRun → Option (String × ControlRun) → String × ControlRun
  first_of x none = x
  first_of x (some y) = if precedes y x then y else x

  unfoldable pub oldest : List (String × ControlRun) → Option (String × ControlRun)
  unfolding precedes
  oldest [] = none
  oldest ((u, r) ∷ rest) =
      let later = oldest rest in if is_queued r.status then some (first_of (u, r) later) else later

  unfoldable pub claim_next : String → ControlStore → Option ControlRun × ControlStore
  unfolding oldest rows write_row
  claim_next now s = elim (oldest (rows s.runs s.runs)) [
    | none ↦ (none, s)
    | some (u, r) ↦ (some (claimed now r), write_row u (claimed now r) s)
  ]

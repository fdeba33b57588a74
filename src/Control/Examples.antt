-- ===== src/Control/Examples.antt =====
-- A store of two submitted runs, the first of which is claimed and then reconciled.
use euboulia.Prelude.{some, ◌≡◌, refl, inl, true, false, none, some, []}
use euboulia.Prelude.Dict.{lookup, insert, has_key}
use euboulia.Control.{is_terminal_status, Phase, ControlStore, ControlRun, Status, exited}
use euboulia.Control.Store.{create, claim_next, claimed, new_run, write_row, oldest, rows, precedes}
use euboulia.Control.Audit.{Tracked, history}
use euboulia.Control.Audit.Steps.{Reachable, Step, Settled, Reachable-Tracked}
use euboulia.Control.Queue.{Claims, claim_next-Claims}
use euboulia.Control.Texts.{by_code_points, by_code_points-TextOrder}
use euboulia.Control.Reconcile.{
  child_exit_code, Progress, value, malformed, reconcile_terminal_state, Observed, Cleanup,
  reconcile_task,
}
use euboulia.Control.Reconcile.Legal.{
  Settles, reconcile_task-Settles, reconcile_terminal_state-Settles,
}

abbrev no_runs : ControlStore
no_runs = record { runs = []; events = []; last_sequence = 0 }

abbrev one : ControlStore
one = (create "run-B" "2026-01-01T00:00:01Z" no_runs).1

abbrev two : ControlStore
two = (create "run-A" "2026-01-01T00:00:02Z" one).1

abbrev three : ControlStore
three = (claim_next by_code_points "2026-01-01T00:00:03Z" two).1

abbrev first_run : ControlRun
first_run = claimed "2026-01-01T00:00:03Z" (new_run "2026-01-01T00:00:01Z")

three-Reachable : Reachable by_code_points three
three-Reachable =
    Reachable.more
      (Reachable.more (Reachable.more Reachable.empty (Step.creates _ _ no_runs))
        (Step.creates _ _ one))
      (Step.claims _ two)

first_claimed : lookup "run-B" three.runs ≡ some first_run
unfolding lookup insert has_key create claim_next oldest rows precedes write_row by_code_points
first_claimed = refl

Reachable-Tracked_example :
    Tracked "run-B" (history "run-B" three.events) first_run
    × Settled first_run.status (history "run-B" three.events)
Reachable-Tracked_example =
    Reachable-Tracked by_code_points three three-Reachable "run-B" first_run first_claimed

claim_next-Claims_example :
    Claims by_code_points by_code_points-TextOrder "2026-01-01T00:00:03Z" two
      (claim_next by_code_points "2026-01-01T00:00:03Z" two)
claim_next-Claims_example =
    claim_next-Claims by_code_points by_code_points-TextOrder "2026-01-01T00:00:03Z" two

-- The controller has written that the run failed, and its process has exited.
abbrev seen : Observed
seen = record {
  record_json = some (record {
    phase = none;
    detail = some "server did not start";
    cleanup = Cleanup.retained;
    infrastructure_state = none;
    artifact_state = none;
    status = some Status.failed;
    has_pod = true;
    finished_at = some "2026-01-01T00:10:00Z";
    passed = none;
    error = some "timeout";
  });
  progress = none;
  manifest = some true;
  child = some (some (exited 1));
  pid_alive = false;
}

-- Its progress counts the units by a text.
abbrev counted : Progress
counted = record {
  phase = Phase.failed;
  detail = value none;
  completed_units = malformed;
  total_units = value (some 4);
}

abbrev seen_counted : Observed
seen_counted = record seen { progress = some counted }

-- Without the progress, the row has the status that the record says.
settled :
    Settles "run-B" "2026-01-01T00:10:01Z" seen three first_run
      (reconcile_task "run-B" first_run "2026-01-01T00:10:01Z" seen three)
      Status.failed
unfolding child_exit_code is_terminal_status
settled =
    (reconcile_task-Settles "run-B" "2026-01-01T00:10:01Z" seen three first_run first_claimed
        (inl refl)).0
      (λ p e. cc)

reconcile_terminal_state-Settles_example :
    Settles "run-B" "2026-01-01T00:10:02Z" seen three first_run
      (reconcile_terminal_state "run-B" first_run "2026-01-01T00:10:02Z" seen.record_json three)
      first_run.status
reconcile_terminal_state-Settles_example =
    reconcile_terminal_state-Settles "run-B" "2026-01-01T00:10:02Z" seen three first_run
      seen.record_json first_claimed

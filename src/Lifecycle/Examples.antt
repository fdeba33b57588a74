-- ===== src/Lifecycle/Examples.antt =====
-- The lifecycle of one run (optimization/state.py), from the plan to a verdict.
use euboulia.Prelude.{◌≤◌, length, ◌≢◌, ◌≡◌, refl, some, none, List, [], ◌∷◌}
use euboulia.Lifecycle.{
  stopping_service, evaluating, waiting_for_ready, starting_service, building, applying_patch,
  preparing_workspace, stopping_baseline, evaluating_baseline, run_not_iterating,
  waiting_for_baseline, err, recording_memory, starting_baseline, building_baseline,
  preparing_baseline, planning, accepted, analyzing, baselining, failed, IterationState-discrete,
  planned, profiling, IterationState, RunState-discrete, is_terminal, iteration_transitions,
  run_transitions, Lifecycle, initial, ok, iterating, completed, created, move_run, begin_iteration,
  move_iteration,
}
use euboulia.Lifecycle.Progress.{move_along, iteration_bounded}
use euboulia.Lifecycle.Replay.{
  reachable_iteration, open_iteration_can_fail, Reach-move_along, accepted_recorded, over_is_final,
}
use euboulia.Lifecycle.Relation.{Reach, here, next, moved_run, began}

abbrev run_begun : Lifecycle
run_begun = record { run = iterating; iteration = none }

abbrev fresh : Lifecycle
fresh = record { run = iterating; iteration = some created }

abbrev at : IterationState → Lifecycle
at s = record { run = iterating; iteration = some s }

abbrev longest : List IterationState
longest =
    profiling ∷ analyzing ∷ planning ∷ preparing_baseline ∷ building_baseline ∷ starting_baseline
    ∷ waiting_for_baseline ∷ evaluating_baseline ∷ stopping_baseline ∷ preparing_workspace
    ∷ applying_patch ∷ building ∷ starting_service ∷ waiting_for_ready ∷ evaluating
    ∷ stopping_service ∷ recording_memory ∷ accepted ∷ []

fresh_begun : begin_iteration run_begun ≡ ok fresh
unfolding begin_iteration RunState-discrete
fresh_begun = refl

-- The bound of `iteration_bounded` is met.
longest_moves : move_along fresh longest ≡ ok (at accepted)
unfolding move_along move_iteration iteration_transitions IterationState-discrete
longest_moves = refl

iteration_bounded_example : length longest ≤ 18
iteration_bounded_example =
    iteration_bounded run_begun fresh (at accepted) longest fresh_begun longest_moves

Reach-fresh : Reach initial fresh
unfolding move_run run_transitions RunState-discrete
Reach-fresh = next (next here (moved_run iterating refl)) (began fresh_begun)

reachable_iteration_example :
    (fresh.run ≢ planned)
    × (fresh.run ≢ baselining)
    × (created ≢ IterationState.waiting_for_approval)
reachable_iteration_example = reachable_iteration fresh created Reach-fresh refl

open_iteration_can_fail_example : move_iteration fresh failed ≡ ok (at failed)
unfolding is_terminal IterationState-discrete
open_iteration_can_fail_example = open_iteration_can_fail fresh created Reach-fresh refl refl

Reach-accepted : Reach initial (at accepted)
Reach-accepted = Reach-move_along fresh (at accepted) longest Reach-fresh longest_moves

accepted_recorded_example :
    (m : Lifecycle) × Reach initial m
    × (m.iteration ≡ some recording_memory)
    × Reach m (at accepted)
accepted_recorded_example = accepted_recorded (at accepted) Reach-accepted refl

abbrev done : Lifecycle
done = record { run = completed; iteration = none }

over_is_final_example : (done.run ≡ completed) × (begin_iteration done ≡ err run_not_iterating)
over_is_final_example = over_is_final done done tt here

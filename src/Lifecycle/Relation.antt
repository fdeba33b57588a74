-- ===== src/Lifecycle/Relation.antt =====
-- The moves of `Lifecycle` (optimization/state.py) as a step relation, and what a move that did not
-- raise says of the states before and after it.
use euboulia.Prelude.{◌≡◌, some, true, contains, arith}
use euboulia.Lifecycle.{
  RunState, IterationState, RunState-discrete, IterationState-discrete, iterating, created,
  Lifecycle, ok, run_transitions, iteration_transitions, move_run, begin_iteration, move_iteration,
}

abbrev pub RunEdge : RunState → RunState → Type 0
RunEdge s t = contains RunState-discrete (run_transitions s) t ≡ true

abbrev pub IterationEdge : IterationState → IterationState → Type 0
IterationEdge s t = contains IterationState-discrete (iteration_transitions s) t ≡ true

-- One call of a method of `Lifecycle` that did not raise.
pub data Step (l m : Lifecycle) : Type 0 where
  moved_run : (t : RunState) → move_run l t ≡ ok m → Step l m
  began : begin_iteration l ≡ ok m → Step l m
  moved_iteration : (t : IterationState) → move_iteration l t ≡ ok m → Step l m

pub data Reach (l : Lifecycle) : Lifecycle → Type 0 where
  here : Reach l l
  next : {m n : Lifecycle} → Reach l m → Step m n → Reach l n

module _ (l : Lifecycle) {m : Lifecycle} where
  pub move_run-ok :
      (t : RunState) → move_run l t ≡ ok m → RunEdge l.run t × (m ≡ record l { run = t })
  unfolding move_run
  move_run-ok t h = ground arith

  pub begin_iteration-ok :
      begin_iteration l ≡ ok m
      → (l.run ≡ iterating) × (m.run ≡ l.run) × (m.iteration ≡ some created)
  unfolding begin_iteration
  begin_iteration-ok h = ground arith

  pub move_iteration-ok :
      (t : IterationState)
      → move_iteration l t ≡ ok m
      → (s : IterationState) × (l.iteration ≡ some s)
        × IterationEdge s t
        × (m ≡ record l { iteration = some t })
  unfolding move_iteration
  move_iteration-ok t h = ground arith

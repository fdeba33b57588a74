-- ===== src/Lifecycle.antt =====
-- optimization/state.py, with the state enums of optimization/contracts.py: the tables of legal
-- transitions and the `Lifecycle` projection. A raised `StateTransitionError` is a value of
-- `Failure`; its constructor says which `raise` it was, and its fields are what the message prints.
pub mod Relation
pub mod Progress
pub mod Replay
mod Examples
use euboulia.Prelude.{List, [], ◌∷◌, Option, none, some, Bool, true, false, contains, if◌then◌else◌}

pub data RunState : Type 0 where
  planned baselining iterating waiting_for_approval completed stopped failed cancelled : RunState

pub data IterationState : Type 0 where
  created profiling analyzing planning waiting_for_approval preparing_baseline : IterationState
  building_baseline starting_baseline waiting_for_baseline evaluating_baseline : IterationState
  stopping_baseline preparing_workspace applying_patch building starting_service : IterationState
  waiting_for_ready evaluating stopping_service recording_memory : IterationState
  accepted rejected invalid failed : IterationState

unfoldable pub RunState-discrete : Discrete RunState
RunState-discrete = hlevel

unfoldable pub IterationState-discrete : Discrete IterationState
IterationState-discrete = hlevel

pub data Failure : Type 0 where
  illegal_run : RunState → RunState → Failure
  illegal_iteration : IterationState → IterationState → Failure
  run_not_iterating previous_not_terminal no_iteration : Failure

pub data Result {ℓ} (A : Type ℓ) : Type ℓ where
  ok : A → Result A
  err : Failure → Result A

infixl 5 ◌>>=◌
abbrev pub ◌>>=◌ {ℓ κ} : {A : Type ℓ} {B : Type κ} → Result A → (A → Result B) → Result B
err raised >>= next = err raised
ok value >>= next = next value

-- RUN_TRANSITIONS
unfoldable pub run_transitions : RunState → List RunState
run_transitions planned = baselining ∷ iterating ∷ cancelled ∷ []
run_transitions baselining =
    iterating ∷ RunState.waiting_for_approval ∷ RunState.failed ∷ cancelled ∷ []
run_transitions iterating =
    RunState.waiting_for_approval ∷ completed ∷ stopped ∷ RunState.failed ∷ cancelled ∷ []
run_transitions RunState.waiting_for_approval = iterating ∷ stopped ∷ cancelled ∷ []
run_transitions completed = []
run_transitions stopped = []
run_transitions RunState.failed = []
run_transitions cancelled = []

-- ITERATION_TRANSITIONS
unfoldable pub iteration_transitions : IterationState → List IterationState
iteration_transitions created = profiling ∷ failed ∷ []
iteration_transitions profiling = analyzing ∷ failed ∷ []
iteration_transitions analyzing = planning ∷ failed ∷ []
iteration_transitions planning =
    preparing_baseline ∷ preparing_workspace ∷ recording_memory ∷ failed ∷ []
iteration_transitions waiting_for_approval =
    preparing_baseline ∷ preparing_workspace ∷ recording_memory ∷ []
iteration_transitions preparing_baseline = building_baseline ∷ recording_memory ∷ failed ∷ []
iteration_transitions building_baseline = starting_baseline ∷ recording_memory ∷ failed ∷ []
iteration_transitions starting_baseline =
    waiting_for_baseline ∷ stopping_baseline ∷ recording_memory ∷ failed ∷ []
iteration_transitions waiting_for_baseline =
    evaluating_baseline ∷ stopping_baseline ∷ recording_memory ∷ failed ∷ []
iteration_transitions evaluating_baseline = stopping_baseline ∷ recording_memory ∷ failed ∷ []
iteration_transitions stopping_baseline = preparing_workspace ∷ recording_memory ∷ failed ∷ []
iteration_transitions preparing_workspace = applying_patch ∷ invalid ∷ failed ∷ []
iteration_transitions applying_patch = building ∷ evaluating ∷ invalid ∷ failed ∷ []
iteration_transitions building = starting_service ∷ recording_memory ∷ invalid ∷ failed ∷ []
iteration_transitions starting_service =
    waiting_for_ready ∷ stopping_service ∷ recording_memory ∷ invalid ∷ failed ∷ []
iteration_transitions waiting_for_ready =
    evaluating ∷ stopping_service ∷ recording_memory ∷ invalid ∷ failed ∷ []
iteration_transitions evaluating = stopping_service ∷ recording_memory ∷ invalid ∷ failed ∷ []
iteration_transitions stopping_service = recording_memory ∷ invalid ∷ failed ∷ []
iteration_transitions recording_memory = accepted ∷ rejected ∷ invalid ∷ failed ∷ []
iteration_transitions accepted = []
iteration_transitions rejected = []
iteration_transitions invalid = []
iteration_transitions failed = []

unfoldable pub validate_run_transition : RunState → RunState → Result (Unit {0})
validate_run_transition current target =
    if contains RunState-discrete (run_transitions current) target
    then ok tt
    else err (illegal_run current target)

unfoldable pub validate_iteration_transition : IterationState → IterationState → Result (Unit {0})
validate_iteration_transition current target =
    if contains IterationState-discrete (iteration_transitions current) target
    then ok tt
    else err (illegal_iteration current target)

pub record Lifecycle : Type 0 where
  pub run : RunState
  pub iteration : Option IterationState

abbrev pub initial : Lifecycle
initial = record { run = planned; iteration = none }

unfoldable pub move_run : Lifecycle → RunState → Result Lifecycle
unfolding validate_run_transition
move_run self target = do
  legal ← validate_run_transition self.run target
  ok (record self { run = target })

-- The set literal of `begin_iteration`.
unfoldable pub is_terminal : IterationState → Bool
is_terminal s = contains IterationState-discrete (accepted ∷ rejected ∷ invalid ∷ failed ∷ []) s

previous_open : Option IterationState → Bool
unfolding is_terminal
previous_open none = false
previous_open (some s) = if is_terminal s then false else true

unfoldable pub begin_iteration : Lifecycle → Result Lifecycle
unfolding previous_open
begin_iteration self = elim (RunState-discrete self.run iterating) [
  | no _ ↦ err run_not_iterating
  | yes _ ↦
      if previous_open self.iteration
      then err previous_not_terminal
      else ok (record self { iteration = some created })
]

move_from : Lifecycle → Option IterationState → IterationState → Result Lifecycle
unfolding validate_iteration_transition
move_from self none target = err no_iteration
move_from self (some current) target = do
  legal ← validate_iteration_transition current target
  ok (record self { iteration = some target })

unfoldable pub move_iteration : Lifecycle → IterationState → Result Lifecycle
unfolding move_from
move_iteration self target = move_from self self.iteration target

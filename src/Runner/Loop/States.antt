-- ===== src/Runner/Loop/States.antt =====
-- The states that a run passes, and the actions on its budget.
use euboulia.Prelude.{
  Bool, true, ◌≡◌, refl, arith, false, none, some, List, [], ◌∷◌, ◌++◌, ℕ, suc, ◌+◌, ◌≤◌, ◌<◌, ◌⊎◌,
  All,
}
use euboulia.Floats.{FloatOps}
use euboulia.Lifecycle
use euboulia.Lifecycle.{
  accepted, Lifecycle, RunState, IterationState, RunState-discrete, IterationState-discrete,
  iteration_transitions, run_transitions, move_iteration, move_run, begin_iteration, is_terminal,
  initial, iterating, planning, recording_memory, stopping_service, evaluating, created, profiling,
  analyzing, completed, stopped,
}
use euboulia.Budget.{BudgetTracker, reserve_iteration, record_failure, snapshot, exhausted}
use euboulia.Runner.{
  Raised, invalid, accepted, RunnerHost, RunConfig, IterationOutcome, OutcomeStatus,
}
use euboulia.Runner.Loop.{
  refuse_known, opened, continued, broken, failed_once, now, reserve, returned, LoopState,
  RunResult, Turn, is_accepted,
}
use euboulia.Runner.Service.Stops.{in_iteration}
use euboulia.Runner.Suite.{terminal_iteration_state}
use euboulia.Runner.Keeps.{
  Keeps, Any, Legal, Keeps-return, Keeps-raise, Keeps-call, Leaves-bind, Leaves-then, Leaves-if,
}

abbrev pub Moves : IterationState → IterationState → Type 0
Moves s t = move_iteration (in_iteration s) t ≡ Lifecycle.ok (in_iteration t)

-- A lifecycle in which an iteration can begin and the run can stop.
pub record Ready (l : Lifecycle) : Type 0 where
  pub can_begin : begin_iteration l ≡ Lifecycle.ok (in_iteration created)
  pub can_stop : move_run l stopped ≡ Lifecycle.ok (record l { run = stopped })

pub record Edges : Type 0 where
  pub to_profiling : Moves created profiling
  pub to_analyzing : Moves profiling analyzing
  pub to_planning : Moves analyzing planning
  pub without_proposal : Moves planning recording_memory
  pub after_service : Moves stopping_service recording_memory
  pub after_evaluation : Moves evaluating recording_memory

pub edges : Edges
unfolding move_iteration iteration_transitions IterationState-discrete
edges = record {
  to_profiling = refl;
  to_analyzing = refl;
  to_planning = refl;
  without_proposal = refl;
  after_service = refl;
  after_evaluation = refl;
}

pub to_terminal : (s : OutcomeStatus) → Moves recording_memory (terminal_iteration_state s)
unfolding move_iteration iteration_transitions IterationState-discrete terminal_iteration_state
to_terminal accepted = refl
to_terminal OutcomeStatus.rejected = refl
to_terminal invalid = refl
to_terminal OutcomeStatus.failed = refl

pub terminal-Ready : (s : OutcomeStatus) → Ready (in_iteration (terminal_iteration_state s))
unfolding begin_iteration move_run run_transitions RunState-discrete IterationState-discrete
    terminal_iteration_state is_terminal
terminal-Ready accepted = record { can_begin = refl; can_stop = refl }
terminal-Ready OutcomeStatus.rejected = record { can_begin = refl; can_stop = refl }
terminal-Ready invalid = record { can_begin = refl; can_stop = refl }
terminal-Ready OutcomeStatus.failed = record { can_begin = refl; can_stop = refl }

pub can_complete :
    (s : IterationState)
    → move_run (in_iteration s) completed
      ≡ Lifecycle.ok (record { run = completed; iteration = some s })
unfolding move_run run_transitions RunState-discrete
can_complete s = refl

abbrev pub fresh : Lifecycle
fresh = record { run = iterating; iteration = none }

pub fresh-Ready : Ready fresh
unfolding begin_iteration move_run run_transitions RunState-discrete
fresh-Ready = record { can_begin = refl; can_stop = refl }

pub can_iterate : move_run initial iterating ≡ Lifecycle.ok fresh
unfolding move_run run_transitions RunState-discrete
can_iterate = refl

pub can_wait :
    move_run fresh RunState.waiting_for_approval
    ≡ Lifecycle.ok (record { run = RunState.waiting_for_approval; iteration = none })
unfolding move_run run_transitions RunState-discrete
can_wait = refl

module _ (F : FloatOps) (H : RunnerHost F.Float) (config : RunConfig F.Float) where
  open F use {Float}

  abbrev pub Unaccepted : List (IterationOutcome Float) → Type 0
  Unaccepted outcomes = All (λ o. is_accepted o.status ≡ false) outcomes

  -- The last outcome was accepted, and its proposal is the champion.
  pub record Promoted (r : RunResult Float) : Type 0 where
    pub earlier : List (IterationOutcome Float)
    pub last : IterationOutcome Float
    pub recorded : r.outcomes ≡ earlier ++ (last ∷ [])
    pub was_accepted : last.status ≡ accepted
    pub none_before : Unaccepted earlier
    pub is_champion : r.champion_id ≡ last.proposal_id
    pub replaced : last.champion_before ≡ config.baseline_name
    pub run_completed : r.run_state ≡ completed

  -- No outcome was accepted, and the baseline is the champion still.
  pub record Unchanged (r : RunResult Float) : Type 0 where
    pub none_accepted : Unaccepted r.outcomes
    pub is_baseline : r.champion_id ≡ config.baseline_name

  abbrev pub Ended : RunResult Float → Type 0
  Ended r = Promoted r ⊎ Unchanged r

  pub record Quiet (st : LoopState F) : Type 0 where
    pub ready : Ready st.lifecycle
    pub champion : st.champion_id ≡ config.baseline_name
    pub outcomes : Unaccepted st.outcomes

  pub record Going (st : LoopState F) : Type 0 where
    pub quiet : Quiet st
    pub limit : st.budget.limits.max_failures ≡ config.max_consecutive_failures
    pub few : st.no_improvement ≤ config.no_improvement_patience
    pub failures : st.budget.failures ≤ config.max_consecutive_failures

  abbrev pub spent : LoopState F → ℕ
  spent st = st.no_improvement + st.budget.failures

  -- A round that goes on has spent more of the two counters than the round before.
  abbrev pub TurnEnds : ℕ → Turn F → Type 0
  TurnEnds before (returned r) = Ended r
  TurnEnds before (broken st) = Quiet st
  TurnEnds before (continued st) = Going st × (before < spent st)

  pub now-Keeps : {R : Raised → Type 0} → Keeps R Any (now F H config)
  unfolding now
  now-Keeps = record { services = λ s. refl; result = λ s. tt }

  refuse_known-Keeps : (known : Bool) → Keeps Legal Any (refuse_known F H config known)
  unfolding refuse_known
  refuse_known-Keeps true = Keeps-raise _ tt
  refuse_known-Keeps false = Keeps-return _ tt

  pub opened-Keeps : Keeps Legal Any (opened F H config)
  unfolding opened
  opened-Keeps = Leaves-then (Keeps-call H.open_ledger) (
      Leaves-bind (Keeps-call H.has_run) (λ known k.
        Leaves-then (refuse_known-Keeps known)
          (Leaves-then (Keeps-call H.write_resolved_recipe) (Keeps-call H.open_memory))))

  -- A reservation leaves the failures and the limits alone.
  abbrev pub SameFailures : BudgetTracker F → BudgetTracker F → Type 0
  SameFailures b c = (c.failures ≡ b.failures) × (c.limits ≡ b.limits)

  reserve_iteration-failures :
      (b : BudgetTracker F) (t later : Float) → SameFailures b (reserve_iteration F b t later).0
  unfolding reserve_iteration
  reserve_iteration-failures b t later = ground arith

  pub reserve-Keeps :
      (b : BudgetTracker F) → Keeps Legal (λ (c, n). SameFailures b c) (reserve F H config b)
  unfolding reserve
  reserve-Keeps b = Leaves-bind now-Keeps (λ t h.
      Leaves-if (exhausted F (snapshot F b t)) _ _ (λ e. Keeps-return _ (refl, refl))
        (λ e.
          Leaves-bind now-Keeps (λ later k. Keeps-return _ (reserve_iteration-failures b t later))))

  pub failed_once-Keeps :
      (b : BudgetTracker F)
      → Keeps Legal
          (λ c. (c.failures ≡ suc b.failures) × (c.limits ≡ b.limits))
          (failed_once F H config b)
  unfolding failed_once record_failure
  failed_once-Keeps b = Leaves-bind now-Keeps (λ t h. Keeps-return _ (omega arith, refl))

-- ===== src/Runner/Loop.antt =====
-- `OptimizationRunner.run` of runner.py, with `_required_capabilities`, `_failed_outcome` and `_result`.
pub mod States
pub mod Turns
pub mod Ends
pub mod Approval
use euboulia.Prelude.{
  ◌&&◌, String, Bool, true, false, not, ◌||◌, Option, none, some, List, [], ◌∷◌, ◌++◌,
  if◌then◌else◌, ℕ, zero, suc, ◌+◌, leb, map, contains,
}
use euboulia.Floats.{FloatOps}
use euboulia.Lifecycle.{
  planning, analyzing, iterating, profiling, completed, recording_memory, stopped, Lifecycle,
  RunState, IterationState, move_iteration, move_run, begin_iteration, initial,
}
use euboulia.Budget
use euboulia.Budget.{
  BudgetTracker, reserve_iteration, record_failure, snapshot, exhausted, new_tracker,
}
use euboulia.Runner.{
  from_host, interrupted, Result, ok, raised, analysis_completed, profile_completed,
  workspace_write, profile_execution, profile_started, owned_service_lifecycle, build_execution,
  iteration_failed, memory_recalled, run_started, approval_requested, iteration_started,
  patch_rejected, run_completed, run_failed, run_planned, verdict_recorded, workspace_error,
  Capability-discrete, IterationOutcome, accepted, approval_granted, benchmark_execution,
  budget_reserved, invalid, iteration_completed, memory_recorded, proposal_created, raised,
  run_stopped, runtime_error, Capability, EventType, OutcomeStatus, Proposal, RecalledMemory,
  champion_updated, out_of_fuel, RunnerHost, RunConfig,
}
use euboulia.Runner.Exec.{Exec, ◌>>=◌, ◌>>◌, return, raise, call, emit, moved, attempt}
use euboulia.Runner.Suite.{
  outcome_of, is_promotable, improvement_of, outcome_status, terminal_iteration_state,
}
use euboulia.Runner.Candidate.{CandidateExecution, execute_candidate}
use euboulia.Runner.Profile.{capture_champion_profile}
use euboulia.Planner.{among}

pub data StopReason : Type 0 where
  authorization_required no_new_proposal candidate_accepted patience_exhausted : StopReason
  budget_exhausted : Budget.Reason → StopReason

-- OptimizationRunResult
pub record RunResult (Float : Type 0) : Type 0 where
  pub run_state : RunState
  pub iteration_state : Option IterationState
  pub champion_id : String
  pub proposals : List Proposal
  pub outcomes : List (IterationOutcome Float)
  pub stop_reason : StopReason

-- The local variables that the loop changes.
pub record LoopState (F : FloatOps) : Type 0 where
  pub lifecycle : Lifecycle
  pub champion_id : String
  pub observed_proposals : List Proposal
  pub outcomes : List (IterationOutcome F.Float)
  pub budget : BudgetTracker F
  pub no_improvement : ℕ

-- How a round of the loop ends: by `return`, by `break`, or at the end of its body.
pub data Turn (F : FloatOps) : Type 0 where
  returned : RunResult F.Float → Turn F
  broken : LoopState F → Turn F
  continued : LoopState F → Turn F

-- Capabilities that are required and not authorized.
unfoldable pub missing : List Capability → List Capability → List Capability
missing authorized [] = []
missing authorized (c ∷ cs) =
    let rest = missing authorized cs in
    if contains Capability-discrete authorized c then rest else c ∷ rest

-- Recalled entries whose ids are not among these.
abbrev others : List String → List RecalledMemory → List RecalledMemory
others ids [] = []
others ids (m ∷ ms) = let rest = others ids ms in if among m.memory_id ids then rest else m ∷ rest

abbrev pub is_accepted : OutcomeStatus → Bool
is_accepted accepted = true
is_accepted _ = false

-- outcome_status in {OutcomeStatus.FAILED, OutcomeStatus.INVALID}
abbrev pub counts_as_failure : OutcomeStatus → Bool
counts_as_failure OutcomeStatus.failed = true
counts_as_failure invalid = true
counts_as_failure _ = false

abbrev pub reason_or_patience : Option Budget.Reason → StopReason
reason_or_patience none = patience_exhausted
reason_or_patience (some r) = budget_exhausted r

module _ (F : FloatOps) (H : RunnerHost F.Float) (config : RunConfig F.Float) where
  open F use {Float}

  unfoldable pub required_capabilities : List Capability
  required_capabilities =
      benchmark_execution
        ∷ (if config.has_target && config.has_build_commands then build_execution ∷ [] else [])
      ++ (if config.has_target then owned_service_lifecycle ∷ [] else [])
      ++ (profile_execution ∷ workspace_write ∷ [])

  -- A reading of the clock.
  pub now : Exec H.World Float
  now s = let (t, w) = H.monotonic s.world in (ok t, record s { world = w })

  pub reserve : BudgetTracker F → Exec H.World (BudgetTracker F × ℕ)
  unfolding now
  reserve budget = now >>= λ t.
      if exhausted F (snapshot F budget t)
      then return (budget, budget.iterations_started)
      else (now >>= λ later. return (
        (reserve_iteration F budget t later).0,
        (reserve_iteration F budget t later).1.iterations_started,
      ))

  pub failed_once : BudgetTracker F → Exec H.World (BudgetTracker F)
  unfolding now
  failed_once budget = now >>= λ t. return (record_failure F budget t).0

  result_of : LoopState F → Lifecycle → StopReason → RunResult Float
  result_of st l reason = record {
    run_state = l.run;
    iteration_state = l.iteration;
    champion_id = st.champion_id;
    proposals = st.observed_proposals;
    outcomes = st.outcomes;
    stop_reason = reason;
  }

  module _ (iteration : ℕ) where
    emit_in : EventType → Option String → Exec H.World (Unit {0})
    unfolding emit
    emit_in kind entity = emit H kind (some iteration) entity

    emit_proposals : List Proposal → Exec H.World (Unit {0})
    unfolding emit_in
    emit_proposals [] = return tt
    emit_proposals (p ∷ ps) = emit_in proposal_created (some p.proposal_id) >> emit_proposals ps

    -- From the event PROFILE_COMPLETED on.
    pub after_profile : List Proposal → Lifecycle → Exec H.World (Lifecycle × List Proposal)
    unfolding emit_in emit_proposals
    after_profile proposals l1 = do
      emit_in profile_completed none
      l2 ← moved (move_iteration l1 analyzing)
      emit_in analysis_completed none
      l3 ← moved (move_iteration l2 planning)
      emit_proposals proposals
      return (l3, proposals)

    -- From `begin_iteration` to the move to PLANNING: the lifecycle and the proposals.
    pub plan_iteration : LoopState F → Exec H.World (Lifecycle × List Proposal)
    unfolding emit_in after_profile
    plan_iteration st = do
      l0 ← moved (begin_iteration st.lifecycle)
      emit_in budget_reserved none
      emit_in iteration_started none
      exact ← call H.recall_exact
      compatible ← call H.recall_compatible
      emit_in memory_recalled none
      l1 ← moved (move_iteration l0 profiling)
      emit_in profile_started none
      capture_champion_profile F H config iteration st.champion_id
      proposals ←
          call (H.deliberate (exact ++ others (map (λ m. m.memory_id) exact) compatible) exact)
      after_profile proposals l1

    -- The branch of a planner without a proposal.
    pub no_proposal : LoopState F → Lifecycle → Exec H.World (Turn F)
    unfolding emit_in result_of
    no_proposal st l = do
      l1 ← moved (move_iteration l recording_memory)
      l2 ← moved (move_iteration l1 IterationState.rejected)
      emit_in iteration_completed none
      l3 ← moved (move_run l2 completed)
      emit H run_completed none none
      return (returned (result_of st l3 no_new_proposal))

    outcome_from : String → String → Proposal → CandidateExecution Float → IterationOutcome Float
    outcome_from id champion proposal execution =
        let status =
          outcome_status (outcome_of execution.evaluation) (is_promotable execution.evaluation) in
        record {
          outcome_id = id;
          iteration_id = iteration;
          proposal_id = proposal.proposal_id;
          status = status;
          champion_before = champion;
          champion_after = if is_accepted status then proposal.proposal_id else champion;
          relative_improvement = improvement_of execution.evaluation;
          patch_digest = some execution.change_digest;
        }

    pub accept : LoopState F → Lifecycle → Exec H.World (Turn F)
    unfolding emit_in result_of
    accept st l = do
      emit_in champion_updated (some st.champion_id)
      l' ← moved (move_run l completed)
      emit H run_completed none none
      return (returned (result_of st l' candidate_accepted))

    -- no_improvement += 1, and the rest of the block
    pub no_better : LoopState F → OutcomeStatus → Exec H.World (Turn F)
    unfolding failed_once
    no_better st status =
        (if counts_as_failure status then failed_once st.budget else return st.budget) >>= λ budget.
        let st' : LoopState F = record st {
          budget = budget;
          no_improvement = st.no_improvement + 1;
        } in
        return (
          if leb config.no_improvement_patience st'.no_improvement
          then broken st'
          else continued st')

    -- outcomes.append(outcome), and whether the champion changes
    pub judged : LoopState F → IterationOutcome Float → Lifecycle → Exec H.World (Turn F)
    unfolding accept no_better
    judged st outcome l =
        let st' : LoopState F = record st {
          lifecycle = l;
          outcomes = st.outcomes ++ (outcome ∷ []);
        } in
        if is_accepted outcome.status
        then accept (record st' { champion_id = outcome.champion_after }) l
        else no_better st' outcome.status

    -- From the outcome on, once the candidate was executed.
    pub record_outcome : LoopState F → Proposal → CandidateExecution Float → Exec H.World (Turn F)
    unfolding emit_in outcome_from judged
    record_outcome st proposal execution = do
      id ← call H.new_outcome_id
      let outcome = outcome_from id st.champion_id proposal execution
      l1 ← moved (move_iteration execution.lifecycle recording_memory)
      memory_id ← call (H.remember outcome)
      emit_in memory_recorded (some memory_id)
      l2 ← moved (move_iteration l1 (terminal_iteration_state outcome.status))
      emit_in verdict_recorded (some outcome.outcome_id)
      emit_in iteration_completed none
      judged st outcome l2

    failed_outcome : String → String → Proposal → IterationOutcome Float
    failed_outcome id champion proposal = record {
      outcome_id = id;
      iteration_id = iteration;
      proposal_id = proposal.proposal_id;
      status = invalid;
      champion_before = champion;
      champion_after = champion;
      relative_improvement = none;
      patch_digest = elim proposal.change_sha256 [
        | none ↦ proposal.patch_sha256
        | some digest ↦ some digest
      ];
    }

    -- except (PatchRejected, WorkspaceError)
    pub reject_patch : LoopState F → Lifecycle → Proposal → Exec H.World (Turn F)
    unfolding emit_in failed_outcome failed_once
    reject_patch st l proposal = do
      l1 ← moved (move_iteration l recording_memory)
      id ← call H.new_outcome_id
      let outcome = failed_outcome id st.champion_id proposal
      memory_id ← call (H.remember outcome)
      budget ← failed_once st.budget
      emit_in memory_recorded (some memory_id)
      l2 ← moved (move_iteration l1 IterationState.invalid)
      emit_in patch_rejected (some proposal.proposal_id)
      emit_in iteration_failed none
      return (
          continued (record st {
            lifecycle = l2;
            outcomes = st.outcomes ++ (outcome ∷ []);
            budget = budget;
          }))

    -- Past the candidate's execution the block calls the ledger and the memory only, which raise no
    -- `WorkspaceError`.
    pub after_execution :
        LoopState F
        → Lifecycle
        → Proposal
        → Result (CandidateExecution Float)
        → Exec H.World (Turn F)
    unfolding record_outcome reject_patch
    after_execution st l proposal (ok execution) = record_outcome st proposal execution
    after_execution st l proposal (raised (from_host (workspace_error e))) =
        reject_patch st l proposal
    after_execution st l proposal (raised r) = raise r

    pub act_on : LoopState F → Lifecycle → List Proposal → Exec H.World (Turn F)
    unfolding no_proposal after_execution
    act_on st l [] = no_proposal st l
    act_on st l (proposal ∷ rest) =
        attempt (execute_candidate F H config iteration proposal st.champion_id l) >>= λ r.
        after_execution st l proposal r

  -- The body of the loop.
  pub turn : LoopState F → Exec H.World (Turn F)
  unfolding reserve plan_iteration act_on
  turn st = do
    (budget, iteration) ← reserve st.budget
    (l, proposals) ← plan_iteration iteration st
    act_on iteration
        (record st { budget = budget; observed_proposals = st.observed_proposals ++ proposals }) l
        proposals

  -- From the end of the loop on.
  pub stop_run : LoopState F → Exec H.World (RunResult Float)
  unfolding now result_of emit
  stop_run st = do
    t ← now
    l ← moved (move_run st.lifecycle stopped)
    emit H run_stopped none none
    return (result_of st l (reason_or_patience (snapshot F st.budget t).exhausted_reason))

  -- What follows a round.
  pub proceed :
      (LoopState F → Exec H.World (RunResult Float)) → Turn F → Exec H.World (RunResult Float)
  unfolding stop_run
  proceed next (returned r) = return r
  proceed next (broken st) = stop_run st
  proceed next (continued st) = next st

  -- while not budget.snapshot().exhausted, on fuel
  unfoldable pub run_loop : ℕ → LoopState F → Exec H.World (RunResult Float)
  unfolding now turn stop_run proceed
  run_loop zero st = raise out_of_fuel
  run_loop (suc fuel) st = now >>= λ t.
      if exhausted F (snapshot F st.budget t)
      then stop_run st
      else (turn st >>= λ u. proceed (λ st'. run_loop fuel st') u)

  -- The `try` block: a round that goes on raises one of two counters, and each has its limit.
  pub active : LoopState F → Exec H.World (RunResult Float)
  unfolding run_loop
  active st =
      call H.prepare_models
      >> run_loop (suc (config.no_improvement_patience + config.max_consecutive_failures)) st

  -- except Exception: append RUN_FAILED; raise
  pub failed_run : Result (RunResult Float) → Exec H.World (RunResult Float)
  unfolding emit
  failed_run (ok r) = return r
  failed_run (raised (from_host interrupted)) = raise (from_host interrupted)
  failed_run (raised r) = emit H run_failed none none >> raise r

  pub start_state : Lifecycle → Float → LoopState F
  start_state l t = record {
    lifecycle = l;
    champion_id = config.baseline_name;
    observed_proposals = [];
    outcomes = [];
    budget =
        new_tracker F
          (record {
            max_iterations = config.max_iterations;
            max_failures = config.max_consecutive_failures;
            max_wall_time_seconds = config.max_wall_time_seconds;
          })
          t;
    no_improvement = 0;
  }

  -- From the authorization on, by the capabilities that are missing.
  pub with_missing : List Capability → LoopState F → Exec H.World (RunResult Float)
  unfolding active failed_run result_of emit
  with_missing [] st = do emit H approval_granted none none; r ← attempt (active st); failed_run r
  with_missing (c ∷ cs) st = do
    emit H approval_requested none none
    l ← moved (move_run st.lifecycle RunState.waiting_for_approval)
    return (result_of st l authorization_required)

  -- From the planning of the run on.
  -- if ledger.by_run(run_uid): raise
  pub refuse_known : Bool → Exec H.World (Unit {0})
  refuse_known known =
      if known then raise (runtime_error "generated run_uid already exists") else return tt

  -- From the ledger to the memory store.
  pub opened : Exec H.World (Unit {0})
  unfolding refuse_known
  opened = do
    call H.open_ledger
    known ← call H.has_run
    refuse_known known
    call H.write_resolved_recipe
    call H.open_memory

  pub begun : List Capability → Exec H.World (RunResult Float)
  unfolding opened with_missing start_state now missing required_capabilities
  begun authorized = do
    call H.require_lock
    opened
    t ← now
    emit H run_planned none none
    emit H run_started none none
    l ← moved (move_run initial iterating)
    with_missing (missing authorized required_capabilities) (start_state l t)

  unfoldable pub run : List Capability → Exec H.World (RunResult Float)
  unfolding begun
  run authorized =
      if config.has_target
      then begun authorized
      else raise (runtime_error "optimize run requires a managed SGLang target")

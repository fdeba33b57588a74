-- ===== src/Runner/Loop/Turns.antt =====
-- One round of the loop: how it ends, and what it leaves.
use euboulia.Prelude.{
  if-elim, ◌≡◌, refl, sym, ap, ◌∙◌, subst, arith, true, false, Option, none, some, List, [], ◌∷◌,
  ◌++◌, ℕ, suc, ◌+◌, ◌≤◌, ◌<◌, String, inl, inr, if◌then◌else◌, All-append, leb,
}
use euboulia.Floats.{FloatOps}
use euboulia.Lifecycle
use euboulia.Lifecycle.{
  planned, accepted, Lifecycle, RunState, IterationState, RunState-discrete,
  IterationState-discrete, iteration_transitions, run_transitions, move_iteration, move_run,
  begin_iteration, is_terminal, initial, iterating, planning, recording_memory, stopping_service,
  evaluating, created, profiling, analyzing, completed, stopped,
}
use euboulia.Runner.{
  interrupted, workspace_error, other_error, from_host, runtime_error, illegal_move,
  iteration_failed, patch_rejected, verdict_recorded, memory_recorded, analysis_completed,
  champion_updated, profile_completed, profile_started, memory_recalled, run_completed,
  iteration_completed, iteration_started, EventType, budget_reserved, proposal_created, invalid,
  accepted, Result, ok, raised, RunnerHost, RunConfig, Proposal, IterationOutcome, OutcomeStatus,
  out_of_fuel,
}
use euboulia.Runner.Profile.Effects.{capture_champion_profile-Keeps}
use euboulia.Runner.Loop.{
  act_on, after_execution, turn, failed_outcome, outcome_from, judged, record_outcome, reject_patch,
  candidate_accepted, counts_as_failure, accept, after_profile, no_better, result_of, emit_in,
  emit_proposals, no_proposal, plan_iteration, continued, broken, LoopState, is_accepted,
}
use euboulia.Runner.Candidate.{CandidateExecution}
use euboulia.Runner.Candidate.Stops.{Executed, execute_candidate-Keeps}
use euboulia.Runner.Service.Stops.{in_iteration}
use euboulia.Runner.Suite.{terminal_iteration_state}
use euboulia.Runner.Keeps.{
  Keeps, Any, Legal, Good, Keeps-return, Keeps-raise, Keeps-call, Keeps-emit, Leaves-attempt,
  Leaves-weaken-Never, Leaves-bind, Leaves-then, Leaves-moved, Leaves-if, Leaves-weaken,
}
use euboulia.Runner.Loop.States.{
  Ready, edges, to_terminal, terminal-Ready, can_complete, Quiet, Going, Ended, TurnEnds, spent,
  reserve-Keeps, failed_once-Keeps,
}

is_accepted-accepted : (s : OutcomeStatus) → is_accepted s ≡ true → s ≡ accepted
is_accepted-accepted accepted h = refl
is_accepted-accepted OutcomeStatus.rejected h = cc
is_accepted-accepted invalid h = cc
is_accepted-accepted OutcomeStatus.failed h = cc

module _ (F : FloatOps) (H : RunnerHost F.Float) (config : RunConfig F.Float) where
  open F use {Float}

  module _ (iteration : ℕ) where
    emit_in-Keeps :
        (kind : EventType) (entity : Option String)
        → Keeps Legal Any (emit_in F H config iteration kind entity)
    unfolding emit_in
    emit_in-Keeps kind entity = Keeps-emit H kind _ _

    emit_proposals-Keeps :
        (ps : List Proposal) → Keeps Legal Any (emit_proposals F H config iteration ps)
    unfolding emit_proposals
    emit_proposals-Keeps [] = Keeps-return tt tt
    emit_proposals-Keeps (p ∷ ps) =
        Leaves-then (emit_in-Keeps proposal_created _) (emit_proposals-Keeps ps)

    after_profile-Keeps :
        (proposals : List Proposal)
        → Keeps Legal
            (λ out. out.0 ≡ in_iteration planning)
            (after_profile F H config iteration proposals (in_iteration profiling))
    unfolding after_profile
    after_profile-Keeps proposals = Leaves-then (emit_in-Keeps profile_completed none) (
        Leaves-moved _ edges.to_analyzing (
          Leaves-then (emit_in-Keeps analysis_completed none) (
            Leaves-moved _ edges.to_planning
              (Leaves-then (emit_proposals-Keeps proposals) (Keeps-return _ refl)))))

    plan_iteration-Keeps :
        (st : LoopState F)
        → Ready st.lifecycle
        → Keeps Legal
            (λ out. out.0 ≡ in_iteration planning)
            (plan_iteration F H config iteration st)
    unfolding plan_iteration
    plan_iteration-Keeps st ready = Leaves-moved _ ready.can_begin (
        Leaves-then (emit_in-Keeps budget_reserved none) (
          Leaves-then (emit_in-Keeps iteration_started none) (
            Leaves-bind (Keeps-call H.recall_exact) (λ exact h.
              Leaves-bind (Keeps-call H.recall_compatible) (λ compatible h.
                Leaves-then (emit_in-Keeps memory_recalled none) (
                  Leaves-moved _ edges.to_profiling (
                    Leaves-then (emit_in-Keeps profile_started none) (
                      Leaves-then (capture_champion_profile-Keeps F H config _ _) (
                        Leaves-bind (Keeps-call _)
                          (λ proposals h. after_profile-Keeps proposals))))))))))

    no_proposal-Keeps :
        (before : ℕ) (st : LoopState F)
        → Quiet F H config st
        → Keeps Legal
            (TurnEnds F H config before)
            (no_proposal F H config iteration st (in_iteration planning))
    unfolding no_proposal result_of terminal_iteration_state
    no_proposal-Keeps before st quiet = Leaves-moved _ edges.without_proposal (
        Leaves-moved _ (to_terminal OutcomeStatus.rejected) (
          Leaves-then (emit_in-Keeps iteration_completed none) (
            Leaves-moved _ (can_complete IterationState.rejected) (
              Leaves-then (Keeps-emit H run_completed none none) (
                Keeps-return _ (
                  inr
                    (record { none_accepted = quiet.outcomes; is_baseline = quiet.champion })))))))

    accept-Keeps :
        (before : ℕ) (st : LoopState F) (s : IterationState)
        → Ended F H config (
            result_of F H config st
              (record { run = completed; iteration = some s })
              candidate_accepted)
        → Keeps Legal (TurnEnds F H config before) (accept F H config iteration st (in_iteration s))
    unfolding accept
    accept-Keeps before st s ended = Leaves-then (emit_in-Keeps champion_updated _) (
        Leaves-moved _ (can_complete s)
          (Leaves-then (Keeps-emit H run_completed none none) (Keeps-return _ ended)))

    no_better-Keeps :
        (st : LoopState F) (status : OutcomeStatus)
        → Quiet F H config st
        → st.budget.limits.max_failures ≡ config.max_consecutive_failures
        → st.budget.failures < config.max_consecutive_failures
        → Keeps Legal
            (TurnEnds F H config (spent F H config st))
            (no_better F H config iteration st status)
    unfolding no_better
    no_better-Keeps st status quiet limit room =
        Leaves-bind
          {P = λ c.
            (c.limits ≡ st.budget.limits)
            × (c.failures ≤ suc st.budget.failures)
            × (st.budget.failures ≤ c.failures)}
          (Leaves-if (counts_as_failure status) _ _
            (λ h.
              Leaves-weaken (λ c (more, same). (same, omega (arith, more), omega (arith, more)))
                (failed_once-Keeps F H config st.budget))
            (λ h. Keeps-return st.budget (refl, omega arith, omega arith)))
          (λ c (same, most, least).
            let st' : LoopState F = record st {
              budget = c;
              no_improvement = st.no_improvement + 1;
            } in
            let quiet' : Quiet F H config st' = record {
              ready = quiet.ready;
              champion = quiet.champion;
              outcomes = quiet.outcomes;
            } in
            Keeps-return _ (
              if-elim (TurnEnds F H config (spent F H config st))
                (leb config.no_improvement_patience (st.no_improvement + 1)) (broken st')
                (continued st') (λ over. quiet')
                (λ under. (
                  record {
                    quiet = quiet';
                    limit = ap (λ l. l.max_failures) same ∙ limit;
                    few = ground arith;
                    failures = omega (arith, most, room);
                  },
                  omega (arith, least),
                ))))

    can_record :
        (e : CandidateExecution Float)
        → Executed e
        → move_iteration e.lifecycle recording_memory ≡ Lifecycle.ok (in_iteration recording_memory)
    can_record e (inl at) = ap (λ l. move_iteration l recording_memory) at ∙ edges.after_service
    can_record e (inr at) = ap (λ l. move_iteration l recording_memory) at ∙ edges.after_evaluation

    module _ (st : LoopState F) (going : Going F H config st)
        (room : st.budget.failures < config.max_consecutive_failures) where
      -- What an outcome that was not accepted leaves.
      unaccepted-Quiet :
          (o : IterationOutcome Float)
          → is_accepted o.status ≡ false
          → Quiet F H config (record st {
            lifecycle = in_iteration (terminal_iteration_state o.status);
            outcomes = st.outcomes ++ (o ∷ []);
          })
      unaccepted-Quiet o h = record {
        ready = terminal-Ready o.status;
        champion = going.quiet.champion;
        outcomes =
            All-append (λ o. is_accepted o.status ≡ false) st.outcomes o going.quiet.outcomes h;
      }

      judged-Keeps :
          (o : IterationOutcome Float)
          → o.champion_before ≡ config.baseline_name
          → (is_accepted o.status ≡ true → o.champion_after ≡ o.proposal_id)
          → Keeps Legal
              (TurnEnds F H config (spent F H config st))
              (judged F H config iteration st o (in_iteration (terminal_iteration_state o.status)))
      unfolding judged result_of
      judged-Keeps o before after =
          Leaves-if (is_accepted o.status) _ _
            (λ h.
              accept-Keeps _
                (record st {
                  lifecycle = in_iteration (terminal_iteration_state o.status);
                  outcomes = st.outcomes ++ (o ∷ []);
                  champion_id = o.champion_after;
                })
                (terminal_iteration_state o.status)
                (inl (record {
                  earlier = st.outcomes;
                  last = o;
                  recorded = refl;
                  was_accepted = is_accepted-accepted o.status h;
                  none_before = going.quiet.outcomes;
                  is_champion = after h;
                  replaced = before;
                  run_completed = refl;
                })))
            (λ h. no_better-Keeps _ o.status (unaccepted-Quiet o h) going.limit room)

      record_outcome-Keeps :
          (proposal : Proposal) (e : CandidateExecution Float)
          → Executed e
          → Keeps Legal
              (TurnEnds F H config (spent F H config st))
              (record_outcome F H config iteration st proposal e)
      unfolding record_outcome outcome_from
      record_outcome-Keeps proposal e at = Leaves-bind (Keeps-call H.new_outcome_id) (λ id h.
          Leaves-moved _ (can_record e at) (
            Leaves-bind (Keeps-call _) (λ memory_id h.
              Leaves-then (emit_in-Keeps memory_recorded _) (
                Leaves-moved _ (to_terminal _) (
                  Leaves-then (emit_in-Keeps verdict_recorded _) (
                    Leaves-then (emit_in-Keeps iteration_completed none) (
                      judged-Keeps (outcome_from F H config iteration id st.champion_id proposal e)
                        going.quiet.champion
                        (λ h. ap (λ b. if b then proposal.proposal_id else st.champion_id) h))))))))

      reject_patch-Keeps :
          (proposal : Proposal)
          → Keeps Legal
              (TurnEnds F H config (spent F H config st))
              (reject_patch F H config iteration st (in_iteration planning) proposal)
      unfolding reject_patch failed_outcome terminal_iteration_state
      reject_patch-Keeps proposal = Leaves-moved _ edges.without_proposal (
          Leaves-bind (Keeps-call H.new_outcome_id) (λ id h.
            Leaves-bind (Keeps-call _) (λ memory_id h.
              Leaves-bind (failed_once-Keeps F H config st.budget) (λ c (more, same).
                Leaves-then (emit_in-Keeps memory_recorded _) (
                  Leaves-moved _ (to_terminal invalid) (
                    Leaves-then (emit_in-Keeps patch_rejected _) (
                      Leaves-then (emit_in-Keeps iteration_failed none) (
                        Keeps-return _ (
                          record {
                            quiet = record {
                              ready = terminal-Ready invalid;
                              champion = going.quiet.champion;
                              outcomes =
                                  All-append (λ o. is_accepted o.status ≡ false) st.outcomes _
                                    going.quiet.outcomes refl;
                            };
                            limit = ap (λ l. l.max_failures) same ∙ going.limit;
                            few = going.few;
                            failures = omega (arith, more, room);
                          },
                          omega (arith, more),
                        )))))))))

      after_execution-Keeps :
          (proposal : Proposal) (r : Result (CandidateExecution Float))
          → Good Legal Executed r
          → Keeps Legal
              (TurnEnds F H config (spent F H config st))
              (after_execution F H config iteration st (in_iteration planning) proposal r)
      unfolding after_execution
      after_execution-Keeps proposal (ok e) at = record_outcome-Keeps proposal e at
      after_execution-Keeps proposal (raised (from_host (workspace_error e))) h =
          reject_patch-Keeps proposal
      after_execution-Keeps proposal (raised (from_host (other_error e))) h = Keeps-raise _ h
      after_execution-Keeps proposal (raised (from_host interrupted)) h = Keeps-raise _ h
      after_execution-Keeps proposal (raised (illegal_move f)) h = Keeps-raise _ h
      after_execution-Keeps proposal (raised (runtime_error e)) h = Keeps-raise _ h
      after_execution-Keeps proposal (raised out_of_fuel) h = Keeps-raise _ h

      act_on-Keeps :
          (proposals : List Proposal)
          → Keeps Legal
              (TurnEnds F H config (spent F H config st))
              (act_on F H config iteration st (in_iteration planning) proposals)
      unfolding act_on
      act_on-Keeps [] = no_proposal-Keeps _ st going.quiet
      act_on-Keeps (proposal ∷ rest) =
          Leaves-bind
            (Leaves-weaken-Never (
              Leaves-attempt
                (execute_candidate-Keeps F H config iteration proposal st.champion_id)))
            (λ r g. after_execution-Keeps proposal r g)

  -- One round of the loop, from a state in which the failures are within their limit.
  pub turn-Keeps :
      (st : LoopState F)
      → Going F H config st
      → st.budget.failures < config.max_consecutive_failures
      → Keeps Legal (TurnEnds F H config (spent F H config st)) (turn F H config st)
  unfolding turn
  turn-Keeps st going room =
      Leaves-bind (reserve-Keeps F H config st.budget) (λ (c, iteration) (same, limits).
        Leaves-bind (plan_iteration-Keeps iteration st going.quiet.ready) (λ (l, proposals) e.
          let st' : LoopState F = record st {
            budget = c;
            observed_proposals = st.observed_proposals ++ proposals;
          } in
          subst
            (λ x.
              Keeps Legal (TurnEnds F H config (spent F H config st))
                (act_on F H config iteration st' x proposals))
            (sym e)
            (subst
              (λ n.
                Keeps Legal (TurnEnds F H config (st.no_improvement + n))
                  (act_on F H config iteration st' (in_iteration planning) proposals))
              same
              (act_on-Keeps iteration st'
                (record {
                  quiet = record {
                    ready = going.quiet.ready;
                    champion = going.quiet.champion;
                    outcomes = going.quiet.outcomes;
                  };
                  limit = ap (λ l. l.max_failures) limits ∙ going.limit;
                  few = going.few;
                  failures = omega (arith, same, going.failures);
                })
                (omega (arith, same, room)) proposals))))

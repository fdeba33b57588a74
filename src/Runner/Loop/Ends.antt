-- ===== src/Runner/Loop/Ends.antt =====
-- How a run ends: the services, the moves of the lifecycle, the champion and the rounds of the loop.
use euboulia.Prelude.{◌≡◌, refl, arith, false, none, List, [], ◌∷◌, ℕ, zero, suc, ◌+◌, ◌<◌, inr}
use euboulia.Floats.{FloatOps}
use euboulia.Lifecycle.{RunState}
use euboulia.Budget.{new_tracker, snapshot, exhausted}
use euboulia.Runner.{
  approval_requested, approval_granted, run_started, run_failed, run_planned, run_stopped,
  Capability, interrupted, workspace_error, other_error, from_host, runtime_error, illegal_move,
  Result, ok, raised, RunnerHost, RunConfig, out_of_fuel,
}
use euboulia.Runner.Exec.{Session, Exec}
use euboulia.Runner.Loop.{
  authorization_required, active, begun, failed_run, proceed, run_loop, start_state, stop_run,
  with_missing, result_of, continued, broken, returned, LoopState, RunResult, Turn, run,
}
use euboulia.Runner.Keeps.{
  Keeps, Legal, Good, Keeps-return, Keeps-raise, Keeps-call, Keeps-emit, Leaves-attempt,
  Leaves-weaken-Never, Leaves-bind, Leaves-then, Leaves-moved, Leaves-if,
}
use euboulia.Runner.Loop.States.{
  can_wait, can_iterate, fresh-Ready, fresh, Quiet, Going, Ended, Unchanged, TurnEnds, spent,
  now-Keeps, opened-Keeps,
}
use euboulia.Runner.Loop.Turns.{turn-Keeps}

module _ (F : FloatOps) (H : RunnerHost F.Float) (config : RunConfig F.Float) where
  open F use {Float}

  stop_run-Keeps :
      (st : LoopState F)
      → Quiet F H config st
      → Keeps Legal (Ended F H config) (stop_run F H config st)
  unfolding stop_run result_of
  stop_run-Keeps st quiet = Leaves-bind (now-Keeps F H config) (λ t h.
      Leaves-moved _ quiet.ready.can_stop (
        Leaves-then (Keeps-emit H run_stopped none none) (
          Keeps-return _
            (inr (record { none_accepted = quiet.outcomes; is_baseline = quiet.champion })))))

  has_room :
      (st : LoopState F) (t : Float)
      → st.budget.limits.max_failures ≡ config.max_consecutive_failures
      → exhausted F (snapshot F st.budget t) ≡ false
      → st.budget.failures < config.max_consecutive_failures
  unfolding exhausted snapshot
  has_room st t limit h = ground arith

  proceed-Keeps :
      (before : ℕ) (next : LoopState F → Exec H.World (RunResult Float)) (u : Turn F)
      → ((st : LoopState F)
          → Going F H config st
          → before < spent F H config st
          → Keeps Legal (Ended F H config) (next st))
      → TurnEnds F H config before u
      → Keeps Legal (Ended F H config) (proceed F H config next u)
  unfolding proceed
  proceed-Keeps before next (returned r) k g = Keeps-return r g
  proceed-Keeps before next (broken st) k g = stop_run-Keeps st g
  proceed-Keeps before next (continued st) k (going, more) = k st going more

  -- Fuel beyond what is left of the two counters is enough.
  run_loop-Keeps :
      (fuel : ℕ) (st : LoopState F)
      → Going F H config st
      → config.no_improvement_patience + config.max_consecutive_failures
        < fuel + spent F H config st
      → Keeps Legal (Ended F H config) (run_loop F H config fuel st)
  unfolding run_loop
  run_loop-Keeps zero st going enough = absurd (omega (arith, going.few, going.failures, enough))
  run_loop-Keeps (suc fuel) st going enough = Leaves-bind (now-Keeps F H config) (λ t h.
      Leaves-if (exhausted F (snapshot F st.budget t)) _ _ (λ e. stop_run-Keeps st going.quiet)
        (λ e. Leaves-bind (turn-Keeps F H config st going (has_room st t going.limit e)) (λ u g.
          proceed-Keeps (spent F H config st) (λ st'. run_loop F H config fuel st') u
            (λ st' going' more. run_loop-Keeps fuel st' going' (omega (arith, enough, more))) g)))

  start-Going : (t : Float) → Going F H config (start_state F H config fresh t)
  unfolding start_state new_tracker
  start-Going t = record {
    quiet = record { ready = fresh-Ready; champion = refl; outcomes = tt };
    limit = refl;
    few = omega arith;
    failures = omega arith;
  }

  started-enough :
      (t : Float)
      → config.no_improvement_patience + config.max_consecutive_failures
        < suc (config.no_improvement_patience + config.max_consecutive_failures)
          + spent F H config (start_state F H config fresh t)
  unfolding start_state new_tracker
  started-enough t = omega arith

  failed_run-Keeps :
      (r : Result (RunResult Float))
      → Good Legal (Ended F H config) r
      → Keeps Legal (Ended F H config) (failed_run F H config r)
  unfolding failed_run
  failed_run-Keeps (ok r) g = Keeps-return r g
  failed_run-Keeps (raised (from_host interrupted)) g = Keeps-raise _ g
  failed_run-Keeps (raised (from_host (workspace_error e))) g =
      Leaves-then (Keeps-emit H run_failed none none) (Keeps-raise _ g)
  failed_run-Keeps (raised (from_host (other_error e))) g =
      Leaves-then (Keeps-emit H run_failed none none) (Keeps-raise _ g)
  failed_run-Keeps (raised (illegal_move f)) g =
      Leaves-then (Keeps-emit H run_failed none none) (Keeps-raise _ g)
  failed_run-Keeps (raised (runtime_error e)) g =
      Leaves-then (Keeps-emit H run_failed none none) (Keeps-raise _ g)
  failed_run-Keeps (raised out_of_fuel) g =
      Leaves-then (Keeps-emit H run_failed none none) (Keeps-raise _ g)

  waiting-Unchanged :
      (t : Float)
      → Unchanged F H config (
          result_of F H config
            (start_state F H config fresh t)
            (record { run = RunState.waiting_for_approval; iteration = none })
            authorization_required)
  unfolding result_of start_state
  waiting-Unchanged t = record { none_accepted = tt; is_baseline = refl }

  with_missing-Keeps :
      (cs : List Capability) (t : Float)
      → Keeps Legal (Ended F H config) (with_missing F H config cs (start_state F H config fresh t))
  unfolding with_missing active start_state
  with_missing-Keeps [] t = Leaves-then (Keeps-emit H approval_granted none none) (
      Leaves-bind
        (Leaves-weaken-Never (
          Leaves-attempt (
            Leaves-then (Keeps-call H.prepare_models) (
              run_loop-Keeps _ (start_state F H config fresh t) (start-Going t)
                (started-enough t)))))
        (λ r g. failed_run-Keeps r g))
  with_missing-Keeps (c ∷ cs) t =
      Leaves-then (Keeps-emit H approval_requested none none)
        (Leaves-moved _ can_wait (Keeps-return _ (inr (waiting-Unchanged t))))

  run-Keeps :
      (authorized : List Capability) → Keeps Legal (Ended F H config) (run F H config authorized)
  unfolding run begun
  run-Keeps authorized =
      Leaves-if config.has_target _ _
        (λ h. Leaves-then (Keeps-call H.require_lock) (
          Leaves-then (opened-Keeps F H config) (
            Leaves-bind (now-Keeps F H config) (λ t k.
              Leaves-then (Keeps-emit H run_planned none none) (
                Leaves-then (Keeps-emit H run_started none none)
                  (Leaves-moved _ can_iterate (with_missing-Keeps _ t)))))))
        (λ h. Keeps-raise _ tt)

  -- However a run ends, by a result or by an exception of what it calls, `controller.stop` was called on
  -- each service that `_evaluate_managed_service` started for the baseline or a candidate, no move of
  -- the lifecycle was illegal, and the loop took at most as many rounds as the patience and the failures
  -- allowed. Of a result, either the last outcome alone was accepted, and its proposal replaced the
  -- baseline as the champion of a completed run, or none was and the baseline is the champion. The
  -- service of the champion's profile, which `_capture_champion_profile` starts, is not counted.
  pub run_lem :
      (authorized : List Capability) (s : Session H.World)
      → ((run F H config authorized s).1.services ≡ s.services)
        × Good Legal (Ended F H config) (run F H config authorized s).0
  run_lem authorized s = ((run-Keeps authorized).services s, (run-Keeps authorized).result s)

-- ===== src/Runner/Service/Stops.antt =====
-- The services of the controller, and the moves of the lifecycle, while a service is evaluated.
use euboulia.Prelude.{◌∙◌, sym, subst, ◌≡◌, refl, arith, false, some, List, ◌∷◌, ℕ, String}
use euboulia.Floats.{FloatOps}
use euboulia.Lifecycle
use euboulia.Lifecycle.{Lifecycle, IterationState, move_iteration, iterating}
use euboulia.Runner.{
  build_completed, build_failed, build_started, ManagedWorkspace, service_starting, Result, ok,
  evaluation_completed, service_ready, evaluation_started, raised, service_failed, service_started,
  service_stopped, service_stopping, Evaluation, EventType, RunnerHost, RunConfig, Role,
}
use euboulia.Runner.Exec.{◌>>=◌, ◌>>◌, after, after, ◌>>◌, return, Exec, Session}
use euboulia.Runner.Service.{
  own, started, serve, became_ready, body, by_result, closed, evaluated, finish, call_stop,
  report_stop, stop_service, stopping, emit_here, in_state, without, ServiceStates, ServiceRequest,
  evaluate_managed_service, build_managed_target,
}
use euboulia.Runner.Suite.Effects.{execute_workload_suite-Keeps}
use euboulia.Runner.Keeps.{
  Keeps-called, Keeps-moved, Leaves-weaken-Never, Leaves, Keeps, Any, Legal, Never, Good,
  Keeps-return, Keeps-raise, Keeps-settle, Keeps-call, Keeps-emit, Leaves-attempt, Keeps-on_error,
  Leaves-bind, Leaves-before, Leaves-then, Leaves-moved,
}

-- A run that iterates, with its iteration in a state.
abbrev pub in_iteration : IterationState → Lifecycle
in_iteration s = record { run = iterating; iteration = some s }

-- The moves that `_evaluate_managed_service` makes from a state, with those to `stop_state`.
pub record Allowed (from : IterationState) (states : ServiceStates) : Type 0 where
  pub to_start :
      move_iteration (in_iteration from) states.start_state
      ≡ Lifecycle.ok (in_iteration states.start_state)
  pub to_ready :
      move_iteration (in_iteration states.start_state) states.ready_state
      ≡ Lifecycle.ok (in_iteration states.ready_state)
  pub to_evaluation :
      move_iteration (in_iteration states.ready_state) states.evaluation_state
      ≡ Lifecycle.ok (in_iteration states.evaluation_state)
  pub stop_started :
      move_iteration (in_iteration states.start_state) states.stop_state
      ≡ Lifecycle.ok (in_iteration states.stop_state)
  pub stop_ready :
      move_iteration (in_iteration states.ready_state) states.stop_state
      ≡ Lifecycle.ok (in_iteration states.stop_state)
  pub stop_evaluated :
      move_iteration (in_iteration states.evaluation_state) states.stop_state
      ≡ Lifecycle.ok (in_iteration states.stop_state)

without_head : (h : ℕ) (hs : List ℕ) → without h (h ∷ hs) ≡ hs
unfolding without
without_head h hs = ground arith

module _ (F : FloatOps) (H : RunnerHost F.Float) (config : RunConfig F.Float) where
  open F use {Float}

  -- A lifecycle from which the service can be stopped.
  abbrev Stoppable : ServiceStates → Lifecycle → Type 0
  Stoppable states l =
      move_iteration l states.stop_state ≡ Lifecycle.ok (in_iteration states.stop_state)

  abbrev Left : ServiceStates → Lifecycle × Result (Evaluation Float) → Type 0
  Left states (l, r) = Stoppable states l × Good Legal Any r

  module _ (q : ServiceRequest Float) {from : IterationState}
      (allowed : Allowed from q.states) where
    here : (kind : EventType) → Keeps Legal Any (emit_here F H config q kind)
    unfolding emit_here
    here kind = Keeps-emit H kind (some q.iteration) (some q.entity_id)

    -- One part of the `try` block, from a lifecycle that allows to stop.
    in_state-Left :
        {A : Type 0} (P : A → Type 0) (l : Lifecycle) (action : Exec H.World A)
        (next : A → Exec H.World (Lifecycle × Result (Evaluation Float)))
        → Stoppable q.states l
        → Keeps Legal P action
        → ((a : A) → P a → Keeps Never (Left q.states) (next a))
        → Keeps Never (Left q.states) (in_state l action next)
    unfolding in_state
    in_state-Left {A} P l action next h k n = Leaves-bind (Leaves-attempt k) (λ r g. settled r g)
      where
        settled : (r : Result A) → Good Legal P r → Keeps Never (Left q.states) (by_result l next r)
        settled (ok a) g = n a g
        settled (raised r) g = Keeps-return (l, raised r) (h, g)

    evaluated-Keeps : Keeps Legal Any (evaluated F H config q)
    unfolding evaluated
    evaluated-Keeps = Leaves-then (here evaluation_started) (
        Leaves-bind (execute_workload_suite-Keeps F H config false _ _ _)
          (λ e h. Leaves-then (here evaluation_completed) (Keeps-return e tt)))

    became_ready-Keeps :
        (handle : ℕ)
        → Keeps Legal
            (λ l. l ≡ in_iteration q.states.evaluation_state)
            (became_ready F H config q (in_iteration q.states.ready_state) handle)
    unfolding became_ready
    became_ready-Keeps handle =
        Leaves-then (Keeps-on_error (Keeps-call (H.wait_ready handle)) (here service_failed))
          (Leaves-then (here service_ready) (Keeps-moved allowed.to_evaluation))

    -- The `try` block never raises past the `finally` block and leaves a lifecycle that allows to stop.
    body-Left :
        (handle : ℕ)
        → Keeps Never (Left q.states) (body F H config q (in_iteration q.states.start_state) handle)
    unfolding body
    body-Left handle =
        in_state-Left (λ l. l ≡ in_iteration q.states.ready_state) _ _ _ allowed.stop_started
          (Leaves-then (here service_started) (Keeps-moved allowed.to_ready))
          (λ l e.
            subst
              (λ x. Keeps Never (Left q.states) (
                in_state x (became_ready F H config q x handle) (λ l''.
                  in_state l'' (evaluated F H config q) (λ result. return (l'', ok result)))))
              (sym e)
              (in_state-Left (λ l. l ≡ in_iteration q.states.evaluation_state) _ _ _
                allowed.stop_ready (became_ready-Keeps handle)
                (λ l e.
                  subst
                    (λ x.
                      Keeps Never (Left q.states)
                        (in_state x (evaluated F H config q) (λ result. return (x, ok result))))
                    (sym e)
                    (in_state-Left Any _ _ _ allowed.stop_evaluated evaluated-Keeps
                      (λ result h. Keeps-return _ (allowed.stop_evaluated, tt))))))

    stopping-Keeps :
        (l : Lifecycle)
        → Stoppable q.states l
        → Keeps Legal (λ l'. l' ≡ in_iteration q.states.stop_state) (stopping F H config q l)
    unfolding stopping
    stopping-Keeps l h =
        Leaves-moved _ h (Leaves-then (here service_stopping) (Keeps-return _ refl))

    call_stop-Leaves :
        (handle : ℕ) → Leaves (without handle) Legal Any (call_stop F H config q handle)
    unfolding call_stop
    call_stop-Leaves handle = record {
      services = λ s. (Keeps-called (H.stop handle s.world)).services _;
      result = λ s. (Keeps-called (H.stop handle s.world)).result _;
    }

    report_stop-Keeps : (r : Result (Unit {0})) → Keeps Legal Any (report_stop F H config q r)
    unfolding report_stop
    report_stop-Keeps (ok done) = Keeps-return tt tt
    report_stop-Keeps (raised r) =
        Leaves-bind (Leaves-weaken-Never (Leaves-attempt (here service_failed)))
          (λ r h. Keeps-return tt tt)

    stop_service-Leaves :
        (handle : ℕ) → Leaves (without handle) Legal Any (stop_service F H config q handle)
    unfolding stop_service
    stop_service-Leaves handle =
        Leaves-bind (Leaves-weaken-Never (Leaves-attempt (call_stop-Leaves handle))) (λ r g.
          Leaves-then (report_stop-Keeps r)
            (Leaves-then (Keeps-call (H.preserve_log handle)) (Keeps-settle r g)))

    closed-Keeps :
        (boundary : Result Lifecycle) (r : Result (Evaluation Float))
        → Good Legal (λ l. l ≡ in_iteration q.states.stop_state) boundary
        → Good Legal Any r
        → Keeps Legal
            (λ out. out.0 ≡ in_iteration q.states.stop_state)
            (closed F H config q boundary r)
    unfolding closed
    closed-Keeps (raised b) r h k = Keeps-raise b h
    closed-Keeps (ok l) (raised r) h k = Keeps-raise r k
    closed-Keeps (ok l) (ok e) h k = Keeps-return (l, e) h

    finish-Leaves :
        (handle : ℕ) (left : Lifecycle × Result (Evaluation Float))
        → Left q.states left
        → Leaves
            (without handle)
            Legal
            (λ out. out.0 ≡ in_iteration q.states.stop_state)
            (finish F H config q handle left)
    unfolding finish
    finish-Leaves handle (l, r) (stoppable, g) =
        Leaves-before (Leaves-attempt (stopping-Keeps l stoppable)) (λ boundary b.
          Leaves-then (stop_service-Leaves handle)
            (Leaves-then (here service_stopped) (closed-Keeps boundary r b g)))

    -- A service that was started and that the rest gives up.
    Keeps-owned :
        {B : Type 0} {Q : B → Type 0} {m : Exec H.World ℕ} {next : ℕ → Exec H.World B}
        → Keeps Legal Any m
        → ((h : ℕ) → Leaves (without h) Legal Q (next h))
        → Keeps Legal Q ((m >>= λ h. (own h >> return h)) >>= next)
    unfolding ◌>>=◌ ◌>>◌ own return
    Keeps-owned {B} {Q} {m} {next} k n = record {
      services = λ s. given_up (m s) (k.services s);
      result = λ s. ended (m s) (k.result s);
    }
      where
        given_up :
            {before : List ℕ} (out : Result ℕ × Session H.World)
            → out.1.services ≡ before
            → (after (after out (λ h. (own h >> return h))) next).1.services ≡ before
        given_up (ok h, s') e = (n h).services _ ∙ without_head h s'.services ∙ e
        given_up (raised r, s') e = e

        ended :
            (out : Result ℕ × Session H.World)
            → Good Legal Any out.0
            → Good Legal Q (after (after out (λ h. (own h >> return h))) next).0
        ended (ok h, s') g = (n h).result _
        ended (raised r, s') g = g

    serve-Keeps :
        Keeps Legal
          (λ out. out.0 ≡ in_iteration q.states.stop_state)
          (serve F H config q (in_iteration q.states.start_state))
    unfolding serve started
    serve-Keeps =
        Keeps-owned (Keeps-on_error (Keeps-call _) (here service_failed))
          (λ h. Leaves-before (body-Left h) (λ left g. finish-Leaves h left g))

    -- However the evaluation of a managed service ends, by a result or by an exception of the
    -- controller, the evaluator or the ledger, `controller.stop` was called on the service that the
    -- controller started (the call itself may have raised): the services that were started and on which
    -- it was not called are those from before. No move of the lifecycle was illegal, and after a result
    -- the iteration is in the stopping state.
    pub evaluate_managed_service-Keeps :
        Keeps Legal
          (λ out. out.0 ≡ in_iteration q.states.stop_state)
          (evaluate_managed_service F H config q (in_iteration from))
    unfolding evaluate_managed_service
    evaluate_managed_service-Keeps =
        Leaves-moved _ allowed.to_start (Leaves-then (here service_starting) serve-Keeps)

  pub build_managed_target-Keeps :
      (role : Role) (workspace : ManagedWorkspace) (iteration : ℕ) (entity : String)
      → Keeps Legal Any (build_managed_target F H config role workspace iteration entity)
  unfolding build_managed_target
  build_managed_target-Keeps role workspace iteration entity =
      Leaves-then (Keeps-emit H build_started _ _) (
        Leaves-then
          (Keeps-on_error (Keeps-call (H.build role workspace)) (Keeps-emit H build_failed _ _))
          (Keeps-emit H build_completed _ _))

-- ===== src/Runner/Service/Owned.antt =====
-- The services that run in the host's world while a service is evaluated.
use euboulia.Prelude.{◌≡◌, ◌∙◌, sym, ap, false, List, ◌∷◌, ℕ}
use euboulia.Floats.{FloatOps}
use euboulia.Lifecycle.{Lifecycle}
use euboulia.Runner.{
  Raised, from_host, PointRequest, Answer, answer, threw, EventType, OptimizationEvent, Role,
  ManagedWorkspace, TargetChangeSet, Evaluation, Result, ok, raised, RunnerHost, RunConfig,
  service_failed, service_started, service_ready, service_starting, service_stopped,
  service_stopping, evaluation_started, evaluation_completed,
}
use euboulia.Runner.Exec.{
  Session, Exec, ◌>>=◌, ◌>>◌, return, raise, call, called, after, on_error, handled,
}
use euboulia.Runner.Tracks.{
  Agrees, Tracks, Quiet, Tracks-return, Tracks-raise, Tracks-settle, Tracks-bind, Tracks-then,
  Tracks-moved, Tracks-attempt, Tracks-on_error, Tracks-call, Tracks-emit, called-services,
}
use euboulia.Runner.Suite.Tracking.{execute_workload_suite-Tracks}
use euboulia.Runner.Service.{
  own, started, serve, became_ready, body, by_result, closed, call_stop, evaluated, finish,
  report_stop, stop_service, stopping, emit_here, in_state, without, ServiceRequest,
  evaluate_managed_service,
}

-- The services that run after an answer of `controller.start`.
abbrev pub with_started : Answer ℕ → List ℕ → List ℕ
with_started (answer handle) hs = handle ∷ hs
with_started (threw e) hs = hs

module _ (F : FloatOps) (H : RunnerHost F.Float) (config : RunConfig F.Float) where
  open F use {Float}

  module _ (running : H.World → List ℕ) where
    -- Which services run: `controller.start` adds the one that it returns, and none when it raises;
    -- `controller.stop` ends its service, even if it raises then; nothing else of the host's, as far as
    -- the evaluation of a service calls it, starts or ends one.
    pub record OwnsServices : Type 0 where
      pub start :
          (role : Role) (workspace : ManagedWorkspace) (change : TargetChangeSet) (w : H.World)
          → running (H.start role workspace change w).1
            ≡ with_started (H.start role workspace change w).0 (running w)
      pub stop :
          (handle : ℕ) (w : H.World) → running (H.stop handle w).1 ≡ without handle (running w)
      pub append : (e : OptimizationEvent) → Quiet running (H.append e)
      pub wait_ready : (handle : ℕ) → Quiet running (H.wait_ready handle)
      pub preserve_log : (handle : ℕ) → Quiet running (H.preserve_log handle)
      pub evaluate_point : (request : PointRequest Float) → Quiet running (H.evaluate_point request)
      pub write_summary : Quiet running H.write_summary

    module _ (laws : OwnsServices) where
      module _ (q : ServiceRequest Float) where
        here-Tracks : (kind : EventType) → Tracks running (emit_here F H config q kind)
        unfolding emit_here
        here-Tracks kind = Tracks-emit H laws.append kind _ _

        -- After a failed start nothing is owned.
        given_up :
            (r : Raised) (out : Result (Unit {0}) × Session H.World)
            → Agrees running out.1
            → Agrees running
                (after
                  (after out (λ done. raise {A = ℕ} r))
                  (λ handle. (own handle >> return handle))).1
        unfolding after raise
        given_up r (ok done, s) e = e
        given_up r (raised r', s) e = e

        started-Tracks : Tracks running (started F H config q)
        unfolding started own on_error handled call called ◌>>=◌ ◌>>◌ after return raise
        started-Tracks = record {
          tracked = λ s e.
              by_answer s e (H.start q.role q.workspace q.change_set s.world)
                (laws.start q.role q.workspace q.change_set s.world);
        }
          where
            by_answer :
                (s : Session H.World)
                → Agrees running s
                → (out : Answer ℕ × H.World) → running out.1 ≡ with_started out.0 (running s.world)
                → Agrees running
                    (after
                      (handled (called out s) (emit_here F H config q service_failed))
                      (λ handle. (own handle >> return handle))).1
            by_answer s e (answer h, w) law = ap (λ hs. h ∷ hs) e ∙ sym law
            by_answer s e (threw f, w) law =
                given_up (from_host f)
                  (emit_here F H config q service_failed (record s { world = w }))
                  ((here-Tracks service_failed).tracked (record s { world = w }) (e ∙ sym law))

        call_stop-Tracks : (handle : ℕ) → Tracks running (call_stop F H config q handle)
        unfolding call_stop
        call_stop-Tracks handle = record {
          tracked = λ s e.
              let (kept, made) = called-services (H.stop handle s.world) _ in
              kept ∙ ap (without handle) e ∙ sym (laws.stop handle s.world) ∙ ap running (sym made);
        }

        in_state-Tracks :
            {A : Type 0} (l : Lifecycle) {action : Exec H.World A}
            {next : A → Exec H.World (Lifecycle × Result (Evaluation Float))}
            → Tracks running action
            → ((a : A) → Tracks running (next a))
            → Tracks running (in_state l action next)
        unfolding in_state
        in_state-Tracks {A} l {action} {next} h k = Tracks-bind (Tracks-attempt h) (λ r. settled r)
          where
            settled : (r : Result A) → Tracks running (by_result l next r)
            settled (ok a) = k a
            settled (raised r) = Tracks-return _

        became_ready-Tracks :
            (l : Lifecycle) (handle : ℕ) → Tracks running (became_ready F H config q l handle)
        unfolding became_ready
        became_ready-Tracks l handle =
            Tracks-then
              (Tracks-on_error (Tracks-call _ (laws.wait_ready handle))
                (here-Tracks service_failed))
              (Tracks-then (here-Tracks service_ready) (Tracks-moved _))

        evaluated-Tracks : Tracks running (evaluated F H config q)
        unfolding evaluated
        evaluated-Tracks = Tracks-then (here-Tracks evaluation_started) (
            Tracks-bind
              (execute_workload_suite-Tracks F H config laws.evaluate_point laws.write_summary false
                _ _ _)
              (λ e. Tracks-then (here-Tracks evaluation_completed) (Tracks-return e)))

        body-Tracks : (l : Lifecycle) (handle : ℕ) → Tracks running (body F H config q l handle)
        unfolding body
        body-Tracks l handle =
            in_state-Tracks l (Tracks-then (here-Tracks service_started) (Tracks-moved _)) (λ l'.
              in_state-Tracks l' (became_ready-Tracks l' handle)
                (λ l''. in_state-Tracks l'' evaluated-Tracks (λ result. Tracks-return _)))

        report_stop-Tracks : (r : Result (Unit {0})) → Tracks running (report_stop F H config q r)
        unfolding report_stop
        report_stop-Tracks (ok done) = Tracks-return tt
        report_stop-Tracks (raised r) =
            Tracks-bind (Tracks-attempt (here-Tracks service_failed)) (λ r. Tracks-return tt)

        closed-Tracks :
            (boundary : Result Lifecycle) (r : Result (Evaluation Float))
            → Tracks running (closed F H config q boundary r)
        unfolding closed
        closed-Tracks (raised b) r = Tracks-raise b
        closed-Tracks (ok l) (raised r) = Tracks-raise r
        closed-Tracks (ok l) (ok e) = Tracks-return (l, e)

        finish-Tracks :
            (handle : ℕ) (left : Lifecycle × Result (Evaluation Float))
            → Tracks running (finish F H config q handle left)
        unfolding finish stopping stop_service
        finish-Tracks handle (l, r) =
            Tracks-bind
              (Tracks-attempt (
                Tracks-bind (Tracks-moved _)
                  (λ l'. Tracks-then (here-Tracks service_stopping) (Tracks-return l'))))
              (λ boundary.
                Tracks-then
                  (Tracks-bind (Tracks-attempt (call_stop-Tracks handle)) (λ r.
                    Tracks-then (report_stop-Tracks r)
                      (Tracks-then (Tracks-call _ (laws.preserve_log handle)) (Tracks-settle r))))
                  (Tracks-then (here-Tracks service_stopped) (closed-Tracks boundary r)))

        pub evaluate_managed_service-Tracks :
            (l : Lifecycle) → Tracks running (evaluate_managed_service F H config q l)
        unfolding evaluate_managed_service serve
        evaluate_managed_service-Tracks l = Tracks-bind (Tracks-moved _) (λ l'.
            Tracks-then (here-Tracks service_starting) (
              Tracks-bind started-Tracks (λ handle.
                Tracks-bind (body-Tracks l' handle) (λ left. finish-Tracks handle left))))

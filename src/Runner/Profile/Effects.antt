-- ===== src/Runner/Profile/Effects.antt =====
-- The capture of a profile and the services of the baseline and the candidates.
use euboulia.Prelude.{String, Bool, true, false, ℕ}
use euboulia.Floats.{FloatOps}
use euboulia.Runner.{
  runtime_provenance_captured, target_materialized, workspace_prepared, service_starting,
  service_started, service_ready, service_stopping, service_stopped, service_failed, profile,
  EventType, ManagedWorkspace, RunnerHost, RunConfig,
}
use euboulia.Runner.Profile.{
  emit_of, needs, profile_provenance, provenance_if, built_profile, captured_profile,
  closed_profile, capture_champion_profile,
}
use euboulia.Runner.Service.Stops.{build_managed_target-Keeps}
use euboulia.Runner.Keeps.{
  Keeps, Any, Legal, Keeps-return, Keeps-raise, Keeps-settle, Keeps-call, Keeps-emit,
  Keeps-on_error, Leaves-attempt, Leaves-weaken-Never, Leaves-bind, Leaves-then,
}

module _ (F : FloatOps) (H : RunnerHost F.Float) (config : RunConfig F.Float) where
  module _ (iteration : ℕ) (champion : String) where
    emit_of-Keeps :
        (kind : EventType) → Keeps Legal Any (emit_of F H config iteration champion kind)
    unfolding emit_of
    emit_of-Keeps kind = Keeps-emit H kind _ _

    needs-Keeps :
        (b : Bool) (message : String)
        → Keeps Legal Any (needs F H config iteration champion b message)
    unfolding needs
    needs-Keeps true message = Keeps-return tt tt
    needs-Keeps false message = Keeps-raise _ tt

    provenance_if-Keeps :
        (b : Bool) (workspace : ManagedWorkspace)
        → Keeps Legal Any (provenance_if F H config iteration champion b workspace)
    unfolding provenance_if profile_provenance
    provenance_if-Keeps true workspace = Leaves-then (Keeps-call _) (
        Leaves-then (Keeps-emit H runtime_provenance_captured _ _)
          (Leaves-then (Keeps-call _) (Keeps-call H.validate_hardware)))
    provenance_if-Keeps false workspace = Keeps-return tt tt

    built_profile-Keeps : Keeps Legal Any (built_profile F H config iteration champion)
    unfolding built_profile
    built_profile-Keeps = Leaves-then (needs-Keeps config.has_target _) (
        Leaves-then (needs-Keeps config.has_workspace _) (
          Leaves-bind (Keeps-call _) (λ workspace h.
            Leaves-then (emit_of-Keeps workspace_prepared) (
              Leaves-then (provenance_if-Keeps config.has_runtime workspace) (
                Leaves-then (Keeps-call _) (
                  Leaves-then (emit_of-Keeps target_materialized) (
                    Leaves-then (build_managed_target-Keeps F H config profile workspace _ _)
                      (Keeps-return workspace tt))))))))

    captured_profile-Keeps :
        (handle : ℕ) → Keeps Legal Any (captured_profile F H config iteration champion handle)
    unfolding captured_profile
    captured_profile-Keeps handle =
        Leaves-then (Keeps-on_error (Keeps-call _) (emit_of-Keeps service_failed))
          (Leaves-then (emit_of-Keeps service_ready) (Keeps-call _))

    closed_profile-Keeps :
        (handle : ℕ) → Keeps Legal Any (closed_profile F H config iteration champion handle)
    unfolding closed_profile
    closed_profile-Keeps handle =
        Leaves-bind
          (Leaves-weaken-Never
            (Leaves-attempt (Leaves-then (emit_of-Keeps service_stopping) (Keeps-call _))))
          (λ r g.
            Leaves-then (Keeps-call _)
              (Leaves-then (Keeps-settle r g) (emit_of-Keeps service_stopped)))

    -- It neither starts nor stops one of them, and makes no illegal move.
    pub capture_champion_profile-Keeps :
        Keeps Legal Any (capture_champion_profile F H config iteration champion)
    unfolding capture_champion_profile
    capture_champion_profile-Keeps = Leaves-bind built_profile-Keeps (λ workspace h.
        Leaves-then (emit_of-Keeps service_starting) (
          Leaves-bind (Keeps-on_error (Keeps-call _) (emit_of-Keeps service_failed)) (λ handle k.
            Leaves-then (emit_of-Keeps service_started) (
              Leaves-bind (Leaves-weaken-Never (Leaves-attempt (captured_profile-Keeps handle)))
                (λ r g. Leaves-then (closed_profile-Keeps handle) (Keeps-settle r g))))))

-- ===== src/Runner/Profile.antt =====
-- `_capture_champion_profile` of runner.py. Its service is not on the stack of services of a session,
-- which is for those of `_evaluate_managed_service`.
pub mod Effects
use euboulia.Prelude.{none, String, Bool, true, false, some, ℕ, [], if◌then◌else◌}
use euboulia.Floats.{FloatOps}
use euboulia.Runner.{
  runtime_provenance_captured, target_materialized, workspace_prepared, service_starting,
  service_started, service_ready, service_stopping, service_stopped, service_failed, runtime_error,
  profile, EventType, ManagedWorkspace, TargetChangeSet, RunnerHost, RunConfig,
}
use euboulia.Runner.Exec.{Exec, ◌>>=◌, ◌>>◌, return, raise, call, emit, attempt, settle, on_error}
use euboulia.Runner.Service.{build_managed_target}
use euboulia.Runner.Candidate.{no_change}

module _ (F : FloatOps) (H : RunnerHost F.Float) (config : RunConfig F.Float) where
  open F use {Float}

  module _ (iteration : ℕ) (champion : String) where
    emit_of : EventType → Exec H.World (Unit {0})
    unfolding emit
    emit_of kind = emit H kind (some iteration) (some champion)

    needs : Bool → String → Exec H.World (Unit {0})
    needs true message = return tt
    needs false message = raise (runtime_error message)

    profile_provenance : ManagedWorkspace → Exec H.World (Unit {0})
    unfolding emit
    profile_provenance workspace = do
      call (H.capture_provenance profile workspace)
      emit H runtime_provenance_captured (some iteration) none
      call (H.validate_runtime profile)
      call H.validate_hardware

    provenance_if : Bool → ManagedWorkspace → Exec H.World (Unit {0})
    unfolding profile_provenance
    provenance_if true workspace = profile_provenance workspace
    provenance_if false workspace = return tt

    -- Up to the build, as for a baseline.
    built_profile : Exec H.World ManagedWorkspace
    unfolding emit_of needs provenance_if
    built_profile = do
      needs config.has_target "active SGLang profiling requires target"
      needs config.has_workspace "optimization.workspace is required for active SGLang profiling"
      workspace ← call (H.prepare_workspace profile iteration none)
      emit_of workspace_prepared
      provenance_if config.has_runtime workspace
      call (H.target_spec profile workspace)
      emit_of target_materialized
      build_managed_target F H config profile workspace iteration champion
      return workspace

    -- The body of the `try` block.
    captured_profile : ℕ → Exec H.World (Unit {0})
    unfolding emit_of
    captured_profile handle = do
      on_error (call (H.wait_ready handle)) (emit_of service_failed)
      emit_of service_ready
      call (H.capture_profile handle)

    -- The `finally` block, with the `finally` block in it.
    closed_profile : ℕ → Exec H.World (Unit {0})
    unfolding emit_of
    closed_profile handle = do
      r ← attempt (emit_of service_stopping >> call (H.stop handle))
      call (H.preserve_log handle)
      settle r
      emit_of service_stopped

    -- The append of SERVICE_STARTED stands before the `try` block.
    unfoldable pub capture_champion_profile : Exec H.World (Unit {0})
    unfolding emit_of built_profile captured_profile closed_profile
    capture_champion_profile = do
      workspace ← built_profile
      emit_of service_starting
      handle ← on_error (call (H.start profile workspace no_change)) (emit_of service_failed)
      emit_of service_started
      r ← attempt (captured_profile handle)
      closed_profile handle
      settle r

-- ===== src/Runner/Service.antt =====
-- `_evaluate_managed_service` and `_build_managed_target` of runner.py.
pub mod Stops
pub mod Owned
mod Examples
use euboulia.Prelude.{
  ◌&&◌, leb, String, Bool, true, false, Option, none, some, List, [], ◌∷◌, if◌then◌else◌, ℕ,
}
use euboulia.Prelude.Dict.{Dict}
use euboulia.Floats.{FloatOps}
use euboulia.Lifecycle.{Lifecycle, IterationState, move_iteration}
use euboulia.Runner.{
  build_completed, build_failed, evaluation_completed, service_ready, EventType, build_started,
  evaluation_started, service_failed, service_started, service_starting, service_stopped,
  service_stopping, RunnerHost, RunConfig, Role, Evaluation, ManagedWorkspace, TargetChangeSet,
  Result, ok, raised,
}
use euboulia.Runner.Exec.{
  Exec, ◌>>=◌, ◌>>◌, return, raise, call, called, emit, moved, attempt, settle, on_error,
}
use euboulia.Runner.Suite.{execute_workload_suite}

-- start_state, ready_state, evaluation_state and stop_state
pub record ServiceStates : Type 0 where
  pub start_state : IterationState
  pub ready_state : IterationState
  pub evaluation_state : IterationState
  pub stop_state : IterationState

-- What the caller says of the service to evaluate.
pub record ServiceRequest (Float : Type 0) : Type 0 where
  pub role : Role
  pub iteration : ℕ
  pub entity_id : String
  pub workspace : ManagedWorkspace
  pub change_set : TargetChangeSet
  pub states : ServiceStates
  pub baseline_values : Dict Float
  pub apply_promotion_gate : Bool

-- The handles but the first that is this one.
pub without : ℕ → List ℕ → List ℕ
without handle [] = []
without handle (h ∷ hs) =
    let rest = without handle hs in if leb h handle && leb handle h then hs else h ∷ rest

module _ {W : Type 0} where
  -- The handle is on the stack of services as soon as `controller.start` has returned it.
  unfoldable pub own : ℕ → Exec W (Unit {0})
  own handle s = (ok tt, record s { services = handle ∷ s.services })

  by_result {ℓ κ} :
      {A : Type ℓ} {B : Type κ}
      → Lifecycle
      → (A → Exec W (Lifecycle × Result B))
      → Result A
      → Exec W (Lifecycle × Result B)
  by_result l next (ok a) = next a
  by_result l next (raised r) = return (l, raised r)

  -- A part of the `try` block, with the value that `lifecycle` has when it raises.
  unfoldable pub in_state {ℓ κ} :
      {A : Type ℓ} {B : Type κ}
      → Lifecycle
      → Exec W A
      → (A → Exec W (Lifecycle × Result B))
      → Exec W (Lifecycle × Result B)
  unfolding by_result
  in_state l action next = attempt action >>= λ r. by_result l next r

module _ (F : FloatOps) (H : RunnerHost F.Float) (config : RunConfig F.Float) where
  open F use {Float}

  module _ (q : ServiceRequest Float) where
    emit_here : EventType → Exec H.World (Unit {0})
    unfolding emit
    emit_here kind = emit H kind (some q.iteration) (some q.entity_id)

    started : Exec H.World ℕ
    unfolding emit_here own
    started =
        on_error (call (H.start q.role q.workspace q.change_set)) (emit_here service_failed)
        >>= λ handle. (own handle >> return handle)

    became_ready : Lifecycle → ℕ → Exec H.World Lifecycle
    unfolding emit_here
    became_ready l handle = do
      on_error (call (H.wait_ready handle)) (emit_here service_failed)
      emit_here service_ready
      moved (move_iteration l q.states.evaluation_state)

    evaluated : Exec H.World (Evaluation Float)
    unfolding emit_here
    evaluated = do
      emit_here evaluation_started
      result ←
          execute_workload_suite F H config false (q.iteration, q.role) q.baseline_values
            q.apply_promotion_gate
      emit_here evaluation_completed
      return result

    -- The `try` block: the lifecycle that it leaves, and its result or exception.
    body : Lifecycle → ℕ → Exec H.World (Lifecycle × Result (Evaluation Float))
    unfolding emit_here became_ready evaluated in_state
    body l handle =
        in_state l (emit_here service_started >> moved (move_iteration l q.states.ready_state))
          λ l'.
            in_state l' (became_ready l' handle)
              λ l''. in_state l'' evaluated λ result. return (l'', ok result)

    -- The first `try` of the `finally` block.
    stopping : Lifecycle → Exec H.World Lifecycle
    unfolding emit_here
    stopping l = do
      l' ← moved (move_iteration l q.states.stop_state)
      emit_here service_stopping
      return l'

    report_stop : Result (Unit {0}) → Exec H.World (Unit {0})
    unfolding emit_here
    report_stop (ok done) = return tt
    report_stop (raised r) = attempt (emit_here service_failed) >>= λ suppressed. return tt

    -- controller.stop(handle): nothing else takes a handle off the stack of services.
    call_stop : ℕ → Exec H.World (Unit {0})
    unfolding without called
    call_stop handle s =
        called (H.stop handle s.world) (record s { services = without handle s.services })

    -- controller.stop(handle), with its handler and `_preserve_service_log`.
    stop_service : ℕ → Exec H.World (Unit {0})
    unfolding report_stop call_stop
    stop_service handle = do
      r ← attempt (call_stop handle)
      report_stop r
      call (H.preserve_log handle)
      settle r

    closed :
        Result Lifecycle → Result (Evaluation Float) → Exec H.World (Lifecycle × Evaluation Float)
    closed (raised boundary) result = raise boundary
    closed (ok l) (raised r) = raise r
    closed (ok l) (ok result) = return (l, result)

    -- The `finally` block, and the return.
    finish : ℕ → Lifecycle × Result (Evaluation Float) → Exec H.World (Lifecycle × Evaluation Float)
    unfolding stopping stop_service emit_here closed
    finish handle (l, result) = do
      boundary ← attempt (stopping l)
      stop_service handle
      emit_here service_stopped
      closed boundary result

    serve : Lifecycle → Exec H.World (Lifecycle × Evaluation Float)
    unfolding started body finish
    serve l = do handle ← started; left ← body l handle; finish handle left

    unfoldable pub evaluate_managed_service :
        Lifecycle → Exec H.World (Lifecycle × Evaluation Float)
    unfolding emit_here serve
    evaluate_managed_service l = do
      l' ← moved (move_iteration l q.states.start_state)
      emit_here service_starting
      serve l'

  unfoldable pub build_managed_target :
      Role → ManagedWorkspace → ℕ → String → Exec H.World (Unit {0})
  unfolding emit
  build_managed_target role workspace iteration entity = do
    emit H build_started (some iteration) (some entity)
    on_error (call (H.build role workspace)) (emit H build_failed (some iteration) (some entity))
    emit H build_completed (some iteration) (some entity)

-- ===== src/Runner/Exec.antt =====
-- The runner's code as actions on a session: exceptions, `try` and the calls of the host.
use euboulia.Prelude.{Option, List, [], ◌∷◌, ◌++◌, ℕ, String}
use euboulia.Lifecycle
use euboulia.Lifecycle.{Lifecycle}
use euboulia.Runner.{
  Answer, answer, threw, from_host, RunnerHost, OptimizationEvent, EventType, Raised, Result, ok,
  raised, illegal_move,
}

-- `services` are the handles that `controller.start` returned to `_evaluate_managed_service` and on
-- which `controller.stop` was not called since, the latest first.
pub record Session (World : Type 0) : Type 0 where
  pub events : List OptimizationEvent
  pub services : List ℕ
  pub world : World

abbrev pub Exec {ℓ} : Type 0 → Type ℓ → Type ℓ
Exec W A = Session W → Result A × Session W

module _ {W : Type 0} where
  infixl 5 ◌>>=◌ ◌>>◌
  unfoldable pub after {ℓ κ} :
      {A : Type ℓ} {B : Type κ} → Result A × Session W → (A → Exec W B) → Result B × Session W
  after (ok a, s) next = next a s
  after (raised r, s) next = (raised r, s)

  unfoldable pub ◌>>=◌ {ℓ κ} : {A : Type ℓ} {B : Type κ} → Exec W A → (A → Exec W B) → Exec W B
  unfolding after
  ◌>>=◌ action next s = after (action s) next

  unfoldable pub ◌>>◌ {ℓ} : {B : Type ℓ} → Exec W (Unit {0}) → Exec W B → Exec W B
  unfolding ◌>>=◌
  ◌>>◌ first rest = first >>= λ done. rest

  unfoldable pub return {ℓ} : {A : Type ℓ} → A → Exec W A
  return a s = (ok a, s)

  unfoldable pub raise {ℓ} : {A : Type ℓ} → Raised → Exec W A
  raise r s = (raised r, s)

  -- A move of the lifecycle, which may raise a `StateTransitionError`.
  unfoldable pub moved : Lifecycle.Result Lifecycle → Exec W Lifecycle
  unfolding return raise
  moved (Lifecycle.ok l) = return l
  moved (Lifecycle.err f) = raise (illegal_move f)

  unfoldable pub called {ℓ} : {A : Type ℓ} → Answer A × W → Session W → Result A × Session W
  called (answer a, w) s = (ok a, record s { world = w })
  called (threw e, w) s = (raised (from_host e), record s { world = w })

  -- A call of the host.
  unfoldable pub call {ℓ} : {A : Type ℓ} → (W → Answer A × W) → Exec W A
  unfolding called
  call action s = called (action s.world) s

  -- try: action; except BaseException: handler; raise
  unfoldable pub handled {ℓ} :
      {A : Type ℓ} → Result A × Session W → Exec W (Unit {0}) → Result A × Session W
  unfolding ◌>>=◌ raise
  handled (ok a, s) handler = (ok a, s)
  handled (raised r, s) handler = (handler >>= λ done. raise r) s

  unfoldable pub on_error {ℓ} : {A : Type ℓ} → Exec W A → Exec W (Unit {0}) → Exec W A
  unfolding handled
  on_error action handler s = handled (action s) handler

  -- An action with its exception as a value: `try: action; except BaseException as exc`.
  attempted {ℓ} : {A : Type ℓ} → Result A × Session W → Result (Result A) × Session W
  attempted (r, s) = (ok r, s)

  unfoldable pub attempt {ℓ} : {A : Type ℓ} → Exec W A → Exec W (Result A)
  unfolding attempted
  attempt action s = attempted (action s)

  -- The result of an attempt, raised again if it is an exception.
  unfoldable pub settle {ℓ} : {A : Type ℓ} → Result A → Exec W A
  unfolding return raise
  settle (ok a) = return a
  settle (raised r) = raise r

module _ {Float : Type 0} (H : RunnerHost Float) where
  unfoldable pub logged :
      OptimizationEvent
      → Answer (Unit {0}) × H.World
      → Session H.World
      → Result (Unit {0}) × Session H.World
  logged e (answer done, w) s =
      (ok done, record { events = s.events ++ (e ∷ []); services = s.services; world = w })
  logged e (threw f, w) s = (raised (from_host f), record s { world = w })

  -- EventLedger.append
  unfoldable pub emit : EventType → Option ℕ → Option String → Exec H.World (Unit {0})
  unfolding logged
  emit kind iteration entity s =
      let e : OptimizationEvent = record {
        event_type = kind;
        iteration_id = iteration;
        entity_id = entity;
      } in
      logged e (H.append e s.world) s

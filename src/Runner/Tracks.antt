-- ===== src/Runner/Tracks.antt =====
-- The stack of services of a session against the services that run in the host's world: one rule for
-- each way to build an action.
use euboulia.Prelude.{
  refl, ◌≡◌, ◌∙◌, sym, ap, Bool, true, false, List, ℕ, if◌then◌else◌, String, Option,
}
use euboulia.Lifecycle
use euboulia.Lifecycle.{Lifecycle}
use euboulia.Runner.{
  Answer, answer, threw, EventType, OptimizationEvent, RunnerHost, Raised, illegal_move, Result, ok,
  raised,
}
use euboulia.Runner.Exec.{
  Session, Exec, ◌>>=◌, ◌>>◌, return, raise, call, called, moved, after, handled, attempt, settle,
  on_error, emit, logged,
}

module _ {W : Type 0} (running : W → List ℕ) where
  abbrev pub Agrees : Session W → Type 0
  Agrees s = s.services ≡ running s.world

  -- If they are the same before the action, they are the same after it, whatever it returns or raises.
  pub record Tracks {A : Type 0} (m : Exec W A) : Type 0 where
    pub tracked : (s : Session W) → Agrees s → Agrees (m s).1

  -- A call of the host that neither starts nor stops a service.
  abbrev pub Quiet : {A : Type 0} → (W → Answer A × W) → Type 0
  Quiet action = (w : W) → running (action w).1 ≡ running w

-- A call changes the world alone.
pub called-services :
    {W A : Type 0} (out : Answer A × W) (s : Session W)
    → ((called out s).1.services ≡ s.services) × ((called out s).1.world ≡ out.1)
unfolding called
called-services (answer a, w) s = (refl, refl)
called-services (threw e, w) s = (refl, refl)

module _ {W : Type 0} {running : W → List ℕ} where
  pub Tracks-return : {A : Type 0} (a : A) → Tracks running (return a)
  unfolding return
  Tracks-return a = record { tracked = λ s e. e }

  pub Tracks-raise : {A : Type 0} (r : Raised) → Tracks running (raise {A = A} r)
  unfolding raise
  Tracks-raise r = record { tracked = λ s e. e }

  pub Tracks-settle : {A : Type 0} (r : Result A) → Tracks running (settle r)
  unfolding settle
  Tracks-settle (ok a) = Tracks-return a
  Tracks-settle (raised r) = Tracks-raise r

  pub Tracks-bind :
      {A B : Type 0} {m : Exec W A} {next : A → Exec W B}
      → Tracks running m
      → ((a : A) → Tracks running (next a))
      → Tracks running (m >>= next)
  unfolding ◌>>=◌
  Tracks-bind {A} {B} {m} {next} h k = record { tracked = λ s e. ended (m s) (h.tracked s e) }
    where
      ended :
          (out : Result A × Session W) → Agrees running out.1 → Agrees running (after out next).1
      ended (ok a, s') e = (k a).tracked s' e
      ended (raised r, s') e = e

  pub Tracks-then :
      {B : Type 0} {m : Exec W (Unit {0})} {rest : Exec W B}
      → Tracks running m
      → Tracks running rest
      → Tracks running (m >> rest)
  unfolding ◌>>◌
  Tracks-then h k = Tracks-bind h (λ a. k)

  pub Tracks-if :
      {A : Type 0} (b : Bool) {m n : Exec W A}
      → Tracks running m
      → Tracks running n
      → Tracks running (if b then m else n)
  Tracks-if true h k = h
  Tracks-if false h k = k

  pub Tracks-moved : (x : Lifecycle.Result Lifecycle) → Tracks running (moved x)
  unfolding moved
  Tracks-moved (Lifecycle.ok l) = Tracks-return l
  Tracks-moved (Lifecycle.err f) = Tracks-raise (illegal_move f)

  pub Tracks-attempt : {A : Type 0} {m : Exec W A} → Tracks running m → Tracks running (attempt m)
  unfolding attempt
  Tracks-attempt h = record { tracked = λ s e. h.tracked s e }

  pub Tracks-on_error :
      {A : Type 0} {m : Exec W A} {handler : Exec W (Unit {0})}
      → Tracks running m
      → Tracks running handler
      → Tracks running (on_error m handler)
  unfolding on_error
  Tracks-on_error {A} {m} {handler} h k = record { tracked = λ s e. ended (m s) (h.tracked s e) }
    where
      ended :
          (out : Result A × Session W)
          → Agrees running out.1
          → Agrees running (handled out handler).1
      ended (ok a, s') e = e
      ended (raised r, s') e = (Tracks-bind k (λ done. Tracks-raise {A = A} r)).tracked s' e

  pub Tracks-call :
      {A : Type 0} (action : W → Answer A × W) → Quiet running action → Tracks running (call action)
  unfolding call
  Tracks-call action quiet = record {
    tracked = λ s e.
        let (kept, made) = called-services (action s.world) s in
        kept ∙ e ∙ sym (quiet s.world) ∙ ap running (sym made);
  }

module _ {Float : Type 0} (H : RunnerHost Float) {running : H.World → List ℕ} where
  pub Tracks-emit :
      ((e : OptimizationEvent) → Quiet running (H.append e))
      → (kind : EventType) (iteration : Option ℕ) (entity : Option String)
      → Tracks running (emit H kind iteration entity)
  unfolding emit
  Tracks-emit quiet kind iteration entity = record {
    tracked = λ s e.
        let event : OptimizationEvent = record {
          event_type = kind;
          iteration_id = iteration;
          entity_id = entity;
        } in
        ended event s (H.append event s.world) (e ∙ sym (quiet event s.world));
  }
    where
      ended :
          (event : OptimizationEvent) (s : Session H.World) (out : Answer (Unit {0}) × H.World)
          → s.services ≡ running out.1
          → Agrees running (logged H event out s).1
      ended event s (answer d, w) e = e
      ended event s (threw f, w) e = e

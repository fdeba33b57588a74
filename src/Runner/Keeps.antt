-- ===== src/Runner/Keeps.antt =====
-- What an action of the runner does to the stack of services, and what it returns or raises: one rule
-- for each way to build an action.
use euboulia.Prelude.{
  String, Option, sym, ◌≡◌, refl, subst, ap, ◌∙◌, Bool, true, false, if◌then◌else◌, List, ℕ,
}
use euboulia.Lifecycle.{Lifecycle}
use euboulia.Lifecycle
use euboulia.Runner.{
  OptimizationEvent, threw, answer, EventType, RunnerHost, Raised, Result, ok, raised, from_host,
  illegal_move, runtime_error, out_of_fuel, Answer,
}
use euboulia.Runner.Exec.{
  logged, after, called, handled, Session, Exec, ◌>>=◌, ◌>>◌, return, raise, call, emit, moved,
  attempt, settle, on_error,
}

-- Neither an illegal move nor a loop that ran out of fuel.
abbrev pub Legal : Raised → Type 0
Legal (from_host e) = Unit
Legal (illegal_move f) = ⊥
Legal (runtime_error e) = Unit
Legal out_of_fuel = ⊥

abbrev pub Never : Raised → Type 0
Never r = ⊥

abbrev pub Good : {A : Type 0} → (Raised → Type 0) → (A → Type 0) → Result A → Type 0
Good R Q (ok a) = Q a
Good R Q (raised r) = R r

module _ {W : Type 0} {A : Type 0} where
  -- `f` is what becomes of the services, on every path; `R` holds of what is raised, `Q` of what is
  -- returned.
  pub record Leaves (f : List ℕ → List ℕ) (R : Raised → Type 0) (Q : A → Type 0) (m : Exec W A)
      : Type 0 where
    pub services : (s : Session W) → (m s).1.services ≡ f s.services
    pub result : (s : Session W) → Good R Q (m s).0

abbrev pub same : List ℕ → List ℕ
same xs = xs

abbrev pub Keeps : {W A : Type 0} → (Raised → Type 0) → (A → Type 0) → Exec W A → Type 0
Keeps R Q m = Leaves same R Q m

abbrev pub Any : {A : Type 0} → A → Type 0
Any a = Unit

module _ {W : Type 0} {A : Type 0} {R : Raised → Type 0} {Q : A → Type 0} where
  pub Keeps-return : (a : A) → Q a → Keeps {W = W} R Q (return a)
  unfolding return
  Keeps-return a h = record { services = λ s. refl; result = λ s. h }

  pub Keeps-raise : (r : Raised) → R r → Keeps {W = W} R Q (raise r)
  unfolding raise
  Keeps-raise r h = record { services = λ s. refl; result = λ s. h }

  pub Keeps-settle : (r : Result A) → Good R Q r → Keeps {W = W} R Q (settle r)
  unfolding settle
  Keeps-settle (ok a) h = Keeps-return a h
  Keeps-settle (raised r) h = Keeps-raise r h

  pub Leaves-if :
      {f : List ℕ → List ℕ} (b : Bool) (m n : Exec W A)
      → (b ≡ true → Leaves f R Q m)
      → (b ≡ false → Leaves f R Q n)
      → Leaves f R Q (if b then m else n)
  Leaves-if true m n h k = h refl
  Leaves-if false m n h k = k refl

module _ {W A B : Type 0} {R : Raised → Type 0} {P : A → Type 0} {Q : B → Type 0} where
  -- The part after the last change of the services.
  pub Leaves-bind :
      {f : List ℕ → List ℕ} {m : Exec W A} {next : A → Exec W B}
      → Leaves f R P m
      → ((a : A) → P a → Keeps R Q (next a))
      → Leaves f R Q (m >>= next)
  unfolding ◌>>=◌
  Leaves-bind {f} {m} {next} h k = record {
    services = λ s. after_services f (m s) next (h.services s) (h.result s) k;
    result = λ s. after_result (m s) next (h.result s) k;
  }
    where
      after_services :
          (f : List ℕ → List ℕ) {before : List ℕ} (out : Result A × Session W) (next : A → Exec W B)
          → out.1.services ≡ before
          → Good R P out.0
          → ((a : A) → P a → Keeps R Q (next a))
          → (after out next).1.services ≡ before
      after_services f (ok a, s') next e g k = (k a g).services s' ∙ e
      after_services f (raised r, s') next e g k = e

      after_result :
          (out : Result A × Session W) (next : A → Exec W B)
          → Good R P out.0
          → ((a : A) → P a → Keeps R Q (next a))
          → Good R Q (after out next).0
      after_result (ok a, s') next g k = (k a g).result s'
      after_result (raised r, s') next g k = g

  -- The part before it, which does not raise.
  pub Leaves-before :
      {f : List ℕ → List ℕ} {m : Exec W A} {next : A → Exec W B}
      → Keeps Never P m
      → ((a : A) → P a → Leaves f R Q (next a))
      → Leaves f R Q (m >>= next)
  unfolding ◌>>=◌
  Leaves-before {f} {m} {next} h k = record {
    services = λ s. after_services f s.services (m s) next (h.services s) (h.result s) k;
    result = λ s. after_result f (m s) next (h.result s) k;
  }
    where
      after_services :
          (f : List ℕ → List ℕ) (before : List ℕ) (out : Result A × Session W) (next : A → Exec W B)
          → out.1.services ≡ before
          → Good Never P out.0
          → ((a : A) → P a → Leaves f R Q (next a))
          → (after out next).1.services ≡ f before
      after_services f before (ok a, s') next e g k = (k a g).services s' ∙ ap f e
      after_services f before (raised r, s') next e g k = absurd g

      after_result :
          (f : List ℕ → List ℕ) (out : Result A × Session W) (next : A → Exec W B)
          → Good Never P out.0
          → ((a : A) → P a → Leaves f R Q (next a))
          → Good R Q (after out next).0
      after_result f (ok a, s') next g k = (k a g).result s'
      after_result f (raised r, s') next g k = absurd g

module _ {W B : Type 0} {R : Raised → Type 0} {Q : B → Type 0} where
  pub Leaves-then :
      {f : List ℕ → List ℕ} {m : Exec W (Unit {0})} {rest : Exec W B}
      → Leaves f R Any m
      → Keeps R Q rest
      → Leaves f R Q (m >> rest)
  unfolding ◌>>◌
  Leaves-then h k = Leaves-bind h (λ a p. k)

  -- A legal move.
  pub Leaves-moved :
      {f : List ℕ → List ℕ} {x : Lifecycle.Result Lifecycle} {l : Lifecycle}
      (next : Lifecycle → Exec W B)
      → x ≡ Lifecycle.ok l
      → Leaves f R Q (next l)
      → Leaves f R Q (moved x >>= next)
  unfolding ◌>>=◌ moved return
  Leaves-moved {f} {x} {l} next e h =
      subst (λ y. Leaves f R Q (moved y >>= next)) (sym e)
        (record { services = λ s. h.services s; result = λ s. h.result s })

module _ {W : Type 0} {R : Raised → Type 0} where
  pub Keeps-moved :
      {x : Lifecycle.Result Lifecycle} {l : Lifecycle}
      → x ≡ Lifecycle.ok l
      → Keeps {W = W} R (λ l'. l' ≡ l) (moved x)
  unfolding moved
  Keeps-moved {x} {l} e =
      subst (λ y. Keeps {W = W} R (λ l'. l' ≡ l) (moved y)) (sym e) (Keeps-return l refl)

module _ {W A : Type 0} {R : Raised → Type 0} {Q : A → Type 0} where
  pub Leaves-attempt :
      {f : List ℕ → List ℕ} {m : Exec W A} → Leaves f R Q m → Leaves f Never (Good R Q) (attempt m)
  unfolding attempt
  Leaves-attempt h = record { services = λ s. h.services s; result = λ s. h.result s }

  pub Keeps-on_error :
      {m : Exec W A} {handler : Exec W (Unit {0})}
      → Keeps R Q m
      → Keeps R Any handler
      → Keeps R Q (on_error m handler)
  unfolding on_error
  Keeps-on_error {m} {handler} h k = record {
    services = λ s. handled_services (m s) (h.services s) (h.result s);
    result = λ s. handled_result (m s) (h.result s);
  }
    where
      handled_services :
          {before : List ℕ} (out : Result A × Session W)
          → out.1.services ≡ before
          → Good R Q out.0
          → (handled out handler).1.services ≡ before
      handled_services (ok a, s') e g = e
      handled_services (raised r, s') e g =
          (Leaves-bind {Q = Q} k (λ a p. Keeps-raise r g)).services s' ∙ e

      handled_result :
          (out : Result A × Session W) → Good R Q out.0 → Good R Q (handled out handler).0
      handled_result (ok a, s') g = g
      handled_result (raised r, s') g = (Leaves-bind {Q = Q} k (λ a p. Keeps-raise r g)).result s'

  -- What holds of less holds of more.
  pub Leaves-weaken :
      {f : List ℕ → List ℕ} {P : A → Type 0} {m : Exec W A}
      → ((a : A) → P a → Q a)
      → Leaves f R P m
      → Leaves f R Q m
  Leaves-weaken {P} {m} imp h = record {
    services = h.services;
    result = λ s. weaker (m s).0 (h.result s);
  }
    where
      weaker : (r : Result A) → Good R P r → Good R Q r
      weaker (ok a) g = imp a g
      weaker (raised r) g = g

module _ {W A : Type 0} {Q : A → Type 0} where
  pub Leaves-weaken-Never :
      {f : List ℕ → List ℕ} {R : Raised → Type 0} {m : Exec W A}
      → Leaves f Never Q m
      → Leaves f R Q m
  Leaves-weaken-Never {f} {R} {m} h = record {
    services = h.services;
    result = λ s. weaker (m s).0 (h.result s);
  }
    where
      weaker : (r : Result A) → Good Never Q r → Good R Q r
      weaker (ok a) g = g
      weaker (raised r) g = absurd g

module _ {W A : Type 0} where
  -- What the host raises is legal.
  pub Keeps-called : (out : Answer A × W) → Keeps Legal Any (called out)
  unfolding called
  Keeps-called (answer a, w) = record { services = λ s. refl; result = λ s. tt }
  Keeps-called (threw e, w) = record { services = λ s. refl; result = λ s. tt }

  pub Keeps-call : (action : W → Answer A × W) → Keeps Legal Any (call action)
  unfolding call
  Keeps-call action = record {
    services = λ s. (Keeps-called (action s.world)).services s;
    result = λ s. (Keeps-called (action s.world)).result s;
  }

module _ {Float : Type 0} (H : RunnerHost Float) where
  pub Keeps-emit :
      (kind : EventType) (iteration : Option ℕ) (entity : Option String)
      → Keeps Legal Any (emit H kind iteration entity)
  unfolding emit
  Keeps-emit kind iteration entity = record {
    services = λ s. logged_services _ (H.append _ s.world) s;
    result = λ s. logged_result _ (H.append _ s.world) s;
  }
    where
      logged_services :
          (e : OptimizationEvent) (out : Answer (Unit {0}) × H.World) (s : Session H.World)
          → (logged H e out s).1.services ≡ s.services
      logged_services e (answer a, w) s = refl
      logged_services e (threw f, w) s = refl

      logged_result :
          (e : OptimizationEvent) (out : Answer (Unit {0}) × H.World) (s : Session H.World)
          → Good Legal Any (logged H e out s).0
      logged_result e (answer a, w) s = tt
      logged_result e (threw f, w) s = tt

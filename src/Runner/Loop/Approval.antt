-- ===== src/Runner/Loop/Approval.antt =====
-- A run without all of its capabilities: what it calls, and what it appends.
use euboulia.Prelude.{
  ◌≢◌, ◌&&◌, ◌++◌, Memᴰ, contains, All-contains, ◌≡◌, refl, sym, subst, Bool, true, false, none,
  List, [], ◌∷◌, if◌then◌else◌, All, All-append,
}
use euboulia.Floats.{FloatOps}
use euboulia.Lifecycle
use euboulia.Lifecycle.{RunState, Lifecycle, initial, iterating, move_run}
use euboulia.Runner.{
  benchmark_execution, profile_execution, workspace_write, owned_service_lifecycle, build_execution,
  Capability-discrete, Answer, answer, threw, EventType, OptimizationEvent, Capability, RunnerHost,
  RunConfig, Result, ok, raised, Raised, approval_requested, run_planned, run_started,
}
use euboulia.Runner.Exec.{
  Session, Exec, ◌>>=◌, ◌>>◌, return, raise, call, emit, moved, after, called, logged,
}
use euboulia.Runner.Loop.{
  refuse_known, opened, LoopState, RunResult, authorization_required, begun, missing, now,
  required_capabilities, result_of, run, start_state, with_missing,
}
use euboulia.Runner.Keeps.{
  Keeps, Legal, Good, Keeps-return, Keeps-raise, Keeps-call, Keeps-emit, Leaves-bind, Leaves-then,
  Leaves-moved, Leaves-if,
}
use euboulia.Runner.Loop.States.{fresh, can_iterate, can_wait, now-Keeps, opened-Keeps}

-- Before the approval.
abbrev pub is_preparatory : EventType → Bool
is_preparatory run_planned = true
is_preparatory run_started = true
is_preparatory approval_requested = true
is_preparatory _ = false

abbrev bare : EventType → OptimizationEvent
bare kind = record { event_type = kind; iteration_id = none; entity_id = none }

module _ (F : FloatOps) (H : RunnerHost F.Float) (config : RunConfig F.Float) where
  open F use {Float}

  module _ (P : H.World → Type 0) where
    -- A session whose world has `P`, with preparatory events only.
    pub record Waits (s : Session H.World) : Type 0 where
      pub world : P s.world
      pub events : All (λ e. is_preparatory e.event_type ≡ true) s.events

    -- What the runner does before it asks whether it may go on leaves `P` alone.
    pub record Undisturbed : Type 0 where
      pub monotonic : (w : H.World) → P w → P (H.monotonic w).1
      pub append : (e : OptimizationEvent) (w : H.World) → P w → P (H.append e w).1
      pub require_lock : (w : H.World) → P w → P (H.require_lock w).1
      pub open_ledger : (w : H.World) → P w → P (H.open_ledger w).1
      pub has_run : (w : H.World) → P w → P (H.has_run w).1
      pub write_resolved_recipe : (w : H.World) → P w → P (H.write_resolved_recipe w).1
      pub open_memory : (w : H.World) → P w → P (H.open_memory w).1

    record Holds {A : Type 0} (action : Exec H.World A) : Type 0 where
      kept : (s : Session H.World) → Waits s → Waits (action s).1

    return-Holds : {A : Type 0} (a : A) → Holds (return a)
    unfolding return
    return-Holds a = record { kept = λ s h. h }

    raise-Holds : {A : Type 0} (r : Raised) → Holds {A = A} (raise r)
    unfolding raise
    raise-Holds r = record { kept = λ s h. h }

    bind-Holds :
        {A B : Type 0} {action : Exec H.World A} {next : A → Exec H.World B}
        → Holds action
        → ((a : A) → Holds (next a))
        → Holds (action >>= next)
    unfolding ◌>>=◌
    bind-Holds {A} {B} {action} {next} h k = record {
      kept = λ s waits. ended (action s) (h.kept s waits);
    }
      where
        ended : (out : Result A × Session H.World) → Waits out.1 → Waits (after out next).1
        ended (ok a, s') w = (k a).kept s' w
        ended (raised r, s') w = w

    then-Holds :
        {B : Type 0} {first : Exec H.World (Unit {0})} {rest : Exec H.World B}
        → Holds first
        → Holds rest
        → Holds (first >> rest)
    unfolding ◌>>◌
    then-Holds h k = bind-Holds h (λ a. k)

    if-Holds :
        {A : Type 0} (b : Bool) {m n : Exec H.World A}
        → Holds m
        → Holds n
        → Holds (if b then m else n)
    if-Holds true h k = h
    if-Holds false h k = k

    moved-Holds : (x : Lifecycle.Result Lifecycle) → Holds (moved x)
    unfolding moved
    moved-Holds (Lifecycle.ok l) = return-Holds l
    moved-Holds (Lifecycle.err f) = raise-Holds (Raised.illegal_move f)

    call-Holds :
        {A : Type 0} (action : H.World → Answer A × H.World)
        → ((w : H.World) → P w → P (action w).1)
        → Holds (call action)
    unfolding call
    call-Holds {A} action h = record {
      kept = λ s waits. ended s waits (action s.world) (h s.world waits.world);
    }
      where
        ended :
            (s : Session H.World)
            → Waits s
            → (out : Answer A × H.World) → P out.1
            → Waits (called out s).1
        ended s waits (answer a, w) p = record { world = p; events = waits.events }
        ended s waits (threw e, w) p = record { world = p; events = waits.events }

    emit-Holds :
        Undisturbed
        → (kind : EventType) → is_preparatory kind ≡ true
        → Holds (emit H kind none none)
    unfolding emit
    emit-Holds u kind h = record {
      kept = λ s waits.
          ended s waits (H.append (bare kind) s.world) (u.append (bare kind) s.world waits.world);
    }
      where
        ended :
            (s : Session H.World)
            → Waits s
            → (out : Answer (Unit {0}) × H.World) → P out.1
            → Waits (logged H (bare kind) out s).1
        ended s waits (answer d, w) p = record {
          world = p;
          events = All-append _ s.events (bare kind) waits.events h;
        }
        ended s waits (threw f, w) p = record { world = p; events = waits.events }

    waiting-Holds :
        Undisturbed
        → (c : Capability) (cs : List Capability) (st : LoopState F)
        → Holds (with_missing F H config (c ∷ cs) st)
    unfolding with_missing
    waiting-Holds u c cs st =
        then-Holds (emit-Holds u approval_requested refl)
          (bind-Holds (moved-Holds _) (λ l. return-Holds _))

    now-Holds : Undisturbed → Holds (now F H config)
    unfolding now
    now-Holds u = record {
      kept = λ s h. record { world = u.monotonic s.world h.world; events = h.events };
    }

    refuse_known-Holds : (known : Bool) → Holds (refuse_known F H config known)
    unfolding refuse_known
    refuse_known-Holds true = raise-Holds _
    refuse_known-Holds false = return-Holds _

    opened-Holds : Undisturbed → Holds (opened F H config)
    unfolding opened
    opened-Holds u = then-Holds (call-Holds H.open_ledger u.open_ledger) (
        bind-Holds (call-Holds H.has_run u.has_run) (λ known.
          then-Holds (refuse_known-Holds known) (
            then-Holds (call-Holds H.write_resolved_recipe u.write_resolved_recipe)
              (call-Holds H.open_memory u.open_memory))))

    begun-Holds :
        Undisturbed
        → (authorized : List Capability) (c : Capability) (cs : List Capability)
        → missing authorized (required_capabilities F H config) ≡ c ∷ cs
        → Holds (begun F H config authorized)
    unfolding begun
    begun-Holds u authorized c cs lacking = then-Holds (call-Holds H.require_lock u.require_lock) (
        then-Holds (opened-Holds u) (
          bind-Holds (now-Holds u) (λ t. then-Holds (emit-Holds u run_planned refl) (
            then-Holds (emit-Holds u run_started refl) (
              bind-Holds (moved-Holds _) (λ l.
                subst (λ m. Holds (with_missing F H config m (start_state F H config l t)))
                  (sym lacking) (waiting-Holds u c cs (start_state F H config l t))))))))

    run-Holds :
        Undisturbed
        → (authorized : List Capability) (c : Capability) (cs : List Capability)
        → missing authorized (required_capabilities F H config) ≡ c ∷ cs
        → Holds (run F H config authorized)
    unfolding run
    run-Holds u authorized c cs lacking =
        if-Holds config.has_target (begun-Holds u authorized c cs lacking) (raise-Holds _)

  -- The capabilities that a run of this configuration needs.
  pub data Needs : Capability → Type 0 where
    benchmarks : Needs benchmark_execution
    profiles : Needs profile_execution
    writes : Needs workspace_write
    services : config.has_target ≡ true → Needs owned_service_lifecycle
    builds : config.has_target ≡ true → config.has_build_commands ≡ true → Needs build_execution

  Needs-Memᴰ : (c : Capability) → Needs c → Memᴰ c (required_capabilities F H config)
  unfolding required_capabilities
  Needs-Memᴰ c need = by_config c need config.has_target refl config.has_build_commands refl
    where
      by_config :
          (c : Capability)
          → Needs c
          → (t : Bool) → config.has_target ≡ t
          → (b : Bool) → config.has_build_commands ≡ b
          → Memᴰ c (
              benchmark_execution ∷ (if t && b then build_execution ∷ [] else [])
              ++ (if t then owned_service_lifecycle ∷ [] else [])
              ++ (profile_execution ∷ workspace_write ∷ []))
      by_config c benchmarks t e b k = Memᴰ.head refl
      by_config c profiles false e b k = Memᴰ.tail (Memᴰ.head refl)
      by_config c profiles true e true k = Memᴰ.tail (Memᴰ.tail (Memᴰ.tail (Memᴰ.head refl)))
      by_config c profiles true e false k = Memᴰ.tail (Memᴰ.tail (Memᴰ.head refl))
      by_config c writes false e b k = Memᴰ.tail (Memᴰ.tail (Memᴰ.head refl))
      by_config c writes true e true k =
          Memᴰ.tail (Memᴰ.tail (Memᴰ.tail (Memᴰ.tail (Memᴰ.head refl))))
      by_config c writes true e false k = Memᴰ.tail (Memᴰ.tail (Memᴰ.tail (Memᴰ.head refl)))
      by_config c (services h) false e b k = cc
      by_config c (services h) true e true k = Memᴰ.tail (Memᴰ.tail (Memᴰ.head refl))
      by_config c (services h) true e false k = Memᴰ.tail (Memᴰ.head refl)
      by_config c (builds h h') false e b k = cc
      by_config c (builds h h') true e false k = cc
      by_config c (builds h h') true e true k = Memᴰ.tail (Memᴰ.head refl)

  -- What is required and not among the authorized is missing.
  missing-some :
      (authorized required : List Capability) (c : Capability)
      → All (λ a. a ≢ c) authorized
      → Memᴰ c required
      → (first : Capability) × (rest : List Capability) × (missing authorized required
          ≡ first ∷ rest)
  unfolding missing
  missing-some authorized [] c refused m = elim m [ ]
  missing-some authorized (r ∷ rs) c refused m =
      elim (contains Capability-discrete authorized r)
          as (λ b.
            contains Capability-discrete authorized r ≡ b
            → (first : Capability) × (rest : List Capability) × ((if b
                  then missing authorized rs
                  else r ∷ missing authorized rs)
                ≡ first ∷ rest)) [
                  | true ↦ λ e. later e (λ n. missing-some authorized rs c refused n) m
                  | false ↦ λ e. (r, missing authorized rs, refl)
                ]
        refl
    where
      later :
          contains Capability-discrete authorized r ≡ true
          → (Memᴰ c rs
              → (first : Capability) × (rest : List Capability) × (missing authorized rs
                  ≡ first ∷ rest))
          → Memᴰ c (r ∷ rs)
          → (first : Capability) × (rest : List Capability) × (missing authorized rs ≡ first ∷ rest)
      later e ih (Memᴰ.head same) =
          absurd (All-contains (λ a. a ≢ c) Capability-discrete authorized r refused e (sym same))
      later e ih (Memᴰ.tail n) = ih n

  Needs-missing :
      (authorized : List Capability) (c : Capability)
      → Needs c
      → All (λ a. a ≢ c) authorized
      → (first : Capability) × (rest : List Capability) × (missing authorized
            (required_capabilities F H config)
          ≡ first ∷ rest)
  Needs-missing authorized c need refused =
      missing-some authorized (required_capabilities F H config) c refused (Needs-Memᴰ c need)

  -- What a run returns that asks for an approval.
  pub record Asks (r : RunResult Float) : Type 0 where
    pub is_waiting : r.run_state ≡ RunState.waiting_for_approval
    pub reason : r.stop_reason ≡ authorization_required
    pub proposals : r.proposals ≡ []
    pub champion : r.champion_id ≡ config.baseline_name

  begun-Asks :
      (authorized : List Capability) (c : Capability) (cs : List Capability)
      → missing authorized (required_capabilities F H config) ≡ c ∷ cs
      → Keeps Legal Asks (begun F H config authorized)
  unfolding begun with_missing start_state result_of
  begun-Asks authorized c cs lacking = Leaves-then (Keeps-call H.require_lock) (
      Leaves-then (opened-Keeps F H config) (
        Leaves-bind (now-Keeps F H config) (λ t k.
          Leaves-then (Keeps-emit H run_planned none none) (
            Leaves-then (Keeps-emit H run_started none none) (
              Leaves-moved _ can_iterate (
                subst
                  (λ m.
                    Keeps Legal Asks (with_missing F H config m (start_state F H config fresh t)))
                  (sym lacking)
                  (Leaves-then (Keeps-emit H approval_requested none none) (
                    Leaves-moved _ can_wait (
                      Keeps-return _ (record {
                        is_waiting = refl;
                        reason = refl;
                        proposals = refl;
                        champion = refl;
                      }))))))))))

  run-Asks :
      (authorized : List Capability) (c : Capability) (cs : List Capability)
      → missing authorized (required_capabilities F H config) ≡ c ∷ cs
      → Keeps Legal Asks (run F H config authorized)
  unfolding run
  run-Asks authorized c cs lacking =
      Leaves-if config.has_target _ _ (λ h. begun-Asks authorized c cs lacking)
        (λ h. Keeps-raise _ tt)

  -- If a capability that the run needs is not authorized, the run does nothing but take its lock, open
  -- the ledger, look its id up there, write its resolved recipe, open the memory, read the clock and
  -- append to the ledger, and it appends only events that come before an approval: a predicate of the
  -- world that these calls leave alone holds after the run if it held before. What it returns, unless
  -- it raises, asks for the approval: no proposal was made, and the baseline is the champion. A run
  -- needs the execution of benchmarks and profiles and writes of its workspace; with a target it needs
  -- the lifecycle of its services, and with build commands of that target their execution.
  pub run-missing :
      (P : H.World → Type 0)
      → Undisturbed P
      → (authorized : List Capability) (c : Capability) → Needs c
      → All (λ a. a ≢ c) authorized
      → (s : Session H.World) → Waits P s
      → Waits P (run F H config authorized s).1 × Good Legal Asks (run F H config authorized s).0
  run-missing P u authorized c need refused s waits =
      let (first, rest, lacking) = Needs-missing authorized c need refused in
      (
        (run-Holds P u authorized first rest lacking).kept s waits,
        (run-Asks authorized first rest lacking).result s,
      )

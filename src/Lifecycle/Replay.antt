-- ===== src/Lifecycle/Replay.antt =====
-- What holds of every `Lifecycle` (optimization/state.py) that calls of its methods reach.
use euboulia.Prelude.{
  inl, inr, refl, ◌⊎◌, ap, ◌≡◌, ◌≢◌, sym, subst, ◌∙◌, Option, none, some, arith, All, All-contains,
}
use euboulia.Lifecycle.{
  ◌∷◌, List, [], cancelled, failed, run_not_iterating, err, false, ok, rejected, stopped, accepted,
  begin_iteration, completed, is_terminal, iterating, move_iteration, recording_memory, RunState,
  planned, baselining, IterationState, created, Lifecycle, initial, RunState-discrete,
  IterationState-discrete, run_transitions, iteration_transitions,
}
use euboulia.Lifecycle.Progress.{move_along, move_along-cons}
use euboulia.Lifecycle.Relation.{
  RunEdge, IterationEdge, Step, moved_run, began, moved_iteration, Reach, here, next, move_run-ok,
  begin_iteration-ok, move_iteration-ok,
}

-- What separates the states that a run passes before it iterates from the later ones.
abbrev HasIterated : RunState → Type 0
HasIterated planned = ⊥
HasIterated baselining = ⊥
HasIterated _ = Unit

-- No entry of the iteration table leads to the approval state.
abbrev NotWaiting : IterationState → Type 0
NotWaiting IterationState.waiting_for_approval = ⊥
NotWaiting _ = Unit

run_table-HasIterated : (s : RunState) → HasIterated s → All HasIterated (run_transitions s)
unfolding run_transitions
run_table-HasIterated planned h = absurd h
run_table-HasIterated baselining h = absurd h
run_table-HasIterated _ h = omega arith

table-NotWaiting : (s : IterationState) → All NotWaiting (iteration_transitions s)
unfolding iteration_transitions
table-NotWaiting created = omega arith
table-NotWaiting _ = omega arith

HasIterated-edge : (s t : RunState) → RunEdge s t → HasIterated s → HasIterated t
HasIterated-edge s t e h =
    All-contains HasIterated RunState-discrete (run_transitions s) t (run_table-HasIterated s h) e

NotWaiting-edge : (s t : IterationState) → IterationEdge s t → NotWaiting t
NotWaiting-edge s t e =
    All-contains NotWaiting IterationState-discrete (iteration_transitions s) t (table-NotWaiting s)
      e

abbrev OpenFits : RunState → Option IterationState → Type 0
OpenFits r none = Unit
OpenFits r (some s) = HasIterated r × NotWaiting s

OpenFits-run :
    (r t : RunState) (o : Option IterationState) → RunEdge r t → OpenFits r o → OpenFits t o
OpenFits-run r t none e h = tt
OpenFits-run r t (some s) e h = (HasIterated-edge r t e h.0, h.1)

abbrev Inv : Lifecycle → Type 0
Inv l = OpenFits l.run l.iteration

Step-Inv : {l m : Lifecycle} → Step l m → Inv l → Inv m
Step-Inv {l} {m} (moved_run t h) inv =
    let (e, q) = move_run-ok l t h in subst Inv (sym q) (OpenFits-run l.run t l.iteration e inv)
Step-Inv {l} {m} (began h) inv =
    let (r, same, fresh) = begin_iteration-ok l h in
    subst (OpenFits m.run) (sym fresh) (subst HasIterated (sym (same ∙ r)) tt, tt)
Step-Inv {l} {m} (moved_iteration t h) inv =
    let (s, at, e, q) = move_iteration-ok l t h in
    subst Inv (sym q) ((subst (OpenFits l.run) at inv).0, NotWaiting-edge s t e)

Reach-Inv : {l : Lifecycle} → Reach initial l → Inv l
Reach-Inv here = tt
Reach-Inv (next r st) = Step-Inv st (Reach-Inv r)

HasIterated-ne : (r : RunState) → HasIterated r → (r ≢ planned) × (r ≢ baselining)
HasIterated-ne planned h = absurd h
HasIterated-ne baselining h = absurd h
HasIterated-ne _ h = (λ e. cc, λ e. cc)

NotWaiting-ne : (s : IterationState) → NotWaiting s → s ≢ IterationState.waiting_for_approval
NotWaiting-ne created h = λ e. cc
NotWaiting-ne IterationState.waiting_for_approval h = absurd h
NotWaiting-ne _ h = λ e. cc

-- In every lifecycle that calls reach from the initial one, if an iteration has begun then the run is
-- neither planned nor baselining, and the iteration does not wait for approval.
pub reachable_iteration :
    (l : Lifecycle) (s : IterationState)
    → Reach initial l
    → l.iteration ≡ some s
    → (l.run ≢ planned) × (l.run ≢ baselining) × (s ≢ IterationState.waiting_for_approval)
reachable_iteration l s r at =
    let (ran, open_state) = subst (OpenFits l.run) at (Reach-Inv r) in
    let (p, b) = HasIterated-ne l.run ran in (p, b, NotWaiting-ne s open_state)

edge_to_failed :
    (s : IterationState) → NotWaiting s → is_terminal s ≡ false → IterationEdge s failed
unfolding iteration_transitions IterationState-discrete is_terminal
edge_to_failed created w h = refl
edge_to_failed IterationState.waiting_for_approval w h = absurd w
edge_to_failed accepted w h = cc
edge_to_failed rejected w h = cc
edge_to_failed IterationState.invalid w h = cc
edge_to_failed failed w h = cc
edge_to_failed _ w h = refl

move_along_edge :
    (l : Lifecycle) (s t : IterationState)
    → l.iteration ≡ some s
    → IterationEdge s t
    → move_iteration l t ≡ ok (record l { iteration = some t })
unfolding move_iteration
move_along_edge l s t at e = ground arith

-- In every lifecycle that calls reach from the initial one, an iteration that is not over can be
-- moved to `failed`: the call does not raise and changes only the iteration.
pub open_iteration_can_fail :
    (l : Lifecycle) (s : IterationState)
    → Reach initial l
    → l.iteration ≡ some s
    → is_terminal s ≡ false
    → move_iteration l failed ≡ ok (record l { iteration = some failed })
open_iteration_can_fail l s r at going =
    let (ran, w) = subst (OpenFits l.run) at (Reach-Inv r) in
    move_along_edge l s failed at (edge_to_failed s w going)

-- The run states from which no transition leads on.
abbrev pub IsOver : RunState → Type 0
IsOver completed = Unit
IsOver stopped = Unit
IsOver RunState.failed = Unit
IsOver cancelled = Unit
IsOver _ = ⊥

no_edge_over : (s t : RunState) → IsOver s → RunEdge s t → ⊥
unfolding run_transitions
no_edge_over completed t o e = cc
no_edge_over stopped t o e = cc
no_edge_over RunState.failed t o e = cc
no_edge_over cancelled t o e = cc
no_edge_over planned t o e = absurd o
no_edge_over _ t o e = absurd o

IsOver-ne : (s : RunState) → IsOver s → s ≢ iterating
IsOver-ne iterating o = absurd o
IsOver-ne _ o = λ e. cc

Step-over : {l m : Lifecycle} → IsOver l.run → Step l m → m.run ≡ l.run
Step-over {l} o (moved_run t h) = absurd (no_edge_over l.run t o (move_run-ok l t h).0)
Step-over {l} o (began h) = (begin_iteration-ok l h).1
Step-over {l} o (moved_iteration t h) = ap (λ (k : Lifecycle). k.run) (move_iteration-ok l t h).3

begin_over : (l : Lifecycle) → l.run ≢ iterating → begin_iteration l ≡ err run_not_iterating
unfolding begin_iteration
begin_over l h = ground arith

run_over : {l m : Lifecycle} → IsOver l.run → Reach l m → m.run ≡ l.run
run_over o here = refl
run_over o (next r st) = let same = run_over o r in Step-over (subst IsOver (sym same) o) st ∙ same

-- A run that is completed, stopped, failed or cancelled stays so under any further calls, and after
-- them `begin_iteration` raises.
pub over_is_final :
    (l m : Lifecycle)
    → IsOver l.run
    → Reach l m
    → (m.run ≡ l.run) × (begin_iteration m ≡ err run_not_iterating)
over_is_final l m o r =
    let same = run_over o r in (same, begin_over m (λ e. IsOver-ne l.run o (sym same ∙ e)))

edge_to_accepted : (s : IterationState) → IterationEdge s accepted → s ≡ recording_memory
unfolding iteration_transitions IterationState-discrete
edge_to_accepted recording_memory h = refl
edge_to_accepted _ h = cc

-- The way to `accepted` leads through `recording_memory`.
abbrev PassedRecording : Lifecycle → Type 0
PassedRecording l =
    (m : Lifecycle) × Reach initial m × (m.iteration ≡ some recording_memory) × Reach m l

created-accepted : (o : Option IterationState) → o ≡ some created → o ≡ some accepted → ⊥
created-accepted o p q = cc

accepted_by :
    {m l : Lifecycle}
    → Step m l
    → l.iteration ≡ some accepted
    → (m.iteration ≡ some recording_memory) ⊎ (m.iteration ≡ some accepted)
accepted_by {m} {l} (moved_run t h) a =
    inr (ap (λ (k : Lifecycle). k.iteration) (sym (move_run-ok m t h).1) ∙ a)
accepted_by {m} {l} (began h) a = absurd (created-accepted l.iteration (begin_iteration-ok m h).2 a)
accepted_by {m} {l} (moved_iteration t h) a =
    let (s, at, e, q) = move_iteration-ok m t h in
    let same : t ≡ accepted = cc in
    inl (at ∙ ap some (edge_to_accepted s (subst (IterationEdge s) same e)))

passed_before :
    {m l : Lifecycle} → Reach initial m → Step m l → PassedRecording m → PassedRecording l
passed_before r st (k, before, at, after) = (k, before, at, next after st)

-- If calls reach a lifecycle whose iteration is `accepted`, then on the way they passed one whose
-- iteration was in `recording_memory`.
pub accepted_recorded :
    (l : Lifecycle)
    → Reach initial l
    → l.iteration ≡ some accepted
    → (m : Lifecycle) × Reach initial m × (m.iteration ≡ some recording_memory) × Reach m l
accepted_recorded l here a = cc
accepted_recorded l (next {m = m} r st) a = elim (accepted_by st a) [
  | inl at ↦ (m, r, at, next here st)
  | inr still ↦ passed_before r st (accepted_recorded m r still)
]

move_along-nil : (l m : Lifecycle) → move_along l [] ≡ ok m → l ≡ m
unfolding move_along
move_along-nil l m h = cc

pub Reach-move_along :
    (l m : Lifecycle) (ts : List IterationState)
    → Reach initial l
    → move_along l ts ≡ ok m
    → Reach initial m
Reach-move_along l m [] r h = subst (Reach initial) (move_along-nil l m h) r
Reach-move_along l m (t ∷ ts) r h =
    let (k, first, rest) = move_along-cons l m t ts h in
    Reach-move_along k m ts (next r (moved_iteration t first)) rest

-- ===== src/Lifecycle/Progress.antt =====
-- The iteration table of optimization/state.py has no cycle, so an iteration comes to an end.
use euboulia.Prelude.{
  ℕ, ◌+◌, ◌≤◌, ◌<◌, ◌≡◌, ap, some, List, [], ◌∷◌, arith, length, All, All-contains,
}
use euboulia.Lifecycle.{
  IterationState, created, profiling, analyzing, planning, waiting_for_approval, preparing_baseline,
  building_baseline, starting_baseline, waiting_for_baseline, evaluating_baseline,
  stopping_baseline, preparing_workspace, applying_patch, building, starting_service,
  waiting_for_ready, evaluating, stopping_service, recording_memory, accepted, rejected, invalid,
  failed, Lifecycle, Result, ok, IterationState-discrete, ◌>>=◌, iteration_transitions,
  move_iteration, begin_iteration,
}
use euboulia.Lifecycle.Relation.{IterationEdge, move_iteration-ok, begin_iteration-ok}

-- A numbering of the states along which every entry of the table goes up.
abbrev pub rank : IterationState → ℕ
rank created = 0
rank profiling = 1
rank analyzing = 2
rank planning = 3
rank waiting_for_approval = 3
rank preparing_baseline = 4
rank building_baseline = 5
rank starting_baseline = 6
rank waiting_for_baseline = 7
rank evaluating_baseline = 8
rank stopping_baseline = 9
rank preparing_workspace = 10
rank applying_patch = 11
rank building = 12
rank starting_service = 13
rank waiting_for_ready = 14
rank evaluating = 15
rank stopping_service = 16
rank recording_memory = 17
rank accepted = 18
rank rejected = 18
rank invalid = 18
rank failed = 18

rank-le : (s : IterationState) → rank s ≤ 18
rank-le created = omega arith
rank-le _ = omega arith

table_rises : (s : IterationState) → All (λ t. rank s < rank t) (iteration_transitions s)
unfolding iteration_transitions
table_rises created = omega arith
table_rises _ = omega arith

pub rank-edge : (s t : IterationState) → IterationEdge s t → rank s < rank t
rank-edge s t h =
    All-contains (λ u. rank s < rank u) IterationState-discrete (iteration_transitions s) t
      (table_rises s) h

-- The moves of one iteration, in order.
unfoldable pub move_along : Lifecycle → List IterationState → Result Lifecycle
move_along l [] = ok l
move_along l (t ∷ ts) = do m ← move_iteration l t; move_along m ts

pub move_along-cons :
    (l n : Lifecycle) (t : IterationState) (ts : List IterationState)
    → move_along l (t ∷ ts) ≡ ok n
    → (m : Lifecycle) × (move_iteration l t ≡ ok m) × (move_along m ts ≡ ok n)
unfolding move_along
move_along-cons l n t ts h = ground arith

length-move_along :
    (l n : Lifecycle) (s : IterationState) (ts : List IterationState)
    → l.iteration ≡ some s
    → move_along l ts ≡ ok n
    → rank s + length ts ≤ 18
length-move_along l n s [] e h = omega (arith, rank-le s)
length-move_along l n s (t ∷ ts) e h =
    let (m, first, rest) = move_along-cons l n t ts h in
    let (s', e', edge, e'') = move_iteration-ok l t first in
    let ih : rank t + length ts ≤ 18 =
      length-move_along m n t ts (ap (λ (k : Lifecycle). k.iteration) e'') rest in
    let same : s' ≡ s = cc in omega (arith, rank-edge s' t edge, ap rank same)

-- After `begin_iteration`, a sequence of calls of `move_iteration` none of which raises has at most
-- 18 calls.
pub iteration_bounded :
    (l m n : Lifecycle) (ts : List IterationState)
    → begin_iteration l ≡ ok m
    → move_along m ts ≡ ok n
    → length ts ≤ 18
iteration_bounded l m n ts begun moved =
    omega (arith, length-move_along m n created ts (begin_iteration-ok l begun).2 moved)

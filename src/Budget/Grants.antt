-- ===== src/Budget/Grants.antt =====
-- What the budget of optimization/budget.py grants, and how often the loop of
-- optimization/runner.py can go round on it.
use euboulia.Prelude.{
  Bool-cases, refl, ◌∙◌, ap, ℕ, ◌+◌, ◌≤◌, ◌<◌, ◌≡◌, ◌⊎◌, inl, inr, Bool, true, false, Option, none,
  some, List, [], ◌∷◌, arith, length,
}
use euboulia.Floats.{FloatOps}
use euboulia.Budget.{
  BudgetLimits, BudgetTracker, new_tracker, exhausted, reserve_iteration, record_failure, loop_head,
}

-- The calls that change a tracker, with the readings of the clock that each takes.
pub data Call (Float : Type 0) : Type 0 where
  reserve : Float → Float → Call Float
  fail : Float → Call Float

-- One round of the loop: the readings for its test and for its reservation, and whether its body
-- records a failure.
pub record Round (Float : Type 0) : Type 0 where
  pub checked : Float
  pub reserved : Float
  pub later : Float
  pub failed : Option Float

module _ (F : FloatOps) where
  open F use {Float, zero_float, le, sub, larger}

  unfoldable pub after_call : BudgetTracker F → Call Float → BudgetTracker F
  after_call t (reserve now later) = (reserve_iteration F t now later).0
  after_call t (fail now) = (record_failure F t now).0

  unfoldable pub after_calls : BudgetTracker F → List (Call Float) → BudgetTracker F
  after_calls t [] = t
  after_calls t (c ∷ cs) = after_calls (after_call t c) cs

  abbrev pub expired : BudgetTracker F → Float → Bool
  expired t now = le t.limits.max_wall_time_seconds (larger zero_float (sub now t.started_at))

  after_call-limits : (t : BudgetTracker F) (c : Call Float) → (after_call t c).limits ≡ t.limits
  unfolding after_call reserve_iteration record_failure
  after_call-limits t (reserve now later) = ground arith
  after_call-limits t (fail now) = ground arith

  after_call_bound :
      (t : BudgetTracker F) (c : Call Float)
      → t.iterations_started ≤ t.limits.max_iterations
      → (after_call t c).iterations_started ≤ t.limits.max_iterations
  unfolding after_call reserve_iteration record_failure
  after_call_bound t (reserve now later) h = ground arith
  after_call_bound t (fail now) h = ground arith

  after_calls_bound :
      (t : BudgetTracker F) (cs : List (Call Float))
      → t.iterations_started ≤ t.limits.max_iterations
      → (after_calls t cs).iterations_started ≤ t.limits.max_iterations
  unfolding after_calls
  after_calls_bound t [] h = h
  after_calls_bound t (c ∷ cs) h =
      let same = ap (λ (l : BudgetLimits F). l.max_iterations) (after_call-limits t c) in
      omega (
        arith,
        same,
        after_calls_bound (after_call t c) cs (omega (arith, same, after_call_bound t c h)),
      )

  -- Whatever the clock says and whatever calls are made on a new tracker, the iterations started never
  -- pass `max_iterations`.
  pub iterations_within_limit :
      (limits : BudgetLimits F) (now : Float) (calls : List (Call Float))
      → (after_calls (new_tracker F limits now) calls).iterations_started ≤ limits.max_iterations
  unfolding new_tracker
  iterations_within_limit limits now calls =
      after_calls_bound (new_tracker F limits now) calls (omega arith)

  -- A reservation changes the tracker exactly when all three budgets have room at its first reading of
  -- the clock, and then it counts one iteration and nothing else. Otherwise it returns the tracker as
  -- it was, with an exhausted snapshot.
  pub reserve_iteration_lem :
      (t : BudgetTracker F) (now later : Float)
      → ((expired t now ≡ false)
          × (t.iterations_started < t.limits.max_iterations)
          × (t.failures < t.limits.max_failures)
          × ((reserve_iteration F t now later).0
              ≡ record t { iterations_started = t.iterations_started + 1 }))
        ⊎ (((expired t now ≡ true)
              ⊎ ((t.limits.max_iterations ≤ t.iterations_started)
                  ⊎ (t.limits.max_failures ≤ t.failures)))
            × ((reserve_iteration F t now later).0 ≡ t)
            × (exhausted F (reserve_iteration F t now later).1 ≡ true))
  unfolding reserve_iteration
  reserve_iteration_lem t now later = ground arith

  -- Where the loop goes on, the iteration gets the next number, unless the wall time ran out between
  -- the test of the loop and the reservation: then it runs under the number of the iteration before.
  pub loop_head_number :
      (t t' : BudgetTracker F) (n : ℕ) (checked reserved later : Float)
      → loop_head F t checked reserved later ≡ some (t', n)
      → (expired t checked ≡ false)
        × (((expired t reserved ≡ false) × (n ≡ t.iterations_started + 1))
            ⊎ ((expired t reserved ≡ true) × (n ≡ t.iterations_started) × (t' ≡ t)))
  unfolding loop_head reserve_iteration
  loop_head_number t t' n checked reserved later h = ground arith

  -- A test of the loop that passes at a reading that has not expired counts one more iteration.
  loop_head_counts :
      (t t' : BudgetTracker F) (n : ℕ) (checked reserved later : Float)
      → loop_head F t checked reserved later ≡ some (t', n)
      → expired t reserved ≡ false
      → (t'.iterations_started ≡ t.iterations_started + 1)
        × (t.iterations_started < t.limits.max_iterations)
        × (t'.limits ≡ t.limits)
        × (t'.started_at ≡ t.started_at)
  unfolding loop_head reserve_iteration
  loop_head_counts t t' n checked reserved later h e = ground arith

  unfoldable pub close_round : BudgetTracker F → Option Float → BudgetTracker F
  close_round t none = t
  close_round t (some now) = (record_failure F t now).0

  close_round_keeps :
      (t : BudgetTracker F) (o : Option Float)
      → ((close_round t o).iterations_started ≡ t.iterations_started)
        × ((close_round t o).limits ≡ t.limits)
        × ((close_round t o).started_at ≡ t.started_at)
  unfolding close_round record_failure
  close_round_keeps t o = ground arith

  -- The loop goes round once for each entry of the list, and `none` says that a test ended it before.
  unfoldable pub rounds : BudgetTracker F → List (Round Float) → Option (BudgetTracker F)
  rounds t [] = some t
  rounds t (r ∷ rs) = elim (loop_head F t r.checked r.reserved r.later) [
    | none ↦ none
    | some (t', n) ↦ rounds (close_round t' r.failed) rs
  ]

  abbrev late : BudgetTracker F → Round Float → Bool
  late t r = expired t r.reserved

  -- The clock does not run backwards over the deadline: after a reservation that came too late the next
  -- test comes too late as well.
  abbrev pub Steady : Float → Float → List (Round Float) → Type 0
  Steady wall start [] = Unit
  Steady wall start (r ∷ []) = Unit
  Steady wall start (r ∷ (q ∷ rs)) =
      (le wall (larger zero_float (sub r.reserved start)) ≡ true
        → le wall (larger zero_float (sub q.checked start)) ≡ true)
      × Steady wall start (q ∷ rs)

  rounds-cons :
      (u : BudgetTracker F) (r : Round Float) (rs : List (Round Float))
      (o : Option (BudgetTracker F × ℕ))
      → (elim o [ none ↦ none | some (t', n) ↦ rounds (close_round t' r.failed) rs ]) ≡ some u
      → (t' : BudgetTracker F) × (n : ℕ) × (o ≡ some (t', n))
        × (rounds (close_round t' r.failed) rs ≡ some u)
  rounds-cons u r rs none h = cc
  rounds-cons u r rs (some (t', n)) h = (t', n, refl, h)

  -- A tracker that is still bound by the limits that the loop began with.
  record At (wall start : Float) (limit : ℕ) (t : BudgetTracker F) : Type 0 where
    wall_same : t.limits.max_wall_time_seconds ≡ wall
    start_same : t.started_at ≡ start
    limit_same : t.limits.max_iterations ≡ limit

  At-next :
      {wall start : Float} {limit : ℕ} (t t' : BudgetTracker F) (o : Option Float)
      → At wall start limit t
      → t'.limits ≡ t.limits
      → t'.started_at ≡ t.started_at
      → At wall start limit (close_round t' o)
  At-next t t' o a same_limits same_start =
      let (i, l, s) = close_round_keeps t' o in
      record {
        wall_same =
            cc
              (ap (λ (k : BudgetLimits F). k.max_wall_time_seconds) (l ∙ same_limits), a.wall_same);
        start_same = cc (s, same_start, a.start_same);
        limit_same =
            cc (ap (λ (k : BudgetLimits F). k.max_iterations) (l ∙ same_limits), a.limit_same);
      }

  loop_head_keeps :
      (t t' : BudgetTracker F) (n : ℕ) (r : Round Float)
      → loop_head F t r.checked r.reserved r.later ≡ some (t', n)
      → (t'.limits ≡ t.limits) × (t'.started_at ≡ t.started_at)
  unfolding loop_head reserve_iteration
  loop_head_keeps t t' n r h = ground arith

  too_late :
      (wall start : Float) (limit : ℕ) (t t' : BudgetTracker F) (n : ℕ) (q : Round Float)
      → At wall start limit t
      → loop_head F t q.checked q.reserved q.later ≡ some (t', n)
      → le wall (larger zero_float (sub q.checked start)) ≡ true
      → ⊥
  too_late wall start limit t t' n q a h e =
      let (in_time, rest) = loop_head_number t t' n q.checked q.reserved q.later h in
      cc (in_time, e, a.wall_same, a.start_same)

  length-rounds :
      (wall start : Float) (limit : ℕ) (t u : BudgetTracker F) (rs : List (Round Float))
      → At wall start limit t
      → t.iterations_started ≤ limit
      → Steady wall start rs
      → rounds t rs ≡ some u
      → t.iterations_started + length rs ≤ limit + 1
  length-rounds wall start limit t u [] a b st h = omega arith
  length-rounds wall start limit t u (r ∷ []) a b st h = omega arith
  length-rounds wall start limit t u (r ∷ (q ∷ rs)) a b st h =
      let (t', n, head, rest) =
        rounds-cons u r (q ∷ rs) (loop_head F t r.checked r.reserved r.later)
          (unfold rounds in h) in
      let (same_limits, same_start) = loop_head_keeps t t' n r head in
      let a' = At-next t t' r.failed a same_limits same_start in
      let (t'', n', head', rest') =
        rounds-cons u q rs (loop_head F (close_round t' r.failed) q.checked q.reserved q.later)
          (unfold rounds in rest) in
      elim (Bool-cases (expired t r.reserved)) [
        | inl over ↦ absurd (
            too_late wall start limit (close_round t' r.failed) t'' n' q a' head'
              (st.0 (cc (over, a.wall_same, a.start_same))))
        | inr fine ↦
            let (one_more, room, l, k) =
              loop_head_counts t t' n r.checked r.reserved r.later head fine in
            let (count, l', k') = close_round_keeps t' r.failed in
            omega (
              arith,
              a.limit_same,
              length-rounds wall start limit (close_round t' r.failed) u (q ∷ rs) a'
                  (omega (arith, a.limit_same)) st.1 rest,
            )
      ]

  -- The loop of the runner ends: if the clock does not run backwards over the deadline, it goes round
  -- at most once more than `max_iterations`.
  pub loop_ends :
      (limits : BudgetLimits F) (now : Float) (u : BudgetTracker F) (rs : List (Round Float))
      → Steady limits.max_wall_time_seconds now rs
      → rounds (new_tracker F limits now) rs ≡ some u
      → length rs ≤ limits.max_iterations + 1
  unfolding new_tracker
  loop_ends limits now u rs st h = omega (
    arith,
    length-rounds limits.max_wall_time_seconds now limits.max_iterations (new_tracker F limits now)
        u rs (record { wall_same = refl; start_same = refl; limit_same = refl }) (omega arith) st h,
  )

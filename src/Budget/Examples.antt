-- ===== src/Budget/Examples.antt =====
-- A budget of two iterations (optimization/budget.py) on clocks given reading by reading.
use euboulia.Prelude.{
  ◌<◌, ℕ, ◌+◌, ◌≤◌, ◌≡◌, refl, none, some, List, [], ◌∷◌, length, true, false, ◌⊎◌,
}
use euboulia.Floats.Scaled.{ℤ, pos, thousandths}
use euboulia.Budget.{
  BudgetLimits, BudgetTracker, new_tracker, reserve_iteration, loop_head, exhausted, snapshot,
}
use euboulia.Budget.Grants.{
  close_round, Call, reserve, fail, Round, after_calls, iterations_within_limit,
  reserve_iteration_lem, loop_head_number, expired, rounds, loop_ends,
}

abbrev two : BudgetLimits thousandths
two = record { max_iterations = 2; max_failures = 1; max_wall_time_seconds = pos 20 }

abbrev fresh : BudgetTracker thousandths
fresh = new_tracker thousandths two (pos 10)

abbrev calls : List (Call ℤ)
calls = reserve (pos 11) (pos 12) ∷ fail (pos 13) ∷ reserve (pos 14) (pos 15) ∷ []

iterations_within_limit_example : (after_calls thousandths fresh calls).iterations_started ≤ 2
iterations_within_limit_example = iterations_within_limit thousandths two (pos 10) calls

late_entry : loop_head thousandths fresh (pos 11) (pos 31) (pos 32) ≡ some (fresh, 0)
unfolding loop_head reserve_iteration snapshot exhausted new_tracker
late_entry = refl

loop_head_number_example :
    (expired thousandths fresh (pos 11) ≡ false)
    × (((expired thousandths fresh (pos 31) ≡ false) × (0 ≡ fresh.iterations_started + 1))
        ⊎ ((expired thousandths fresh (pos 31) ≡ true)
            × (0 ≡ fresh.iterations_started)
            × (fresh ≡ fresh)))
loop_head_number_example =
    loop_head_number thousandths fresh fresh 0 (pos 11) (pos 31) (pos 32) late_entry

abbrev on_time : ℕ → Round ℤ
on_time n = record { checked = pos n; reserved = pos n; later = pos n; failed = none }

abbrev spent : BudgetTracker thousandths
spent = record { limits = two; started_at = pos 10; iterations_started = 2; failures = 0 }

two_rounds : rounds thousandths fresh (on_time 11 ∷ on_time 12 ∷ []) ≡ some spent
unfolding rounds loop_head reserve_iteration snapshot exhausted new_tracker close_round
two_rounds = refl

loop_ends_example : length (on_time 11 ∷ on_time 12 ∷ []) ≤ 3
loop_ends_example =
    loop_ends thousandths two (pos 10) spent (on_time 11 ∷ on_time 12 ∷ []) ((λ h. cc), tt)
      two_rounds

reserve_iteration_lem_example :
    ((expired thousandths fresh (pos 11) ≡ false)
      × (0 < 2)
      × (0 < 1)
      × ((reserve_iteration thousandths fresh (pos 11) (pos 12)).0
          ≡ record fresh { iterations_started = 0 + 1 }))
    ⊎ (((expired thousandths fresh (pos 11) ≡ true) ⊎ ((2 ≤ 0) ⊎ (1 ≤ 0)))
        × ((reserve_iteration thousandths fresh (pos 11) (pos 12)).0 ≡ fresh)
        × (exhausted thousandths (reserve_iteration thousandths fresh (pos 11) (pos 12)).1 ≡ true))
unfolding new_tracker
reserve_iteration_lem_example = reserve_iteration_lem thousandths fresh (pos 11) (pos 12)
